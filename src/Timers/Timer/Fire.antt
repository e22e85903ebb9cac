-- ===== src/Timers/Timer/Fire.antt =====
-- Which functions the polling calls, and in which order, where these make no calls of their own.
use zephyr_polling.Prelude.{ℕ, ◌≡◌, some, [], ◌∷◌, ◌++◌}
use zephyr_polling.Timers.{State, Handler, Event}
use zephyr_polling.Timers.Timer.{Callbacks}
use zephyr_polling.Timers.Timer.Run.{due}

-- Every timer and work item has a function, which makes no calls.
unfoldable pub Silent : Callbacks → Type 0
Silent cb = (t : ℕ) → (cb.expiry_fn t ≡ some []) × (cb.handler t ≡ some [])

-- The call of the user's function that a timeout stands for.
abbrev pub event_of : (ℕ → Handler) → ℕ → Event
event_of fn t = elim (fn t) [ Handler.timer ↦ Event.expired t | Handler.work ↦ Event.worked t ]

-- What one call does.
abbrev Fired : State → ℕ → State → Type 0
Fired s t s' = (s'.events ≡ s.events ++ (event_of s.fn t ∷ [])) × (due s' ≡ due s) × (s'.fn ≡ s.fn)
