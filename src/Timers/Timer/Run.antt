-- ===== src/Timers/Timer/Run.antt =====
-- The calls of timers and work keep the list of timeouts valid, and with a delay make nothing due.
use zephyr_polling.Prelude.{
  ℕ, ◌+◌, ◌%◌, ◌^◌, ◌≤◌, ◌<◌, ◌≡◌, refl, sym, ap, ◌∙◌, ◌⊎◌, inl, inr, Bool, true, false, List, [],
  ◌∷◌, ◌++◌, length, arith, Bool-cases,
}
use mathlib.Core.Path.{subst}
use zephyr_polling.Timers.{State, Handler, Event, update, contains}
use zephyr_polling.Timers.Timeout.{add_before, z_add_timeout, z_abort_timeout, remove_timeout}
use zephyr_polling.Timers.Timeout.Deadlines.{IsValid, upto, upto-update, length-upto-without}
use zephyr_polling.Timers.Timeout.Insert.{
  remove_timeout-IsValid, z_add_timeout_lem, z_abort_timeout_lem,
}
use zephyr_polling.Timers.Timer.{
  Command, Callbacks, k_timer_start, k_timer_stop, k_work_reschedule, k_work_cancel, run_command,
  run_commands,
}

-- The timeouts that are due, in order.
abbrev pub due : State → List ℕ
due s = upto s.dticks s.curr_tick s.list

-- The list is valid, and no period reaches the sign bit from now.
pub record Good (s : State) : Type 0 where
  pub valid : IsValid s
  pub periods : (t : ℕ) → s.curr_tick + s.period t < 2 ^ 31

-- A step that makes nothing due.
pub record Steady (s s' : State) : Type 0 where
  pub good : Good s'
  pub clock : s'.curr_tick ≡ s.curr_tick
  pub fewer : length (due s') ≤ length (due s)

pub Steady-trans : (s s' s'' : State) → Steady s s' → Steady s' s'' → Steady s s''
Steady-trans s s' s'' p q = record {
  good = q.good;
  clock = q.clock ∙ p.clock;
  fewer = omega (arith, p.fewer, q.fewer);
}

-- The calls of a user's function that have a delay.
abbrev pub Delayed : ℕ → Command → Type 0
Delayed now (Command.start timer duration period) =
    (0 < duration) × (now + duration < 2 ^ 31) × (now + period < 2 ^ 31)
Delayed now (Command.stop timer) = Unit
Delayed now (Command.submit work) = ⊥
Delayed now (Command.reschedule work delay) = (0 < delay) × (now + delay < 2 ^ 31)
Delayed now (Command.cancel work) = Unit

abbrev pub AllDelayed : ℕ → List Command → Type 0
AllDelayed now [] = Unit
AllDelayed now (c ∷ cs) = Delayed now c × AllDelayed now cs

-- A timeout that is added with a later deadline is not due.
upto-add_before :
    (dticks : ℕ → ℕ) (now d to : ℕ) (ts : List ℕ)
    → now < d
    → dticks to ≡ d
    → upto dticks now (add_before dticks d to ts) ≡ upto dticks now ts
upto-add_before dticks now d to [] h k = ground arith
upto-add_before dticks now d to (t ∷ ts) h k =
    let p = upto-add_before dticks now d to ts h k in ground arith

pub add-due :
    (s : State) (to : ℕ) (fn : Handler) (ticks : ℕ)
    → contains s.list to ≡ false
    → 0 < ticks
    → s.curr_tick + ticks < 2 ^ 31
    → due (z_add_timeout s to fn ticks) ≡ due s
unfolding z_add_timeout
add-due s to fn ticks fresh pos small =
    let d = (s.curr_tick + ticks) % 2 ^ 32 in
    let dticks = update s.dticks to d in
    upto-add_before dticks s.curr_tick d to s.list (omega arith) (ground arith)
    ∙ (upto-update s.dticks to d s.curr_tick s.list fresh).0

pub add-Steady :
    (s : State) (to : ℕ) (fn : Handler) (ticks : ℕ)
    → Good s
    → contains s.list to ≡ false
    → 0 < ticks
    → s.curr_tick + ticks < 2 ^ 31
    → Steady s (z_add_timeout s to fn ticks)
unfolding z_add_timeout
add-Steady s to fn ticks g fresh pos small =
    let (v, l, d) = z_add_timeout_lem s to fn ticks g.valid fresh small in
    let same = ap length (add-due s to fn ticks fresh pos small) in
    record { good = record { valid = v; periods = g.periods }; clock = refl; fewer = omega arith }

pub remove-Steady : (s : State) (to : ℕ) → Good s → Steady s (remove_timeout s to)
remove-Steady s to g = record {
  good = record { valid = remove_timeout-IsValid s to g.valid; periods = g.periods };
  clock = refl;
  fewer = length-upto-without s.dticks s.curr_tick s.list to;
}

pub same-Steady : (s : State) → Good s → Steady s s
same-Steady s g = record { good = g; clock = refl; fewer = omega arith }

-- What is not about the list.
pub noted-Steady :
    (s : State) (status : ℕ → ℕ) (events : List Event)
    → Good s
    → Steady s (record s { status = status; events = events })
noted-Steady s status events g = record {
  good = record {
    valid = record { sorted = g.valid.sorted; early = g.valid.early; nodup = g.valid.nodup };
    periods = g.periods;
  };
  clock = refl;
  fewer = omega arith;
}

period-Steady :
    (s : State) (t period : ℕ) (status : ℕ → ℕ)
    → Good s
    → s.curr_tick + period < 2 ^ 31
    → Steady s (record s { period = update s.period t period; status = status })
period-Steady s t period status g small = record {
  good = record {
    valid = record { sorted = g.valid.sorted; early = g.valid.early; nodup = g.valid.nodup };
    periods = λ i. let old = g.periods i in ground arith;
  };
  clock = refl;
  fewer = omega arith;
}

-- The two ways that aborting goes.
abort_cases :
    (s : State) (to : ℕ)
    → ((contains s.list to ≡ true) × (z_abort_timeout s to ≡ (true, remove_timeout s to)))
      ⊎ ((contains s.list to ≡ false) × (z_abort_timeout s to ≡ (false, s)))
unfolding z_abort_timeout
abort_cases s to = elim (Bool-cases (contains s.list to)) [
  | inl y ↦ inl (y, rw y refl)
  | inr n ↦ inr (n, rw n refl)
]

abort-Steady : (s : State) (to : ℕ) → Good s → Steady s (z_abort_timeout s to).1
abort-Steady s to g = elim (abort_cases s to) [
  | inl (y, k) ↦ subst (λ (r : Bool × State). Steady s r.1) (sym k) (remove-Steady s to g)
  | inr (n, k) ↦ subst (λ (r : Bool × State). Steady s r.1) (sym k) (same-Steady s g)
]

start-Steady :
    (s : State) (t duration period : ℕ)
    → Good s
    → 0 < duration
    → s.curr_tick + duration < 2 ^ 31
    → s.curr_tick + period < 2 ^ 31
    → Steady s (k_timer_start s t duration period)
unfolding k_timer_start
start-Steady s t duration period g pos small small' =
    let s₁ = (z_abort_timeout s t).1 in
    let a = abort-Steady s t g in
    let gone = (z_abort_timeout_lem s t g.valid).1 in
    let s₂ : State = record s₁ {
      period = update s₁.period t period;
      status = update s₁.status t 0;
    } in
    let b = period-Steady s₁ t period (update s₁.status t 0) a.good (omega (arith, a.clock)) in
    Steady-trans s s₁ _ a (
      Steady-trans s₁ s₂ _ b
        (add-Steady s₂ t Handler.timer duration b.good gone pos (omega (arith, a.clock, b.clock))))

reschedule-Steady :
    (s : State) (w delay : ℕ)
    → Good s
    → 0 < delay
    → s.curr_tick + delay < 2 ^ 31
    → Steady s (k_work_reschedule s w delay)
unfolding k_work_reschedule
reschedule-Steady s w delay g pos small =
    let s₁ = (z_abort_timeout s w).1 in
    let a = abort-Steady s w g in
    let gone = (z_abort_timeout_lem s w g.valid).1 in
    Steady-trans s s₁ _ a
      (add-Steady s₁ w Handler.work delay a.good gone pos (omega (arith, a.clock)))

stop-Steady : (cb : Callbacks) (s : State) (t : ℕ) → Good s → Steady s (k_timer_stop cb s t)
unfolding k_timer_stop
stop-Steady cb s t g = elim (abort_cases s t) [
  | inr (n, k) ↦
      let q : k_timer_stop cb s t ≡ s = rw k refl in subst (Steady s) (sym q) (same-Steady s g)
  | inl (y, k) ↦
      let s₁ = remove_timeout s t in
      let r = remove-Steady s t g in
      elim (Bool-cases (cb.has_stop_fn t)) [
        | inl h ↦
            let q : k_timer_stop cb s t
                ≡ record s₁ { events = s₁.events ++ (Event.stopped t ∷ []) } =
              ground arith in
            subst (Steady s) (sym q) (Steady-trans s s₁ _ r (noted-Steady s₁ s₁.status _ r.good))
        | inr h ↦ let q : k_timer_stop cb s t ≡ s₁ = ground arith in subst (Steady s) (sym q) r
      ]
]

run_command-Steady :
    (cb : Callbacks) (s : State) (c : Command)
    → Good s
    → Delayed s.curr_tick c
    → Steady s (run_command cb s c)
unfolding k_work_cancel
run_command-Steady cb s (Command.start t duration period) g (pos, small, small') =
    start-Steady s t duration period g pos small small'
run_command-Steady cb s (Command.stop t) g d = stop-Steady cb s t g
run_command-Steady cb s (Command.submit w) g d = absurd d
run_command-Steady cb s (Command.reschedule w delay) g (pos, small) =
    reschedule-Steady s w delay g pos small
run_command-Steady cb s (Command.cancel w) g d = abort-Steady s w g

pub run_commands-Steady :
    (cb : Callbacks) (cs : List Command) (s : State)
    → Good s
    → AllDelayed s.curr_tick cs
    → Steady s (run_commands cb s cs)
run_commands-Steady cb [] s g d = same-Steady s g
run_commands-Steady cb (c ∷ cs) s g d =
    let p = run_command-Steady cb s c g d.0 in
    Steady-trans s (run_command cb s c) _ p (
      run_commands-Steady cb cs (run_command cb s c) p.good
        (subst (λ now. AllDelayed now cs) (sym p.clock) d.1))
