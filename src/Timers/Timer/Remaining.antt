-- ===== src/Timers/Timer/Remaining.antt =====
-- The time that is left of a timer, and deadlines with the sign bit.
use zephyr_polling.Prelude.{
  ℕ, suc, ◌+◌, ◌-◌, ◌%◌, ◌^◌, ◌≤◌, ◌<◌, ◌≡◌, refl, ap, ◌∙◌, ◌≢◌, inl, inr, some, List, ◌∷◌, arith,
  ==_self, Bool-cases,
}
use zephyr_polling.Timers.{State, Handler, update, contains}
use zephyr_polling.Timers.Timeout.{
  sys_clock_announce, add_before, timeout_polling_work, z_add_timeout, z_abort_timeout, timeout_rem,
}
use zephyr_polling.Timers.Timer.Poll.{loop_wait}
use zephyr_polling.Timers.Timer.{Callbacks, k_timer_start, k_timer_stop, k_timer_remaining_ticks}

abort_clock :
    (s : State) (t : ℕ)
    → ((z_abort_timeout s t).1.curr_tick ≡ s.curr_tick)
      × ((z_abort_timeout s t).1.dticks ≡ s.dticks)
unfolding z_abort_timeout
abort_clock s t = elim (Bool-cases (contains s.list t)) [
  | inl y ↦ (rw y refl, rw y refl)
  | inr n ↦ (rw n refl, rw n refl)
]

-- A timer that was started with a duration below 2 ^ 31 has after some ticks, fewer than 2 ^ 31, the
-- rest of its duration left, and nothing once that has passed. The clock may wrap around meanwhile.
pub remaining-start :
    (s : State) (t duration period passed : ℕ)
    → s.curr_tick < 2 ^ 32
    → duration < 2 ^ 31
    → passed < 2 ^ 31
    → k_timer_remaining_ticks (sys_clock_announce (k_timer_start s t duration period) passed) t
      ≡ duration - passed
unfolding k_timer_start sys_clock_announce z_add_timeout timeout_rem
remaining-start s t duration period passed now small passed_small =
    let c = (abort_clock s t).0 in let at = ==_self t in ground arith

stopped_lem :
    (cb : Callbacks) (s : State) (t : ℕ)
    → k_timer_remaining_ticks (k_timer_stop cb s t) t ≡ k_timer_remaining_ticks s t
unfolding k_timer_stop timeout_rem z_abort_timeout
stopped_lem cb s t = elim (Bool-cases (contains s.list t)) [
  | inr n ↦ rw n refl
  | inl y ↦ elim (Bool-cases (cb.has_stop_fn t)) [ inl h ↦ rw (y, h) refl | inr h ↦ rw (y, h) refl ]
]

-- When a timer is stopped before it expires, the time that is reported as remaining is the rest of
-- its duration, which is not zero, as long as the duration is below 2 ^ 31.
pub remaining-stop :
    (cb : Callbacks) (s : State) (t duration period passed : ℕ)
    → s.curr_tick < 2 ^ 32
    → duration < 2 ^ 31
    → passed < duration
    → let running = sys_clock_announce (k_timer_start s t duration period) passed in
      let left = k_timer_remaining_ticks (k_timer_stop cb running t) t in
      (left ≡ duration - passed) × (0 < left)
remaining-stop cb s t duration period passed now small early =
    let running = sys_clock_announce (k_timer_start s t duration period) passed in
    let e =
      stopped_lem cb running t
      ∙ remaining-start s t duration period passed now small (omega arith) in
    (e, omega (arith, e))

-- A timeout whose deadline has the sign bit goes in front of one whose deadline has not, and until its
-- deadline the polling calls no function, whether the other one is due or not.
pub late_timeout_blocks :
    (call : ℕ → State → State) (n : ℕ) (s : State) (t to : ℕ) (ts : List ℕ) (fn : Handler)
    (ticks passed : ℕ)
    → s.list ≡ t ∷ ts
    → s.dticks t < 2 ^ 31
    → t ≢ to
    → 2 ^ 31 ≤ s.curr_tick + ticks
    → s.curr_tick + ticks < 2 ^ 32
    → passed < ticks
    → let s' = sys_clock_announce (z_add_timeout s to fn ticks) passed in
      timeout_polling_work (suc n) call s' ≡ some s'
unfolding sys_clock_announce z_add_timeout
late_timeout_blocks call n s t to ts fn ticks passed q early ne late small soon =
    let d = (s.curr_tick + ticks) % 2 ^ 32 in
    let dticks = update s.dticks to d in
    let other : dticks t ≡ s.dticks t = ground arith in
    let at : dticks to ≡ d = ground arith in
    let front : add_before dticks d to (t ∷ ts) ≡ to ∷ (t ∷ ts) = ground arith in
    let l : add_before dticks d to s.list ≡ to ∷ (t ∷ ts) = ap (add_before dticks d to) q ∙ front in
    loop_wait call n (sys_clock_announce (z_add_timeout s to fn ticks) passed) to (t ∷ ts) l
      (ground arith)
