-- ===== src/Tests/Timers.antt =====
-- src/common/timeout.c and src/common/timer.c at concrete inputs.
use zephyr_polling.Prelude.{
  ◌<◌, ℕ, ◌^◌, ◌≡◌, refl, true, some, [], ◌∷◌, ◌++◌, map, arith, ◌==◌, if◌then◌else◌,
}
use zephyr_polling.Timers.{State, Handler, Event}
use zephyr_polling.Timers.Timeout.{sys_clock_announce, timeout_polling_work, z_add_timeout}
use zephyr_polling.Timers.Timeout.Deadlines.{IsValid, upto, beyond}
use zephyr_polling.Timers.Timeout.Insert.{z_add_timeout_lem}
use zephyr_polling.Timers.Timer.{
  k_timer_start, Command, Callbacks, call_fn, k_timer_stop, k_timer_remaining_ticks,
}
use zephyr_polling.Timers.Timer.Run.{due}
use zephyr_polling.Timers.Timer.Fire.{event_of}
use zephyr_polling.Timers.Timer.Remaining.{remaining-stop, late_timeout_blocks}

-- At tick 100: timer 1 was due at 90, work 2 is due now, timer 3 with period 50 is due at 120.
abbrev deadline : ℕ → ℕ
deadline t = if t == 1 then 90 else if t == 2 then 100 else 120

abbrev two_due : State
two_due = record {
  list = 1 ∷ 2 ∷ 3 ∷ [];
  fn = λ t. if t == 2 then Handler.work else Handler.timer;
  dticks = deadline;
  curr_tick = 100;
  period = λ t. if t == 3 then 50 else 0;
  status = λ t. 0;
  events = [];
}

abbrev silent : Callbacks
silent = record { expiry_fn = λ t. some []; handler = λ t. some []; has_stop_fn = λ t. true }

-- Timer 1 starts timer 4, work 2 puts itself off.
abbrev busy : Callbacks
busy = record {
  expiry_fn = λ t. some (Command.start 4 10 0 ∷ []);
  handler = λ t. some (Command.reschedule 2 7 ∷ []);
  has_stop_fn = λ t. true;
}

two_due-IsValid : IsValid two_due
two_due-IsValid = record {
  sorted = ((omega arith, (omega arith, tt)), ((omega arith, tt), (tt, tt)));
  early = (omega arith, (omega arith, (omega arith, tt)));
  nodup = (refl, (refl, (refl, tt)));
}

z_add_timeout_example :
    let s' = z_add_timeout two_due 4 Handler.timer 0 in
    IsValid s'
    × (s'.list ≡ upto deadline 100 (1 ∷ 2 ∷ 3 ∷ []) ++ (4 ∷ beyond deadline 100 (1 ∷ 2 ∷ 3 ∷ [])))
    × (s'.dticks 4 ≡ 100)
z_add_timeout_example =
    z_add_timeout_lem two_due 4 Handler.timer 0 two_due-IsValid refl (omega arith)

both_called : map (event_of two_due.fn) (due two_due) ≡ Event.expired 1 ∷ Event.worked 2 ∷ []
both_called = refl

remaining-stop_example :
    let running = sys_clock_announce (k_timer_start two_due 3 10 0) 4 in
    let left = k_timer_remaining_ticks (k_timer_stop silent running 3) 3 in (left ≡ 6) × (0 < left)
remaining-stop_example =
    remaining-stop silent two_due 3 10 0 4 (omega arith) (omega arith) (omega arith)

late_example :
    let s' = sys_clock_announce (z_add_timeout two_due 4 Handler.timer (2 ^ 31)) 5 in
    timeout_polling_work 9 (call_fn silent) s' ≡ some s'
late_example =
    late_timeout_blocks (call_fn silent) 8 two_due 1 4 (2 ∷ 3 ∷ []) Handler.timer (2 ^ 31) 5 refl
      (omega arith) (omega arith) (omega arith) (omega arith) (omega arith)
