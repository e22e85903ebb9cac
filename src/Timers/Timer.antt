-- ===== src/Timers/Timer.antt =====
-- src/common/timer.c, and the work items of src/common/work.c and work.h, whose timeouts share the
-- list. A timer or a work item is the address of its timeout. The users' functions are parameters:
-- which timers have them, and which calls of this module they make.
pub mod Run
pub mod Poll
pub mod Fire
pub mod Remaining
use zephyr_polling.Prelude.{
  ℕ, ◌+◌, ◌%◌, ◌^◌, Bool, Option, none, some, List, [], ◌∷◌, ◌++◌, ◌==◌, if◌then◌else◌,
}
use zephyr_polling.Timers.{State, Handler, Event, update}
use zephyr_polling.Timers.Timeout.{z_add_timeout, z_abort_timeout, timeout_rem}

-- The calls that a user's function can make.
pub data Command : Type 0 where
  start : (timer duration period : ℕ) → Command
  stop : ℕ → Command
  submit : ℕ → Command
  reschedule : (work delay : ℕ) → Command
  cancel : ℕ → Command

-- `expiry_fn` of each timer and the handler of each work item, `none` for NULL; which timers have a
-- `stop_fn`, which is to make no calls.
pub record Callbacks : Type 0 where
  pub expiry_fn : ℕ → Option (List Command)
  pub handler : ℕ → Option (List Command)
  pub has_stop_fn : ℕ → Bool

unfoldable pub k_timer_start : State → ℕ → ℕ → ℕ → State
k_timer_start s timer duration period =
    let (was, s₁) = z_abort_timeout s timer in
    z_add_timeout
      (record s₁ { period = update s₁.period timer period; status = update s₁.status timer 0 })
      timer Handler.timer duration

unfoldable pub k_timer_stop : Callbacks → State → ℕ → State
k_timer_stop cb s timer =
    let (was, s₁) = z_abort_timeout s timer in
    if was
    then (if cb.has_stop_fn timer
        then record s₁ { events = s₁.events ++ (Event.stopped timer ∷ []) }
        else s₁)
    else s₁

unfoldable pub k_timer_status_get : State → ℕ → ℕ × State
k_timer_status_get s timer = (s.status timer, record s { status = update s.status timer 0 })

abbrev pub k_timer_remaining_ticks : State → ℕ → ℕ
k_timer_remaining_ticks s timer = timeout_rem s timer

unfoldable pub k_work_reschedule : State → ℕ → ℕ → State
k_work_reschedule s work delay =
    let (was, s₁) = z_abort_timeout s work in z_add_timeout s₁ work Handler.work delay

-- With K_NO_WAIT.
abbrev pub k_work_submit : State → ℕ → State
k_work_submit s work = k_work_reschedule s work 0

unfoldable pub k_work_cancel : State → ℕ → Bool × State
k_work_cancel s work = z_abort_timeout s work

abbrev pub run_command : Callbacks → State → Command → State
run_command cb s (Command.start timer duration period) = k_timer_start s timer duration period
run_command cb s (Command.stop timer) = k_timer_stop cb s timer
run_command cb s (Command.submit work) = k_work_submit s work
run_command cb s (Command.reschedule work delay) = k_work_reschedule s work delay
run_command cb s (Command.cancel work) = (k_work_cancel s work).1

abbrev pub run_commands : Callbacks → State → List Command → State
run_commands cb s [] = s
run_commands cb s (c ∷ cs) = run_commands cb (run_command cb s c) cs

-- A call of a user's function is an event.
abbrev pub call_user : Callbacks → State → Event → Option (List Command) → State
call_user cb s e none = s
call_user cb s e (some cs) = run_commands cb (record s { events = s.events ++ (e ∷ []) }) cs

-- A periodic timer is added again before its function is called.
abbrev pub restart : State → ℕ → State
restart s t = if s.period t == 0 then s else z_add_timeout s t Handler.timer (s.period t)

unfoldable pub z_timer_expiration_handler : Callbacks → ℕ → State → State
z_timer_expiration_handler cb t s =
    let s₁ = restart s t in
    let s₂ = record s₁ { status = update s₁.status t ((s₁.status t + 1) % 2 ^ 8) } in
    call_user cb s₂ (Event.expired t) (cb.expiry_fn t)

unfoldable pub z_work_expiration_handler : Callbacks → ℕ → State → State
z_work_expiration_handler cb t s = call_user cb s (Event.worked t) (cb.handler t)

-- `t->fn(t)`
unfoldable pub call_fn : Callbacks → ℕ → State → State
call_fn cb t s = elim (s.fn t) [
  | Handler.timer ↦ z_timer_expiration_handler cb t s
  | Handler.work ↦ z_work_expiration_handler cb t s
]
