-- ===== src/Timers/Timeout.antt =====
-- src/common/timeout.c: the list of timeouts, in the order of their deadlines. `dticks` has the type
-- `int32_t`, the clock `uint32_t`: inserting compares them as signed, polling as unsigned words.
pub mod Deadlines
pub mod Insert
use zephyr_polling.Prelude.{
  ℕ, zero, suc, ◌+◌, ◌%◌, ◌^◌, Bool, true, false, Option, none, some, List, [], ◌∷◌, ltb, leb,
  if◌then◌else◌, sub_u32,
}
use zephyr_polling.Timers.{State, Handler, update, slt32, contains, without}

unfoldable pub sys_clock_announce : State → ℕ → State
sys_clock_announce s ticks = record s { curr_tick = (s.curr_tick + ticks) % 2 ^ 32 }

abbrev pub remove_timeout : State → ℕ → State
remove_timeout s t = record s { list = without s.list t }

-- The loop of `z_add_timeout`: before the first timeout with a later deadline, or at the end.
abbrev pub add_before : (ℕ → ℕ) → ℕ → ℕ → List ℕ → List ℕ
add_before dticks d to [] = to ∷ []
add_before dticks d to (t ∷ ts) =
    let rest = add_before dticks d to ts in if slt32 d (dticks t) then to ∷ (t ∷ ts) else t ∷ rest

-- The node is not linked: every caller aborts it first, or has just taken it out.
unfoldable pub z_add_timeout : State → ℕ → Handler → ℕ → State
z_add_timeout s to fn ticks =
    let d = (s.curr_tick + ticks) % 2 ^ 32 in
    let dticks = update s.dticks to d in
    record s { fn = update s.fn to fn; dticks = dticks; list = add_before dticks d to s.list }

-- `true` is the result 0, `false` is -EINVAL.
unfoldable pub z_abort_timeout : State → ℕ → Bool × State
z_abort_timeout s to = if contains s.list to then (true, remove_timeout s to) else (false, s)

unfoldable pub timeout_rem : State → ℕ → ℕ
timeout_rem s t =
    let diff = sub_u32 (s.dticks t) s.curr_tick in if ltb diff (2 ^ 31) then diff else 0

abbrev pub z_timeout_expires : State → ℕ → ℕ
z_timeout_expires s t = s.dticks t

unfoldable pub z_get_recent_timeout_expiry : State → ℕ
z_get_recent_timeout_expiry s = elim s.list [ [] ↦ 0 | t ∷ ts ↦ s.dticks t ]

-- The loop runs on fuel; `call` is `t->fn(t)`.
unfoldable pub timeout_polling_work : ℕ → (ℕ → State → State) → State → Option State
timeout_polling_work zero call s = none
timeout_polling_work (suc n) call s = elim s.list [
  | [] ↦ some s
  | t ∷ ts ↦
      let rest = timeout_polling_work n call (call t (remove_timeout s t)) in
      if leb (s.dticks t) s.curr_tick then rest else some s
]
