-- ===== src/Timers/Timer/Poll.antt =====
-- `timeout_polling_work` with the handlers of timers and work: it ends, and leaves nothing due.
use zephyr_polling.Prelude.{
  ℕ, suc, ◌+◌, ◌%◌, ◌^◌, ◌≤◌, ◌<◌, ◌≡◌, refl, sym, ap, ◌∙◌, ◌⊎◌, inl, inr, false, Option, none,
  some, List, [], ◌∷◌, ◌++◌, map, arith, ==_self, List-cases,
}
use native.Mathlib.Decide.{dec_le, ℕ_discrete}
use mathlib.Core.Path.{subst}
use zephyr_polling.Timers.{State, Handler, Event, update, contains, without}
use zephyr_polling.Timers.Timeout.{timeout_polling_work, remove_timeout, z_add_timeout}
use zephyr_polling.Timers.Timeout.Deadlines.{IsValid, upto, upto-From, Sorted}
use zephyr_polling.Timers.Timer.{
  Callbacks, call_user, restart, z_timer_expiration_handler, z_work_expiration_handler, call_fn,
}
use zephyr_polling.Timers.Timer.Run.{
  due, Good, Steady, Steady-trans, AllDelayed, add-Steady, same-Steady, noted-Steady,
  run_commands-Steady,
}

-- The users' functions make only calls with a delay, which do not reach the sign bit.
unfoldable pub CallsDelayed : Callbacks → ℕ → Type 0
CallsDelayed cb now =
    ((t : ℕ) (cs : List _) → cb.expiry_fn t ≡ some cs → AllDelayed now cs)
    × ((t : ℕ) (cs : List _) → cb.handler t ≡ some cs → AllDelayed now cs)

call_user-Steady :
    (cb : Callbacks) (s : State) (e : Event) (o : Option (List _))
    → Good s
    → ((cs : List _) → o ≡ some cs → AllDelayed s.curr_tick cs)
    → Steady s (call_user cb s e o)
call_user-Steady cb s e none g d = same-Steady s g
call_user-Steady cb s e (some cs) g d =
    let n = noted-Steady s s.status (s.events ++ (e ∷ [])) g in
    Steady-trans s _ _ n (run_commands-Steady cb cs _ n.good (d cs refl))

restart-Steady : (s : State) (t : ℕ) → Good s → contains s.list t ≡ false → Steady s (restart s t)
restart-Steady s t g gone = elim (ℕ_discrete (s.period t) 0) [
  | yes z ↦ let k : restart s t ≡ s = ground arith in subst (Steady s) (sym k) (same-Steady s g)
  | no ne ↦
      let k : restart s t ≡ z_add_timeout s t Handler.timer (s.period t) = ground arith in
      subst (Steady s) (sym k)
        (add-Steady s t Handler.timer (s.period t) g gone (omega arith) (g.periods t))
]

pub handler_cases : (h : Handler) → (h ≡ Handler.timer) ⊎ (h ≡ Handler.work)
handler_cases Handler.timer = inl refl
handler_cases Handler.work = inr refl

pub call_fn-Steady :
    (cb : Callbacks) (t : ℕ) (s : State)
    → Good s
    → contains s.list t ≡ false
    → CallsDelayed cb s.curr_tick
    → Steady s (call_fn cb t s)
unfolding call_fn z_timer_expiration_handler z_work_expiration_handler CallsDelayed
call_fn-Steady cb t s g gone d = elim (handler_cases (s.fn t)) [
  | inl q ↦
      let k : call_fn cb t s ≡ z_timer_expiration_handler cb t s = rw (q, call_fn) refl in
      let r = restart-Steady s t g gone in
      let s₁ = restart s t in
      let n = noted-Steady s₁ (update s₁.status t ((s₁.status t + 1) % 2 ^ 8)) s₁.events r.good in
      subst (Steady s) (sym k) (
        Steady-trans s s₁ _ r (
          Steady-trans s₁ _ _ n (
            call_user-Steady cb _ (Event.expired t) (cb.expiry_fn t) n.good
              (λ cs e. subst (λ now. AllDelayed now cs) (sym r.clock) (d.0 t cs e)))))
  | inr q ↦
      let k : call_fn cb t s ≡ z_work_expiration_handler cb t s = rw (q, call_fn) refl in
      subst (Steady s) (sym k) (call_user-Steady cb s (Event.worked t) (cb.handler t) g (d.1 t))
]

without_first : (t : ℕ) (ts : List ℕ) → without (t ∷ ts) t ≡ ts
without_first t ts = rw (==_self t) refl

-- One round of the loop, where the first timeout is due.
due_first :
    (s : State) (t : ℕ) (ts : List ℕ)
    → s.list ≡ t ∷ ts
    → s.dticks t ≤ s.curr_tick
    → due s ≡ t ∷ due (remove_timeout s t)
due_first s t ts q le =
    let k : without s.list t ≡ ts = ap (λ l. without l t) q ∙ without_first t ts in
    let u : upto s.dticks s.curr_tick (t ∷ ts) ≡ t ∷ upto s.dticks s.curr_tick ts = ground arith in
    ap (upto s.dticks s.curr_tick) q ∙ u ∙ ap (λ l. t ∷ upto s.dticks s.curr_tick l) (sym k)

none_due :
    (s : State) (t : ℕ) (ts : List ℕ)
    → IsValid s
    → s.list ≡ t ∷ ts
    → s.curr_tick < s.dticks t
    → due s ≡ []
none_due s t ts v q gt =
    let sorted = subst (λ l. Sorted (map s.dticks l)) q v.sorted in
    let (p, r) = upto-From s.dticks s.curr_tick ts (s.dticks t) sorted.0 gt in
    let u : upto s.dticks s.curr_tick (t ∷ ts) ≡ [] = ground arith in
    ap (upto s.dticks s.curr_tick) q ∙ u

-- The rounds of the loop.
module _ (call : ℕ → State → State) (n : ℕ) (s : State) where
  loop_empty : s.list ≡ [] → timeout_polling_work (suc n) call s ≡ some s
  unfolding timeout_polling_work
  loop_empty q = rw q refl

  pub loop_fire :
      (t : ℕ) (ts : List ℕ)
      → s.list ≡ t ∷ ts
      → s.dticks t ≤ s.curr_tick
      → timeout_polling_work (suc n) call s
        ≡ timeout_polling_work n call (call t (remove_timeout s t))
  unfolding timeout_polling_work
  loop_fire t ts q le = ground arith

  pub loop_wait :
      (t : ℕ) (ts : List ℕ)
      → s.list ≡ t ∷ ts
      → s.curr_tick < s.dticks t
      → timeout_polling_work (suc n) call s ≡ some s
  unfolding timeout_polling_work
  loop_wait t ts q gt = ground arith

-- The state that polling starts from: nothing to do, or a timeout that is due.
pub due_cases :
    (s : State)
    → IsValid s
    → ((due s ≡ [])
        × ((call : ℕ → State → State) (n : ℕ) → timeout_polling_work (suc n) call s ≡ some s))
      ⊎ ((t : ℕ) × (due s ≡ t ∷ due (remove_timeout s t))
          × ((call : ℕ → State → State) (n : ℕ)
              → timeout_polling_work (suc n) call s
                ≡ timeout_polling_work n call (call t (remove_timeout s t))))
due_cases s v = elim (List-cases s.list) [
  | inl q ↦ inl (ap (upto s.dticks s.curr_tick) q, λ call n. loop_empty call n s q)
  | inr (t, ts, q) ↦ elim (dec_le (s.dticks t) s.curr_tick) [
    | yes le ↦ inr (t, due_first s t ts q le, λ call n. loop_fire call n s t ts q le)
    | no gt ↦
        inl (none_due s t ts v q (omega arith), λ call n. loop_wait call n s t ts q (omega arith))
  ]
]

-- What the polling leaves: nothing is due, and the clock and what is valid stay.
pub record Polled (s s' : State) : Type 0 where
  pub good : Good s'
  pub clock : s'.curr_tick ≡ s.curr_tick
  pub nothing_due : due s' ≡ []
