-- ===== src/Timers/Timeout/Insert.antt =====
-- `z_add_timeout`: a timeout goes behind those that are due no later, in front of the others.
use zephyr_polling.Prelude.{
  ℕ, ◌+◌, ◌%◌, ◌^◌, ◌≤◌, ◌<◌, ◌≡◌, refl, sym, ap, ap₂, ◌∙◌, ◌≢◌, ◌⊎◌, inl, inr, Bool, true, false,
  List, [], ◌∷◌, ◌++◌, map, length, arith, Bool-cases,
}
use native.Mathlib.Decide.{dec_le, ℕ_discrete}
use mathlib.Core.Path.{subst}
use zephyr_polling.Timers.{State, Handler, update, slt32, contains}
use zephyr_polling.Timers.Timeout.{add_before, z_add_timeout, z_abort_timeout, remove_timeout}
use zephyr_polling.Timers.Timeout.Deadlines.{
  IsValid, From, Sorted, Early, NoDup, upto, beyond, From-trans, map-update, upto-update, upto-From,
  without-Sorted, without-NoDup, length-upto-without,
}

add_before-cases :
    (dticks : ℕ → ℕ) (d to t : ℕ) (ts : List ℕ)
    → d < 2 ^ 31
    → dticks t < 2 ^ 31
    → ((dticks t ≤ d) × (add_before dticks d to (t ∷ ts) ≡ t ∷ add_before dticks d to ts))
      ⊎ ((d < dticks t) × (add_before dticks d to (t ∷ ts) ≡ to ∷ (t ∷ ts)))
add_before-cases dticks d to t ts hd ht = elim (dec_le (dticks t) d) [
  | yes le ↦ inl (le, ground arith)
  | no gt ↦ inr (omega arith, ground arith)
]

module _ (dticks : ℕ → ℕ) (d to : ℕ) (small : d < 2 ^ 31) where
  add_before-append :
      (ts : List ℕ)
      → Sorted (map dticks ts)
      → Early (map dticks ts)
      → add_before dticks d to ts ≡ upto dticks d ts ++ (to ∷ beyond dticks d ts)
  add_before-append [] s e = refl
  add_before-append (t ∷ ts) s e = elim (add_before-cases dticks d to t ts small e.0) [
    | inl (le, k) ↦
        let p = add_before-append ts s.1 e.1 in
        let u : upto dticks d (t ∷ ts) ≡ t ∷ upto dticks d ts = ground arith in
        let b : beyond dticks d (t ∷ ts) ≡ beyond dticks d ts = ground arith in
        k ∙ ap (λ k. t ∷ k) p ∙ sym (ap₂ (λ x y. x ++ (to ∷ y)) u b)
    | inr (gt, k) ↦
        let (p, q) = upto-From dticks d ts (dticks t) s.0 gt in
        let u : upto dticks d (t ∷ ts) ≡ [] = ground arith in
        let b : beyond dticks d (t ∷ ts) ≡ t ∷ ts = ground arith in
        k ∙ sym (ap₂ (λ x y. x ++ (to ∷ y)) u b)
  ]

  add_before-From :
      (ts : List ℕ) (e : ℕ)
      → dticks to ≡ d
      → e ≤ d
      → Early (map dticks ts)
      → From e (map dticks ts)
      → From e (map dticks (add_before dticks d to ts))
  add_before-From [] e k le ea f = (omega arith, tt)
  add_before-From (t ∷ ts) e k le ea f = elim (add_before-cases dticks d to t ts small ea.0) [
    | inl (h, q) ↦
        subst (λ z. From e (map dticks z)) (sym q) (f.0, add_before-From ts e k le ea.1 f.1)
    | inr (h, q) ↦ subst (λ z. From e (map dticks z)) (sym q) (omega arith, f)
  ]

  pub add_before-Sorted :
      (ts : List ℕ)
      → dticks to ≡ d
      → Sorted (map dticks ts)
      → Early (map dticks ts)
      → Sorted (map dticks (add_before dticks d to ts))
        × Early (map dticks (add_before dticks d to ts))
  add_before-Sorted [] k s e = ((tt, tt), (omega arith, tt))
  add_before-Sorted (t ∷ ts) k s e = elim (add_before-cases dticks d to t ts small e.0) [
    | inl (h, q) ↦
        let (p, r) = add_before-Sorted ts k s.1 e.1 in
        subst (λ z. Sorted (map dticks z) × Early (map dticks z)) (sym q)
          ((add_before-From ts (dticks t) k h e.1 s.0, p), (e.0, r))
    | inr (h, q) ↦
        subst (λ z. Sorted (map dticks z) × Early (map dticks z)) (sym q)
          (
            ((omega arith, From-trans (map dticks ts) (dticks to) (dticks t) (omega arith) s.0), s),
            (omega arith, e),
          )
  ]

  pub contains-add_before :
      (ts : List ℕ) (x : ℕ)
      → contains ts x ≡ false
      → x ≢ to
      → contains (add_before dticks d to ts) x ≡ false
  contains-add_before [] x h ne = ground arith
  contains-add_before (t ∷ ts) x h ne = elim (Bool-cases (slt32 d (dticks t))) [
    | inl y ↦ ground arith
    | inr n ↦
        let no : contains ts x ≡ false = ground arith in
        let p = contains-add_before ts x no ne in ground arith
  ]

  pub add_before-NoDup :
      (ts : List ℕ) → contains ts to ≡ false → NoDup ts → NoDup (add_before dticks d to ts)
  add_before-NoDup [] h n = (refl, tt)
  add_before-NoDup (t ∷ ts) h n = elim (ℕ_discrete t to) [
    | yes same ↦ absurd (ground arith)
    | no ne ↦
        let no : contains ts to ≡ false = ground arith in
        elim (Bool-cases (slt32 d (dticks t))) [
          | inl y ↦
              let q : add_before dticks d to (t ∷ ts) ≡ to ∷ (t ∷ ts) = ground arith in
              subst NoDup (sym q) (h, n)
          | inr k ↦
              let q : add_before dticks d to (t ∷ ts) ≡ t ∷ add_before dticks d to ts =
                ground arith in
              subst NoDup (sym q) (contains-add_before ts t n.0 ne, add_before-NoDup ts no n.1)
        ]
  ]

-- Adding a timeout that is not linked, with a deadline below 2 ^ 31, keeps the list valid, and puts it
-- behind the timeouts that are due no later and in front of the others, whose order stays.
pub z_add_timeout_lem :
    (s : State) (to : ℕ) (fn : Handler) (ticks : ℕ)
    → IsValid s
    → contains s.list to ≡ false
    → s.curr_tick + ticks < 2 ^ 31
    → let s' = z_add_timeout s to fn ticks in
      let d = s.curr_tick + ticks in
      IsValid s'
      × (s'.list ≡ upto s.dticks d s.list ++ (to ∷ beyond s.dticks d s.list))
      × (s'.dticks to ≡ d)
unfolding z_add_timeout
z_add_timeout_lem s to fn ticks v fresh small =
    let d = (s.curr_tick + ticks) % 2 ^ 32 in
    let d_is : d ≡ s.curr_tick + ticks = omega arith in
    let dticks = update s.dticks to d in
    let at : dticks to ≡ d = ground arith in
    let same = map-update s.dticks to d s.list fresh in
    let sorted = subst Sorted (sym same) v.sorted in
    let early = subst Early (sym same) v.early in
    let (p, q) = add_before-Sorted dticks d to (omega arith) s.list at sorted early in
    let (u, b) = upto-update s.dticks to d d s.list fresh in
    (
      record {
        sorted = p;
        early = q;
        nodup = add_before-NoDup dticks d to (omega arith) s.list fresh v.nodup;
      },
      add_before-append dticks d to (omega arith) s.list sorted early
          ∙ ap₂ (λ x y. x ++ (to ∷ y)) u b
          ∙ ap (λ k. upto s.dticks k s.list ++ (to ∷ beyond s.dticks k s.list)) d_is,
      at ∙ d_is,
    )

pub remove_timeout-IsValid : (s : State) (to : ℕ) → IsValid s → IsValid (remove_timeout s to)
remove_timeout-IsValid s to v =
    let (p, q) = without-Sorted s.dticks s.list to v.sorted v.early in
    record { sorted = p; early = q; nodup = (without-NoDup s.list to v.nodup).0 }

-- What aborting `to` in `s` leaves.
abbrev pub Aborted : State → ℕ → Bool × State → Type 0
Aborted s to r =
    IsValid r.1
    × (contains r.1.list to ≡ false)
    × (r.0 ≡ contains s.list to)
    × (r.1.dticks ≡ s.dticks)
    × (r.1.curr_tick ≡ s.curr_tick)
    × (length (upto s.dticks s.curr_tick r.1.list) ≤ length (upto s.dticks s.curr_tick s.list))

-- Aborting a timeout: the result says whether it was linked, it is not linked afterwards, the list
-- stays valid, the deadlines and the clock stay, and no more timeouts are due.
pub z_abort_timeout_lem : (s : State) (to : ℕ) → IsValid s → Aborted s to (z_abort_timeout s to)
unfolding z_abort_timeout
z_abort_timeout_lem s to v = elim (Bool-cases (contains s.list to)) [
  | inl y ↦
      let k : z_abort_timeout s to ≡ (true, remove_timeout s to) = rw y refl in
      subst (Aborted s to) (sym k) (
        remove_timeout-IsValid s to v,
        (without-NoDup s.list to v.nodup).1,
        sym y,
        refl,
        refl,
        length-upto-without s.dticks s.curr_tick s.list to,
      )
  | inr n ↦
      let k : z_abort_timeout s to ≡ (false, s) = rw n refl in
      subst (Aborted s to) (sym k) (v, n, sym n, refl, refl, omega arith)
]
