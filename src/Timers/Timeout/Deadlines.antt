-- ===== src/Timers/Timeout/Deadlines.antt =====
-- The order of the timeouts by their deadlines, and what adding and removing do to it.
use zephyr_polling.Prelude.{
  ℕ, ◌^◌, ◌≤◌, ◌<◌, ◌≡◌, refl, sym, ap, ap₂, ◌∙◌, false, List, [], ◌∷◌, ◌++◌, map, length, leb,
  if◌then◌else◌, arith,
}
use native.Mathlib.Decide.{dec_le, ℕ_discrete}
use mathlib.Core.Path.{subst}
use zephyr_polling.Timers.{State, update, contains, without}

-- Every deadline is at least `d`.
abbrev pub From : ℕ → List ℕ → Type 0
From d [] = Unit
From d (x ∷ xs) = (d ≤ x) × From d xs

abbrev pub Sorted : List ℕ → Type 0
Sorted [] = Unit
Sorted (x ∷ xs) = From x xs × Sorted xs

-- Every deadline is below the sign bit.
abbrev pub Early : List ℕ → Type 0
Early [] = Unit
Early (x ∷ xs) = (x < 2 ^ 31) × Early xs

abbrev pub NoDup : List ℕ → Type 0
NoDup [] = Unit
NoDup (x ∷ xs) = (contains xs x ≡ false) × NoDup xs

-- The timeouts with a deadline of at most `d`, and the others.
abbrev pub upto : (ℕ → ℕ) → ℕ → List ℕ → List ℕ
upto dticks d [] = []
upto dticks d (t ∷ ts) = let rest = upto dticks d ts in if leb (dticks t) d then t ∷ rest else rest

abbrev pub beyond : (ℕ → ℕ) → ℕ → List ℕ → List ℕ
beyond dticks d [] = []
beyond dticks d (t ∷ ts) =
    let rest = beyond dticks d ts in if leb (dticks t) d then rest else t ∷ rest

pub From-trans : (xs : List ℕ) (d e : ℕ) → d ≤ e → From e xs → From d xs
From-trans [] d e h f = tt
From-trans (x ∷ xs) d e h f = (omega (arith, f.0), From-trans xs d e h f.1)

-- Nothing changes for the timeouts of a list when another gets a deadline.
module _ (dticks : ℕ → ℕ) (to v : ℕ) where
  pub map-update :
      (ts : List ℕ) → contains ts to ≡ false → map (update dticks to v) ts ≡ map dticks ts
  map-update [] h = refl
  map-update (t ∷ ts) h = elim (ℕ_discrete t to) [
    | yes e ↦ absurd (ground arith)
    | no ne ↦
        let h' : contains ts to ≡ false = ground arith in
        let k : update dticks to v t ≡ dticks t = ground arith in
        ap₂ (λ x xs. x ∷ xs) k (map-update ts h')
  ]

  pub upto-update :
      (d : ℕ) (ts : List ℕ)
      → contains ts to ≡ false
      → (upto (update dticks to v) d ts ≡ upto dticks d ts)
        × (beyond (update dticks to v) d ts ≡ beyond dticks d ts)
  upto-update d [] h = (refl, refl)
  upto-update d (t ∷ ts) h = elim (ℕ_discrete t to) [
    | yes e ↦ absurd (ground arith)
    | no ne ↦
        let h' : contains ts to ≡ false = ground arith in
        let k : update dticks to v t ≡ dticks t = ground arith in
        let (p, q) = upto-update d ts h' in (ground arith, ground arith)
  ]

-- In a sorted list the timeouts that are due are a front of it.
module _ (dticks : ℕ → ℕ) (d : ℕ) where
  pub upto-From :
      (ts : List ℕ) (e : ℕ)
      → From e (map dticks ts)
      → d < e
      → (upto dticks d ts ≡ []) × (beyond dticks d ts ≡ ts)
  upto-From [] e f h = (refl, refl)
  upto-From (t ∷ ts) e f h =
      let (p, q) = upto-From ts e f.1 h in
      let later : d < dticks t = omega (arith, f.0) in (ground arith, ground arith)

  pub upto-append :
      (ts : List ℕ) → Sorted (map dticks ts) → upto dticks d ts ++ beyond dticks d ts ≡ ts
  upto-append [] s = refl
  upto-append (t ∷ ts) s = elim (dec_le (dticks t) d) [
    | yes le ↦
        let p = upto-append ts s.1 in
        let u : upto dticks d (t ∷ ts) ≡ t ∷ upto dticks d ts = ground arith in
        let b : beyond dticks d (t ∷ ts) ≡ beyond dticks d ts = ground arith in
        ap₂ (λ x y. x ++ y) u b ∙ ap (λ k. t ∷ k) p
    | no gt ↦
        let (p, q) = upto-From ts (dticks t) s.0 (omega arith) in
        let u : upto dticks d (t ∷ ts) ≡ [] = ground arith in
        let b : beyond dticks d (t ∷ ts) ≡ t ∷ ts = ground arith in ap₂ (λ x y. x ++ y) u b
  ]

-- The timeouts are in the order of their deadlines, no deadline has the sign bit, none is linked twice.
pub record IsValid (s : State) : Type 0 where
  pub sorted : Sorted (map s.dticks s.list)
  pub early : Early (map s.dticks s.list)
  pub nodup : NoDup s.list

-- Lists that are a part of another, by the deadlines that are due.
pub From-without :
    (dticks : ℕ → ℕ) (ts : List ℕ) (x d : ℕ)
    → From d (map dticks ts)
    → From d (map dticks (without ts x))
From-without dticks [] x d f = f
From-without dticks (t ∷ ts) x d f = elim (ℕ_discrete t x) [
  | yes e ↦
      let k : without (t ∷ ts) x ≡ ts = ground arith in
      subst (λ z. From d (map dticks z)) (sym k) f.1
  | no ne ↦
      let k : without (t ∷ ts) x ≡ t ∷ without ts x = ground arith in
      subst (λ z. From d (map dticks z)) (sym k) (f.0, From-without dticks ts x d f.1)
]

pub without-Sorted :
    (dticks : ℕ → ℕ) (ts : List ℕ) (x : ℕ)
    → Sorted (map dticks ts)
    → Early (map dticks ts)
    → Sorted (map dticks (without ts x)) × Early (map dticks (without ts x))
without-Sorted dticks [] x s e = (s, e)
without-Sorted dticks (t ∷ ts) x s e = elim (ℕ_discrete t x) [
  | yes same ↦
      let k : without (t ∷ ts) x ≡ ts = ground arith in
      subst (λ z. Sorted (map dticks z) × Early (map dticks z)) (sym k) (s.1, e.1)
  | no ne ↦
      let k : without (t ∷ ts) x ≡ t ∷ without ts x = ground arith in
      let (p, q) = without-Sorted dticks ts x s.1 e.1 in
      subst (λ z. Sorted (map dticks z) × Early (map dticks z)) (sym k)
        ((From-without dticks ts x (dticks t) s.0, p), (e.0, q))
]

pub contains-without_other :
    (ts : List ℕ) (x y : ℕ) → contains ts y ≡ false → contains (without ts x) y ≡ false
contains-without_other [] x y h = refl
contains-without_other (t ∷ ts) x y h = elim (ℕ_discrete t y) [
  | yes e ↦ absurd (ground arith)
  | no ne ↦
      let no : contains ts y ≡ false = ground arith in
      let p = contains-without_other ts x y no in ground arith
]

pub without-NoDup :
    (ts : List ℕ) (x : ℕ) → NoDup ts → NoDup (without ts x) × (contains (without ts x) x ≡ false)
without-NoDup [] x n = (n, refl)
without-NoDup (t ∷ ts) x n = elim (ℕ_discrete t x) [
  | yes same ↦
      let k : without (t ∷ ts) x ≡ ts = ground arith in
      subst (λ z. NoDup z × (contains z x ≡ false)) (sym k)
        (n.1, subst (λ z. contains ts z ≡ false) same n.0)
  | no ne ↦
      let k : without (t ∷ ts) x ≡ t ∷ without ts x = ground arith in
      let (p, q) = without-NoDup ts x n.1 in
      subst (λ z. NoDup z × (contains z x ≡ false)) (sym k)
        ((contains-without_other ts x t n.0, p), ground arith)
]

-- Fewer timeouts are due when one is taken out.
pub length-upto-without :
    (dticks : ℕ → ℕ) (d : ℕ) (ts : List ℕ) (x : ℕ)
    → length (upto dticks d (without ts x)) ≤ length (upto dticks d ts)
length-upto-without dticks d [] x = omega arith
length-upto-without dticks d (t ∷ ts) x = elim (ℕ_discrete t x) [
  | yes same ↦ ground arith
  | no ne ↦ let p = length-upto-without dticks d ts x in ground arith
]
