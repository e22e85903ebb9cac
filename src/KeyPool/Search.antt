-- ===== src/KeyPool/Search.antt =====
-- Lemmas on the searches in the pool of keys of src/host/keys.c.
use zephyr_polling.Prelude.{
  ℕ, zero, suc, ◌≡◌, refl, sym, ap, ◌∙◌, Bool, true, false, ◌&&◌, Option, none, some, List, [], ◌∷◌,
  arith, All, inl, inr, Bool-cases,
}
use zephyr_polling.KeyPool.{Keys, after, first, modify}

pub after-some : (o : Option ℕ) (n : ℕ) → after o ≡ some (suc n) → o ≡ some n
after-some none n e = ground arith
after-some (some m) n e = ground arith

pub after_positive : (o : Option ℕ) → ¬ (after o ≡ some 0)
after_positive none e = ground arith
after_positive (some m) e = ground arith

pub some-none : (n : ℕ) → ¬ (some n ≡ none)
some-none n e = ground arith

pub after-none : (o : Option ℕ) → after o ≡ none → o ≡ none
after-none none e = refl
after-none (some n) e = ground arith

pub some_positive : (n : ℕ) → ¬ (some 0 ≡ some (suc n))
some_positive n e = ground arith

pub first_here :
    (p : Keys → Bool) (k : Keys) (ks : List Keys) → p k ≡ true → first p (k ∷ ks) ≡ some 0
first_here p k ks h = rw h refl

pub first_later :
    (p : Keys → Bool) (k : Keys) (ks : List Keys)
    → p k ≡ false
    → first p (k ∷ ks) ≡ after (first p ks)
first_later p k ks h = rw h refl

-- A change of the first key with a property makes it the first with another one, if that holds of no
-- key before.
pub first-modify :
    (p r : Keys → Bool) (f : Keys → Keys) (ks : List Keys) (n : ℕ)
    → All (λ k. r k ≡ false → p k ≡ false) ks
    → ((k : Keys) → r k ≡ true → p (f k) ≡ true)
    → first r ks ≡ some n
    → first p (modify f n ks) ≡ some n
first-modify p r f [] n hs hf e = ground arith
first-modify p r f (k ∷ ks) zero hs hf e = elim (Bool-cases (r k)) [
  | inl t ↦ first_here p (f k) ks (hf k t)
  | inr u ↦ absurd (after_positive (first r ks) (sym (first_later r k ks u) ∙ e))
]
first-modify p r f (k ∷ ks) (suc n) hs hf e = elim (Bool-cases (r k)) [
  | inl t ↦ absurd (some_positive n (sym (first_here r k ks t) ∙ e))
  | inr u ↦
      let e' = after-some (first r ks) n (sym (first_later r k ks u) ∙ e) in
      first_later p k (modify f n ks) (hs.0 u) ∙ ap after (first-modify p r f ks n (hs.1) hf e')
]

pub modify_twice :
    (f g : Keys → Keys) (n : ℕ) (ks : List Keys)
    → modify g n (modify f n ks) ≡ modify (λ k. g (f k)) n ks
modify_twice f g n [] = refl
modify_twice f g zero (k ∷ ks) = refl
modify_twice f g (suc n) (k ∷ ks) = ap (λ xs. k ∷ xs) (modify_twice f g n ks)

pub first-none : (p : Keys → Bool) (ks : List Keys) → first p ks ≡ none → All (λ k. p k ≡ false) ks
first-none p [] h = ground arith
first-none p (k ∷ ks) h = elim (Bool-cases (p k)) [
  | inl t ↦ absurd (some-none 0 (sym (first_here p k ks t) ∙ h))
  | inr u ↦ (u, first-none p ks (after-none (first p ks) (sym (first_later p k ks u) ∙ h)))
]

pub All-imp :
    {P Q : Keys → Type 0} (ks : List Keys) → ((k : Keys) → P k → Q k) → All P ks → All Q ks
All-imp [] f h = h
All-imp (k ∷ ks) f h = (f k (h.0), All-imp ks f (h.1))

pub All-for : {P : Keys → Type 0} (ks : List Keys) → ((k : Keys) → P k) → All P ks
All-for [] f = ground arith
All-for (k ∷ ks) f = (f k, All-for ks f)

pub and_right : (a b : Bool) → b ≡ false → a && b ≡ false
and_right true b h = h
and_right false b h = refl

pub both_true : {a b : Bool} → a ≡ true → b ≡ true → a && b ≡ true
both_true ha hb = rw (ha, hb) refl
