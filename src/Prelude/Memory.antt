-- ===== src/Prelude/Memory.antt =====
-- A byte array as a list: a block write (`memcpy`) and a block read.
use zephyr_polling.Prelude.Lists.{length}
use Prim.Native.Nat.{ℕ, zero, suc, ◌+◌, ◌≤◌}
use mathlib.Core.Path.{◌≡◌, refl, ap}
use mathlib.Core.List.{List, [], ◌∷◌, ◌++◌}
use native.Mathlib.Omega.{arith}

module _ {ℓ} {A : Type ℓ} where
  -- `memcpy(mem + i, xs, n)`; bytes past the end of the array are dropped.
  unfoldable pub write : List A → ℕ → List A → List A
  write [] i xs = []
  write (m ∷ ms) (suc i) xs = m ∷ write ms i xs
  write (m ∷ ms) zero [] = m ∷ ms
  write (m ∷ ms) zero (x ∷ xs) = x ∷ write ms zero xs

  -- The `n` bytes from index `i` on.
  unfoldable pub window : List A → ℕ → ℕ → List A
  window [] i n = []
  window (m ∷ ms) (suc i) n = window ms i n
  window (m ∷ ms) zero zero = []
  window (m ∷ ms) zero (suc n) = m ∷ window ms zero n

module _ {ℓ} {A : Type ℓ} where
  pub length-write : (mem : List A) (i : ℕ) (xs : List A) → length (write mem i xs) ≡ length mem
  unfolding write
  length-write [] i xs = refl
  length-write (m ∷ ms) (suc i) xs = ap suc (length-write ms i xs)
  length-write (m ∷ ms) zero [] = refl
  length-write (m ∷ ms) zero (x ∷ xs) = ap suc (length-write ms zero xs)

  pub window-zero : (mem : List A) (i : ℕ) → window mem i 0 ≡ []
  unfolding window
  window-zero [] i = refl
  window-zero (m ∷ ms) (suc i) = window-zero ms i
  window-zero (m ∷ ms) zero = refl

  pub length-window : (mem : List A) (i n : ℕ) → i + n ≤ length mem → length (window mem i n) ≡ n
  unfolding window
  length-window [] i n h = omega arith
  length-window (m ∷ ms) (suc i) n h = length-window ms i n (omega arith)
  length-window (m ∷ ms) zero zero h = refl
  length-window (m ∷ ms) zero (suc n) h = ap suc (length-window ms zero n (omega arith))

  -- A write just behind a window extends it.
  pub window-write_end :
      (mem : List A) (i n : ℕ) (xs : List A) (t k : ℕ)
      → t ≡ i + n
      → k ≡ n + length xs
      → i + k ≤ length mem
      → window (write mem t xs) i k ≡ window mem i n ++ xs
  unfolding window write
  window-write_end [] i n [] t k et ek h = refl
  window-write_end [] i n (x ∷ xs) t k et ek h = absurd (omega arith)
  window-write_end (m ∷ ms) (suc i) n xs zero k et ek h = absurd (omega arith)
  window-write_end (m ∷ ms) (suc i) n xs (suc t) k et ek h =
      window-write_end ms i n xs t k (omega arith) (omega arith) (omega arith)
  window-write_end (m ∷ ms) zero zero [] zero zero et ek h = refl
  window-write_end (m ∷ ms) zero zero (x ∷ xs) zero zero et ek h = absurd (omega arith)
  window-write_end (m ∷ ms) zero zero xs (suc t) k et ek h = absurd (omega arith)
  window-write_end (m ∷ ms) zero zero [] zero (suc k) et ek h = absurd (omega arith)
  window-write_end (m ∷ []) zero zero (x ∷ []) zero (suc k) et ek h = refl
  window-write_end (m ∷ []) zero zero (x ∷ (y ∷ ys)) zero (suc k) et ek h = absurd (omega arith)
  window-write_end (m ∷ (p ∷ ms)) zero zero (x ∷ xs) zero (suc k) et ek h =
      ap (λ r. x ∷ r)
        (window-write_end (p ∷ ms) zero zero xs zero k (omega arith) (omega arith) (omega arith))
  window-write_end (m ∷ ms) zero (suc n) xs zero k et ek h = absurd (omega arith)
  window-write_end (m ∷ ms) zero (suc n) xs (suc t) zero et ek h = absurd (omega arith)
  window-write_end (m ∷ ms) zero (suc n) xs (suc t) (suc k) et ek h =
      ap (λ r. m ∷ r) (window-write_end ms zero n xs t k (omega arith) (omega arith) (omega arith))

  -- A write just before a window extends it to the front.
  pub window-write_front :
      (mem : List A) (i n : ℕ) (xs : List A) (j k : ℕ)
      → j ≡ i + length xs
      → k ≡ length xs + n
      → i + k ≤ length mem
      → window (write mem i xs) i k ≡ xs ++ window mem j n
  unfolding window write
  window-write_front [] i n [] j k ej ek h = refl
  window-write_front [] i n (x ∷ xs) j k ej ek h = absurd (omega arith)
  window-write_front (m ∷ ms) (suc i) n xs zero k ej ek h = absurd (omega arith)
  window-write_front (m ∷ ms) (suc i) n xs (suc j) k ej ek h =
      window-write_front ms i n xs j k (omega arith) (omega arith) (omega arith)
  window-write_front (m ∷ ms) zero zero [] zero zero ej ek h = refl
  window-write_front (m ∷ ms) zero zero [] zero (suc k) ej ek h = absurd (omega arith)
  window-write_front (m ∷ ms) zero (suc n) [] zero zero ej ek h = absurd (omega arith)
  window-write_front (m ∷ ms) zero (suc n) [] zero (suc k) ej ek h =
      let e : k ≡ n = omega arith in ap (λ r. m ∷ window ms zero r) e
  window-write_front (m ∷ ms) zero n [] (suc j) k ej ek h = absurd (omega arith)
  window-write_front (m ∷ ms) zero n (x ∷ xs) zero k ej ek h = absurd (omega arith)
  window-write_front (m ∷ ms) zero n (x ∷ xs) (suc j) zero ej ek h = absurd (omega arith)
  window-write_front (m ∷ ms) zero n (x ∷ xs) (suc j) (suc k) ej ek h =
      ap (λ r. x ∷ r)
        (window-write_front ms zero n xs j k (omega arith) (omega arith) (omega arith))

  -- A window splits at any point inside it.
  pub window-append :
      (mem : List A) (i a j b n : ℕ)
      → j ≡ i + a
      → n ≡ a + b
      → window mem i n ≡ window mem i a ++ window mem j b
  unfolding window
  window-append [] i a j b n ej en = refl
  window-append (m ∷ ms) (suc i) a zero b n ej en = absurd (omega arith)
  window-append (m ∷ ms) (suc i) a (suc j) b n ej en =
      window-append ms i a j b n (omega arith) (omega arith)
  window-append (m ∷ ms) zero zero zero b n ej en =
      let e : n ≡ b = omega arith in ap (window (m ∷ ms) zero) e
  window-append (m ∷ ms) zero zero (suc j) b n ej en = absurd (omega arith)
  window-append (m ∷ ms) zero (suc a) zero b n ej en = absurd (omega arith)
  window-append (m ∷ ms) zero (suc a) (suc j) b zero ej en = absurd (omega arith)
  window-append (m ∷ ms) zero (suc a) (suc j) b (suc n) ej en =
      ap (λ r. m ∷ r) (window-append ms zero a j b n (omega arith) (omega arith))
