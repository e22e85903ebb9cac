-- ===== src/Prelude/Words.antt =====
-- Fixed-width unsigned arithmetic with its wrap-around, and the predicate that a list holds bytes.
use Prim.Native.Nat.{ℕ, ◌+◌, ◌-◌, ◌%◌, ◌^◌, ◌<◌}
use mathlib.Core.List.{List, [], ◌∷◌, ◌++◌}

-- `a + b` and `a - b` in an unsigned type of width 8, 16 and 32.
abbrev pub add_u8 : ℕ → ℕ → ℕ
add_u8 a b = (a + b) % 2 ^ 8

abbrev pub sub_u8 : ℕ → ℕ → ℕ
sub_u8 a b = (a % 2 ^ 8 + 2 ^ 8 - b % 2 ^ 8) % 2 ^ 8

abbrev pub add_u16 : ℕ → ℕ → ℕ
add_u16 a b = (a + b) % 2 ^ 16

abbrev pub sub_u16 : ℕ → ℕ → ℕ
sub_u16 a b = (a % 2 ^ 16 + 2 ^ 16 - b % 2 ^ 16) % 2 ^ 16

abbrev pub add_u32 : ℕ → ℕ → ℕ
add_u32 a b = (a + b) % 2 ^ 32

abbrev pub sub_u32 : ℕ → ℕ → ℕ
sub_u32 a b = (a % 2 ^ 32 + 2 ^ 32 - b % 2 ^ 32) % 2 ^ 32

-- A property of every element.
abbrev pub All {ℓ κ} : {A : Type ℓ} → (A → Type κ) → List A → Type κ
All P [] = Unit
All P (x ∷ xs) = P x × All P xs

abbrev pub IsBytes : List ℕ → Type 0
IsBytes xs = All (λ x. x < 256) xs

pub All-append {ℓ κ} :
    {A : Type ℓ} (P : A → Type κ) (xs ys : List A) → All P xs → All P ys → All P (xs ++ ys)
All-append P [] ys hx hy = hy
All-append P (x ∷ xs) ys hx hy = (hx.0, All-append P xs ys hx.1 hy)
