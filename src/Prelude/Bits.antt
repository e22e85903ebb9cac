-- ===== src/Prelude/Bits.antt =====
-- Bitwise operations on bytes and half-words, bit by bit, with the truth of `a & mask`.
use Prim.Native.Nat.{ℕ, zero, suc, ◌+◌, ◌*◌, ◌/◌, ◌%◌, min, max}
use mathlib.Core.Path.{◌≡◌, refl, ap, ap₂, sym, ◌∙◌}
use mathlib.Core.Bool.{Bool, not}
use native.Mathlib.Omega.{arith}
use zephyr_polling.Prelude.Tests.{◌==◌}

-- The lowest `w` bits of `a & b` and of `a | b`.
abbrev pub and_bits : ℕ → ℕ → ℕ → ℕ
and_bits zero a b = 0
and_bits (suc w) a b = min (a % 2) (b % 2) + 2 * and_bits w (a / 2) (b / 2)

abbrev pub or_bits : ℕ → ℕ → ℕ → ℕ
or_bits zero a b = 0
or_bits (suc w) a b = max (a % 2) (b % 2) + 2 * or_bits w (a / 2) (b / 2)

-- On at most 16 bits.
unfoldable pub land : ℕ → ℕ → ℕ
land a b = and_bits 16 a b

unfoldable pub lor : ℕ → ℕ → ℕ
lor a b = or_bits 16 a b

-- The truth of `a & mask`.
unfoldable pub has : ℕ → ℕ → Bool
has a mask = not (land a mask == 0)

-- Bit `i` of a number.
abbrev pub bit : ℕ → ℕ → Bool
bit zero a = (a % 2) == 1
bit (suc i) a = bit i (a / 2)

low : (w a b : ℕ) → and_bits (suc w) a b % 2 ≡ min (a % 2) (b % 2)
low w a b = ground arith

high : (w a b : ℕ) → and_bits (suc w) a b / 2 ≡ and_bits w (a / 2) (b / 2)
high w a b = ground arith

abbrev digits : ℕ → ℕ → ℕ
digits x y = x + 2 * y

and_bits_twice : (w a b : ℕ) → and_bits w a (and_bits w a b) ≡ and_bits w a b
and_bits_twice zero a b = refl
and_bits_twice (suc w) a b =
    ap₂ digits (ap (min (a % 2)) (low w a b) ∙ ground arith)
      (ap (and_bits w (a / 2)) (high w a b) ∙ and_bits_twice w (a / 2) (b / 2))

and_bits_comm : (w a b : ℕ) → and_bits w a b ≡ and_bits w b a
and_bits_comm zero a b = refl
and_bits_comm (suc w) a b = ap₂ digits (ground arith) (and_bits_comm w (a / 2) (b / 2))

and_bits_assoc : (w a b c : ℕ) → and_bits w (and_bits w a b) c ≡ and_bits w a (and_bits w b c)
and_bits_assoc zero a b c = refl
and_bits_assoc (suc w) a b c =
    ap₂ digits
      (ap (λ x. min x (c % 2)) (low w a b) ∙ ground arith ∙ sym (ap (min (a % 2)) (low w b c)))
      (ap (λ x. and_bits w x (c / 2)) (high w a b)
        ∙ and_bits_assoc w (a / 2) (b / 2) (c / 2)
        ∙ sym (ap (and_bits w (a / 2)) (high w b c)))

pub land_twice : (a b : ℕ) → land a (land a b) ≡ land a b
unfolding land
land_twice a b = and_bits_twice 16 a b

pub land_comm : (a b : ℕ) → land a b ≡ land b a
unfolding land
land_comm a b = and_bits_comm 16 a b

pub land_assoc : (a b c : ℕ) → land (land a b) c ≡ land a (land b c)
unfolding land
land_assoc a b c = and_bits_assoc 16 a b c

pub land_zero : (b : ℕ) → land 0 b ≡ 0
unfolding land
land_zero b = ground arith

or_low : (w a b : ℕ) → or_bits (suc w) a b % 2 ≡ max (a % 2) (b % 2)
or_low w a b = ground arith

or_high : (w a b : ℕ) → or_bits (suc w) a b / 2 ≡ or_bits w (a / 2) (b / 2)
or_high w a b = ground arith

and_bits-or_bits : (w a b : ℕ) → and_bits w (or_bits w a b) b ≡ and_bits w b b
and_bits-or_bits zero a b = refl
and_bits-or_bits (suc w) a b =
    ap₂ digits (ap (λ x. min x (b % 2)) (or_low w a b) ∙ ground arith)
      (ap (λ x. and_bits w x (b / 2)) (or_high w a b) ∙ and_bits-or_bits w (a / 2) (b / 2))

-- A mask that was set is there.
pub has-lor : (a b : ℕ) → has (lor a b) b ≡ has b b
unfolding has land lor
has-lor a b = ap (λ x. not (x == 0)) (and_bits-or_bits 16 a b)
