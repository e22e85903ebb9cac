-- ===== src/Addr/RoundTrip.antt =====
-- The text of an address is read back.
use zephyr_polling.Prelude.{
  ℕ, zero, suc, ◌+◌, ◌-◌, ◌*◌, ◌/◌, ◌%◌, ◌^◌, ◌≤◌, ◌<◌, ◌≡◌, ◌≢◌, refl, ap, ◌∙◌, Bool, true, false,
  some, if◌then◌else◌, List, [], ◌∷◌, length, set, get_or, get_or-set_self, leb, ◌==◌, arith, ==_ne,
  Bool-cases, inl, inr,
}
use zephyr_polling.Hex.{char2hex}
use zephyr_polling.Addr.{from_str_loop, bt_addr_from_str}

loop_end : (j k : ℕ) (val : List ℕ) → from_str_loop [] j k val ≡ some (true, val)
unfolding from_str_loop
loop_end j k val = refl

step_colon :
    (cs : List ℕ) (j k : ℕ) (val : List ℕ)
    → from_str_loop (b':' ∷ cs) j k val ≡ from_str_loop cs (j + 1) (k + 1) val
unfolding from_str_loop
step_colon cs j k val = elim (Bool-cases (j % 3 == 0)) [
  | inl y ↦ rw (from_str_loop, y) refl
  | inr n ↦ rw (from_str_loop, n) refl
]

-- A digit of %X or of %x.
abbrev pub digit_as : Bool → ℕ → ℕ
digit_as upper x = if leb x 9 then x + b'0' else if upper then x - 10 + b'A' else x - 10 + b'a'

char2hex-digit_as : (upper : Bool) (x : ℕ) → x < 16 → char2hex (digit_as upper x) ≡ some x
unfolding char2hex
char2hex-digit_as true x h = ground arith
char2hex-digit_as false x h = ground arith

no_colon : (upper : Bool) (x : ℕ) → x < 16 → (digit_as upper x == b':') ≡ false
no_colon true x h = ground arith
no_colon false x h = ground arith

step_digit :
    (upper : Bool) (x : ℕ) (cs : List ℕ) (j k : ℕ) (val : List ℕ)
    → x < 16
    → j % 3 ≢ 0
    → k ≤ 5
    → from_str_loop (digit_as upper x ∷ cs) j k val
      ≡ from_str_loop cs (j + 1) k (set val (5 - k) (get_or val (5 - k) 0 * 2 ^ 4 % 2 ^ 8 + x))
unfolding from_str_loop
step_digit upper x cs j k val h n l =
    let a : (j % 3 == 0) ≡ false = ==_ne (j % 3) 0 n in
    let b : (digit_as upper x == b':') ≡ false = no_colon upper x h in
    let c : leb k 5 ≡ true = ground arith in let d = char2hex-digit_as upper x h in ground arith

set-set : (xs : List ℕ) (i v w : ℕ) → set (set xs i v) i w ≡ set xs i w
set-set [] i v w = refl
set-set (x ∷ xs) zero v w = refl
set-set (x ∷ xs) (suc i) v w = ap (λ k. x ∷ k) (set-set xs i v w)

-- The two digits of a byte.
step_byte :
    (upper : Bool) (x : ℕ) (cs : List ℕ) (j k : ℕ) (val : List ℕ)
    → x < 256
    → j % 3 ≡ 1
    → k ≤ 5
    → length val ≡ 6
    → from_str_loop (digit_as upper (x / 2 ^ 4) ∷ (digit_as upper (x % 2 ^ 4) ∷ cs)) j k val
      ≡ from_str_loop cs (j + 1 + 1) k (set val (5 - k) x)
step_byte upper x cs j k val h m l len =
    let i = 5 - k in
    let v = get_or val i 0 * 2 ^ 4 % 2 ^ 8 + x / 2 ^ 4 in
    let val₁ = set val i v in
    let g : get_or val₁ i 0 ≡ v = get_or-set_self val i v 0 (omega arith) in
    let w : get_or val₁ i 0 * 2 ^ 4 % 2 ^ 8 + x % 2 ^ 4 ≡ x = omega arith in
    step_digit upper (x / 2 ^ 4) (digit_as upper (x % 2 ^ 4) ∷ cs) j k val (omega arith)
      (omega arith) l
    ∙ step_digit upper (x % 2 ^ 4) cs (j + 1) k val₁ (omega arith) (omega arith) l
    ∙ ap (from_str_loop cs (j + 1 + 1) k) (ap (set val₁ i) w ∙ set-set val i v x)

-- A byte and the colon behind it.
step_group :
    (upper : Bool) (x : ℕ) (cs : List ℕ) (j k : ℕ) (val : List ℕ)
    → x < 256
    → j % 3 ≡ 1
    → k ≤ 5
    → length val ≡ 6
    → from_str_loop
        (digit_as upper (x / 2 ^ 4) ∷ (digit_as upper (x % 2 ^ 4) ∷ (b':' ∷ cs)))
        j
        k
        val
      ≡ from_str_loop cs (j + 1 + 1 + 1) (k + 1) (set val (5 - k) x)
step_group upper x cs j k val h m l len =
    step_byte upper x (b':' ∷ cs) j k val h m l len
    ∙ step_colon cs (j + 1 + 1) k (set val (5 - k) x)

-- Both digits of a byte, with a colon before the next byte.
abbrev pub text : Bool → List ℕ → List ℕ
text upper [] = []
text upper (x ∷ []) = digit_as upper (x / 2 ^ 4) ∷ (digit_as upper (x % 2 ^ 4) ∷ [])
text upper (x ∷ (y ∷ ys)) =
    digit_as upper (x / 2 ^ 4) ∷ (digit_as upper (x % 2 ^ 4) ∷ (b':' ∷ text upper (y ∷ ys)))

-- The text of six bytes, highest first, with upper case digits as `bt_addr_to_str` prints it, or with
-- lower case digits, is read as these bytes, whatever the address held before.
pub bt_addr_from_str-text :
    (upper : Bool) (a b c d e f u v w x y z : ℕ)
    → a < 256
    → b < 256
    → c < 256
    → d < 256
    → e < 256
    → f < 256
    → bt_addr_from_str (text upper (f ∷ e ∷ d ∷ c ∷ b ∷ a ∷ [])) (u ∷ v ∷ w ∷ x ∷ y ∷ z ∷ [])
      ≡ some (true, a ∷ b ∷ c ∷ d ∷ e ∷ f ∷ [])
unfolding bt_addr_from_str
bt_addr_from_str-text upper a b c d e f u v w x y z ha hb hc hd he hf =
    step_group upper f (text upper (e ∷ d ∷ c ∷ b ∷ a ∷ [])) 1 0 (u ∷ v ∷ w ∷ x ∷ y ∷ z ∷ []) hf
      refl (omega arith) refl
    ∙ step_group upper e (text upper (d ∷ c ∷ b ∷ a ∷ [])) 4 1 (u ∷ v ∷ w ∷ x ∷ y ∷ f ∷ []) he refl
        (omega arith) refl
    ∙ step_group upper d (text upper (c ∷ b ∷ a ∷ [])) 7 2 (u ∷ v ∷ w ∷ x ∷ e ∷ f ∷ []) hd refl
        (omega arith) refl
    ∙ step_group upper c (text upper (b ∷ a ∷ [])) 10 3 (u ∷ v ∷ w ∷ d ∷ e ∷ f ∷ []) hc refl
        (omega arith) refl
    ∙ step_group upper b (text upper (a ∷ [])) 13 4 (u ∷ v ∷ c ∷ d ∷ e ∷ f ∷ []) hb refl
        (omega arith) refl
    ∙ step_byte upper a [] 16 5 (u ∷ b ∷ c ∷ d ∷ e ∷ f ∷ []) ha refl (omega arith) refl
    ∙ loop_end 18 5 (a ∷ b ∷ c ∷ d ∷ e ∷ f ∷ [])
