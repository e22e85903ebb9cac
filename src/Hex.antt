-- ===== src/Hex.antt =====
-- src/common/hex.c: bytes to hexadecimal digits and back. An array and its length come as one list,
-- and a write outside the caller's array is a fault, `none`. A character is its code.
pub mod RoundTrip
pub mod Overflow
use zephyr_polling.Prelude.{
  ℕ, zero, suc, ◌+◌, ◌-◌, ◌*◌, ◌/◌, ◌%◌, ◌^◌, Bool, true, false, ◌&&◌, Option, none, some, List, [],
  ◌∷◌, length, ltb, leb, ◌==◌, if◌then◌else◌, poke, get_or,
}

-- `none` is -EINVAL.
unfoldable pub char2hex : ℕ → Option ℕ
char2hex c =
    if leb b'0' c && leb c b'9'
    then some (c - b'0')
    else if leb b'a' c && leb c b'f'
    then some (c - b'a' + 10)
    else if leb b'A' c && leb c b'F'
    then some (c - b'A' + 10)
    else none

unfoldable pub hex2char : ℕ → Option ℕ
hex2char x = if leb x 9 then some (x + b'0') else if leb x 15 then some (x - 10 + b'a') else none

-- The loop of `bin2hex` at byte number `i`; `false` is the early return.
pub bin2hex_loop : List ℕ → (i : ℕ) → List ℕ → Option (Bool × List ℕ)
bin2hex_loop [] i hex = some (true, hex)
bin2hex_loop (x ∷ xs) i hex = elim (hex2char (x / 2 ^ 4)) [
  | none ↦ some (false, hex)
  | some hi ↦ elim (poke hex (2 * i) hi) [
    | none ↦ none
    | some hex₁ ↦ elim (hex2char (x % 2 ^ 4)) [
      | none ↦ some (false, hex₁)
      | some lo ↦ elim (poke hex₁ (2 * i + 1) lo) [
        | none ↦ none
        | some hex₂ ↦ bin2hex_loop xs (i + 1) hex₂
      ]
    ]
  ]
]

-- The value returned, and the array `hex`.
unfoldable pub bin2hex : List ℕ → List ℕ → Option (ℕ × List ℕ)
bin2hex buf hex =
    if ltb (length hex + 1) (length buf * 2) then some (0, hex) else elim (bin2hex_loop buf 0 hex) [
      | none ↦ none
      | some (false, hex') ↦ some (0, hex')
      | some (true, hex') ↦ elim (poke hex' (2 * length buf) 0) [
        | none ↦ none
        | some hex'' ↦ some (2 * length buf, hex'')
      ]
    ]

-- The loop of `hex2bin` at byte number `i`, over the characters that are left.
pub hex2bin_loop : List ℕ → (i : ℕ) → List ℕ → Option (Bool × List ℕ)
hex2bin_loop [] i buf = some (true, buf)
hex2bin_loop (c ∷ []) i buf = some (true, buf)
hex2bin_loop (c ∷ (d ∷ cs)) i buf = elim (char2hex c) [
  | none ↦ some (false, buf)
  | some hi ↦ elim (poke buf i (hi * 2 ^ 4 % 2 ^ 8)) [
    | none ↦ none
    | some buf₁ ↦ elim (char2hex d) [
      | none ↦ some (false, buf₁)
      | some lo ↦ elim (poke buf₁ i ((get_or buf₁ i 0 + lo) % 2 ^ 8)) [
        | none ↦ none
        | some buf₂ ↦ hex2bin_loop cs (i + 1) buf₂
      ]
    ]
  ]
]

-- What `hex2bin` returns behind its loop.
abbrev pub hex2bin_ret : ℕ → Option (Bool × List ℕ) → Option (ℕ × List ℕ)
hex2bin_ret n none = none
hex2bin_ret n (some (false, buf)) = some (0, buf)
hex2bin_ret n (some (true, buf)) = some (n, buf)

-- The first character of an odd number of them is a byte of its own, behind which `buf` advances.
hex2bin_odd : List ℕ → List ℕ → Option (ℕ × List ℕ)
unfolding hex2bin_loop
hex2bin_odd [] buf = some (0, buf)
hex2bin_odd (c ∷ cs) buf = elim (char2hex c) [
  | none ↦ some (0, buf)
  | some dec ↦ elim (poke buf 0 dec) [
    | none ↦ none
    | some buf' ↦ hex2bin_ret (length cs / 2 + 1) (hex2bin_loop cs 1 buf')
  ]
]

-- The value returned, and the array `buf`.
pub hex2bin : List ℕ → List ℕ → Option (ℕ × List ℕ)
hex2bin hex buf =
    if ltb (length buf) (length hex / 2 + length hex % 2)
    then some (0, buf)
    else if length hex % 2 == 1
    then hex2bin_odd hex buf
    else hex2bin_ret (length hex / 2) (hex2bin_loop hex 0 buf)
