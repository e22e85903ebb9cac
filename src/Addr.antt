-- ===== src/Addr.antt =====
-- src/host/addr.c: a Bluetooth address from its text. The address is the six bytes of `val`, the
-- lowest first, and a character is its code. `none` is a write outside of the six bytes.
pub mod RoundTrip
use zephyr_polling.Prelude.{
  ℕ, zero, suc, ◌+◌, ◌-◌, ◌*◌, ◌%◌, ◌^◌, Bool, true, false, not, ◌&&◌, Option, none, some, List, [],
  ◌∷◌, length, set, get_or, leb, ◌==◌, if◌then◌else◌,
}
use zephyr_polling.Hex.{char2hex}

-- The loop, with `i` as 5 less the colons that were seen. The new digit goes behind the one that is
-- there, which is shifted, so that `|` is `+`.
unfoldable pub from_str_loop : List ℕ → (j colons : ℕ) → List ℕ → Option (Bool × List ℕ)
from_str_loop [] j colons val = some (true, val)
from_str_loop (c ∷ cs) j colons val = elim (j % 3 == 0 && not (c == b':')) [
  | true ↦ some (false, val)
  | false ↦ elim (c == b':') [
    | true ↦ from_str_loop cs (j + 1) (colons + 1) val
    | false ↦ elim (leb colons 5) [
      | false ↦ none
      | true ↦
          let i = 5 - colons in
          let high = get_or val i 0 * 2 ^ 4 % 2 ^ 8 in
          elim (char2hex c) [
            | none ↦ some (false, set val i high)
            | some tmp ↦ from_str_loop cs (j + 1) colons (set val i (high + tmp))
          ]
    ]
  ]
]

-- `false` is -EINVAL.
unfoldable pub bt_addr_from_str : List ℕ → List ℕ → Option (Bool × List ℕ)
bt_addr_from_str str val = if length str == 17 then from_str_loop str 1 0 val else some (false, val)
