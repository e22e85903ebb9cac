-- ===== src/Rpa.antt =====
-- Resolvable private addresses: src/common/rpa.c. An address, a key and a block of the cipher are the
-- numbers that their bytes make up, the lowest first, so that an address is its hash with the random
-- part above it. The cipher and the random numbers are the platform's; `none` is their error.
use zephyr_polling.Prelude.{ℕ, ◌+◌, ◌*◌, ◌/◌, ◌%◌, ◌^◌, Bool, false, ◌&&◌, Option, none, some, ◌==◌}

-- `bt_addr_le_t`
pub record LeAddr : Type 0 where
  pub type : ℕ
  pub val : ℕ

-- BT_ADDR_LE_RANDOM
abbrev pub addr_le_random : ℕ
addr_le_random = 1

-- `bt_addr_le_is_rpa`: the two highest bits of the address are 01.
unfoldable pub bt_addr_le_is_rpa : LeAddr → Bool
bt_addr_le_is_rpa a = (a.type == addr_le_random) && (a.val / 2 ^ 46 % 4 == 1)

-- BT_ADDR_SET_RPA on the random part.
unfoldable pub set_rpa : ℕ → ℕ
set_rpa r = r % 2 ^ 22 + 2 ^ 22

abbrev pub truncated : Option ℕ → Option ℕ
truncated none = none
truncated (some x) = some (x % 2 ^ 24)

-- The random part with zeros above it is the same number.
unfoldable pub ah : (ℕ → ℕ → Option ℕ) → ℕ → ℕ → Option ℕ
ah encrypt irk r = truncated (encrypt irk r)

abbrev pub is_hash : Option ℕ → ℕ → Bool
is_hash none h = false
is_hash (some x) h = h == x

unfoldable pub bt_rpa_irk_matches : (ℕ → ℕ → Option ℕ) → ℕ → ℕ → Bool
bt_rpa_irk_matches encrypt irk addr = is_hash (ah encrypt irk (addr / 2 ^ 24)) (addr % 2 ^ 24)

abbrev pub with_hash : ℕ → Option ℕ → Option ℕ
with_hash r none = none
with_hash r (some h) = some (h + r * 2 ^ 24)

unfoldable pub bt_rpa_create : (ℕ → ℕ → Option ℕ) → Option ℕ → ℕ → Option ℕ
bt_rpa_create encrypt none irk = none
bt_rpa_create encrypt (some r) irk = with_hash (set_rpa r) (ah encrypt irk (set_rpa r))
