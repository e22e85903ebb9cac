-- ===== src/Tests/Addr.antt =====
-- src/host/addr.c at concrete inputs.
use zephyr_polling.Prelude.{◌≡◌, refl, true, none, some, [], ◌∷◌, replicate, arith}
use zephyr_polling.Hex.{char2hex}
use zephyr_polling.Addr.{bt_addr_from_str, from_str_loop}
use zephyr_polling.Addr.RoundTrip.{text, bt_addr_from_str-text}

from_str_example :
    bt_addr_from_str
      (text true (0xf6 ∷ 0xe5 ∷ 0xd4 ∷ 0xc3 ∷ 0xb2 ∷ 0xa1 ∷ []))
      (9 ∷ 9 ∷ 9 ∷ 9 ∷ 9 ∷ 9 ∷ [])
    ≡ some (true, 0xa1 ∷ 0xb2 ∷ 0xc3 ∷ 0xd4 ∷ 0xe5 ∷ 0xf6 ∷ [])
from_str_example =
    bt_addr_from_str-text true 0xa1 0xb2 0xc3 0xd4 0xe5 0xf6 9 9 9 9 9 9 (omega arith) (omega arith)
      (omega arith) (omega arith) (omega arith) (omega arith)

-- A text of colons is no address, and is read as one: nothing is written.
only_colons :
    bt_addr_from_str (replicate 17 b':') (9 ∷ 9 ∷ 9 ∷ 9 ∷ 9 ∷ 9 ∷ [])
    ≡ some (true, 9 ∷ 9 ∷ 9 ∷ 9 ∷ 9 ∷ 9 ∷ [])
unfolding bt_addr_from_str from_str_loop
only_colons = refl

-- A digit behind six colons is written outside of the address.
six_colons :
    bt_addr_from_str
      (b':' ∷ b':' ∷ b':' ∷ b':' ∷ b':' ∷ b':' ∷ b'0' ∷ replicate 10 b':')
      (replicate 6 9)
    ≡ none
unfolding bt_addr_from_str from_str_loop char2hex
six_colons = refl
