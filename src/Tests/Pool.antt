-- ===== src/Tests/Pool.antt =====
-- A pool of two slots: one device with an identity key, and a free slot.
use zephyr_polling.Prelude.{
  arith, true, ℕ, ◌+◌, ◌%◌, ◌^◌, ◌*◌, ◌≡◌, refl, Option, some, none, List, [], ◌∷◌, All,
}
use zephyr_polling.Prelude.Bits.{has, land}
use zephyr_polling.Rpa.{LeAddr, bt_rpa_create, ah, set_rpa}
use zephyr_polling.KeyPool.{
  Keys, addr_le_any, bt_keys_find, bt_keys_find_irk, bt_keys_get_type, bt_keys_get_addr,
}
use zephyr_polling.KeyPool.Slots.{bt_keys_find-get_type, bt_keys_get_type-IsOther, IsOther}
use zephyr_polling.KeyPool.Irk.{bt_keys_find_irk-create, private_addr, MayOwn, Resolves}

-- A cipher for tests, and one that fails.
abbrev summing : ℕ → ℕ → Option ℕ
summing key block = some (key + block)

abbrev broken : ℕ → ℕ → Option ℕ
broken key block = none

abbrev phone : LeAddr
phone = record { type = 1; val = 7 }

abbrev watch : LeAddr
watch = record { type = 0; val = 9 }

abbrev bonded : Keys
bonded = record { id = 0; addr = phone; keys = 2; irk = 5; rpa = 0 }

abbrev empty_slot : Keys
empty_slot = record { id = 0; addr = addr_le_any; keys = 0; irk = 0; rpa = 0 }

abbrev two_slots : List Keys
two_slots = bonded ∷ empty_slot ∷ []

abbrev rpa_val : ℕ
rpa_val = (5 + (2 ^ 22 + 3)) % 2 ^ 24 + (2 ^ 22 + 3) * 2 ^ 24

no_key_type : has 0 2 ≡ true → ◌≡◌ {A = ℕ} 0 5
unfolding has land
no_key_type h = ground arith

bt_keys_find_irk-create_example :
    Resolves broken 0
      (private_addr rpa_val)
      5
      (bt_keys_find_irk summing two_slots 0 (private_addr rpa_val))
unfolding bt_rpa_create ah set_rpa has land
bt_keys_find_irk-create_example =
    bt_keys_find_irk-create summing broken (some 3) two_slots 0 5 rpa_val 0 refl refl
      ((λ own. refl), ((λ (own : MayOwn summing 0 rpa_val empty_slot). no_key_type (own.0)), tt))

bt_keys_find-get_type_example :
    bt_keys_find (bt_keys_get_type two_slots 4 0 watch).pool 4 0 watch ≡ some 1
unfolding bt_keys_get_type bt_keys_get_addr bt_keys_find has land
bt_keys_find-get_type_example = bt_keys_find-get_type two_slots 4 0 watch 1 refl refl

bt_keys_get_type-IsOther_example : All (IsOther 0 watch) (bonded ∷ [])
unfolding bt_keys_get_type bt_keys_get_addr bt_keys_find has land
bt_keys_get_type-IsOther_example = bt_keys_get_type-IsOther (bonded ∷ []) 4 0 watch refl
