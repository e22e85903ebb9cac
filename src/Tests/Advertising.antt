-- ===== src/Tests/Advertising.antt =====
-- Advertising data: flags in one array, a name and an appearance in another one.
use zephyr_polling.Prelude.{◌++◌, ◌-◌, replicate, ◌≡◌, refl, some, List, [], ◌∷◌, length, arith}
use zephyr_polling.AdvData.{
  Data, SetAdvData, flatten, hci_set_ad, set_data_add_complete, bt_data_parse,
}
use zephyr_polling.AdvData.RoundTrip.{layout, every, bt_data_parse-hci_set_ad}

abbrev two_arrays : List (List Data)
two_arrays =
    (record { type = 1; value = 6 ∷ [] } ∷ [])
    ∷ (record { type = 9; value = 90 ∷ 66 ∷ [] } ∷ record { type = 25; value = 0 ∷ 3 ∷ [] } ∷ [])
    ∷ []

bt_data_parse-hci_set_ad_example :
    (p : SetAdvData) × (hci_set_ad two_arrays ≡ some p)
    × (p.len ≡ length (layout (flatten two_arrays)))
    × (p.bytes ≡ layout (flatten two_arrays) ++ replicate (31 - p.len) 0)
    × (length p.bytes ≡ 31)
    × (bt_data_parse every p.bytes ≡ flatten two_arrays)
bt_data_parse-hci_set_ad_example = bt_data_parse-hci_set_ad two_arrays (omega arith)

-- A name that does not fit is shortened.
shortened_name :
    set_data_add_complete 5 ((record { type = 9; value = 65 ∷ 66 ∷ 67 ∷ 68 ∷ [] } ∷ []) ∷ [])
    ≡ some (4 ∷ 8 ∷ 65 ∷ 66 ∷ 67 ∷ [])
unfolding set_data_add_complete
shortened_name = refl
