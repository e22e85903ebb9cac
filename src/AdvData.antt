-- ===== src/AdvData.antt =====
-- Advertising data: how src/host/adv.c lays out its elements, and how `bt_data_parse` of
-- src/host/hci_core.c reads them. The arrays that an advertiser is given are lists of lists.
pub mod RoundTrip
use zephyr_polling.Prelude.{
  ℕ, zero, suc, ◌+◌, ◌-◌, Bool, true, false, ◌&&◌, Option, none, some, List, [], ◌∷◌, ◌++◌, length,
  take, drop, replicate, ltb, ◌==◌, if◌then◌else◌,
}

-- `struct bt_data`
pub record Data : Type 0 where
  pub type : ℕ
  pub value : List ℕ

abbrev pub name_shortened : ℕ
name_shortened = 8

abbrev pub name_complete : ℕ
name_complete = 9

-- BT_GAP_ADV_MAX_ADV_DATA_LEN
abbrev pub max_adv_data_len : ℕ
max_adv_data_len = 31

-- The two loops over the elements, one after the other.
abbrev pub flatten : List (List Data) → List Data
flatten [] = []
flatten (ds ∷ ad) = ds ++ flatten ad

-- Length, type and value.
abbrev pub element : ℕ → List ℕ → List ℕ
element type value = (length value + 1) ∷ (type ∷ value)

abbrev pub behind : List ℕ → Option (List ℕ) → Option (List ℕ)
behind xs none = none
behind xs (some ys) = some (xs ++ ys)

-- `set_data_add_complete` from an element on, with `n` bytes written; `none` is -EINVAL. A name that
-- does not fit is shortened.
abbrev pub add_from : ℕ → ℕ → List Data → Option (List ℕ)
add_from max n [] = some []
add_from max n (d ∷ ds) =
    let len = length d.value in
    let short = max - (n + 2) in
    let rest = add_from max (n + len + 2) ds in
    let rest_short = add_from max (n + short + 2) ds in
    if ltb max (n + len + 2)
    then (if (d.type == name_complete) && ltb (n + 2) max
        then behind (element name_shortened (take short d.value)) rest_short
        else none)
    else behind (element d.type d.value) rest

unfoldable pub set_data_add_complete : ℕ → List (List Data) → Option (List ℕ)
set_data_add_complete max ad = add_from max 0 (flatten ad)

-- The parameters of the command: the length, and the data filled up with zeros.
pub record SetAdvData : Type 0 where
  pub len : ℕ
  pub bytes : List ℕ

abbrev pub filled_up : Option (List ℕ) → Option SetAdvData
filled_up none = none
filled_up (some xs) =
    some (record { len = length xs; bytes = xs ++ replicate (max_adv_data_len - length xs) 0 })

unfoldable pub hci_set_ad : List (List Data) → Option SetAdvData
hci_set_ad ad = filled_up (set_data_add_complete max_adv_data_len ad)

-- The elements for which `func` is called; it is called no more once it has returned false. Each round
-- of the loop takes a byte at least, so that the length is enough rounds.
abbrev pub parse : ℕ → (Data → Bool) → List ℕ → List Data
parse zero func bytes = []
parse (suc n) func [] = []
parse (suc n) func (len ∷ []) = []
parse (suc n) func (len ∷ (type ∷ more)) =
    let d : Data = record { type = type; value = take (len - 1) more } in
    let rest = parse n func (drop (len - 1) more) in
    if len == 0
    then []
    else if ltb (suc (length more)) len
    then []
    else if func d
    then d ∷ rest
    else d ∷ []

unfoldable pub bt_data_parse : (Data → Bool) → List ℕ → List Data
bt_data_parse func bytes = parse (length bytes) func bytes
