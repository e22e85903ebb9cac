-- ===== src/AdvData/RoundTrip.antt =====
-- What is advertised by src/host/adv.c is what `bt_data_parse` of src/host/hci_core.c reads.
use zephyr_polling.Prelude.{
  ℕ, zero, suc, ◌+◌, ◌-◌, ◌≤◌, ◌≡◌, refl, ap, Bool, true, false, some, List, [], ◌∷◌, ◌++◌, length,
  length-append, length-replicate, take, drop, replicate, ltb, ◌==◌, arith, append_assoc,
}
use zephyr_polling.AdvData.{
  Data, flatten, element, add_from, set_data_add_complete, SetAdvData, filled_up, hci_set_ad, parse,
  bt_data_parse,
}

-- The bytes of elements.
abbrev pub layout : List Data → List ℕ
layout [] = []
layout (d ∷ ds) = element d.type d.value ++ layout ds

-- Elements that fit are laid out one behind the other.
add_from-fits :
    (max n : ℕ) (ds : List Data)
    → n + length (layout ds) ≤ max
    → add_from max n ds ≡ some (layout ds)
add_from-fits max n [] h = refl
add_from-fits max n (d ∷ ds) h =
    let split = length-append d.value (layout ds) in
    let ih = add_from-fits max (n + length d.value + 2) ds (omega arith) in
    let fits : ltb max (n + length d.value + 2) ≡ false = ground arith in rw (fits, ih) refl

take-append : (xs ys : List ℕ) → take (length xs) (xs ++ ys) ≡ xs
take-append [] ys = refl
take-append (x ∷ xs) ys = ap (λ r. x ∷ r) (take-append xs ys)

drop-append : (xs ys : List ℕ) → drop (length xs) (xs ++ ys) ≡ ys
drop-append [] ys = refl
drop-append (x ∷ xs) ys = drop-append xs ys

abbrev pub every : Data → Bool
every d = true

-- Zeros are read as the end.
parse-zeros : (n k : ℕ) → parse n every (replicate k 0) ≡ []
parse-zeros zero k = refl
parse-zeros (suc n) zero = refl
parse-zeros (suc n) (suc zero) = refl
parse-zeros (suc n) (suc (suc k)) = refl

parse-layout :
    (n : ℕ) (ds : List Data) (k : ℕ)
    → length (layout ds) ≤ n
    → parse n every (layout ds ++ replicate k 0) ≡ ds
parse-layout n [] k h = parse-zeros n k
parse-layout zero (d ∷ ds) k h = absurd (omega arith)
parse-layout (suc n) (d ∷ ds) k h =
    let tail = layout ds ++ replicate k 0 in
    let split = length-append d.value (layout ds) in
    let assoc : (d.value ++ layout ds) ++ replicate k 0 ≡ d.value ++ tail =
      append_assoc d.value (layout ds) (replicate k 0) in
    let ih = parse-layout n ds k (omega arith) in
    let not_zero : ((length d.value + 1) == 0) ≡ false = ground arith in
    let size = length-append d.value tail in
    let inside : ltb (suc (length (d.value ++ tail))) (length d.value + 1) ≡ false = ground arith in
    let one_less : length d.value + 1 - 1 ≡ length d.value = omega arith in
    rw (assoc, not_zero, inside, one_less, take-append d.value tail, drop-append d.value tail, ih)
      refl

-- Elements that fit into the data of an advertisement are sent one behind the other, each with its
-- length and type, with the length of all of them, and filled up with zeros to 31 bytes; a scanner reads from that exactly these elements, in order, from all of the arrays.
pub bt_data_parse-hci_set_ad :
    (ad : List (List Data))
    → length (layout (flatten ad)) ≤ 31
    → (p : SetAdvData) × (hci_set_ad ad ≡ some p)
      × (p.len ≡ length (layout (flatten ad)))
      × (p.bytes ≡ layout (flatten ad) ++ replicate (31 - p.len) 0)
      × (length p.bytes ≡ 31)
      × (bt_data_parse every p.bytes ≡ flatten ad)
unfolding hci_set_ad set_data_add_complete bt_data_parse
bt_data_parse-hci_set_ad ad h =
    let xs = layout (flatten ad) in
    let zeros = replicate (31 - length xs) 0 in
    let size = length-append xs zeros in
    let filled : length zeros ≡ 31 - length xs = length-replicate (31 - length xs) 0 in
    (
      record { len = length xs; bytes = xs ++ zeros },
      ap filled_up (add_from-fits 31 0 (flatten ad) (omega arith)),
      refl,
      refl,
      omega arith,
      parse-layout _ (flatten ad) (31 - length xs) (omega arith),
    )
