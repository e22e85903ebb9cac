-- ===== src/KeyStore/Find.antt =====
-- Where a device is found in the list, before and after it is added.
use zephyr_polling.Prelude.{
  ℕ, zero, suc, ◌+◌, ◌≤◌, ◌<◌, ◌≡◌, refl, sym, ap, ◌∙◌, ◌⊎◌, inl, inr, true, false, none, some,
  if◌then◌else◌, arith, ==_self, ==_ne, Bool-cases, Option-cases,
}
use native.Mathlib.Decide.{dec_le}
use mathlib.Core.Path.{subst}
use zephyr_polling.Timers.{update}
use zephyr_polling.KeyStore.{
  Item, Header, matches, pos_from, get_key_list_info_pos, get_key_list_info_index, list_append,
}

module _ (id addr : ℕ) where
  -- Items from `i` on, `n` of them, are all that counts.
  pub pos_from-same :
      (n i : ℕ) (items items' : ℕ → Item)
      → ((j : ℕ) → i ≤ j → j < i + n → items' j ≡ items j)
      → pos_from n i items' id addr ≡ pos_from n i items id addr
  pos_from-same zero i items items' h = refl
  pos_from-same (suc n) i items items' h =
      let p = pos_from-same n (i + 1) items items' (λ j a b. h j (omega arith) (omega arith)) in
      let e = h i (omega arith) (omega arith) in
      let m : matches (items' i) id addr ≡ matches (items i) id addr =
        ap (λ k. matches k id addr) e in
      ground arith

  -- A device that is found is still found when the list grows.
  pub pos_from-longer :
      (n i : ℕ) (items : ℕ → Item) (p : ℕ)
      → pos_from n i items id addr ≡ some p
      → (pos_from (suc n) i items id addr ≡ some p) × (p < i + n)
  pos_from-longer zero i items p h = absurd (cc h)
  pos_from-longer (suc n) i items p h = elim (Bool-cases (matches (items i) id addr)) [
    | inl y ↦ (ground arith, ground arith)
    | inr away ↦
        let h' : pos_from n (i + 1) items id addr ≡ some p = ground arith in
        let (q, l) = pos_from-longer n (i + 1) items p h' in (ground arith, omega arith)
  ]

  -- A device that is not found is found at the end, where it is added.
  pub pos_from-end :
      (n i : ℕ) (items : ℕ → Item)
      → pos_from n i items id addr ≡ none
      → matches (items (i + n)) id addr ≡ true
      → pos_from (suc n) i items id addr ≡ some (i + n)
  pos_from-end zero i items h m =
      let k : i + 0 ≡ i = omega arith in
      let m' : matches (items i) id addr ≡ true =
        subst (λ j. matches (items j) id addr ≡ true) k m in
      ground arith
  pos_from-end (suc n) i items h m = elim (Bool-cases (matches (items i) id addr)) [
    | inl y ↦ absurd (ground arith)
    | inr away ↦
        let h' : pos_from n (i + 1) items id addr ≡ none = ground arith in
        let k : i + suc n ≡ i + 1 + n = omega arith in
        let m' = subst (λ j. matches (items j) id addr ≡ true) k m in
        let p = pos_from-end n (i + 1) items h' m' in
        let q : pos_from (suc (suc n)) i items id addr ≡ pos_from (suc n) (i + 1) items id addr =
          rw away refl in
        q ∙ p ∙ ap some (sym k)
  ]

module _ (id addr : ℕ) where
  -- An item of another device at the end changes nothing.
  pub pos_from-other :
      (n i : ℕ) (items : ℕ → Item)
      → matches (items (i + n)) id addr ≡ false
      → pos_from (suc n) i items id addr ≡ pos_from n i items id addr
  pos_from-other zero i items m =
      let k : i + 0 ≡ i = omega arith in
      let m' : matches (items i) id addr ≡ false =
        subst (λ j. matches (items j) id addr ≡ false) k m in
      ground arith
  pos_from-other (suc n) i items m =
      let k : i + suc n ≡ i + 1 + n = omega arith in
      let m' = subst (λ j. matches (items j) id addr ≡ false) k m in
      let p = pos_from-other n (i + 1) items m' in
      ap (λ r. if matches (items i) id addr then some i else r) p

pub pos_lt : (h : Header) (id addr p : ℕ) → get_key_list_info_pos h id addr ≡ some p → p < h.cnt
unfolding get_key_list_info_pos
pos_lt h id addr p e = let (q, l) = pos_from-longer id addr h.cnt 0 h.items p e in omega (arith, l)

pub index-some :
    (h : Header) (id addr p : ℕ)
    → get_key_list_info_pos h id addr ≡ some p
    → get_key_list_info_index h id addr ≡ some (h.items p).index
unfolding get_key_list_info_index
index-some h id addr p e = rw (e, get_key_list_info_index) refl

pub index-none :
    (h : Header) (id addr : ℕ)
    → get_key_list_info_pos h id addr ≡ none
    → get_key_list_info_index h id addr ≡ none
unfolding get_key_list_info_index
index-none h id addr e = rw (e, get_key_list_info_index) refl

abbrev pub item_of : ℕ → ℕ → ℕ → Item
item_of id addr index = record { id = id; index = index; addr = addr }

matches_self : (id addr index : ℕ) → matches (item_of id addr index) id addr ≡ true
matches_self id addr index = ground (arith, ==_self id, ==_self addr)

module _ (h : Header) (id addr index : ℕ) where
  pub list_append-more :
      h.cnt < 16
      → list_append h id addr index
        ≡ record { cnt = suc h.cnt; items = update h.items h.cnt (item_of id addr index) }
  unfolding list_append
  list_append-more l = ground arith

  pub list_append-full :
      16 ≤ h.cnt
      → h.cnt ≤ 16
      → list_append h id addr index ≡ record h { items = update h.items 0 (item_of id addr index) }
  unfolding list_append
  list_append-full l m = ground arith

  pub added : update h.items h.cnt (item_of id addr index) h.cnt ≡ item_of id addr index
  added = rw (==_self h.cnt) refl

  pub kept :
      (j : ℕ) → 0 ≤ j → j < 0 + h.cnt → update h.items h.cnt (item_of id addr index) j ≡ h.items j
  kept j a b = rw (==_ne j h.cnt (omega arith)) refl

  -- A device that was not in a list with room is found behind the others, and a device that was is
  -- found where it was.
  pub pos-append :
      h.cnt < 16
      → let h' : Header = record {
        cnt = suc h.cnt;
        items = update h.items h.cnt (item_of id addr index);
      } in
        (get_key_list_info_pos h id addr ≡ none → get_key_list_info_pos h' id addr ≡ some h.cnt)
        × ((p : ℕ)
            → get_key_list_info_pos h id addr ≡ some p
            → (get_key_list_info_pos h' id addr ≡ some p) × (p < h.cnt))
  unfolding get_key_list_info_pos
  pos-append l =
      let items' = update h.items h.cnt (item_of id addr index) in
      let same = pos_from-same id addr h.cnt 0 h.items items' kept in
      (
        λ e.
            pos_from-end id addr h.cnt 0 items' (same ∙ e) (
              ap (λ k. matches k id addr) (ap items' (omega arith) ∙ added)
              ∙ matches_self id addr index)
            ∙ ap some (omega arith),
        λ p e. let (q, b) = pos_from-longer id addr h.cnt 0 items' p (same ∙ e) in (q, omega arith),
      )

  pub pos-full :
      16 ≤ h.cnt
      → get_key_list_info_pos
          (record h { items = update h.items 0 (item_of id addr index) })
          id
          addr
        ≡ some 0
  unfolding get_key_list_info_pos
  pos-full l = pos_from-first h.cnt (omega arith)
    where
      pos_from-first :
          (n : ℕ) → 0 < n → pos_from n 0 (update h.items 0 (item_of id addr index)) id addr ≡ some 0
      pos_from-first zero l = absurd (omega arith)
      pos_from-first (suc n) l = rw (matches_self id addr index) refl

  -- Adding another device to a list with room changes nothing for a device.
  pub pos-other :
      (id' addr' : ℕ)
      → matches (item_of id addr index) id' addr' ≡ false
      → let h' : Header = record {
        cnt = suc h.cnt;
        items = update h.items h.cnt (item_of id addr index);
      } in
        get_key_list_info_pos h' id' addr' ≡ get_key_list_info_pos h id' addr'
  unfolding get_key_list_info_pos
  pos-other id' addr' away =
      let items' = update h.items h.cnt (item_of id addr index) in
      pos_from-other id' addr' h.cnt 0 items'
        (ap (λ k. matches k id' addr') (ap items' (omega arith) ∙ added) ∙ away)
      ∙ pos_from-same id' addr' h.cnt 0 h.items items' kept

-- What adding a device leaves: it is found, and the item of the first match has its index, if that is
-- the index that the device had.
pub list_append-index :
    (h : Header) (id addr index : ℕ)
    → h.cnt ≤ 16
    → (get_key_list_info_index h id addr ≡ none) ⊎ (get_key_list_info_index h id addr ≡ some index)
    → get_key_list_info_index (list_append h id addr index) id addr ≡ some index
list_append-index h id addr index m before = elim (dec_le 16 h.cnt) [
  | yes full ↦
      ap (λ k. get_key_list_info_index k id addr) (list_append-full h id addr index full m)
      ∙ index-some _ id addr 0 (pos-full h id addr index full)
  | no more ↦
      let room : h.cnt < 16 = omega arith in
      let (new, old) = pos-append h id addr index room in
      ap (λ k. get_key_list_info_index k id addr) (list_append-more h id addr index room)
      ∙ (elim (Option-cases (get_key_list_info_pos h id addr)) [
        | inl e ↦
            index-some _ id addr h.cnt (new e)
            ∙ ap (λ (k : Item). some k.index) (added h id addr index)
        | inr (p, e) ↦
            let (q, l) = old p e in
            let was = index-some h id addr p e in
            let is : (h.items p).index ≡ index = elim before [
              | inl none_there ↦ absurd (cc (sym was ∙ none_there))
              | inr there ↦ cc (sym was ∙ there)
            ] in
            index-some _ id addr p q
            ∙ ap (λ (k : Item). some k.index) (kept h id addr index p (omega arith) (omega arith))
            ∙ ap some is
      ])
]
