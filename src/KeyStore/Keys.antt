-- ===== src/KeyStore/Keys.antt =====
-- What the stored keys of a device are, after its keys and those of another one were stored.
use zephyr_polling.Prelude.{
  ℕ, suc, ◌+◌, ◌<◌, ◌≡◌, refl, sym, ap, ◌∙◌, ◌⊎◌, inl, inr, true, false, none, ◌==◌, Bool-cases,
  ltb, ◌≤◌, some, List, arith, Option-cases,
}
use native.Mathlib.Decide.{dec_le}
use mathlib.Core.Path.{subst}
use zephyr_polling.Timers.{update}
use zephyr_polling.KeyStore.{
  Item, Header, Kv, matches, get_key_list_info_pos, get_key_list_info_index, list_append,
  select_index, get_key_list_info, key_store, key_get, search_ok, found, set_key_item, get_key_item,
}
use zephyr_polling.KeyStore.Find.{
  item_of, index-some, index-none, list_append-more, list_append-full, list_append-index,
  pos-append, pos-other, added, kept, pos_lt,
}

-- A list of at most 16 devices, each with one of the 16 items.
abbrev pub IsValid : Header → Type 0
IsValid h = (h.cnt ≤ 16) × ((j : ℕ) → j < h.cnt → (h.items j).index < 16)

cnt_le : (h : Header) → IsValid h → h.cnt ≤ 16
cnt_le h v = v.0

search_ok-none :
    (h : Header) (id addr : ℕ)
    → h.cnt ≤ 16
    → get_key_list_info_pos h id addr ≡ none
    → search_ok h id addr ≡ true
search_ok-none h id addr m e = ground arith

search_ok-some :
    (h : Header) (id addr p : ℕ)
    → h.cnt ≤ 16
    → get_key_list_info_pos h id addr ≡ some p
    → search_ok h id addr ≡ true
search_ok-some h id addr p m e = let l = pos_lt h id addr p e in ground arith

search_ok-small : (h : Header) (id addr : ℕ) → h.cnt ≤ 16 → search_ok h id addr ≡ true
search_ok-small h id addr m = elim (Option-cases (get_key_list_info_pos h id addr)) [
  | inl e ↦ search_ok-none h id addr m e
  | inr (p, e) ↦ search_ok-some h id addr p m e
]

index_lt :
    (h : Header) (id addr : ℕ) → IsValid h → select_index (get_key_list_info_index h id addr) < 16
index_lt h id addr v = elim (Option-cases (get_key_list_info_pos h id addr)) [
  | inl e ↦ omega (arith, ap select_index (index-none h id addr e))
  | inr (p, e) ↦
      omega (arith, ap select_index (index-some h id addr p e), v.1 p (pos_lt h id addr p e))
]

update-small :
    (items : ℕ → Item) (i : ℕ) (item : Item) (n : ℕ)
    → item.index < 16
    → ((j : ℕ) → j < n → (j == i) ≡ false → (items j).index < 16)
    → (j : ℕ) → j < n
    → (update items i item j).index < 16
update-small items i item n l h j b = elim (Bool-cases (j == i)) [
  | inl e ↦ rw e l
  | inr ne ↦ rw ne (h j b ne)
]

list_append-IsValid :
    (h : Header) (id addr index : ℕ)
    → IsValid h
    → index < 16
    → IsValid (list_append h id addr index)
list_append-IsValid h id addr index v l = elim (dec_le 16 h.cnt) [
  | yes full ↦
      subst IsValid (sym (list_append-full h id addr index full (v.0)))
        (v.0, update-small h.items 0 (item_of id addr index) h.cnt l (λ j b ne. v.1 j b))
  | no more ↦
      let room : h.cnt < 16 = omega arith in
      subst IsValid (sym (list_append-more h id addr index room)) (
        room,
        update-small h.items h.cnt (item_of id addr index) (suc h.cnt) l
            (λ j b ne. v.1 j (ground (arith, b, ne))),
      )
]

module _ (kv : Kv) where
  abbrev index_of : kv.Store → ℕ → ℕ → ℕ
  index_of s id addr = select_index (get_key_list_info_index (get_key_list_info kv s) id addr)

  -- The store that `key_store` leaves.
  abbrev stored : kv.Store → ℕ → ℕ → List ℕ → kv.Store
  stored s id addr key =
      kv.set_item
        (kv.set_list s (list_append (get_key_list_info kv s) id addr (index_of s id addr)))
        (index_of s id addr) key

  key_store-some :
      (s : kv.Store) (id addr : ℕ) (key : List ℕ)
      → (get_key_list_info kv s).cnt ≤ 16
      → index_of s id addr < 16
      → key_store kv s id addr key ≡ some (stored s id addr key)
  unfolding key_store set_key_item
  key_store-some s id addr key m l =
      let a = search_ok-small (get_key_list_info kv s) id addr m in
      let b : ltb (index_of s id addr) 16 ≡ true = ground arith in rw (a, b) refl

  list_read : (t : kv.Store) (h : Header) → kv.get_list t ≡ some h → get_key_list_info kv t ≡ h
  unfolding get_key_list_info
  list_read t h e = rw (e, get_key_list_info) refl

  stored-list :
      (s : kv.Store) (id addr : ℕ) (key : List ℕ)
      → get_key_list_info kv (stored s id addr key)
        ≡ list_append (get_key_list_info kv s) id addr (index_of s id addr)
  stored-list s id addr key =
      let i = index_of s id addr in
      let h' = list_append (get_key_list_info kv s) id addr i in
      let e = kv.get_list-set_item (kv.set_list s h') i key ∙ kv.get_list-set_list s h' in
      list_read (kv.set_item (kv.set_list s h') i key) h' e

  get_at :
      (s : kv.Store) (id addr i : ℕ) (key : List ℕ)
      → (get_key_list_info kv s).cnt ≤ 16
      → i < 16
      → get_key_list_info_index (get_key_list_info kv s) id addr ≡ some i
      → kv.get_item s i ≡ some key
      → key_get kv s id addr ≡ some (found (some key))
  unfolding key_get get_key_item
  get_at s id addr i key m l e r =
      let a = search_ok-small (get_key_list_info kv s) id addr m in
      let b : ltb i 16 ≡ true = ground arith in rw (a, e, b, r) refl

  -- The keys of a device that are stored are the ones that are read next. In a store with a valid list
  -- of devices (at most 16, each with one of the 16 items), storing the keys of a device fails at no
  -- assertion and reads nothing outside of the list; reading the keys of the device then returns 0
  -- with the same keys; and the list is valid again.
  pub key_get-key_store :
      (s : kv.Store) (id addr : ℕ) (key : List ℕ)
      → IsValid (get_key_list_info kv s)
      → (t : kv.Store) × (key_store kv s id addr key ≡ some t)
        × (key_get kv t id addr ≡ some (found (some key)))
        × IsValid (get_key_list_info kv t)
  key_get-key_store s id addr key v =
      let h = get_key_list_info kv s in
      let i = index_of s id addr in
      let l = index_lt h id addr v in
      let again : IsValid (get_key_list_info kv (stored s id addr key)) =
        subst IsValid (sym (stored-list s id addr key)) (list_append-IsValid h id addr i v l) in
      let before : (get_key_list_info_index h id addr ≡ none)
          ⊎ (get_key_list_info_index h id addr ≡ some i) =
        elim (Option-cases (get_key_list_info_index h id addr)) [
          | inl e ↦ inl e
          | inr (j, e) ↦ inr (e ∙ ap some (sym (ap select_index e)))
        ] in
      (
        stored s id addr key,
        key_store-some s id addr key (cnt_le h v) l,
        get_at (stored s id addr key) id addr i key
            (cnt_le (get_key_list_info kv (stored s id addr key)) again) l
            (ap (λ k. get_key_list_info_index k id addr) (stored-list s id addr key)
              ∙ list_append-index h id addr i (cnt_le h v) before)
            (kv.get_item-set_item _ _ key),
        again,
      )

  -- Two devices that are not in the list of stored keys, which has room for both, get the same item:
  -- after the keys of both were stored, those of the second are read for the first.
  pub key_store_shared :
      (s : kv.Store) (id addr id' addr' : ℕ) (key key' : List ℕ)
      → (get_key_list_info kv s).cnt + 1 < 16
      → get_key_list_info_pos (get_key_list_info kv s) id addr ≡ none
      → get_key_list_info_pos (get_key_list_info kv s) id' addr' ≡ none
      → matches (item_of id addr 0) id' addr' ≡ false
      → matches (item_of id' addr' 0) id addr ≡ false
      → (s₁ : kv.Store) × (s₂ : kv.Store) × (key_store kv s id addr key ≡ some s₁)
        × (key_store kv s₁ id' addr' key' ≡ some s₂)
        × (key_get kv s₂ id addr ≡ some (found (some key')))
  key_store_shared s id addr id' addr' key key' room new new' away away' =
      let h = get_key_list_info kv s in
      let s₁ = stored s id addr key in
      let s₂ = stored s₁ id' addr' key' in
      let h₁ : Header = record {
        cnt = suc h.cnt;
        items = update h.items h.cnt (item_of id addr 0);
      } in
      let h₂ : Header = record {
        cnt = suc (suc h.cnt);
        items = update h₁.items (suc h.cnt) (item_of id' addr' 0);
      } in
      let zero_first : index_of s id addr ≡ 0 = ap select_index (index-none h id addr new) in
      let first : get_key_list_info kv s₁ ≡ h₁ =
        stored-list s id addr key
        ∙ ap (list_append h id addr) zero_first
        ∙ list_append-more h id addr 0 (omega arith) in
      let none_yet : get_key_list_info_index (get_key_list_info kv s₁) id' addr' ≡ none =
        ap (λ k. get_key_list_info_index k id' addr') first
        ∙ index-none h₁ id' addr' (pos-other h id addr 0 id' addr' away ∙ new') in
      let zero_second : index_of s₁ id' addr' ≡ 0 = ap select_index none_yet in
      let second : get_key_list_info kv s₂ ≡ h₂ =
        stored-list s₁ id' addr' key'
        ∙ ap (list_append (get_key_list_info kv s₁) id' addr') zero_second
        ∙ ap (λ k. list_append k id' addr' 0) first
        ∙ list_append-more h₁ id' addr' 0 (omega arith) in
      let at : get_key_list_info_pos h₂ id addr ≡ some h.cnt =
        pos-other h₁ id' addr' 0 id addr away' ∙ (pos-append h id addr 0 (omega arith)).0 new in
      let there : h₂.items h.cnt ≡ item_of id addr 0 =
        kept h₁ id' addr' 0 h.cnt (omega arith) (omega arith) ∙ added h id addr 0 in
      (
        s₁,
        s₂,
        key_store-some s id addr key (omega arith) (omega (arith, zero_first)),
        key_store-some s₁ id' addr' key' (omega (arith, ap (λ (k : Header). k.cnt) first))
            (omega (arith, zero_second)),
        get_at s₂ id addr 0 key' (omega (arith, ap (λ (k : Header). k.cnt) second)) (omega arith)
            (ap (λ k. get_key_list_info_index k id addr) second
              ∙ index-some h₂ id addr h.cnt at
              ∙ ap (λ (k : Item). some k.index) there)
            (ap (kv.get_item s₂) (sym zero_second) ∙ kv.get_item-set_item _ _ key'),
      )
