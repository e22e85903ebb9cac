-- ===== src/KeyStore.antt =====
-- The stored keys of src/host/keys.c: a list of the devices that have keys, and numbered items with
-- the keys. An address is the number that its seven bytes make up, a key the bytes that are stored.
-- The store itself is the platform's, and is a parameter.
pub mod Find
pub mod Keys
use zephyr_polling.Prelude.{
  ℕ, zero, suc, ◌+◌, ◌-◌, ◌≡◌, ◌≢◌, Bool, true, false, ◌&&◌, Option, none, some, List, ltb, leb,
  ◌==◌, not, ◌||◌, ◌%◌, if◌then◌else◌,
}
use zephyr_polling.Timers.{update}

pub record Item : Type 0 where
  pub id : ℕ
  pub index : ℕ
  pub addr : ℕ

-- The magic number is not kept: a header without it is the same as none.
pub record Header : Type 0 where
  pub cnt : ℕ
  pub items : ℕ → Item

-- The key-value store that a platform registers (src/common/bt_storage_kv.c only passes calls on). The
-- laws are what keys.c relies on: what `bt_storage_kv_set` wrote under one key is what
-- `bt_storage_kv_get` reads there, and other keys keep their values. They are not true of a platform
-- that keeps nothing, as platform/rtthread/rtthread_bt_storage_kv_impl.c, which only prints. `none` is
-- an error, or a value of another length.
pub record Kv : Type 1 where
  pub Store : Type 0
  pub get_list : Store → Option Header
  pub set_list : Store → Header → Store
  pub get_item : Store → ℕ → Option (List ℕ)
  pub set_item : Store → ℕ → List ℕ → Store
  pub get_list-set_list : (s : Store) (h : Header) → get_list (set_list s h) ≡ some h
  pub get_list-set_item : (s : Store) (i : ℕ) (k : List ℕ) → get_list (set_item s i k) ≡ get_list s
  pub get_item-set_list :
      (s : Store) (h : Header) (i : ℕ) → get_item (set_list s h) i ≡ get_item s i
  pub get_item-set_item : (s : Store) (i : ℕ) (k : List ℕ) → get_item (set_item s i k) i ≡ some k

abbrev pub init_key_list_info : Header
init_key_list_info = record { cnt = 0; items = λ i. record { id = 0; index = 0; addr = 0 } }

abbrev pub matches : Item → ℕ → ℕ → Bool
matches item id addr = (item.id == id) && (item.addr == addr)

-- The loop of `bt_storage_kv_get_key_list_info_pos`, with `n` items to go from `i` on; `none` is -1.
abbrev pub pos_from : ℕ → ℕ → (ℕ → Item) → ℕ → ℕ → Option ℕ
pos_from zero i items id addr = none
pos_from (suc n) i items id addr =
    let rest = pos_from n (i + 1) items id addr in
    if matches (items i) id addr then some i else rest

unfoldable pub get_key_list_info_pos : Header → ℕ → ℕ → Option ℕ
get_key_list_info_pos h id addr = pos_from h.cnt 0 h.items id addr

unfoldable pub get_key_list_info_index : Header → ℕ → ℕ → Option ℕ
get_key_list_info_index h id addr = elim (get_key_list_info_pos h id addr) [
  | none ↦ none
  | some pos ↦ some (h.items pos).index
]

-- BT_SETTINGS_KEY_MAX
abbrev pub key_max : ℕ
key_max = 16

-- With 16 items there are, the first one is replaced. The number is taken as a byte.
unfoldable pub list_append : Header → ℕ → ℕ → ℕ → Header
list_append h id addr index =
    let item : Item = record { id = id; index = index; addr = addr } in
    let store_index = h.cnt % 256 in
    if leb key_max store_index
    then record h { items = update h.items 0 item }
    else record { cnt = suc h.cnt; items = update h.items store_index item }

-- The loop that closes the gap, `n` items to move from `i` on.
abbrev pub close_gap : ℕ → ℕ → (ℕ → Item) → ℕ → Item
close_gap zero i items = items
close_gap (suc n) i items = close_gap n (i + 1) (update items i (items (i + 1)))

-- `none`: nothing is written.
unfoldable pub list_delete : Header → ℕ → ℕ → Option Header
list_delete h id addr = elim (get_key_list_info_pos h id addr) [
  | none ↦ none
  | some pos ↦
      if ltb 0 pos
      then some (record { cnt = h.cnt - 1; items = close_gap (h.cnt - 1 - pos) pos h.items })
      else none
]

-- A device that is not in the list gets the item 0.
abbrev pub select_index : Option ℕ → ℕ
select_index none = 0
select_index (some i) = i

-- Whether the search reads only the items that the array has.
abbrev pub search_ok : Header → ℕ → ℕ → Bool
search_ok h id addr = elim (get_key_list_info_pos h id addr) [
  | none ↦ leb h.cnt key_max
  | some pos ↦ ltb pos key_max
]

-- Whether closing the gap does, too.
abbrev pub delete_ok : Header → ℕ → ℕ → Bool
delete_ok h id addr = elim (get_key_list_info_pos h id addr) [
  | none ↦ leb h.cnt key_max
  | some pos ↦ not (ltb 0 pos) || leb h.cnt key_max
]

-- The results -1 and 0 of `bt_storage_kv_key_get`, the second with what was read of the item.
pub data KeyGet : Type 0 where
  not_found : KeyGet
  found : Option (List ℕ) → KeyGet

-- `none` is a failed assertion, or a read outside of the items.
module _ (kv : Kv) where
  unfoldable pub get_key_list_info : kv.Store → Header
  get_key_list_info s = elim (kv.get_list s) [ none ↦ init_key_list_info | some h ↦ h ]

  unfoldable pub set_key_item : kv.Store → ℕ → List ℕ → Option kv.Store
  set_key_item s index key = if ltb index key_max then some (kv.set_item s index key) else none

  unfoldable pub get_key_item : kv.Store → ℕ → Option KeyGet
  get_key_item s index = if ltb index key_max then some (found (kv.get_item s index)) else none

  unfoldable pub key_store : kv.Store → ℕ → ℕ → List ℕ → Option kv.Store
  key_store s id addr key =
      let h = get_key_list_info s in
      let index = select_index (get_key_list_info_index h id addr) in
      if search_ok h id addr
      then set_key_item (kv.set_list s (list_append h id addr index)) index key
      else none

  unfoldable pub key_get : kv.Store → ℕ → ℕ → Option KeyGet
  key_get s id addr =
      let h = get_key_list_info s in
      if search_ok h id addr
      then elim (get_key_list_info_index h id addr) [
        | none ↦ some not_found
        | some i ↦ get_key_item s i
      ]
      else none

  unfoldable pub key_delete : kv.Store → ℕ → ℕ → Option kv.Store
  key_delete s id addr =
      let h = get_key_list_info s in
      if delete_ok h id addr
      then elim (list_delete h id addr) [ none ↦ some s | some h' ↦ some (kv.set_list s h') ]
      else none
