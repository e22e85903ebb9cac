-- ===== src/Tests/Keys.antt =====
-- The stored keys of src/host/keys.c at concrete inputs.
use zephyr_polling.Prelude.{
  ℕ, ◌+◌, ◌<◌, ◌≡◌, refl, Option, none, some, List, [], ◌∷◌, arith, ==_self,
}
use zephyr_polling.Timers.{update}
use zephyr_polling.KeyStore.{
  Header, Kv, get_key_list_info, get_key_list_info_pos, key_store, key_get, key_delete,
  set_key_item, get_key_list_info_index, list_delete, found,
}
use zephyr_polling.KeyStore.Keys.{key_get-key_store, key_store_shared, IsValid}

abbrev kv : Kv
kv = record {
  Store = Option Header × (ℕ → Option (List ℕ));
  get_list = λ s. s.0;
  set_list = λ s h. (some h, s.1);
  get_item = λ s i. s.1 i;
  set_item = λ s i k. (s.0, update s.1 i (some k));
  get_list-set_list = λ s h. refl;
  get_list-set_item = λ s i k. refl;
  get_item-set_list = λ s h i. refl;
  get_item-set_item = λ s i k. rw (==_self i) refl;
}

abbrev empty : kv.Store
empty = (none, λ i. none)

-- 77 has the item 3.
abbrev one_device : kv.Store
one_device = (
  some (record { cnt = 1; items = λ i. record { id = 0; index = 3; addr = 77 } }),
  λ i. some (5 ∷ []),
)

one_device-IsValid : IsValid (get_key_list_info kv one_device)
unfolding get_key_list_info
one_device-IsValid = (omega arith, λ j l. omega arith)

key_store_example :
    (t : kv.Store) × (key_store kv one_device 0 77 (1 ∷ 2 ∷ []) ≡ some t)
    × (key_get kv t 0 77 ≡ some (found (some (1 ∷ 2 ∷ []))))
    × IsValid (get_key_list_info kv t)
key_store_example = key_get-key_store kv one_device 0 77 (1 ∷ 2 ∷ []) one_device-IsValid

-- An item that there is not.
abbrev bad_index : kv.Store
bad_index =
    (some (record { cnt = 1; items = λ i. record { id = 0; index = 16; addr = 77 } }), λ i. none)

asserts : key_store kv bad_index 0 77 [] ≡ none
unfolding key_store set_key_item get_key_list_info get_key_list_info_index get_key_list_info_pos
asserts = refl

empty_room : (get_key_list_info kv empty).cnt + 1 < 16
unfolding get_key_list_info
empty_room = omega arith

empty_away : (id addr : ℕ) → get_key_list_info_pos (get_key_list_info kv empty) id addr ≡ none
unfolding get_key_list_info get_key_list_info_pos
empty_away id addr = refl

shared_example :
    (s₁ : kv.Store) × (s₂ : kv.Store) × (key_store kv empty 0 77 (1 ∷ []) ≡ some s₁)
    × (key_store kv s₁ 0 88 (2 ∷ []) ≡ some s₂)
    × (key_get kv s₂ 0 77 ≡ some (found (some (2 ∷ []))))
shared_example =
    key_store_shared kv empty 0 77 0 88 (1 ∷ []) (2 ∷ []) empty_room (empty_away 0 77)
      (empty_away 0 88) refl refl

-- The device that is first in the list is not deleted.
first_stays : key_delete kv one_device 0 77 ≡ some one_device
unfolding key_delete list_delete get_key_list_info get_key_list_info_pos
first_stays = refl
