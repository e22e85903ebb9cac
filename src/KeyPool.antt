-- ===== src/KeyPool.antt =====
-- The pool of pairing keys in src/host/keys.c, in the build without CONFIG_BT_KEYS_OVERWRITE_OLDEST. A
-- pointer into the pool is an index. Of a key, its owner, its types, its IRK and the cached address
-- are kept.
pub mod Search
pub mod Slots
pub mod Irk
use zephyr_polling.Prelude.{
  ℕ, zero, suc, ◌+◌, Bool, true, false, ◌&&◌, Option, none, some, List, [], ◌∷◌, ◌==◌,
  if◌then◌else◌,
}
use zephyr_polling.Prelude.Bits.{lor, has}
use zephyr_polling.Rpa.{LeAddr, bt_addr_le_is_rpa, bt_rpa_irk_matches}

pub record Keys : Type 0 where
  pub id : ℕ
  pub addr : LeAddr
  pub keys : ℕ
  pub irk : ℕ
  pub rpa : ℕ

-- What a search in the pool returns, with the pool after it.
pub record Got : Type 0 where
  pub pool : List Keys
  pub keys : Option ℕ

-- BT_KEYS_IRK
abbrev pub keys_irk : ℕ
keys_irk = 2

abbrev pub bt_addr_le_eq : LeAddr → LeAddr → Bool
bt_addr_le_eq a b = (a.type == b.type) && (a.val == b.val)

-- BT_ADDR_LE_ANY
abbrev pub addr_le_any : LeAddr
addr_le_any = record { type = 0; val = 0 }

abbrev pub after : Option ℕ → Option ℕ
after none = none
after (some n) = some (suc n)

-- The loops that return the first key with a property.
abbrev pub first : (Keys → Bool) → List Keys → Option ℕ
first p [] = none
first p (k ∷ ks) = let rest = first p ks in if p k then some 0 else after rest

-- A change of the key that a pointer stands for.
abbrev pub modify : (Keys → Keys) → ℕ → List Keys → List Keys
modify f n [] = []
modify f zero (k ∷ ks) = f k ∷ ks
modify f (suc n) (k ∷ ks) = k ∷ modify f n ks

abbrev pub is_for : ℕ → LeAddr → Keys → Bool
is_for id addr k = (k.id == id) && bt_addr_le_eq k.addr addr

abbrev pub is_free : Keys → Bool
is_free k = bt_addr_le_eq k.addr addr_le_any

unfoldable pub bt_keys_find : List Keys → ℕ → ℕ → LeAddr → Option ℕ
bt_keys_find pool type id addr = first (λ k. has k.keys type && is_for id addr k) pool

unfoldable pub bt_keys_find_addr : List Keys → ℕ → LeAddr → Option ℕ
bt_keys_find_addr pool id addr = first (is_for id addr) pool

-- The loop of `bt_keys_get_addr`: a key that is there, the first free slot, or neither.
pub data Slot : Type 0 where
  there : ℕ → Slot
  fresh : ℕ → Slot
  full : Slot

abbrev pub keep_free : Option ℕ → Bool → ℕ → Option ℕ
keep_free (some j) free i = some j
keep_free none free i = if free then some i else none

abbrev pub free_slot : Option ℕ → Slot
free_slot none = full
free_slot (some j) = fresh j

abbrev pub slot_from : ℕ → LeAddr → ℕ → Option ℕ → List Keys → Slot
slot_from id addr i free [] = free_slot free
slot_from id addr i free (k ∷ ks) =
    let rest = slot_from id addr (suc i) (keep_free free (is_free k) i) ks in
    if is_for id addr k then there i else rest

abbrev pub own : ℕ → LeAddr → Keys → Keys
own id addr k = record k { id = id; addr = addr }

abbrev pub take_slot : List Keys → ℕ → LeAddr → Slot → Got
take_slot pool id addr (there i) = record { pool = pool; keys = some i }
take_slot pool id addr (fresh i) = record { pool = modify (own id addr) i pool; keys = some i }
take_slot pool id addr full = record { pool = pool; keys = none }

unfoldable pub bt_keys_get_addr : List Keys → ℕ → LeAddr → Got
bt_keys_get_addr pool id addr = take_slot pool id addr (slot_from id addr 0 none pool)

abbrev pub bt_keys_add_type : ℕ → Keys → Keys
bt_keys_add_type type k = record k { keys = lor k.keys type }

abbrev pub add_type_to : ℕ → List Keys → Option ℕ → Got
add_type_to type pool none = record { pool = pool; keys = none }
add_type_to type pool (some i) = record {
  pool = modify (bt_keys_add_type type) i pool;
  keys = some i;
}

abbrev pub found_or : List Keys → Option ℕ → Got → Got
found_or pool none r = r
found_or pool (some i) r = record { pool = pool; keys = some i }

unfoldable pub bt_keys_get_type : List Keys → ℕ → ℕ → LeAddr → Got
bt_keys_get_type pool type id addr =
    let got = bt_keys_get_addr pool id addr in
    found_or pool (bt_keys_find pool type id addr) (add_type_to type got.pool got.keys)

abbrev pub is_cached : ℕ → ℕ → Keys → Bool
is_cached id val k = has k.keys keys_irk && ((k.id == id) && (val == k.rpa))

abbrev pub resolves : (ℕ → ℕ → Option ℕ) → ℕ → ℕ → Keys → Bool
resolves encrypt id val k =
    has k.keys keys_irk && ((k.id == id) && bt_rpa_irk_matches encrypt k.irk val)

abbrev pub cache : ℕ → Keys → Keys
cache val k = record k { rpa = val }

abbrev pub cached_at : List Keys → ℕ → Option ℕ → Got
cached_at pool val none = record { pool = pool; keys = none }
cached_at pool val (some j) = record { pool = modify (cache val) j pool; keys = some j }

unfoldable pub bt_keys_find_irk : (ℕ → ℕ → Option ℕ) → List Keys → ℕ → LeAddr → Got
bt_keys_find_irk encrypt pool id addr =
    if bt_addr_le_is_rpa addr
    then found_or pool (first (is_cached id addr.val) pool)
        (cached_at pool addr.val (first (resolves encrypt id addr.val) pool))
    else record { pool = pool; keys = none }
