-- ===== src/KeyPool/Slots.antt =====
-- Searching and reserving keys in the pool of src/host/keys.c.
use zephyr_polling.Prelude.{
  ℕ, suc, ◌+◌, ◌≡◌, refl, sym, ap, ◌∙◌, Bool, true, false, ◌&&◌, Option, none, some, List, [], ◌∷◌,
  if◌then◌else◌, arith, All, inl, inr, Bool-cases, ==_self,
}
use zephyr_polling.Prelude.Bits.{has, has-lor}
use zephyr_polling.Rpa.{LeAddr}
use zephyr_polling.KeyPool.{
  Keys, Got, after, first, is_for, is_free, bt_keys_find, Slot, there, fresh, full, keep_free,
  slot_from, own, take_slot, bt_keys_get_addr, bt_keys_add_type, add_type_to, found_or,
  bt_keys_get_type,
}
use zephyr_polling.KeyPool.Search.{
  some-none, first-modify, modify_twice, first-none, All-imp, All-for, and_right, both_true,
}

-- What the loop of `bt_keys_get_addr` finds, by the two searches that it makes at once.
abbrev pick : ℕ → Option ℕ → Option ℕ → Option ℕ → Slot
pick i (some n) free o = there (n + i)
pick i none (some j) o = fresh j
pick i none none (some n) = fresh (n + i)
pick i none none none = full

pick-after :
    (i : ℕ) (o free s : Option ℕ) (b : Bool)
    → pick (suc i) o (keep_free free b i) s ≡ pick i (after o) free (if b then some 0 else after s)
pick-after i none none none true = ground arith
pick-after i none none none false = refl
pick-after i none none (some m) true = ground arith
pick-after i none none (some m) false = ground arith
pick-after i none (some j) s b = refl
pick-after i (some n) none s b = ground arith
pick-after i (some n) (some j) s b = ground arith

zero_plus : (i : ℕ) → i ≡ 0 + i
zero_plus i = omega arith

plus_zero : (i : ℕ) → i ≡ i + 0
plus_zero i = omega arith

slot_from-pick :
    (id : ℕ) (addr : LeAddr) (i : ℕ) (free : Option ℕ) (ks : List Keys)
    → slot_from id addr i free ks ≡ pick i (first (is_for id addr) ks) free (first is_free ks)
slot_from-pick id addr i none [] = refl
slot_from-pick id addr i (some j) [] = refl
slot_from-pick id addr i free (k ∷ ks) =
    let o = first (is_for id addr) ks in
    let s = first is_free ks in
    let free' = keep_free free (is_free k) i in
    let rest = slot_from id addr (suc i) free' ks in
    let later = slot_from-pick id addr (suc i) free' ks ∙ pick-after i o free s (is_free k) in
    elim (Bool-cases (is_for id addr k)) [
      | inl t ↦ rw t (ap there (zero_plus i))
      | inr u ↦ rw u later
    ]

is_for-own : (id : ℕ) (addr : LeAddr) (k : Keys) → is_for id addr (own id addr k) ≡ true
is_for-own id addr k = both_true (==_self id) (both_true (==_self addr.type) (==_self addr.val))

reserve_lem :
    (pool : List Keys) (type id : ℕ) (addr : LeAddr) (i : ℕ) (o s : Option ℕ)
    → has type type ≡ true
    → first (is_for id addr) pool ≡ o
    → first is_free pool ≡ s
    → let got = take_slot pool id addr (pick 0 o none s) in
      let r = add_type_to type got.pool got.keys in
      r.keys ≡ some i → bt_keys_find r.pool type id addr ≡ some i
unfolding bt_keys_find
reserve_lem pool type id addr i (some n) s h ho hs e =
    first-modify (λ k. has k.keys type && is_for id addr k) (is_for id addr) (bt_keys_add_type type)
      pool (n + 0) (All-for pool (λ k. and_right (has k.keys type) (is_for id addr k)))
      (λ k t. both_true (has-lor k.keys type ∙ h) t) (ho ∙ ap some (plus_zero n))
    ∙ e
reserve_lem pool type id addr i none (some n) h ho hs e =
    let p : Keys → Bool = λ k. has k.keys type && is_for id addr k in
    ap (first p) (modify_twice (own id addr) (bt_keys_add_type type) (n + 0) pool)
    ∙ first-modify p is_free (λ k. bt_keys_add_type type (own id addr k)) pool (n + 0)
        (All-imp pool (λ k u v. and_right (has k.keys type) (is_for id addr k) u)
          (first-none (is_for id addr) pool ho))
        (λ k t. both_true (has-lor k.keys type ∙ h) (is_for-own id addr k))
        (hs ∙ ap some (plus_zero n))
    ∙ e
reserve_lem pool type id addr i none none h ho hs e = ground arith

reserved_lem :
    (pool : List Keys) (type id : ℕ) (addr : LeAddr) (i : ℕ) (r : Got) (o : Option ℕ)
    → bt_keys_find pool type id addr ≡ o
    → (r.keys ≡ some i → bt_keys_find r.pool type id addr ≡ some i)
    → (found_or pool o r).keys ≡ some i
    → bt_keys_find (found_or pool o r).pool type id addr ≡ some i
reserved_lem pool type id addr i r none ho f e = f e
reserved_lem pool type id addr i r (some j) ho f e = ho ∙ e

-- The key that is reserved for a type is the one that a search for that type then returns, whether it
-- was there or the slot was free.
pub bt_keys_find-get_type :
    (pool : List Keys) (type id : ℕ) (addr : LeAddr) (i : ℕ)
    → has type type ≡ true
    → (bt_keys_get_type pool type id addr).keys ≡ some i
    → bt_keys_find (bt_keys_get_type pool type id addr).pool type id addr ≡ some i
unfolding bt_keys_get_type bt_keys_get_addr
bt_keys_find-get_type pool type id addr i h =
    let o = first (is_for id addr) pool in
    let s = first is_free pool in
    reserved_lem pool type id addr i
      (let got = take_slot pool id addr (slot_from id addr 0 none pool) in
        add_type_to type got.pool got.keys)
      (bt_keys_find pool type id addr) refl
      (rw (slot_from-pick id addr 0 none pool) (reserve_lem pool type id addr i o s h refl refl))

-- A slot of the pool that belongs to another device.
abbrev pub IsOther : ℕ → LeAddr → Keys → Type 0
IsOther id addr k = (is_for id addr k ≡ false) × (is_free k ≡ false)

All-IsOther :
    (id : ℕ) (addr : LeAddr) (ks : List Keys)
    → All (λ k. is_for id addr k ≡ false) ks
    → All (λ k. is_free k ≡ false) ks
    → All (IsOther id addr) ks
All-IsOther id addr [] p q = p
All-IsOther id addr (k ∷ ks) p q = ((p.0, q.0), All-IsOther id addr ks (p.1) (q.1))

picked_none :
    (pool : List Keys) (id : ℕ) (addr : LeAddr) (o s : Option ℕ)
    → first (is_for id addr) pool ≡ o
    → first is_free pool ≡ s
    → (take_slot pool id addr (pick 0 o none s)).keys ≡ none
    → All (IsOther id addr) pool
picked_none pool id addr (some n) s ho hs e = absurd (some-none (n + 0) e)
picked_none pool id addr none (some n) ho hs e = absurd (some-none (n + 0) e)
picked_none pool id addr none none ho hs e =
    All-IsOther id addr pool (first-none (is_for id addr) pool ho) (first-none is_free pool hs)

add_type_to-none :
    (type : ℕ) (g : Got) → (add_type_to type g.pool g.keys).keys ≡ none → g.keys ≡ none
add_type_to-none type g e = none_of type g.pool g.keys e
  where
    none_of :
        (type : ℕ) (pool : List Keys) (o : Option ℕ)
        → (add_type_to type pool o).keys ≡ none
        → o ≡ none
    none_of type pool none e = refl
    none_of type pool (some i) e = absurd (some-none i e)

found_or-none :
    (pool : List Keys) (o : Option ℕ) (g : Got) → (found_or pool o g).keys ≡ none → g.keys ≡ none
found_or-none pool none g e = e
found_or-none pool (some i) g e = absurd (some-none i e)

-- Reserving a key fails only when every slot of the pool belongs to another device.
pub bt_keys_get_type-IsOther :
    (pool : List Keys) (type id : ℕ) (addr : LeAddr)
    → (bt_keys_get_type pool type id addr).keys ≡ none
    → All (IsOther id addr) pool
unfolding bt_keys_get_type bt_keys_get_addr
bt_keys_get_type-IsOther pool type id addr e =
    let got = take_slot pool id addr (slot_from id addr 0 none pool) in
    let e' =
      found_or-none pool (bt_keys_find pool type id addr) (add_type_to type got.pool got.keys) e in
    picked_none pool id addr (first (is_for id addr) pool) (first is_free pool) refl refl (
      ap (λ s. (take_slot pool id addr s).keys) (sym (slot_from-pick id addr 0 none pool))
      ∙ add_type_to-none type got e')
