-- ===== src/KeyPool/Irk.antt =====
-- Resolving a private address by the pool of keys in src/host/keys.c, with src/common/rpa.c.
use mathlib.Core.Path.{subst}
use zephyr_polling.Prelude.{
  suc, zero, ◌⊎◌, ℕ, ◌/◌, ◌%◌, ◌^◌, ◌≡◌, refl, sym, ap, ◌∙◌, Bool, true, false, ◌&&◌, Option, none,
  some, List, [], ◌∷◌, ◌==◌, arith, All, inl, inr, Bool-cases, ==_self, ==_iff, Option-cases,
}
use zephyr_polling.Prelude.Bits.{has}
use zephyr_polling.Rpa.{
  LeAddr, addr_le_random, bt_addr_le_is_rpa, set_rpa, truncated, ah, bt_rpa_irk_matches, with_hash,
  bt_rpa_create,
}
use zephyr_polling.KeyPool.{
  Keys, Got, after, first, modify, keys_irk, found_or, is_cached, resolves, cache, cached_at,
  bt_keys_find_irk,
}
use zephyr_polling.KeyPool.Search.{
  after_positive, some_positive, after-some, first_here, first-modify, first-none, first_later,
  All-imp, both_true, some-none,
}

created_lem :
    (x r a : ℕ)
    → with_hash (set_rpa r) (some (x % 2 ^ 24)) ≡ some a
    → (a / 2 ^ 24 ≡ set_rpa r) × (a % 2 ^ 24 ≡ x % 2 ^ 24) × (a / 2 ^ 46 % 4 ≡ 1)
unfolding set_rpa
created_lem x r a e = ground arith

abbrev pub private_addr : ℕ → LeAddr
private_addr a = record { type = addr_le_random; val = a }

cipher_lem :
    (encrypt : ℕ → ℕ → Option ℕ) (irk r a : ℕ) (c : Option ℕ)
    → encrypt irk (set_rpa r) ≡ c
    → with_hash (set_rpa r) (truncated c) ≡ some a
    → (bt_addr_le_is_rpa (private_addr a) ≡ true) × (bt_rpa_irk_matches encrypt irk a ≡ true)
unfolding bt_addr_le_is_rpa bt_rpa_irk_matches ah
cipher_lem encrypt irk r a none hc e = ground arith
cipher_lem encrypt irk r a (some x) hc e =
    let h = created_lem x r a e in (rw (h.2) refl, rw (h.0, h.1, hc) (==_self (x % 2 ^ 24)))

-- A private address that was created from a key is recognised as one, and matches that key.
bt_rpa_irk_matches-create :
    (encrypt : ℕ → ℕ → Option ℕ) (random : Option ℕ) (irk a : ℕ)
    → bt_rpa_create encrypt random irk ≡ some a
    → (bt_addr_le_is_rpa (private_addr a) ≡ true) × (bt_rpa_irk_matches encrypt irk a ≡ true)
unfolding bt_rpa_create ah
bt_rpa_irk_matches-create encrypt none irk a e = ground arith
bt_rpa_irk_matches-create encrypt (some r) irk a e =
    cipher_lem encrypt irk r a (encrypt irk (set_rpa r)) refl e

-- A bonded device with an identity key.
abbrev pub is_bonded : ℕ → ℕ → Keys → Bool
is_bonded id irk k = has k.keys keys_irk && ((k.id == id) && (k.irk == irk))

first_nowhere : (q : Keys → Bool) (ks : List Keys) → All (λ k. q k ≡ false) ks → first q ks ≡ none
first_nowhere q [] h = refl
first_nowhere q (k ∷ ks) h = first_later q k ks (h.0) ∙ ap after (first_nowhere q ks (h.1))

not_both : {b : Bool} → b ≡ true → ¬ (b ≡ false)
not_both h k = ground arith

contrapose : (a b : Bool) → (b ≡ true → a ≡ true) → a ≡ false → b ≡ false
contrapose a b f h = elim (Bool-cases b) [ inl t ↦ absurd (not_both (f t) h) | inr u ↦ u ]

some_first :
    (p q : Keys → Bool) (ks : List Keys) (i : ℕ)
    → ((k : Keys) → q k ≡ true → p k ≡ true)
    → first q ks ≡ some i
    → (j : ℕ) × (first p ks ≡ some j)
some_first p q ks i f e = elim (Option-cases (first p ks)) [
  | inl h ↦ absurd (
      some-none i (
        sym e
        ∙ first_nowhere q ks (All-imp ks (λ k. contrapose (p k) (q k) (f k)) (first-none p ks h))))
  | inr found ↦ found
]

and_split : (a b : Bool) → a && b ≡ true → (a ≡ true) × (b ≡ true)
and_split true b h = (refl, h)
and_split false b h = ground arith

bonded-resolves :
    (encrypt : ℕ → ℕ → Option ℕ) (id irk a : ℕ) (k : Keys)
    → bt_rpa_irk_matches encrypt irk a ≡ true
    → is_bonded id irk k ≡ true
    → resolves encrypt id a k ≡ true
bonded-resolves encrypt id irk a k m h =
    let typed = and_split (has k.keys keys_irk) ((k.id == id) && (k.irk == irk)) h in
    let own = and_split (k.id == id) (k.irk == irk) (typed.1) in
    let same = (==_iff k.irk irk).0 (own.1) in
    both_true (typed.0) (both_true (own.0) (ap (λ x. bt_rpa_irk_matches encrypt x a) same ∙ m))

resolves-cached :
    (encrypt : ℕ → ℕ → Option ℕ) (id a : ℕ) (k : Keys)
    → resolves encrypt id a k ≡ true
    → is_cached id a (cache a k) ≡ true
resolves-cached encrypt id a k h =
    let typed =
      and_split (has k.keys keys_irk) ((k.id == id) && bt_rpa_irk_matches encrypt k.irk a) h in
    let own = and_split (k.id == id) (bt_rpa_irk_matches encrypt k.irk a) (typed.1) in
    both_true (typed.0) (both_true (own.0) (==_self a))

-- The key that a pointer stands for.
abbrev pub key_at : List Keys → ℕ → Option Keys
key_at [] j = none
key_at (k ∷ ks) zero = some k
key_at (k ∷ ks) (suc j) = key_at ks j

-- A device that an address may stand for: it has an identity key that matches, or the address cached.
abbrev pub MayOwn : (ℕ → ℕ → Option ℕ) → ℕ → ℕ → Keys → Type 0
MayOwn encrypt id a k =
    (has k.keys keys_irk ≡ true)
    × (k.id ≡ id)
    × ((k.rpa ≡ a) ⊎ (bt_rpa_irk_matches encrypt k.irk a ≡ true))

-- The slot that is found has the identity key, and a search after it finds it in the cache.
abbrev pub Resolves : (ℕ → ℕ → Option ℕ) → ℕ → LeAddr → ℕ → Got → Type 0
Resolves other id addr irk got =
    (j : ℕ) × (k : Keys) × (got.keys ≡ some j)
    × (key_at got.pool j ≡ some k)
    × (k.irk ≡ irk)
    × (bt_keys_find_irk other got.pool id addr ≡ record { pool = got.pool; keys = some j })

-- What was found holds, of a key in the pool.
first_found :
    (p : Keys → Bool) (Q : Keys → Type 0) (ks : List Keys) (j : ℕ)
    → All Q ks
    → first p ks ≡ some j
    → (k : Keys) × (key_at ks j ≡ some k) × (p k ≡ true) × Q k
first_found p Q [] j qs e = ground arith
first_found p Q (k ∷ ks) zero qs e = elim (Bool-cases (p k)) [
  | inl t ↦ (k, refl, t, qs.0)
  | inr u ↦ absurd (after_positive (first p ks) (sym (first_later p k ks u) ∙ e))
]
first_found p Q (k ∷ ks) (suc j) qs e = elim (Bool-cases (p k)) [
  | inl t ↦ absurd (some_positive j (sym (first_here p k ks t) ∙ e))
  | inr u ↦ first_found p Q ks j (qs.1) (after-some (first p ks) j (sym (first_later p k ks u) ∙ e))
]

abbrev changed : (Keys → Keys) → Option Keys → Option Keys
changed f none = none
changed f (some k) = some (f k)

key_at-modify :
    (f : Keys → Keys) (ks : List Keys) (j : ℕ) (k : Keys)
    → key_at ks j ≡ some k
    → key_at (modify f j ks) j ≡ some (f k)
key_at-modify f [] j k e = ground arith
key_at-modify f (x ∷ ks) zero k e = ap (changed f) e
key_at-modify f (x ∷ ks) (suc j) k e = key_at-modify f ks j k e

cached-owns :
    (encrypt : ℕ → ℕ → Option ℕ) (id a : ℕ) (k : Keys)
    → is_cached id a k ≡ true
    → MayOwn encrypt id a k
cached-owns encrypt id a k h =
    let typed = and_split (has k.keys keys_irk) ((k.id == id) && (a == k.rpa)) h in
    let own = and_split (k.id == id) (a == k.rpa) (typed.1) in
    (typed.0, (==_iff k.id id).0 (own.0), inl (sym ((==_iff a k.rpa).0 (own.1))))

resolves-owns :
    (encrypt : ℕ → ℕ → Option ℕ) (id a : ℕ) (k : Keys)
    → resolves encrypt id a k ≡ true
    → MayOwn encrypt id a k
resolves-owns encrypt id a k h =
    let typed =
      and_split (has k.keys keys_irk) ((k.id == id) && bt_rpa_irk_matches encrypt k.irk a) h in
    let own = and_split (k.id == id) (bt_rpa_irk_matches encrypt k.irk a) (typed.1) in
    (typed.0, (==_iff k.id id).0 (own.0), inr (own.1))

again_lem :
    (encrypt : ℕ → ℕ → Option ℕ) (pool : List Keys) (id a j : ℕ)
    → bt_addr_le_is_rpa (private_addr a) ≡ true
    → first (is_cached id a) pool ≡ some j
    → bt_keys_find_irk encrypt pool id (private_addr a) ≡ record { pool = pool; keys = some j }
unfolding bt_keys_find_irk
again_lem encrypt pool id a j r h = rw (r, h) refl

found_lem :
    (encrypt other : ℕ → ℕ → Option ℕ) (pool : List Keys) (id a irk j : ℕ) (o s : Option ℕ)
    → bt_addr_le_is_rpa (private_addr a) ≡ true
    → All (λ k. MayOwn encrypt id a k → k.irk ≡ irk) pool
    → first (is_cached id a) pool ≡ o
    → first (resolves encrypt id a) pool ≡ s
    → s ≡ some j
    → Resolves other id (private_addr a) irk (found_or pool o (cached_at pool a s))
found_lem encrypt other pool id a irk j (some i) s r alone ho hs e =
    let (k, there, cached, only) =
      first_found (is_cached id a) (λ k. MayOwn encrypt id a k → k.irk ≡ irk) pool i alone ho in
    (i, k, refl, there, only (cached-owns encrypt id a k cached), again_lem other pool id a i r ho)
found_lem encrypt other pool id a irk j none none r alone ho hs e = ground arith
found_lem encrypt other pool id a irk j none (some n) r alone ho hs e =
    let cached =
      first-modify (is_cached id a) (resolves encrypt id a) (cache a) pool n
        (All-imp pool (λ k u v. u) (first-none (is_cached id a) pool ho))
        (resolves-cached encrypt id a) hs in
    let (k, there, matching, only) =
      first_found (resolves encrypt id a) (λ k. MayOwn encrypt id a k → k.irk ≡ irk) pool n alone
        hs in
    (
      n,
      cache a k,
      refl,
      key_at-modify (cache a) pool n k there,
      only (resolves-owns encrypt id a k matching),
      again_lem other (modify (cache a) n pool) id a n r cached,
    )

private_lem :
    (encrypt : ℕ → ℕ → Option ℕ) (pool : List Keys) (id a : ℕ)
    → bt_addr_le_is_rpa (private_addr a) ≡ true
    → bt_keys_find_irk encrypt pool id (private_addr a)
      ≡ found_or pool
          (first (is_cached id a) pool)
          (cached_at pool a (first (resolves encrypt id a) pool))
unfolding bt_keys_find_irk
private_lem encrypt pool id a r = rw r refl

-- A private address that was created from the identity key of a device in the pool is resolved to a
-- slot that holds this key, if no slot with another key has this address cached or a hash that
-- collides. Once it is, a second search returns the same slot by the cached address alone,
-- whatever the cipher then does, and leaves the pool as it is.
pub bt_keys_find_irk-create :
    (encrypt other : ℕ → ℕ → Option ℕ) (random : Option ℕ) (pool : List Keys) (id irk a i : ℕ)
    → bt_rpa_create encrypt random irk ≡ some a
    → first (is_bonded id irk) pool ≡ some i
    → All (λ k. MayOwn encrypt id a k → k.irk ≡ irk) pool
    → Resolves other id (private_addr a) irk (bt_keys_find_irk encrypt pool id (private_addr a))
bt_keys_find_irk-create encrypt other random pool id irk a i c b alone =
    let m = bt_rpa_irk_matches-create encrypt random irk a c in
    let found =
      some_first (resolves encrypt id a) (is_bonded id irk) pool i
        (λ k. bonded-resolves encrypt id irk a k (m.1)) b in
    subst (Resolves other id (private_addr a) irk) (sym (private_lem encrypt pool id a (m.0))) (
      found_lem encrypt other pool id a irk (found.0) (first (is_cached id a) pool)
        (first (resolves encrypt id a) pool) (m.0) alone refl refl (found.1))
