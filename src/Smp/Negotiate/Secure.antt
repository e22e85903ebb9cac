-- ===== src/Smp/Negotiate/Secure.antt =====
-- What the feature exchange of src/host/smp.c lets pass: the level that the connection requires and
-- the level of the keys that are stored.
use mathlib.Core.Path.{subst}
use zephyr_polling.Prelude.{
  none, ℕ, ◌+◌, ◌∙◌, ap, ◌≤◌, ◌≡◌, refl, sym, Bool, true, false, not, ◌&&◌, ◌||◌, Option, some,
  ◌==◌, arith, if◌then◌else◌, inl, inr, Bool-cases, Option-cases,
}
use zephyr_polling.Prelude.Bits.{has}
use zephyr_polling.Smp.{
  Config, Host, Smp, Pairing, BondKeys, Conn, flag_sc, keys_ltk, keys_ltk_p256, keys_authenticated,
}
use zephyr_polling.Smp.Method.{
  get_encryption_key_size, is_just_works, level_error, remote_sec_level_reachable,
  update_keys_check, keeps_level,
}
use zephyr_polling.Smp.Negotiate.Passed.{
  request_passed, response_passed, responded-conn, received-conn,
}
use zephyr_polling.Smp.Features.{with_keys}
use zephyr_polling.Smp.Negotiate.{
  Reply, final_checks, responded, received, smp_pairing_req, smp_pairing_rsp, without_enc_key,
}

-- The strongest level: secure connections, a key of 16 bytes and a method that authenticates.
abbrev pub IsLevelFour : Smp → Type 0
IsLevelFour smp =
    (smp.flags flag_sc ≡ true)
    × (get_encryption_key_size smp ≡ 16)
    × (is_just_works smp.method ≡ false)

level_error_four : (smp : Smp) → level_error smp 4 ≡ 0 → IsLevelFour smp
level_error_four smp h = ground arith

level_is_four :
    (cfg : Config) (smp : Smp)
    → cfg.oob_legacy_pair_only ≡ false
    → smp.conn.required_sec_level ≡ 4
    → remote_sec_level_reachable cfg smp ≡ level_error smp 4
unfolding remote_sec_level_reachable
level_is_four cfg smp no_oob four =
    rw (no_oob, four) (elim (Bool-cases cfg.sc_only) [ inl e ↦ rw e refl | inr n ↦ rw n refl ])

passed :
    (fits weak : Bool) (level : ℕ)
    → (if not fits then 3 else if not (level == 0) then level else if weak then 3 else 0) ≡ 0
    → (fits ≡ true) × (level ≡ 0)
passed fits weak level h = ground arith

final_checks_passed :
    (cfg : Config) (smp : Smp)
    → (final_checks cfg smp).err ≡ 0
    → (update_keys_check cfg smp smp.conn.keys ≡ true) × (remote_sec_level_reachable cfg smp ≡ 0)
final_checks_passed cfg smp h = passed _ _ _ h

final_checks_four :
    (cfg : Config) (smp : Smp)
    → cfg.oob_legacy_pair_only ≡ false
    → smp.conn.required_sec_level ≡ 4
    → (final_checks cfg smp).err ≡ 0
    → IsLevelFour smp
final_checks_four cfg smp no_oob four h =
    level_error_four smp
      (sym (level_is_four cfg smp no_oob four) ∙ (final_checks_passed cfg smp h).1)

level_of : {c d : Conn} → c ≡ d → c.required_sec_level ≡ d.required_sec_level
level_of e = ap (λ (c : Conn). c.required_sec_level) e

with_keys_level :
    (smp : Smp) (slot : Option BondKeys)
    → (with_keys smp slot).conn.required_sec_level ≡ smp.conn.required_sec_level
with_keys_level smp slot = elim (Option-cases smp.conn.keys) [
  | inl e ↦ rw e refl
  | inr (k, e) ↦ rw e refl
]

-- A pairing request that is accepted on a connection that requires level 4 leads to secure
-- connections, a key of 16 bytes and a method that authenticates, unless the build has legacy
-- out-of-band pairing only.
pub smp_pairing_req-IsLevelFour :
    (cfg : Config) (host : Host) (slot : Option BondKeys) (rand_ok : Bool) (smp : Smp)
    (req : Pairing)
    → cfg.oob_legacy_pair_only ≡ false
    → smp.conn.required_sec_level ≡ 4
    → (smp_pairing_req cfg host slot rand_ok smp req).err ≡ 0
    → IsLevelFour (smp_pairing_req cfg host slot rand_ok smp req).smp
smp_pairing_req-IsLevelFour cfg host slot rand_ok smp req no_oob four h =
    request_passed cfg host (λ r. IsLevelFour r.smp) slot rand_ok smp req
      (λ s e.
        final_checks_four cfg (responded cfg host s req) no_oob
          (level_of (responded-conn cfg host s req ∙ e) ∙ with_keys_level smp slot ∙ four))
      h

without_enc_key-IsLevelFour :
    (cfg : Config) (r : Reply) → IsLevelFour r.smp → IsLevelFour (without_enc_key cfg r).smp
without_enc_key-IsLevelFour cfg r h = elim (Bool-cases ((r.err == 0) && r.smp.flags flag_sc)) [
  | inl e ↦ rw e h
  | inr n ↦ rw n h
]

-- The same for a pairing response that the initiator accepts.
pub smp_pairing_rsp-IsLevelFour :
    (cfg : Config) (host : Host) (smp : Smp) (rsp : Pairing)
    → cfg.oob_legacy_pair_only ≡ false
    → smp.conn.required_sec_level ≡ 4
    → (smp_pairing_rsp cfg host smp rsp).err ≡ 0
    → IsLevelFour (smp_pairing_rsp cfg host smp rsp).smp
smp_pairing_rsp-IsLevelFour cfg host smp rsp no_oob four h =
    response_passed cfg host (λ r. IsLevelFour r.smp) smp rsp
      (λ g.
        let t = received cfg host smp rsp in
        without_enc_key-IsLevelFour cfg (final_checks cfg t)
          (final_checks_four cfg t no_oob (level_of (received-conn cfg host smp rsp) ∙ four) g))
      h

-- The level of stored keys is not lowered.
abbrev pub KeepsLevel : BondKeys → Smp → Type 0
KeepsLevel k smp =
    (k.enc_size ≤ get_encryption_key_size smp)
    × ((not (has k.keys keys_ltk_p256) || smp.flags flag_sc) ≡ true)
    × ((has k.flags keys_authenticated && is_just_works smp.method) ≡ false)

keeps_level-KeepsLevel :
    (cfg : Config) (smp : Smp) (k : BondKeys)
    → has k.keys (keys_ltk_p256 + keys_ltk) ≡ true
    → keeps_level cfg smp k ≡ true
    → KeepsLevel k smp
keeps_level-KeepsLevel cfg smp k b h = ground arith

update_keys_check-keeps :
    (cfg : Config) (smp : Smp) (k : BondKeys)
    → update_keys_check cfg smp (some k) ≡ true
    → keeps_level cfg smp k ≡ true
unfolding update_keys_check
update_keys_check-keeps cfg smp k h = ground arith

-- The bond of the connection, or if it has none yet, the one of its device in the pool.
abbrev pub bond_of : Option BondKeys → Option BondKeys → Option BondKeys
bond_of none slot = slot
bond_of (some k) slot = some k

with_keys-bond :
    (smp : Smp) (slot : Option BondKeys)
    → (with_keys smp slot).conn.keys ≡ bond_of smp.conn.keys slot
with_keys-bond smp slot = elim (Option-cases smp.conn.keys) [
  | inl e ↦ rw e refl
  | inr (k, e) ↦ rw e refl
]

-- A pairing request that is accepted does not lower the level of a bond that has a long term key,
-- whether the connection has the bond already or it is found in the pool by this request: the new key is no shorter, a bond from secure connections is not replaced by a legacy pairing,
-- and one that was authenticated is not replaced by a pairing without authentication.
pub smp_pairing_req-KeepsLevel :
    (cfg : Config) (host : Host) (slot : Option BondKeys) (rand_ok : Bool) (smp : Smp)
    (req : Pairing) (k : BondKeys)
    → bond_of smp.conn.keys slot ≡ some k
    → has k.keys (keys_ltk_p256 + keys_ltk) ≡ true
    → (smp_pairing_req cfg host slot rand_ok smp req).err ≡ 0
    → KeepsLevel k (smp_pairing_req cfg host slot rand_ok smp req).smp
smp_pairing_req-KeepsLevel cfg host slot rand_ok smp req k e bonded h =
    request_passed cfg host (λ r. KeepsLevel k r.smp) slot rand_ok smp req
      (λ s c g.
        let t = responded cfg host s req in
        keeps_level-KeepsLevel cfg t k bonded (
          update_keys_check-keeps cfg t k (
            subst (λ keys. update_keys_check cfg t keys ≡ true)
              (ap (λ (c : Conn). c.keys) (responded-conn cfg host s req ∙ c)
                ∙ with_keys-bond smp slot
                ∙ e)
              (final_checks_passed cfg t g).0)))
      h
