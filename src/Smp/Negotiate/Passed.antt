-- ===== src/Smp/Negotiate/Passed.antt =====
-- The one branch of each handler of the feature exchange in src/host/smp.c that returns no error.
use zephyr_polling.Prelude.{
  ℕ, suc, ◌≡◌, refl, Bool, true, false, not, ◌&&◌, Option, arith, if◌then◌else◌,
}
use zephyr_polling.Smp.{Config, Host, Smp, Pairing, BondKeys, flag_sec_req, auth_bonding}
use zephyr_polling.Smp.Features.{both, size_allowed, has_keys, with_keys, smp_init}
use zephyr_polling.Smp.Negotiate.{
  Reply, final_checks, respond, responded, received, offered, smp_pairing_req, smp_pairing_rsp,
  without_enc_key, sent, request, smp_send_pairing_req,
}

-- To follow the branch that returns no error.
by_test :
    (P : Reply → Type 0) (b : Bool) {x y : Reply}
    → (if b then x else y).err ≡ 0
    → (x.err ≡ 0 → P x)
    → (y.err ≡ 0 → P y)
    → P (if b then x else y)
by_test P true h f g = f h
by_test P false h f g = g h

fails : (P : Reply → Type 0) (smp : Smp) (n : ℕ) → suc n ≡ 0 → P (record { smp = smp; err = suc n })
fails P smp n h = absurd (omega arith)

without_enc_key-err : (cfg : Config) (r : Reply) → (without_enc_key cfg r).err ≡ 0 → r.err ≡ 0
without_enc_key-err cfg r h = ground arith

pub responded-conn :
    (cfg : Config) (host : Host) (smp : Smp) (req : Pairing)
    → (responded cfg host smp req).conn ≡ smp.conn
unfolding responded
responded-conn cfg host smp req = refl

pub received-conn :
    (cfg : Config) (host : Host) (smp : Smp) (rsp : Pairing)
    → (received cfg host smp rsp).conn ≡ smp.conn
unfolding received
received-conn cfg host smp rsp = refl

module _ (cfg : Config) (host : Host) (P : Reply → Type 0) where
  respond_passed :
      (smp : Smp) (req : Pairing)
      → ((final_checks cfg (responded cfg host smp req)).err ≡ 0
          → P (final_checks cfg (responded cfg host smp req)))
      → (respond cfg host smp req).err ≡ 0
      → P (respond cfg host smp req)
  unfolding respond
  respond_passed smp req k h =
      by_test P (not (both req (offered cfg host smp req) auth_bonding) && cfg.bonding_required) h
        (fails P _ 7) k

  -- A request that is accepted has passed the final checks, in a state with the same connection.
  pub request_passed :
      (slot : Option BondKeys) (rand_ok : Bool) (smp : Smp) (req : Pairing)
      → ((s : Smp)
          → s.conn ≡ (with_keys smp slot).conn
          → (final_checks cfg (responded cfg host s req)).err ≡ 0
          → P (final_checks cfg (responded cfg host s req)))
      → (smp_pairing_req cfg host slot rand_ok smp req).err ≡ 0
      → P (smp_pairing_req cfg host slot rand_ok smp req)
  unfolding smp_pairing_req smp_init
  request_passed slot rand_ok smp req k h =
      let s = with_keys smp slot in
      by_test P (not (size_allowed cfg req.max_key_size)) h (fails P _ 5) (λ h₁.
        by_test P (not (has_keys s)) h₁ (fails P _ 7) (λ h₂.
          by_test P (s.flags flag_sec_req) h₂ (respond_passed s req (k s refl)) (λ h₃.
            by_test P rand_ok h₃ (respond_passed (smp_init s) req (k (smp_init s) refl))
              (fails P _ 7))))

  -- A response that is accepted has passed them too; the state then loses the encryption key.
  pub response_passed :
      (smp : Smp) (rsp : Pairing)
      → ((final_checks cfg (received cfg host smp rsp)).err ≡ 0
          → P (without_enc_key cfg (final_checks cfg (received cfg host smp rsp))))
      → (smp_pairing_rsp cfg host smp rsp).err ≡ 0
      → P (smp_pairing_rsp cfg host smp rsp)
  unfolding smp_pairing_rsp
  response_passed smp rsp k h =
      by_test P (not (size_allowed cfg rsp.max_key_size)) h (fails P _ 5) (λ h₁.
        by_test P (not (both smp.preq rsp auth_bonding) && cfg.bonding_required) h₁ (fails P _ 7)
          (λ h₂. k (without_enc_key-err cfg (final_checks cfg (received cfg host smp rsp)) h₂)))

-- A request that was sent left the state of `request`, from a context that is initialised.
pub sent-request :
    (cfg : Config) (host : Host) (slot : Option BondKeys) (rand_ok buf_ok : Bool) (smp : Smp)
    → (smp_send_pairing_req cfg host slot rand_ok buf_ok smp).result ≡ sent
    → (smp_send_pairing_req cfg host slot rand_ok buf_ok smp).smp
      ≡ request cfg host (smp_init (with_keys smp slot))
unfolding smp_send_pairing_req
sent-request cfg host slot rand_ok buf_ok smp h = ground arith
