-- ===== src/Smp/Negotiate/Distribution.antt =====
-- The keys that the two sides of the feature exchange in src/host/smp.c mean to distribute.
use mathlib.Core.Path.{subst}
use zephyr_polling.Prelude.{
  ℕ, ◌-◌, ◌≡◌, refl, sym, ap, ◌∙◌, arith, Option, Bool, true, false, if◌then◌else◌, ◌&&◌,
}
use zephyr_polling.Prelude.Bits.{land, has, land_twice, land_comm, land_assoc, land_zero}
use zephyr_polling.Smp.{
  Config, Host, Smp, BondKeys, flag_sc, flag_ct2, flag_bond, auth_bonding, auth_sc, auth_ct2,
}
use zephyr_polling.Smp.Negotiate.Passed.{request_passed, response_passed, sent-request}
use zephyr_polling.Smp.Features.{both, smp_init, with_keys, send_keys, recv_keys, set_if}
use zephyr_polling.Smp.Negotiate.{
  final_checks, responded, received, without_enc_key, request, pairing_request, pairing_response,
  offered, sent, smp_send_pairing_req, smp_pairing_req, smp_pairing_rsp, Reply,
}

-- A set that is inside of two others is not changed by the intersection of both.
land_inside : (x s m : ℕ) → land s x ≡ x → land m x ≡ x → land x (land s m) ≡ x
land_inside x s m h k = land_comm x (land s m) ∙ land_assoc s m x ∙ ap (land s) k ∙ h

-- The keys that the other side has kept are not changed by the own masks.
kept_masks : (s r m : ℕ) → let x = land (land s r) (land r m) in land (land s x) (land s m) ≡ x
kept_masks s r m =
    let x = land (land s r) (land r m) in
    let in_s : land s x ≡ x =
      sym (land_assoc s (land s r) (land r m)) ∙ ap (λ y. land y (land r m)) (land_twice s r) in
    let in_m : land m x ≡ x =
      ap (land m) (land_comm (land s r) (land r m))
      ∙ sym (land_assoc m (land r m) (land s r))
      ∙ ap (λ y. land y (land s r)) (ap (land m) (land_comm r m) ∙ land_twice m r ∙ land_comm m r)
      ∙ land_comm (land r m) (land s r) in
    ap (λ y. land y (land s m)) in_s ∙ land_inside x s m in_s in_m

-- One direction: what is offered, what the response keeps of it, and what is left of that.
abbrev asked : Bool → ℕ → ℕ
asked bonding own = if bonding then own else 0

abbrev answered : Bool → Bool → ℕ → ℕ → ℕ
answered bond sc ask r =
    if bond then (if sc then land (land ask r) (land r (255 - 1)) else land ask r) else 0

abbrev left : Bool → Bool → ℕ → ℕ → ℕ → ℕ
left bond sc own ask answer =
    let kept = if bond then land ask answer else 0 in
    if sc then land kept (land own (255 - 1)) else kept

one_direction :
    (bonding other sc : Bool) (own r : ℕ)
    → let bond = other && bonding in
      let ask = asked bonding own in
      left bond sc own ask (answered bond sc ask r) ≡ answered bond sc ask r
one_direction bonding false true own r = land_zero _
one_direction bonding false false own r = refl
one_direction false true true own r = land_zero _
one_direction false true false own r = refl
one_direction true true true own r = kept_masks own r (255 - 1)
one_direction true true false own r = land_twice own r

-- What one side sends is what the other one waits for.
abbrev pub SameKeys : Smp → Smp → Type 0
SameKeys a b = (a.local_dist ≡ b.remote_dist) × (a.remote_dist ≡ b.local_dist)

-- The initiator's masks apply with secure connections, which the flags of a new context do not have.
agreed_sc :
    (bond ct2 sc : Bool) (flags : ℕ → Bool)
    → flags flag_sc ≡ false
    → set_if bond flag_bond (set_if ct2 flag_ct2 (set_if sc flag_sc flags)) flag_sc ≡ sc
agreed_sc bond ct2 sc flags h = ground arith

abbrev masked : Bool → ℕ → ℕ → ℕ
masked sc own kept = if sc then land kept (land own (255 - 1)) else kept

abbrev HasMasked : Config → Bool → Smp → Smp → Type 0
HasMasked cfg sc s t =
    (t.local_dist ≡ masked sc (send_keys cfg) s.local_dist)
    × (t.remote_dist ≡ masked sc (recv_keys cfg) s.remote_dist)

passed_masks :
    (cfg : Config) (r : Reply) (sc : Bool)
    → r.err ≡ 0
    → r.smp.flags flag_sc ≡ sc
    → HasMasked cfg sc r.smp (without_enc_key cfg r).smp
passed_masks cfg r true h k = rw (h, k) (refl, refl)
passed_masks cfg r false h k = rw (h, k) (refl, refl)

-- The exchange from a context without the flag of secure connections.
exchange :
    (cfa cfb : Config) (ha hb : Host) (a b : Smp)
    → a.flags flag_sc ≡ false
    → let a₁ = request cfa ha a in
      let b₁ = responded cfb hb b a₁.preq in
      let r = final_checks cfa (received cfa ha a₁ b₁.prsp) in
      r.err ≡ 0 → SameKeys (without_enc_key cfa r).smp b₁
unfolding request responded received pairing_request pairing_response offered
exchange cfa cfb ha hb a b fresh h =
    let a₁ = request cfa ha a in
    let rsp = pairing_response cfb hb b a₁.preq in
    let bonding = has a₁.preq.auth_req auth_bonding in
    let other = has rsp.auth_req auth_bonding in
    let sc = both a₁.preq rsp auth_sc in
    let m =
      passed_masks cfa (final_checks cfa (received cfa ha a₁ rsp)) sc h
        (agreed_sc (both a₁.preq rsp auth_bonding) (both a₁.preq rsp auth_ct2) sc a₁.flags fresh) in
    (
      m.0 ∙ one_direction bonding other sc (send_keys cfa) (recv_keys cfb),
      m.1 ∙ one_direction bonding other sc (recv_keys cfa) (send_keys cfb),
    )

smp_init-fresh : (smp : Smp) → (smp_init smp).flags flag_sc ≡ false
unfolding smp_init
smp_init-fresh smp = refl

-- When the initiator has sent its request, the responder has accepted it and the initiator has
-- accepted the response, then the keys that either side means to send are the keys that the other
-- side waits for. The two devices may have different settings.
pub exchange-SameKeys :
    (cfa cfb : Config) (ha hb : Host) (slot_a slot_b : Option BondKeys) (rand_a buf_a rand_b : Bool)
    (a b : Smp)
    → let s = smp_send_pairing_req cfa ha slot_a rand_a buf_a a in
      let r = smp_pairing_req cfb hb slot_b rand_b b s.smp.preq in
      let t = smp_pairing_rsp cfa ha s.smp r.smp.prsp in
      s.result ≡ sent → r.err ≡ 0 → t.err ≡ 0 → SameKeys t.smp r.smp
exchange-SameKeys cfa cfb ha hb slot_a slot_b rand_a buf_a rand_b a b hs =
    let a₀ = smp_init (with_keys a slot_a) in
    subst
      (λ (s : Smp).
        (smp_pairing_req cfb hb slot_b rand_b b s.preq).err ≡ 0
        → (smp_pairing_rsp cfa ha s (smp_pairing_req cfb hb slot_b rand_b b s.preq).smp.prsp).err
          ≡ 0
        → SameKeys
            (smp_pairing_rsp cfa ha s (smp_pairing_req cfb hb slot_b rand_b b s.preq).smp.prsp).smp
            (smp_pairing_req cfb hb slot_b rand_b b s.preq).smp)
      (sym (sent-request cfa ha slot_a rand_a buf_a a hs))
      (λ hr.
        let a₁ = request cfa ha a₀ in
        request_passed cfb hb
          (λ r.
            (smp_pairing_rsp cfa ha a₁ r.smp.prsp).err ≡ 0
            → SameKeys (smp_pairing_rsp cfa ha a₁ r.smp.prsp).smp r.smp)
          slot_b rand_b b a₁.preq
          (λ b₀ e g.
            let b₁ = responded cfb hb b₀ a₁.preq in
            response_passed cfa ha (λ t. SameKeys t.smp b₁) a₁ b₁.prsp
              (exchange cfa cfb ha hb a₀ b₀ (smp_init-fresh _)))
          hr)
