-- ===== src/Smp/Negotiate.antt =====
-- The feature exchange of src/host/smp.c: the pairing request that the central sends, what the
-- peripheral makes of it, and what the central makes of the response. The slot for keys comes from
-- `bt_keys_get_addr`, the random number from the controller and the buffer from the pool: whether
-- there is one is an argument. After the exchange the handlers go on to ask the user.
pub mod Passed
pub mod Distribution
pub mod Secure
use zephyr_polling.Prelude.{
  ℕ, ◌-◌, Bool, true, false, not, ◌&&◌, ◌||◌, Option, none, some, ltb, ◌==◌, if◌then◌else◌,
}
use zephyr_polling.Prelude.Bits.{land, lor, has}
use zephyr_polling.Smp.{
  Config, Host, Smp, Pairing, BondKeys, Conn, just_works, set_bit, no_bits, flag_enc_pending,
  flag_keys_distr, flag_pairing, flag_timeout, flag_sc, flag_bond, flag_sec_req, flag_ct2,
  auth_bonding, auth_sc, auth_ct2, max_enc_key_size, err_auth_requirements, err_enc_key_size,
  err_unspecified,
}
use zephyr_polling.Smp.Method.{
  get_io_capa, get_pair_method, get_auth, update_keys_check, remote_sec_level_reachable,
  sec_level_reachable,
}
use zephyr_polling.Smp.Features.{
  recv_keys, send_keys, recv_keys_sc, send_keys_sc, auth_default, empty_pairing, smp_init,
  with_keys, has_keys, size_allowed, both, set_if,
}

-- A handler's new state, and 0 or the error that it returns.
pub record Reply : Type 0 where
  pub smp : Smp
  pub err : ℕ

-- The response of `smp_pairing_req` before the test for bonding, without which no key is distributed.
unfoldable pub offered : Config → Host → Smp → Pairing → Pairing
offered cfg host smp req =
    let auth = get_auth cfg host smp req.auth_req in
    let sc = has auth auth_sc && has req.auth_req auth_sc in
    let init = land req.init_key_dist (recv_keys cfg) in
    let resp = land req.resp_key_dist (send_keys cfg) in
    record {
      io_capability = get_io_capa cfg host smp;
      oob_flag = if host.oobd_present then 1 else 0;
      auth_req = auth;
      max_key_size = max_enc_key_size;
      init_key_dist = if sc then land init (recv_keys_sc cfg) else init;
      resp_key_dist = if sc then land resp (send_keys_sc cfg) else resp;
    }

unfoldable pub pairing_response : Config → Host → Smp → Pairing → Pairing
pairing_response cfg host smp req =
    let rsp = offered cfg host smp req in
    let bond = both req rsp auth_bonding in
    record rsp {
      init_key_dist = if bond then rsp.init_key_dist else 0;
      resp_key_dist = if bond then rsp.resp_key_dist else 0;
    }

-- The flags that both sides' requirements set.
abbrev pub agreed_flags : Pairing → Pairing → (ℕ → Bool) → ℕ → Bool
agreed_flags req rsp flags =
    set_if (both req rsp auth_bonding) flag_bond
      (set_if (both req rsp auth_ct2) flag_ct2 (set_if (both req rsp auth_sc) flag_sc flags))

-- The checks at the end of both handlers.
abbrev pub final_checks : Config → Smp → Reply
final_checks cfg smp =
    let level = remote_sec_level_reachable cfg smp in
    record {
      smp = smp;
      err =
          if not (update_keys_check cfg smp smp.conn.keys)
          then err_auth_requirements
          else if not (level == 0)
          then level
          else if cfg.sc_pair_only && not (smp.flags flag_sc)
          then err_auth_requirements
          else 0;
    }

-- The state that `smp_pairing_req` puts to the final checks.
unfoldable pub responded : Config → Host → Smp → Pairing → Smp
responded cfg host smp req =
    let rsp = pairing_response cfg host smp req in
    let paired = record smp {
      preq = req;
      prsp = rsp;
      local_dist = rsp.resp_key_dist;
      remote_dist = rsp.init_key_dist;
      flags = set_bit (agreed_flags req rsp smp.flags) flag_pairing;
    } in
    record paired { method = get_pair_method cfg host paired req.io_capability }

-- `smp_pairing_req` from where the context is ready on.
unfoldable pub respond : Config → Host → Smp → Pairing → Reply
respond cfg host smp req =
    let rsp = offered cfg host smp req in
    let refused = record smp { preq = req; prsp = rsp; flags = agreed_flags req rsp smp.flags } in
    if not (both req rsp auth_bonding) && cfg.bonding_required
    then record { smp = refused; err = err_unspecified }
    else final_checks cfg (responded cfg host smp req)

unfoldable pub smp_pairing_req : Config → Host → Option BondKeys → Bool → Smp → Pairing → Reply
smp_pairing_req cfg host slot rand_ok smp req =
    let smp₁ = with_keys smp slot in
    if not (size_allowed cfg req.max_key_size)
    then record { smp = smp; err = err_enc_key_size }
    else if not (has_keys smp₁)
    then record { smp = smp₁; err = err_unspecified }
    else if smp₁.flags flag_sec_req
    then respond cfg host smp₁ req
    else if rand_ok
    then respond cfg host (smp_init smp₁) req
    else record { smp = record (smp_init smp₁) { allowed_cmds = no_bits }; err = err_unspecified }

-- What `smp_send_pairing_req` returns, with 0 as `sent`.
pub data SendResult : Type 0 where
  sent timed_out busy invalid no_mem no_bufs ignored : SendResult

pub record Sent : Type 0 where
  pub smp : Smp
  pub result : SendResult

unfoldable pub pairing_request : Config → Host → Smp → Pairing
pairing_request cfg host smp =
    let auth = get_auth cfg host smp (auth_default cfg) in
    record {
      io_capability = get_io_capa cfg host smp;
      oob_flag = if host.oobd_present then 1 else 0;
      auth_req = auth;
      max_key_size = max_enc_key_size;
      init_key_dist = if has auth auth_bonding then send_keys cfg else 0;
      resp_key_dist = if has auth auth_bonding then recv_keys cfg else 0;
    }

-- `smp_send_pairing_req` from the request on: commands 2 and 11 are allowed.
unfoldable pub request : Config → Host → Smp → Smp
request cfg host smp =
    let req = pairing_request cfg host smp in
    record smp {
      local_dist = req.init_key_dist;
      remote_dist = req.resp_key_dist;
      preq = req;
      allowed_cmds = set_bit (set_bit smp.allowed_cmds 2) 11;
      flags = set_bit smp.flags flag_pairing;
    }

unfoldable pub smp_send_pairing_req : Config → Host → Option BondKeys → Bool → Bool → Smp → Sent
smp_send_pairing_req cfg host slot rand_ok buf_ok smp =
    let smp₁ = with_keys smp slot in
    let smp₂ = smp_init smp₁ in
    if smp.flags flag_timeout
    then record { smp = smp; result = timed_out }
    else if smp.flags flag_keys_distr
    then record { smp = smp; result = ignored }
    else if smp.flags flag_pairing
    then record { smp = smp; result = busy }
    else if smp.flags flag_enc_pending
    then record { smp = smp; result = busy }
    else if not (sec_level_reachable cfg host smp)
    then record { smp = smp; result = invalid }
    else if not (has_keys smp₁)
    then record { smp = smp₁; result = no_mem }
    else if not rand_ok
    then record { smp = record smp₂ { allowed_cmds = no_bits }; result = no_bufs }
    else if not buf_ok
    then record { smp = record smp₂ { flags = set_bit smp₂.flags flag_timeout }; result = no_bufs }
    else record { smp = request cfg host smp₂; result = sent }

-- With secure connections the encryption key is not distributed.
abbrev pub without_enc_key : Config → Reply → Reply
without_enc_key cfg r =
    if (r.err == 0) && r.smp.flags flag_sc
    then record {
      smp = record r.smp {
        local_dist = land r.smp.local_dist (send_keys_sc cfg);
        remote_dist = land r.smp.remote_dist (recv_keys_sc cfg);
      };
      err = 0;
    }
    else r

-- The state that `smp_pairing_rsp` puts to the final checks.
unfoldable pub received : Config → Host → Smp → Pairing → Smp
received cfg host smp rsp =
    let bond = both smp.preq rsp auth_bonding in
    let paired = record smp {
      local_dist = if bond then land smp.local_dist rsp.init_key_dist else 0;
      remote_dist = if bond then land smp.remote_dist rsp.resp_key_dist else 0;
      prsp = rsp;
      flags = agreed_flags smp.preq rsp smp.flags;
    } in
    record paired { method = get_pair_method cfg host paired rsp.io_capability }

-- `smp_pairing_rsp` up to the questions to the user.
unfoldable pub smp_pairing_rsp : Config → Host → Smp → Pairing → Reply
smp_pairing_rsp cfg host smp rsp =
    let refused = record smp {
      local_dist = land smp.local_dist rsp.init_key_dist;
      remote_dist = land smp.remote_dist rsp.resp_key_dist;
      prsp = rsp;
      flags = agreed_flags smp.preq rsp smp.flags;
    } in
    if not (size_allowed cfg rsp.max_key_size)
    then record { smp = smp; err = err_enc_key_size }
    else if not (both smp.preq rsp auth_bonding) && cfg.bonding_required
    then record { smp = refused; err = err_unspecified }
    else without_enc_key cfg (final_checks cfg (received cfg host smp rsp))
