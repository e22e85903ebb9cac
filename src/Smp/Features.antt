-- ===== src/Smp/Features.antt =====
-- The features of a pairing in src/host/smp.c: the masks of keys, and the tests on both sides of an
-- exchange.
use zephyr_polling.Prelude.{
  ℕ, ◌-◌, Bool, true, false, not, ◌&&◌, Option, none, some, ltb, if◌then◌else◌,
}
use zephyr_polling.Prelude.Bits.{land, lor, has}
use zephyr_polling.Smp.{
  Config, Smp, Pairing, BondKeys, just_works, set_bit, no_bits, auth_sc, max_enc_key_size,
}

-- Distribution of the encryption key 1, the identity key 2, the signing key 4 and the link key 8.
abbrev pub recv_keys : Config → ℕ
recv_keys cfg =
    let dist_sign = if cfg.signing then lor 3 4 else 3 in
    if cfg.bredr then lor dist_sign 8 else dist_sign

abbrev pub send_keys : Config → ℕ
send_keys cfg =
    let dist_id = if cfg.privacy then lor 1 2 else 1 in
    let dist_sign = if cfg.signing then lor dist_id 4 else dist_id in
    if cfg.bredr then lor dist_sign 8 else dist_sign

abbrev pub recv_keys_sc : Config → ℕ
recv_keys_sc cfg = land (recv_keys cfg) (255 - 1)

abbrev pub send_keys_sc : Config → ℕ
send_keys_sc cfg = land (send_keys cfg) (255 - 1)

abbrev pub auth_default : Config → ℕ
auth_default cfg =
    let bonding_ct2 = if cfg.bredr then 33 else 1 in
    if cfg.oob_legacy_pair_only then bonding_ct2 else lor bonding_ct2 auth_sc

abbrev pub empty_pairing : Pairing
empty_pairing = record {
  io_capability = 0;
  oob_flag = 0;
  auth_req = 0;
  max_key_size = 0;
  init_key_dist = 0;
  resp_key_dist = 0;
}

-- With a random number, all before the channel is zero, and only Pairing Failed is allowed.
unfoldable pub smp_init : Smp → Smp
smp_init smp = record smp {
  allowed_cmds = set_bit no_bits 5;
  flags = no_bits;
  method = just_works;
  preq = empty_pairing;
  prsp = empty_pairing;
  local_dist = 0;
  remote_dist = 0;
}

abbrev pub with_keys : Smp → Option BondKeys → Smp
with_keys smp slot = elim smp.conn.keys [
  | none ↦ record smp { conn = record smp.conn { keys = slot } }
  | some k ↦ smp
]

abbrev pub has_keys : Smp → Bool
has_keys smp = elim smp.conn.keys [ none ↦ false | some k ↦ true ]

abbrev pub size_allowed : Config → ℕ → Bool
size_allowed cfg size = not (ltb max_enc_key_size size) && not (ltb size cfg.min_enc_key_size)

abbrev pub both : Pairing → Pairing → ℕ → Bool
both req rsp mask = has rsp.auth_req mask && has req.auth_req mask

abbrev pub set_if : Bool → ℕ → (ℕ → Bool) → ℕ → Bool
set_if true flag flags = set_bit flags flag
set_if false flag flags = flags
