-- ===== src/Smp/Failure.antt =====
-- How pairing ends in src/host/smp.c: the tables of errors, the reset of the context, and
-- `smp_pairing_complete` with the calls back into the security manager that it causes
-- (src/host/conn.c, src/host/hci_core.c). What leaves the context is a list.
pub mod Once
use zephyr_polling.Prelude.{
  ℕ, Bool, false, not, ◌&&◌, ◌||◌, none, some, List, [], ◌∷◌, ◌++◌, ◌==◌, if◌then◌else◌,
}
use zephyr_polling.Smp.{
  Config, Smp, is_central, central, peripheral, just_works, set_bit, clear_bit, no_bits,
  flag_enc_pending, flag_keys_distr, flag_pairing, flag_timeout, flag_bond, flag_sc_debug_key,
  flag_derive_lk,
}

-- enum bt_security_err.
pub data SecurityErr : Type 0 where
  success auth_fail pin_or_key_missing oob_not_available auth_requirement pair_not_supported
        pair_not_allowed invalid_param key_rejected unspecified :
      SecurityErr

unfoldable pub security_err_get : ℕ → SecurityErr
security_err_get smp_err =
    if (smp_err == 1) || ((smp_err == 11) || ((smp_err == 12) || (smp_err == 4)))
    then auth_fail
    else if smp_err == 2
    then oob_not_available
    else if (smp_err == 3) || (smp_err == 6)
    then auth_requirement
    else if (smp_err == 5) || (smp_err == 7)
    then pair_not_supported
    else if (smp_err == 9) || ((smp_err == 13) || (smp_err == 14))
    then pair_not_allowed
    else if smp_err == 10
    then invalid_param
    else if smp_err == 15
    then key_rejected
    else unspecified

abbrev pub smp_err_get : SecurityErr → ℕ
smp_err_get oob_not_available = 2
smp_err_get auth_fail = 3
smp_err_get auth_requirement = 3
smp_err_get pair_not_supported = 5
smp_err_get invalid_param = 10
smp_err_get pin_or_key_missing = 8
smp_err_get pair_not_allowed = 8
smp_err_get unspecified = 8
smp_err_get success = 0
smp_err_get key_rejected = 0

abbrev pub hci_err_get : SecurityErr → ℕ
hci_err_get success = 0
hci_err_get auth_fail = 5
hci_err_get pin_or_key_missing = 6
hci_err_get pair_not_supported = 41
hci_err_get pair_not_allowed = 24
hci_err_get invalid_param = 18
hci_err_get oob_not_available = 31
hci_err_get auth_requirement = 31
hci_err_get key_rejected = 31
hci_err_get unspecified = 31

unfoldable pub bt_security_err_get : ℕ → SecurityErr
bt_security_err_get hci_err =
    if hci_err == 0
    then success
    else if hci_err == 5
    then auth_fail
    else if hci_err == 6
    then pin_or_key_missing
    else if hci_err == 41
    then pair_not_supported
    else if hci_err == 24
    then pair_not_allowed
    else if hci_err == 18
    then invalid_param
    else unspecified

-- What others are told, in this order: `failed` and `completed` by the listeners of pairing,
-- `changed` by the callbacks of connections; a PDU Pairing Failed; a new start of security.
pub data Out : Type 0 where
  failed : SecurityErr → Out
  completed : Bool → Out
  changed : ℕ → SecurityErr → Out
  stored_keys cleared_keys derived_link_key restarted disconnected cancelled : Out
  sent_failed : ℕ → Out

pub record Step : Type 0 where
  pub smp : Smp
  pub out : List Out

abbrev pub emit : List Out → Step → Step
emit out s = record { smp = s.smp; out = out ++ s.out }

unfoldable pub smp_reset : Config → Smp → Smp
smp_reset cfg smp = record smp {
  flags = no_bits;
  method = just_works;
  allowed_cmds =
      if cfg.with_central && is_central smp.conn.role
      then set_bit no_bits 11
      else if cfg.with_peripheral
      then set_bit no_bits 1
      else no_bits;
}

-- The end of `smp_pairing_complete`; security is started again if its level is too low.
abbrev pub finish : Config → Smp → List Out → Step
finish cfg smp out = record {
  smp = smp_reset cfg smp;
  out = if smp.conn.sec_level == smp.conn.required_sec_level then out else out ++ (restarted ∷ []);
}

abbrev pub told_failed : Smp → SecurityErr → List Out
told_failed smp err = if smp.flags flag_pairing then failed err ∷ [] else []

abbrev pub loses_keys : Smp → Bool
loses_keys smp = elim smp.conn.keys [
  | none ↦ false
  | some k ↦ (k.enc_size == 0) || smp.flags flag_keys_distr
]

-- The keys that a failure clears, from the pool and from the connection.
abbrev pub drop_keys : Smp → Step
drop_keys smp =
    if loses_keys smp
    then record {
      smp = record smp { conn = record smp.conn { keys = none } };
      out = cleared_keys ∷ [];
    }
    else record { smp = smp; out = [] }

-- A failure in the phase of key distribution, of which the connection is not told.
unfoldable pub complete_distr : Config → Smp → ℕ → Step
complete_distr cfg smp status =
    let dropped = drop_keys smp in
    let err = security_err_get status in
    emit dropped.out (finish cfg dropped.smp (told_failed dropped.smp err))

-- `bt_smp_encrypt_change` for an error of the controller.
unfoldable pub encrypt_failed : Config → Smp → ℕ → Step
encrypt_failed cfg smp hci_status =
    let waited = record smp { flags = clear_bit smp.flags flag_enc_pending } in
    if not (smp.flags flag_enc_pending)
    then record { smp = smp; out = [] }
    else if waited.flags flag_pairing
    then complete_distr cfg (record waited { flags = set_bit waited.flags flag_keys_distr })
        (smp_err_get (bt_security_err_get hci_status))
    else record { smp = waited; out = [] }

-- `bt_conn_security_changed` for a failure: the required level is given up, the channel is told,
-- and then the callbacks.
unfoldable pub security_changed : Config → Smp → SecurityErr → Step
security_changed cfg smp err =
    let reset = record smp { conn = record smp.conn { required_sec_level = smp.conn.sec_level } } in
    let told = encrypt_failed cfg reset (hci_err_get err) in
    record { smp = told.smp; out = told.out ++ (changed (hci_err_get err) err ∷ []) }

-- A failure of pairing before key distribution.
unfoldable pub complete_failed : Config → Smp → ℕ → Step
complete_failed cfg smp status =
    let err = security_err_get status in
    let dropped = drop_keys smp in
    let told = security_changed cfg dropped.smp err in
    emit (dropped.out ++ told.out) (finish cfg told.smp (told_failed told.smp err))

unfoldable pub complete_success : Config → Smp → Step
complete_success cfg smp =
    let derive =
      cfg.bredr
      && (smp.flags flag_derive_lk
          && (not (smp.flags flag_sc_debug_key) || cfg.store_debug_keys)) in
    let bond = smp.flags flag_bond in
    emit (if derive then derived_link_key ∷ [] else [])
      (emit (if bond then stored_keys ∷ [] else []) (finish cfg smp (completed bond ∷ [])))

unfoldable pub smp_pairing_complete : Config → Smp → ℕ → Step
smp_pairing_complete cfg smp status =
    if status == 0
    then complete_success cfg smp
    else if smp.flags flag_keys_distr
    then complete_distr cfg smp status
    else complete_failed cfg smp status

unfoldable pub smp_timeout : Config → Smp → Step
smp_timeout cfg smp =
    let s = smp_pairing_complete cfg smp 8 in
    record { smp = record s.smp { flags = set_bit s.smp.flags flag_timeout }; out = s.out }
