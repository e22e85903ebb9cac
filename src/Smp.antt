-- ===== src/Smp.antt =====
-- The pairing decisions of src/host/smp.c: the state of one security manager channel with its
-- connection, the settings of the build and the application, and the numbers of the protocol
-- (src/host/smp.h, src/host/keys.h). Flags and allowed commands are sets of numbers.
pub mod Method
pub mod Features
pub mod Negotiate
pub mod Failure
pub mod Recv
use zephyr_polling.Prelude.{ℕ, ◌==◌, Bool, true, false, Option, List, if◌then◌else◌}

-- The settings of the build that the code tests.
pub record Config : Type 0 where
  pub sc_pair_only : Bool
  pub oob_legacy_pair_only : Bool
  pub with_fixed_passkey : Bool
  pub enforce_mitm : Bool
  pub sc_only : Bool
  pub disable_legacy_jw_passkey : Bool
  pub smp_allow_unauth_overwrite : Bool
  pub id_allow_unauth_overwrite : Bool
  pub bonding_required : Bool
  pub signing : Bool
  pub privacy : Bool
  pub bredr : Bool
  pub with_central : Bool
  pub with_peripheral : Bool
  pub store_debug_keys : Bool
  pub min_enc_key_size : ℕ

pub data PairingMethod : Type 0 where
  just_works passkey_input passkey_display passkey_confirm passkey_role le_sc_oob legacy_oob :
      PairingMethod

pub data Role : Type 0 where
  central peripheral : Role

abbrev pub is_central : Role → Bool
is_central central = true
is_central peripheral = false

-- Which callbacks the application has set.
pub record AuthCb : Type 0 where
  pub display : Bool
  pub entry : Bool
  pub confirm : Bool
  pub oob_data_request : Bool
  pub cancel : Bool

-- The variables of the file: `none` is BT_PASSKEY_INVALID.
pub record Host : Type 0 where
  pub sc_supported : Bool
  pub bondable : Bool
  pub oobd_present : Bool
  pub fixed_passkey : Option ℕ

pub record Pairing : Type 0 where
  pub io_capability : ℕ
  pub oob_flag : ℕ
  pub auth_req : ℕ
  pub max_key_size : ℕ
  pub init_key_dist : ℕ
  pub resp_key_dist : ℕ

-- What the security manager reads of stored keys.
pub record BondKeys : Type 0 where
  pub id : ℕ
  pub enc_size : ℕ
  pub flags : ℕ
  pub keys : ℕ

pub record Conn : Type 0 where
  pub role : Role
  pub id : ℕ
  pub sec_level : ℕ
  pub required_sec_level : ℕ
  pub keys : Option BondKeys

pub record Smp : Type 0 where
  pub allowed_cmds : ℕ → Bool
  pub flags : ℕ → Bool
  pub method : PairingMethod
  pub preq : Pairing
  pub prsp : Pairing
  pub local_dist : ℕ
  pub remote_dist : ℕ
  pub conn : Conn
  pub auth_cb : Option AuthCb

-- `atomic_set_bit`, `atomic_clear_bit` and `atomic_set (..., 0)` on a set of numbers.
abbrev pub set_bit : (ℕ → Bool) → ℕ → ℕ → Bool
set_bit f i j = if j == i then true else f j

abbrev pub clear_bit : (ℕ → Bool) → ℕ → ℕ → Bool
clear_bit f i j = if j == i then false else f j

abbrev pub no_bits : ℕ → Bool
no_bits j = false

-- SMP_FLAG_..., BT_SMP_AUTH_..., BT_SMP_DIST_..., BT_KEYS_..., BT_SMP_IO_... and BT_SMP_ERR_....
abbrev pub flag_enc_pending : ℕ
flag_enc_pending = 1

abbrev pub flag_keys_distr : ℕ
flag_keys_distr = 2

abbrev pub flag_pairing : ℕ
flag_pairing = 3

abbrev pub flag_timeout : ℕ
flag_timeout = 4

abbrev pub flag_sc : ℕ
flag_sc = 5

abbrev pub flag_user : ℕ
flag_user = 10

abbrev pub flag_display : ℕ
flag_display = 11

abbrev pub flag_bond : ℕ
flag_bond = 13

abbrev pub flag_sec_req : ℕ
flag_sec_req = 15

abbrev pub flag_sc_debug_key : ℕ
flag_sc_debug_key = 14

abbrev pub flag_derive_lk : ℕ
flag_derive_lk = 17

abbrev pub flag_ct2 : ℕ
flag_ct2 = 20

abbrev pub auth_bonding : ℕ
auth_bonding = 1

abbrev pub auth_mitm : ℕ
auth_mitm = 4

abbrev pub auth_sc : ℕ
auth_sc = 8

abbrev pub auth_ct2 : ℕ
auth_ct2 = 32

abbrev pub keys_ltk : ℕ
keys_ltk = 4

abbrev pub keys_ltk_p256 : ℕ
keys_ltk_p256 = 32

abbrev pub keys_authenticated : ℕ
keys_authenticated = 1

abbrev pub io_display_only : ℕ
io_display_only = 0

abbrev pub io_display_yesno : ℕ
io_display_yesno = 1

abbrev pub io_keyboard_only : ℕ
io_keyboard_only = 2

abbrev pub io_no_input_output : ℕ
io_no_input_output = 3

abbrev pub io_keyboard_display : ℕ
io_keyboard_display = 4

abbrev pub max_enc_key_size : ℕ
max_enc_key_size = 16

abbrev pub err_auth_requirements : ℕ
err_auth_requirements = 3

abbrev pub err_enc_key_size : ℕ
err_enc_key_size = 6

abbrev pub err_unspecified : ℕ
err_unspecified = 8
