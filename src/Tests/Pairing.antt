-- ===== src/Tests/Pairing.antt =====
-- Witnesses for the security manager: a central with keyboard and display, and a peripheral that can
-- only display.
use zephyr_polling.Prelude.{some, ◌≡◌, refl, true, false, none, [], ◌∷◌}
use zephyr_polling.Prelude.Bits.{land, lor, has}
use zephyr_polling.Smp.{
  Config, Host, Smp, AuthCb, Pairing, BondKeys, Role, central, peripheral, just_works, no_bits,
  set_bit, flag_pairing, flag_sc,
}
use zephyr_polling.Smp.Method.{
  get_io_capa, legacy_method, sc_method, pair_method, get_auth, update_keys_check,
  remote_sec_level_reachable, sec_level_reachable,
}
use zephyr_polling.Smp.Features.{empty_pairing, smp_init}
use zephyr_polling.Smp.Negotiate.{
  offered, pairing_response, responded, respond, smp_pairing_req, pairing_request, request,
  smp_send_pairing_req, received, smp_pairing_rsp,
}
use zephyr_polling.Smp.Negotiate.Secure.{
  IsLevelFour, KeepsLevel, smp_pairing_req-IsLevelFour, smp_pairing_req-KeepsLevel,
}
use zephyr_polling.Smp.Negotiate.Distribution.{SameKeys, exchange-SameKeys}
use zephyr_polling.Smp.Failure.{smp_pairing_complete}
use zephyr_polling.Smp.Failure.Once.{reports, smp_pairing_complete-reports}
use zephyr_polling.Smp.Recv.{Handlers, bt_smp_recv}
use zephyr_polling.Smp.Recv.Guard.{IsAborted, bt_smp_recv-IsAborted}

abbrev build : Config
build = record {
  sc_pair_only = false;
  oob_legacy_pair_only = false;
  with_fixed_passkey = false;
  enforce_mitm = true;
  sc_only = false;
  disable_legacy_jw_passkey = false;
  smp_allow_unauth_overwrite = false;
  id_allow_unauth_overwrite = false;
  bonding_required = false;
  signing = false;
  privacy = false;
  bredr = false;
  with_central = true;
  with_peripheral = true;
  store_debug_keys = false;
  min_enc_key_size = 7;
}

abbrev private_build : Config
private_build = record build { privacy = true; signing = true }

abbrev host : Host
host = record { sc_supported = true; bondable = true; oobd_present = false; fixed_passkey = none }

abbrev keyboard_display : AuthCb
keyboard_display = record {
  display = true;
  entry = true;
  confirm = true;
  oob_data_request = false;
  cancel = true;
}

abbrev display_only : AuthCb
display_only = record {
  display = true;
  entry = false;
  confirm = false;
  oob_data_request = false;
  cancel = true;
}

abbrev new_keys : BondKeys
new_keys = record { id = 0; enc_size = 0; flags = 0; keys = 0 }

-- Keys of a long term key from secure connections, authenticated.
abbrev old_keys : BondKeys
old_keys = record { id = 0; enc_size = 16; flags = 17; keys = 36 }

abbrev idle : Role → AuthCb → BondKeys → Smp
idle role cb keys = record {
  allowed_cmds = set_bit no_bits 1;
  flags = no_bits;
  method = just_works;
  preq = empty_pairing;
  prsp = empty_pairing;
  local_dist = 0;
  remote_dist = 0;
  conn = record { role = role; id = 0; sec_level = 1; required_sec_level = 4; keys = some keys };
  auth_cb = some cb;
}

abbrev phone : Smp
phone = idle central keyboard_display new_keys

abbrev sensor : Smp
sensor = idle peripheral display_only new_keys

abbrev bonded : Smp
bonded = idle peripheral display_only old_keys

-- The request of the phone: secure connections, authentication and bonding.
abbrev phone_request : Pairing
phone_request = record {
  io_capability = 4;
  oob_flag = 0;
  auth_req = 13;
  max_key_size = 16;
  init_key_dist = 1;
  resp_key_dist = 3;
}

abbrev sensor_response : Pairing
sensor_response = record phone_request { io_capability = 0; init_key_dist = 0; resp_key_dist = 0 }

abbrev paired : Smp → Smp
paired smp = record smp {
  preq = phone_request;
  prsp = sensor_response;
  flags = set_bit no_bits flag_sc;
}

exchange-SameKeys_example :
    let s = smp_send_pairing_req build host none true true phone in
    let r = smp_pairing_req private_build host none true sensor s.smp.preq in
    SameKeys (smp_pairing_rsp build host s.smp r.smp.prsp).smp r.smp
unfolding smp_send_pairing_req smp_pairing_req smp_pairing_rsp smp_init respond responded offered
    pairing_response request pairing_request received get_io_capa get_auth pair_method sc_method
    legacy_method update_keys_check remote_sec_level_reachable sec_level_reachable land lor has
exchange-SameKeys_example =
    exchange-SameKeys build private_build host host none none true true true phone sensor refl refl
      refl

smp_pairing_req-IsLevelFour_example :
    IsLevelFour (smp_pairing_req build host none true sensor phone_request).smp
unfolding smp_pairing_req smp_init respond responded offered pairing_response get_io_capa get_auth
    pair_method sc_method legacy_method update_keys_check remote_sec_level_reachable land lor has
smp_pairing_req-IsLevelFour_example =
    smp_pairing_req-IsLevelFour build host none true sensor phone_request refl refl refl

-- A fresh connection, whose bond is in the pool.
abbrev unbonded : Smp
unbonded = record sensor { conn = record sensor.conn { keys = none } }

smp_pairing_req-KeepsLevel_example :
    KeepsLevel old_keys (smp_pairing_req build host (some old_keys) true unbonded phone_request).smp
unfolding smp_pairing_req smp_init respond responded offered pairing_response get_io_capa get_auth
    pair_method sc_method legacy_method update_keys_check remote_sec_level_reachable land lor has
smp_pairing_req-KeepsLevel_example =
    smp_pairing_req-KeepsLevel build host (some old_keys) true unbonded phone_request old_keys refl
      refl refl

-- A pairing that waits for encryption, with the nested call.
abbrev encrypting : Smp
encrypting = record sensor { flags = set_bit (set_bit no_bits flag_pairing) 1 }

smp_pairing_complete-reports_example :
    (reports (smp_pairing_complete build encrypting 4).out ≡ 1)
    × ((smp_pairing_complete build encrypting 4).smp.flags ≡ no_bits)
smp_pairing_complete-reports_example = smp_pairing_complete-reports build encrypting 4 refl refl

abbrev accepting : Handlers
accepting code smp payload = record { step = record { smp = smp; out = [] }; err = 0 }

-- Pairing Failed where it is not allowed.
abbrev strict : Smp
strict = record encrypting { allowed_cmds = no_bits }

bt_smp_recv-IsAborted_example :
    IsAborted (bt_smp_recv build true accepting encrypting (12 ∷ 7 ∷ []))
bt_smp_recv-IsAborted_example =
    bt_smp_recv-IsAborted build accepting encrypting 12 (7 ∷ []) refl refl refl refl
