-- ===== src/Smp/Method.antt =====
-- The choice of the pairing method and the security checks of src/host/smp.c, in the order of the file.
pub mod Agree
use zephyr_polling.Prelude.{
  ℕ, min, Bool, true, false, not, ◌&&◌, ◌||◌, Option, none, some, List, [], ◌∷◌, get_or, ◌+◌, ◌-◌,
  ltb, leb, ◌==◌, if◌then◌else◌,
}
use zephyr_polling.Prelude.Bits.{land, lor, has}
use zephyr_polling.Smp.{
  Config, Host, Smp, Pairing, BondKeys, AuthCb, Role, central, peripheral, PairingMethod,
  just_works, passkey_input, passkey_display, passkey_confirm, passkey_role, le_sc_oob, legacy_oob,
  flag_sc, auth_mitm, auth_sc, auth_bonding, keys_ltk, keys_ltk_p256, keys_authenticated,
  io_display_only, io_display_yesno, io_keyboard_only, io_no_input_output, io_keyboard_display,
  max_enc_key_size, err_auth_requirements, err_enc_key_size, err_unspecified,
}

-- gen_method_legacy and gen_method_sc: a row for each capability of the remote device, with the
-- method for each capability of the local one.
abbrev pub gen_method_legacy : List (List PairingMethod)
gen_method_legacy =
    (just_works ∷ just_works ∷ passkey_input ∷ just_works ∷ passkey_input ∷ [])
    ∷ (just_works ∷ just_works ∷ passkey_input ∷ just_works ∷ passkey_input ∷ [])
    ∷ (passkey_display ∷ passkey_display ∷ passkey_input ∷ just_works ∷ passkey_display ∷ [])
    ∷ (just_works ∷ just_works ∷ just_works ∷ just_works ∷ just_works ∷ [])
    ∷ (passkey_display ∷ passkey_display ∷ passkey_input ∷ just_works ∷ passkey_role ∷ [])
    ∷ []

abbrev pub gen_method_sc : List (List PairingMethod)
gen_method_sc =
    (just_works ∷ just_works ∷ passkey_input ∷ just_works ∷ passkey_input ∷ [])
    ∷ (just_works ∷ passkey_confirm ∷ passkey_input ∷ just_works ∷ passkey_confirm ∷ [])
    ∷ (passkey_display ∷ passkey_display ∷ passkey_input ∷ just_works ∷ passkey_display ∷ [])
    ∷ (just_works ∷ just_works ∷ just_works ∷ just_works ∷ just_works ∷ [])
    ∷ (passkey_display ∷ passkey_confirm ∷ passkey_input ∷ just_works ∷ passkey_confirm ∷ [])
    ∷ []

-- An element of such a table. Outside of it the code would read other memory, which it never does
-- since both indices are at most 4.
abbrev pub table_at : List (List PairingMethod) → ℕ → ℕ → PairingMethod
table_at table remote local = get_or (get_or table remote []) local just_works

abbrev pub has_passkey : Option ℕ → Bool
has_passkey none = false
has_passkey (some passkey) = true

-- `no_callbacks` of `get_io_capa`.
abbrev pub io_without_callbacks : Config → Host → ℕ
io_without_callbacks cfg host =
    if cfg.with_fixed_passkey && has_passkey host.fixed_passkey
    then io_display_only
    else io_no_input_output

abbrev pub io_of_callbacks : Config → Host → AuthCb → ℕ
io_of_callbacks cfg host cb =
    if cb.display && (cb.entry && (cb.confirm || not host.sc_supported))
    then io_keyboard_display
    else if host.sc_supported && (cb.display && cb.confirm)
    then io_display_yesno
    else if cb.entry
    then (if cfg.with_fixed_passkey && has_passkey host.fixed_passkey
        then io_keyboard_display
        else io_keyboard_only)
    else if cb.display
    then io_display_only
    else io_without_callbacks cfg host

unfoldable pub get_io_capa : Config → Host → Smp → ℕ
get_io_capa cfg host smp = elim smp.auth_cb [
  | none ↦ io_without_callbacks cfg host
  | some cb ↦ io_of_callbacks cfg host cb
]

-- The initiator displays and the responder inputs.
abbrev pub passkey_by_role : Role → PairingMethod → PairingMethod
passkey_by_role central passkey_role = passkey_display
passkey_by_role peripheral passkey_role = passkey_input
passkey_by_role role just_works = just_works
passkey_by_role role passkey_input = passkey_input
passkey_by_role role passkey_display = passkey_display
passkey_by_role role passkey_confirm = passkey_confirm
passkey_by_role role le_sc_oob = le_sc_oob
passkey_by_role role legacy_oob = legacy_oob

-- `legacy_get_pair_method` on what it reads: the role, the request, the response and the capabilities.
unfoldable pub legacy_method : Role → Pairing → Pairing → ℕ → ℕ → PairingMethod
legacy_method role req rsp remote_io local_io =
    if ltb io_keyboard_display remote_io
    then just_works
    else if has (land req.oob_flag rsp.oob_flag) 1
    then legacy_oob
    else if not (has (lor req.auth_req rsp.auth_req) auth_mitm)
    then just_works
    else passkey_by_role role (table_at gen_method_legacy remote_io local_io)

abbrev pub legacy_get_pair_method : Config → Host → Smp → ℕ → PairingMethod
legacy_get_pair_method cfg host smp remote_io =
    legacy_method smp.conn.role smp.preq smp.prsp remote_io (get_io_capa cfg host smp)

-- The part of `get_pair_method` for secure connections.
unfoldable pub sc_method : Pairing → Pairing → ℕ → ℕ → PairingMethod
sc_method req rsp remote_io local_io =
    if has (land req.auth_req rsp.auth_req) auth_sc && has (lor req.oob_flag rsp.oob_flag) 1
    then le_sc_oob
    else if ltb io_keyboard_display remote_io
    then just_works
    else if not (has (lor req.auth_req rsp.auth_req) auth_mitm)
    then just_works
    else table_at gen_method_sc remote_io local_io

-- `get_pair_method` on what it reads, with the flag of secure connections.
unfoldable pub pair_method : Config → Bool → Role → Pairing → Pairing → ℕ → ℕ → PairingMethod
pair_method cfg sc role req rsp remote_io local_io =
    if not cfg.sc_pair_only && not sc
    then legacy_method role req rsp remote_io local_io
    else if cfg.oob_legacy_pair_only
    then just_works
    else sc_method req rsp remote_io local_io

abbrev pub get_pair_method : Config → Host → Smp → ℕ → PairingMethod
get_pair_method cfg host smp remote_io =
    pair_method cfg (smp.flags flag_sc) smp.conn.role smp.preq smp.prsp remote_io
      (get_io_capa cfg host smp)

abbrev pub get_encryption_key_size : Smp → ℕ
get_encryption_key_size smp = min smp.preq.max_key_size smp.prsp.max_key_size

abbrev pub is_just_works : PairingMethod → Bool
is_just_works just_works = true
is_just_works passkey_input = false
is_just_works passkey_display = false
is_just_works passkey_confirm = false
is_just_works passkey_role = false
is_just_works le_sc_oob = false
is_just_works legacy_oob = false

abbrev pub is_legacy_oob : PairingMethod → Bool
is_legacy_oob just_works = false
is_legacy_oob passkey_input = false
is_legacy_oob passkey_display = false
is_legacy_oob passkey_confirm = false
is_legacy_oob passkey_role = false
is_legacy_oob le_sc_oob = false
is_legacy_oob legacy_oob = true

-- The checks of `update_keys_check` against the keys there are.
abbrev pub keeps_level : Config → Smp → BondKeys → Bool
keeps_level cfg smp keys =
    if not (has keys.keys (keys_ltk_p256 + keys_ltk))
    then true
    else if ltb (get_encryption_key_size smp) keys.enc_size
    then false
    else if has keys.keys keys_ltk_p256 && not (smp.flags flag_sc)
    then false
    else if has keys.flags keys_authenticated && is_just_works smp.method
    then false
    else if not cfg.smp_allow_unauth_overwrite
        && (not (has keys.flags keys_authenticated) && is_just_works smp.method)
    then not (not cfg.id_allow_unauth_overwrite || (keys.id == smp.conn.id))
    else true

unfoldable pub update_keys_check : Config → Smp → Option BondKeys → Bool
update_keys_check cfg smp keys =
    if cfg.disable_legacy_jw_passkey && (not (smp.flags flag_sc) && not (is_legacy_oob smp.method))
    then false
    else if cfg.oob_legacy_pair_only && not (is_legacy_oob smp.method)
    then false
    else elim keys [ none ↦ true | some k ↦ keeps_level cfg smp k ]

-- `auth &= mask` is by the bits that are kept, `auth |= bit` by `lor`.
unfoldable pub get_auth : Config → Host → Smp → ℕ → ℕ
get_auth cfg host smp auth =
    let kept = land auth (if host.sc_supported then (if cfg.bredr then 47 else 15) else 7) in
    let mitm =
      if (get_io_capa cfg host smp == io_no_input_output)
        || (not cfg.enforce_mitm && ltb smp.conn.required_sec_level 3)
      then land kept (255 - auth_mitm)
      else lor kept auth_mitm in
    if host.bondable then lor mitm auth_bonding else land mitm (255 - auth_bonding)

-- `remote_sec_level_reachable` for a level: 0 or an error.
abbrev pub level_error : Smp → ℕ → ℕ
level_error smp sec =
    let not_just_works = if is_just_works smp.method then err_auth_requirements else 0 in
    if (sec == 1) || (sec == 2)
    then 0
    else if sec == 4
    then (if not (get_encryption_key_size smp == max_enc_key_size)
        then err_enc_key_size
        else if not (smp.flags flag_sc)
        then err_auth_requirements
        else not_just_works)
    else if sec == 3
    then not_just_works
    else err_unspecified

unfoldable pub remote_sec_level_reachable : Config → Smp → ℕ
remote_sec_level_reachable cfg smp =
    let sec = if cfg.sc_only then 4 else smp.conn.required_sec_level in
    level_error smp (if cfg.oob_legacy_pair_only then 3 else sec)

abbrev pub asks_oob : Option AuthCb → Bool
asks_oob none = false
asks_oob (some cb) = cb.oob_data_request

unfoldable pub sec_level_reachable : Config → Host → Smp → Bool
sec_level_reachable cfg host smp =
    let level = smp.conn.required_sec_level in
    let can = not (get_io_capa cfg host smp == io_no_input_output) || asks_oob smp.auth_cb in
    if (level == 1) || (level == 2)
    then true
    else if level == 3
    then can
    else if level == 4
    then can && host.sc_supported
    else false
