-- ===== src/Smp/Recv.antt =====
-- What src/host/smp.c does with a PDU that arrives: `bt_smp_recv` with the error path of `smp_error`
-- and the handlers of Pairing Failed and of keypress notifications. The handlers of the other
-- commands are an argument.
pub mod Guard
use zephyr_polling.Prelude.{
  ℕ, Bool, true, false, not, ◌&&◌, ◌||◌, Option, none, some, List, [], ◌∷◌, ◌++◌, length, get_or,
  leb, ◌==◌, if◌then◌else◌,
}
use zephyr_polling.Smp.{
  Config, Smp, AuthCb, set_bit, clear_bit, flag_enc_pending, flag_keys_distr, flag_pairing,
  flag_timeout, flag_sec_req, flag_user, flag_display,
}
use zephyr_polling.Smp.Failure.{
  Out, cancelled, disconnected, sent_failed, Step, emit, smp_pairing_complete,
}

abbrev pub in_procedure : Smp → Bool
in_procedure smp = smp.flags flag_pairing || (smp.flags flag_enc_pending || smp.flags flag_sec_req)

-- `smp_create_pdu` marks the context as timed out when there is no buffer.
abbrev pub send_failed : Bool → ℕ → Smp → Step
send_failed true reason smp = record { smp = smp; out = sent_failed reason ∷ [] }
send_failed false reason smp = record {
  smp = record smp { flags = set_bit smp.flags flag_timeout };
  out = [];
}

unfoldable pub smp_error : Config → Bool → Smp → ℕ → Step
smp_error cfg buf_ok smp reason =
    let already_completed =
      smp.flags flag_keys_distr && ((smp.local_dist == 0) && (smp.remote_dist == 0)) in
    let reset =
      if in_procedure smp
      then smp_pairing_complete cfg smp reason
      else record { smp = smp; out = [] } in
    emit reset.out (
      if already_completed
      then record { smp = reset.smp; out = disconnected ∷ [] }
      else send_failed buf_ok reason reset.smp)

-- What a handler does and returns.
pub record Handled : Type 0 where
  pub step : Step
  pub err : ℕ

abbrev pub can_cancel : Option AuthCb → Bool
can_cancel none = false
can_cancel (some cb) = cb.cancel

unfoldable pub smp_pairing_failed : Config → Smp → ℕ → Handled
smp_pairing_failed cfg smp reason =
    let asking = smp.flags flag_user || smp.flags flag_display in
    let flags =
      if smp.flags flag_user
      then clear_bit smp.flags flag_user
      else clear_bit smp.flags flag_display in
    let done = smp_pairing_complete cfg (record smp { flags = flags }) reason in
    record {
      step = emit (if asking && can_cancel smp.auth_cb then cancelled ∷ [] else []) done;
      err = 0;
    }

unfoldable pub smp_keypress_notif : Smp → Handled
smp_keypress_notif smp = record {
  step = record { smp = record smp { allowed_cmds = set_bit smp.allowed_cmds 14 }; out = [] };
  err = 0;
}

abbrev pub Handlers : Type 0
Handlers = ℕ → Smp → List ℕ → Handled

abbrev pub handler : Config → Handlers → Handlers
handler cfg others code smp payload =
    if code == 5
    then smp_pairing_failed cfg smp (get_or payload 0 0)
    else if code == 14
    then smp_keypress_notif smp
    else others code smp payload

-- The lengths of the table `handlers`, from command 0 on.
abbrev pub expect_len : ℕ → ℕ
expect_len code =
    get_or (0 ∷ 6 ∷ 6 ∷ 16 ∷ 16 ∷ 1 ∷ 16 ∷ 10 ∷ 16 ∷ 7 ∷ 16 ∷ 1 ∷ 64 ∷ 16 ∷ 1 ∷ []) code 0

-- The state without the command that was allowed, and with the handler's effects.
unfoldable pub run_handler : Config → Bool → Handlers → ℕ → Smp → List ℕ → Step
run_handler cfg buf_ok others code smp payload =
    let handled = handler cfg others code smp payload in
    if handled.err == 0
    then handled.step
    else emit handled.step.out (smp_error cfg buf_ok handled.step.smp handled.err)

unfoldable pub bt_smp_recv : Config → Bool → Handlers → Smp → List ℕ → Step
bt_smp_recv cfg buf_ok others smp [] = record { smp = smp; out = [] }
bt_smp_recv cfg buf_ok others smp (code ∷ payload) =
    let taken = record smp { allowed_cmds = clear_bit smp.allowed_cmds code } in
    if smp.flags flag_timeout
    then record { smp = smp; out = [] }
    else if leb 15 code
    then record { smp = smp; out = [] }
    else if code == 0
    then smp_error cfg buf_ok smp 7
    else if not (smp.allowed_cmds code)
    then (if smp.flags flag_pairing
        then smp_error cfg buf_ok smp 8
        else record { smp = smp; out = [] })
    else if not (length payload == expect_len code)
    then smp_error cfg buf_ok taken 10
    else run_handler cfg buf_ok others code taken payload
