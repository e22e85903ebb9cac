-- ===== src/Smp/Failure/Once.antt =====
-- A pairing that fails in src/host/smp.c is reported exactly once.
use zephyr_polling.Prelude.{
  ℕ, ◌+◌, ◌≡◌, refl, ap, ◌∙◌, Bool, true, false, List, [], ◌∷◌, ◌++◌, ◌==◌, if◌then◌else◌, arith,
  inl, inr, Bool-cases,
}
use zephyr_polling.Smp.{
  Config, Smp, no_bits, flag_pairing, flag_keys_distr, flag_enc_pending, set_bit, clear_bit,
}
use zephyr_polling.Smp.Failure.{
  Out, failed, completed, changed, stored_keys, cleared_keys, derived_link_key, restarted,
  disconnected, cancelled, sent_failed, SecurityErr, finish, drop_keys, loses_keys, told_failed,
  complete_distr, encrypt_failed, security_changed, complete_failed, smp_pairing_complete,
  security_err_get, hci_err_get, smp_err_get, bt_security_err_get, smp_reset,
}

abbrev pub report : Out → ℕ
report (failed e) = 1
report (completed b) = 0
report (changed h e) = 0
report stored_keys = 0
report cleared_keys = 0
report derived_link_key = 0
report restarted = 0
report disconnected = 0
report cancelled = 0
report (sent_failed r) = 0

-- How often the listeners are told that pairing has failed.
abbrev pub reports : List Out → ℕ
reports [] = 0
reports (o ∷ out) = report o + reports out

pub reports-append : (xs ys : List Out) → reports (xs ++ ys) ≡ reports xs + reports ys
reports-append [] ys = omega arith
reports-append (o ∷ xs) ys = let ih = reports-append xs ys in omega arith

-- The number of reports that are still to come: one while pairing is in progress.
abbrev pub due : Smp → ℕ
due smp = if smp.flags flag_pairing then 1 else 0

drop_keys_silent :
    (smp : Smp) → (reports (drop_keys smp).out ≡ 0) × ((drop_keys smp).smp.flags ≡ smp.flags)
drop_keys_silent smp = elim (Bool-cases (loses_keys smp)) [
  | inl e ↦ rw e (refl, refl)
  | inr n ↦ rw n (refl, refl)
]

reports-finish :
    (cfg : Config) (smp : Smp) (err : SecurityErr)
    → reports (finish cfg smp (told_failed smp err)).out ≡ due smp
reports-finish cfg smp err = ground arith

finish-flags :
    (cfg : Config) (smp : Smp) (out : List Out) → (finish cfg smp out).smp.flags ≡ no_bits
unfolding smp_reset
finish-flags cfg smp out = refl

due-flags : (a b : Smp) → a.flags ≡ b.flags → due a ≡ due b
due-flags a b e = ap (λ (f : ℕ → Bool). if f flag_pairing then 1 else 0) e

-- A failure in the phase of key distribution.
complete_distr-reports :
    (cfg : Config) (smp : Smp) (status : ℕ) → reports (complete_distr cfg smp status).out ≡ due smp
unfolding complete_distr
complete_distr-reports cfg smp status =
    let s = (drop_keys smp).smp in
    let told = (finish cfg s (told_failed s (security_err_get status))).out in
    let split = reports-append (drop_keys smp).out told in
    let told_once = reports-finish cfg s (security_err_get status) in
    let silent = (drop_keys_silent smp).0 in
    let same : due s ≡ due smp = due-flags s smp (drop_keys_silent smp).1 in omega arith

complete_distr-flags :
    (cfg : Config) (smp : Smp) (status : ℕ) → (complete_distr cfg smp status).smp.flags ≡ no_bits
unfolding complete_distr smp_reset
complete_distr-flags cfg smp status = refl

settled :
    (cfg : Config) (s : Smp) (status : ℕ)
    → let t = complete_distr cfg s status in reports t.out + due t.smp ≡ due s
settled cfg s status =
    let told = complete_distr-reports cfg s status in
    let none_due =
      due-flags (complete_distr cfg s status).smp (record s { flags = no_bits })
        (complete_distr-flags cfg s status) in
    omega arith

-- What the nested call reports is then no longer due.
encrypt_failed-reports :
    (cfg : Config) (smp : Smp) (hci : ℕ)
    → let s = encrypt_failed cfg smp hci in reports s.out + due s.smp ≡ due smp
unfolding encrypt_failed
encrypt_failed-reports cfg smp hci = elim (Bool-cases (smp.flags flag_enc_pending)) [
  | inr n ↦ rw n (omega arith)
  | inl e ↦ rw e (elim (Bool-cases (smp.flags flag_pairing)) [
    | inr m ↦ rw m (ground arith)
    | inl p ↦ rw p (
        settled cfg
          (record smp { flags = set_bit (clear_bit smp.flags flag_enc_pending) flag_keys_distr })
          (smp_err_get (bt_security_err_get hci))
        ∙ rw p refl)
  ])
]

complete_failed-reports :
    (cfg : Config) (smp : Smp) (status : ℕ) → reports (complete_failed cfg smp status).out ≡ due smp
unfolding complete_failed security_changed
complete_failed-reports cfg smp status =
    let err = security_err_get status in
    let s = (drop_keys smp).smp in
    let reset = record s { conn = record s.conn { required_sec_level = s.conn.sec_level } } in
    let told = security_changed cfg s err in
    let nested = encrypt_failed-reports cfg reset (hci_err_get err) in
    let inner = encrypt_failed cfg reset (hci_err_get err) in
    let end = (finish cfg told.smp (told_failed told.smp err)).out in
    let split₁ = reports-append ((drop_keys smp).out ++ told.out) end in
    let split₂ = reports-append (drop_keys smp).out told.out in
    let split₃ = reports-append inner.out (changed (hci_err_get err) err ∷ []) in
    let last = reports-finish cfg told.smp err in
    let silent = (drop_keys_silent smp).0 in
    let same : due s ≡ due smp = due-flags s smp (drop_keys_silent smp).1 in omega arith

complete_failed-flags :
    (cfg : Config) (smp : Smp) (status : ℕ) → (complete_failed cfg smp status).smp.flags ≡ no_bits
unfolding complete_failed smp_reset
complete_failed-flags cfg smp status = refl

-- A pairing in progress that ends with an error is reported to the listeners as failed exactly once,
-- though the connection is told first, which may call the security manager again, and no flag is
-- left set.
pub smp_pairing_complete-reports :
    (cfg : Config) (smp : Smp) (status : ℕ)
    → smp.flags flag_pairing ≡ true
    → (status == 0) ≡ false
    → let s = smp_pairing_complete cfg smp status in (reports s.out ≡ 1) × (s.smp.flags ≡ no_bits)
unfolding smp_pairing_complete
smp_pairing_complete-reports cfg smp status pairing failure =
    rw failure (elim (Bool-cases (smp.flags flag_keys_distr)) [
      | inl e ↦
          rw e (complete_distr-reports cfg smp status ∙ one, complete_distr-flags cfg smp status)
      | inr n ↦
          rw n (complete_failed-reports cfg smp status ∙ one, complete_failed-flags cfg smp status)
    ])
  where
    one : due smp ≡ 1
    one = rw pairing refl
