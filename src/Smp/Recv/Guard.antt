-- ===== src/Smp/Recv/Guard.antt =====
-- Which PDUs reach a handler in src/host/smp.c, and what the others do.
use zephyr_polling.Prelude.{
  ℕ, ◌≡◌, refl, Bool, true, false, List, [], ◌∷◌, ◌++◌, length, ◌==◌, leb, arith, inl, inr,
  Bool-cases, ◌&&◌, ◌⊎◌,
}
use zephyr_polling.Smp.{Config, Smp, no_bits, flag_pairing, flag_keys_distr, flag_timeout}
use zephyr_polling.Smp.Failure.{Out, Step, smp_pairing_complete, disconnected, sent_failed}
use zephyr_polling.Smp.Failure.Once.{reports, reports-append, smp_pairing_complete-reports}
use zephyr_polling.Smp.Recv.{Handlers, expect_len, bt_smp_recv, smp_error}

-- A command that the state allows, with the length of its parameters.
abbrev pub IsExpected : Smp → List ℕ → Type 0
IsExpected smp [] = ⊥
IsExpected smp (code ∷ payload) =
    (smp.flags flag_timeout ≡ false)
    × (smp.allowed_cmds code ≡ true)
    × (length payload ≡ expect_len code)

-- No handler had any effect: nothing happens, or an error is sent, with at most the permission for a
-- command taken away.
abbrev pub IsRefused : Config → Bool → Smp → Step → Type 0
IsRefused cfg buf_ok smp r =
    (r ≡ record { smp = smp; out = [] })
    ⊎ ((allowed : ℕ → Bool) × (reason : ℕ) × (r
          ≡ smp_error cfg buf_ok (record smp { allowed_cmds = allowed }) reason))

-- A failure that is reported once and leaves no flag.
abbrev pub IsAborted : Step → Type 0
IsAborted s = (reports s.out ≡ 1) × (s.smp.flags ≡ no_bits)

quiet : (xs ys : List Out) → reports xs ≡ 1 → reports ys ≡ 0 → reports (xs ++ ys) ≡ 1
quiet xs ys h k = let split = reports-append xs ys in omega arith

smp_error-IsAborted :
    (cfg : Config) (smp : Smp) (reason : ℕ)
    → smp.flags flag_pairing ≡ true
    → (reason == 0) ≡ false
    → IsAborted (smp_error cfg true smp reason)
unfolding smp_error
smp_error-IsAborted cfg smp reason p r =
    let done = smp_pairing_complete cfg smp reason in
    let once = smp_pairing_complete-reports cfg smp reason p r in
    rw (p)
      (elim (Bool-cases
        (smp.flags flag_keys_distr && ((smp.local_dist == 0) && (smp.remote_dist == 0)))) [
          | inl e ↦ rw e (quiet done.out (disconnected ∷ []) once.0 refl, once.1)
          | inr n ↦ rw n (quiet done.out (sent_failed reason ∷ []) once.0 refl, once.1)
        ])

-- During pairing a command that is not allowed aborts it, whatever the handlers are and whatever the
-- parameters: the failure is reported to the listeners exactly once, and no flag is left set. The
-- command is one of those that are known, no timeout has occurred, and there is a buffer.
pub bt_smp_recv-IsAborted :
    (cfg : Config) (h : Handlers) (smp : Smp) (code : ℕ) (payload : List ℕ)
    → smp.flags flag_timeout ≡ false
    → smp.flags flag_pairing ≡ true
    → smp.allowed_cmds code ≡ false
    → leb 15 code ≡ false
    → IsAborted (bt_smp_recv cfg true h smp (code ∷ payload))
unfolding bt_smp_recv
bt_smp_recv-IsAborted cfg h smp code payload t p a c =
    rw (t, c, a)
      (elim (Bool-cases (code == 0)) [
        | inl e ↦ rw e (smp_error-IsAborted cfg smp 7 p refl)
        | inr n ↦ rw (n, p) (smp_error-IsAborted cfg smp 8 p refl)
      ])
