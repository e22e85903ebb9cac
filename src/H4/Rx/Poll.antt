-- ===== src/H4/Rx/Poll.antt =====
-- One poll of the receiver, and any number of them.
use zephyr_polling.Prelude.{
  ℕ, ◌≡◌, refl, sym, ◌∙◌, inl, inr, false, some, List, arith, ==_ne, Bool-cases,
}
use native.Mathlib.Decide.{ℕ_discrete}
use mathlib.Core.Path.{subst}
use zephyr_polling.H4.{Config, h4_none}
use zephyr_polling.H4.Rx.{Rx, Env, read_header, read_payload, skip, process_rx}
use zephyr_polling.H4.Rx.Bytes.{IsValid, Keeps}
use zephyr_polling.H4.Rx.Kept.{skip-Kept}
use zephyr_polling.H4.Rx.Header.{read_header-Keeps}
use zephyr_polling.H4.Rx.Payload.{GivesEmpty, read_payload-Keeps}

-- A poll of a valid receiver leaves a valid receiver, and what was taken in with the stream is, byte
-- for byte and in order: bytes that are lost, the packet that was handed out with its indicator, what
-- is taken in now, and the rest of the stream. Bytes are lost only if the poll ends idle and hands out
-- no packet. The conditions are that CONFIG_BT_ISO is off, and that the allocator gives valid and empty
-- buffers.
pub process_rx-Keeps :
    (c : Config) (e : Env) (rx : Rx) (stream : List ℕ)
    → c.iso ≡ false
    → IsValid rx
    → GivesEmpty e
    → Keeps rx stream (process_rx c e rx stream)
unfolding process_rx
process_rx-Keeps c e rx stream i v g = elim (ℕ_discrete rx.discard 0) [
  | no ne ↦
      let k : process_rx c e rx stream ≡ some (skip e rx stream) =
        rw (==_ne rx.discard 0 ne) refl in
      let z : rx.type ≡ h4_none = elim (ℕ_discrete rx.type h4_none) [
        | yes z ↦ z
        | no busy ↦ absurd (ne (v.whole busy))
      ] in
      subst (Keeps rx stream) (sym k) (skip-Kept e rx stream v z)
  | yes d ↦ elim (Bool-cases rx.have_hdr) [
    | inl y ↦
        let k : process_rx c e rx stream ≡ read_payload e rx stream = ground arith in
        subst (Keeps rx stream) (sym k)
          (read_payload-Keeps e rx stream v y (λ z. absurd (cc (sym y ∙ v.idle z))) g)
    | inr n ↦
        let k : process_rx c e rx stream ≡ read_header c e rx stream = ground arith in
        subst (Keeps rx stream) (sym k) (read_header-Keeps c e rx stream i v n d)
  ]
]
