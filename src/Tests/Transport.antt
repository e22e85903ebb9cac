-- ===== src/Tests/Transport.antt =====
-- src/drivers/hci_h4.c at concrete inputs.
use zephyr_polling.Prelude.{
  ℕ, ◌<◌, ◌≤◌, true, false, replicate, write, arith, ◌≡◌, refl, true, none, some, List, [], ◌∷◌,
}
use mathlib.Core.Path.{subst}
use zephyr_polling.NetBuf.Simple.{NetBufSimple, headroom, tailroom}
use zephyr_polling.NetBuf.Simple.Room
use zephyr_polling.H4.{Config}
use zephyr_polling.H4.Rx.{
  Rx, Env, Polled, process_rx, read_header, hdr_read, get_hdr, keep_hdr, get_evt_hdr,
}
use zephyr_polling.H4.Rx.Bytes
use zephyr_polling.H4.Rx.Bytes.{Kept}
use zephyr_polling.H4.Rx.Payload.{GivesEmpty}
use zephyr_polling.H4.Rx.Overrun.{read_payload_overrun}
use zephyr_polling.H4.Rx.Returns.{Roomy, FreshFits, process_rx-Kept}
use zephyr_polling.H4.Tx.{BufType, Buf, Tx, process_tx, h4_send, tx_buf}
use zephyr_polling.H4.Tx.Poll.{IsValid}
use zephyr_polling.H4.Tx.Stream.{Event, poll, send, run}

abbrev idle : Tx
idle = record { type = 0; buf = none; fifo = [] }

abbrev command : Buf
command = record { type = BufType.cmd; bytes = 3 ∷ 12 ∷ 0 ∷ [] }

abbrev session : List Event
session =
    send command
    ∷ poll (record { type_sent = some 1; data_sent = some 2 })
    ∷ poll (record { type_sent = none; data_sent = some 5 })
    ∷ []

session_wire : (run true idle session).0 ≡ 1 ∷ 3 ∷ 12 ∷ 0 ∷ []
unfolding run process_tx h4_send tx_buf
session_wire = refl

-- An idle receiver, an allocator with buffers of 16 bytes, and an event of two parameters.
abbrev idle_rx : Rx
idle_rx = record {
  buf = none;
  remaining = 0;
  discard = 0;
  have_hdr = false;
  discardable = false;
  hdr_len = 0;
  type = 0;
  hdr = 0 ∷ 0 ∷ 0 ∷ 0 ∷ [];
}

abbrev empty_buf : ℕ → NetBufSimple
empty_buf n = record { mem = replicate n 0; head = 0; len = 0; size = n }

abbrev two_bytes : Env
two_bytes = record { quota = some 2; fresh = some (empty_buf 6) }

abbrev config : Config
config = record { iso = false; bredr = true }

-- The event code 14 and the length 2 were read.
abbrev rx_headed : Rx
rx_headed = record {
  buf = none;
  remaining = 2;
  discard = 0;
  have_hdr = true;
  discardable = false;
  hdr_len = 2;
  type = 4;
  hdr = 14 ∷ 2 ∷ 0 ∷ 0 ∷ [];
}

-- The receiver takes the indicator, the header and the payload in three polls.
abbrev stream : List ℕ
stream = 4 ∷ 14 ∷ 2 ∷ 7 ∷ 9 ∷ []

header_read :
    process_rx config two_bytes
      (record idle_rx { type = 4; remaining = 2; hdr_len = 2 })
      (14 ∷ 2 ∷ 7 ∷ 9 ∷ [])
    ≡ some (record { rx = rx_headed; stream = 7 ∷ 9 ∷ []; out = none })
unfolding process_rx read_header hdr_read get_hdr keep_hdr write
header_read = refl

rx_headed-IsValid : Bytes.IsValid rx_headed
rx_headed-IsValid = record {
  hdr4 = refl;
  len4 = omega arith;
  left = λ h. absurd (cc h);
  idle = λ h. absurd (omega (arith, h));
  known = λ _ h. absurd (h refl);
  whole = λ h. refl;
  buffer = λ b h. absurd (cc h);
  unused = λ b h. absurd (cc h);
}

rx_headed-Roomy : Roomy rx_headed
unfolding Roomy
rx_headed-Roomy b h = absurd (cc h)

empty_buf-IsValid : Room.IsValid (empty_buf 6)
empty_buf-IsValid = record { inside = omega arith; storage = omega arith; small = omega arith }

two_bytes-GivesEmpty : GivesEmpty two_bytes
unfolding GivesEmpty
two_bytes-GivesEmpty b h =
    let same : empty_buf 6 ≡ b = cc h in
    subst (λ (k : NetBufSimple). Room.IsValid k × (k.len ≡ 0)) same (empty_buf-IsValid, refl)

two_bytes-FreshFits : FreshFits two_bytes rx_headed
unfolding FreshFits tailroom headroom
two_bytes-FreshFits b h =
    let same : empty_buf 6 ≡ b = cc h in
    subst (λ (k : NetBufSimple). 4 ≤ tailroom k) same (omega arith)

process_rx_example :
    (p : Polled) × (process_rx config two_bytes rx_headed (7 ∷ 9 ∷ []) ≡ some p)
    × Kept rx_headed (7 ∷ 9 ∷ []) p
    × Roomy p.rx
process_rx_example =
    process_rx-Kept config two_bytes rx_headed (7 ∷ 9 ∷ []) refl rx_headed-IsValid rx_headed-Roomy
      two_bytes-GivesEmpty two_bytes-FreshFits

-- A buffer with room for the payload, and not for the header as well.
small_buf-IsValid : Room.IsValid (empty_buf 3)
small_buf-IsValid = record { inside = omega arith; storage = omega arith; small = omega arith }

small_buf_fits : 2 ≤ tailroom (empty_buf 3)
unfolding tailroom headroom
small_buf_fits = omega arith

small_buf_over : tailroom (empty_buf 3) < 4
unfolding tailroom headroom
small_buf_over = omega arith

-- An LE event with an empty parameter field leaves 65535 bytes to come.
le_event_short :
    (get_evt_hdr config (record rx_headed {
      remaining = 0;
      hdr_len = 3;
      have_hdr = false;
      hdr = 0x3e ∷ 0 ∷ 1 ∷ 0 ∷ [];
    })).remaining
    ≡ 65535
unfolding get_evt_hdr
le_event_short = refl

overrun_example :
    process_rx config (record { quota = some 2; fresh = some (empty_buf 3) }) rx_headed (7 ∷ 9 ∷ [])
    ≡ none
overrun_example =
    read_payload_overrun config rx_headed (empty_buf 3) 2 (7 ∷ 9 ∷ []) rx_headed-IsValid refl refl
      refl small_buf-IsValid small_buf_fits small_buf_over (omega arith) (omega arith)
