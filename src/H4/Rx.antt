-- ===== src/H4/Rx.antt =====
-- `process_rx` of src/drivers/hci_h4.c. Each poll makes at most one call of the UART driver's `recv`
-- and one of the buffer allocator: what they return are parameters of the poll, the bytes that the
-- driver hands out are taken off the stream from the controller. `none` is a failed assertion, or
-- bytes that the driver writes past the end of the buffer.
pub mod Bytes
pub mod Kept
pub mod Indicator
pub mod Header
pub mod Payload
pub mod Poll
pub mod Returns
pub mod Overrun
use zephyr_polling.Prelude.{
  ℕ, ◌+◌, ◌-◌, ◌*◌, ◌%◌, ◌^◌, Bool, true, false, ◌&&◌, ◌||◌, Option, none, some, List, [], ◌∷◌,
  length, take, drop, min, ltb, ◌==◌, if◌then◌else◌, write, window, add_u16, sub_u16,
}
use zephyr_polling.ByteOrder.{byte_at, get_le16}
use zephyr_polling.NetBuf.Simple.{NetBufSimple, tailroom, add_mem, ◌>>=◌}
use zephyr_polling.H4.{Config, h4_none, h4_acl, h4_evt, h4_iso}

pub record Rx : Type 0 where
  pub buf : Option NetBufSimple
  pub remaining : ℕ
  pub discard : ℕ
  pub have_hdr : Bool
  pub discardable : Bool
  pub hdr_len : ℕ
  pub type : ℕ
  pub hdr : List ℕ

-- `quota` is how many bytes the driver can deliver, `none` a negative result; `fresh` is what the
-- buffer allocator returns.
pub record Env : Type 0 where
  pub quota : Option ℕ
  pub fresh : Option NetBufSimple

-- The types of the buffers that go to the host.
pub data RxType : Type 0 where
  evt : RxType
  acl_in : RxType

-- A packet that is handed to `bt_recv`, with the type that its buffer was given.
pub record Packet : Type 0 where
  pub type : RxType
  pub buf : NetBufSimple

pub record Polled : Type 0 where
  pub rx : Rx
  pub stream : List ℕ
  pub out : Option Packet

abbrev pub quiet : Rx → List ℕ → Polled
quiet rx stream = record { rx = rx; stream = stream; out = none }

-- `recv` of at most `n` bytes: the bytes, or a failure, and the rest of the stream.
abbrev pub recv : Option ℕ → ℕ → List ℕ → Option (List ℕ) × List ℕ
recv none n stream = (none, stream)
recv (some q) n stream = (some (take (min q n) stream), drop (min q n) stream)

unfoldable pub reset_rx : Rx → Rx
reset_rx rx = record rx {
  type = h4_none;
  remaining = 0;
  have_hdr = false;
  hdr_len = 0;
  discardable = false;
}

module _ (c : Config) where
  -- The packet indicator that was read.
  unfoldable pub set_type : Rx → ℕ → Rx
  set_type rx t =
      if t == h4_evt
      then record rx { type = t; remaining = 2; hdr_len = 2 }
      else if t == h4_acl
      then record rx { type = t; remaining = 4; hdr_len = 4 }
      else if t == h4_iso && c.iso
      then record rx { type = t; remaining = 4; hdr_len = 4 }
      else record rx { type = h4_none }

  abbrev pub type_read : Rx → Option (List ℕ) → Rx
  type_read rx none = record rx { type = h4_none }
  type_read rx (some []) = record rx { type = h4_none }
  type_read rx (some (t ∷ ts)) = set_type rx t

  unfoldable pub h4_get_type : Env → Rx → List ℕ → Polled
  h4_get_type e rx stream =
      let (got, stream') = recv e.quota 1 stream in quiet (type_read rx got) stream'

-- The bytes that arrived go behind those of the header that are there.
unfoldable pub hdr_read : Rx → Option (List ℕ) → Rx
hdr_read rx none = rx
hdr_read rx (some xs) = record rx {
  hdr = write rx.hdr (rx.hdr_len - rx.remaining) xs;
  remaining = sub_u16 rx.remaining (length xs);
}

abbrev pub hdr_complete : Rx → ℕ → Rx
hdr_complete rx n = record rx { remaining = n; have_hdr = true }

unfoldable pub get_acl_hdr : Rx → Rx
get_acl_hdr rx = if rx.remaining == 0 then hdr_complete rx (get_le16 (drop 2 rx.hdr)) else rx

unfoldable pub get_iso_hdr : Rx → Rx
get_iso_hdr rx =
    if rx.remaining == 0 then hdr_complete rx (get_le16 (drop 2 rx.hdr) % 2 ^ 14) else rx

abbrev pub le_meta_event : ℕ
le_meta_event = 0x3e

abbrev pub le_advertising_report : ℕ
le_advertising_report = 2

abbrev pub evt_code : Rx → ℕ
evt_code rx = byte_at rx.hdr 0

module _ (c : Config) where
  -- Once the event code is there: an LE event has one more byte of header, its subevent.
  unfoldable pub evt_code_read : Rx → Rx
  evt_code_read rx =
      if rx.hdr_len == 2 && ltb rx.remaining 2
      then (if evt_code rx == le_meta_event
          then record rx { remaining = add_u16 rx.remaining 1; hdr_len = (rx.hdr_len + 1) % 2 ^ 8 }
          else if c.bredr && (evt_code rx == 0x22 || evt_code rx == 0x2f)
          then record rx { discardable = true }
          else rx)
      else rx

  unfoldable pub get_evt_hdr : Rx → Rx
  unfolding evt_code_read
  get_evt_hdr rx =
      let rx₁ = evt_code_read rx in
      if rx₁.remaining == 0
      then hdr_complete
          (record rx₁ {
            discardable =
                rx₁.discardable
                || (evt_code rx₁ == le_meta_event && byte_at rx₁.hdr 2 == le_advertising_report);
          })
          (sub_u16 (byte_at rx₁.hdr 1) (rx₁.hdr_len - 2))
      else rx₁

  -- The header functions by packet type; `set_type` lets no type but these three through.
  unfoldable pub get_hdr : Rx → Rx
  unfolding get_evt_hdr get_acl_hdr get_iso_hdr
  get_hdr rx =
      if rx.type == h4_evt
      then get_evt_hdr rx
      else if rx.type == h4_acl
      then get_acl_hdr rx
      else get_iso_hdr rx

abbrev pub copy_hdr : Rx → NetBufSimple → Option NetBufSimple
copy_hdr rx b = add_mem b (window rx.hdr 0 rx.hdr_len)

-- A packet that does not fit: its payload is to be discarded.
abbrev pub too_long : Rx → Rx
too_long rx = reset_rx (record rx { discard = rx.remaining })

-- Behind the header functions: a buffer that an earlier packet left gets the header.
unfoldable pub keep_hdr : Rx → List ℕ → Option NetBufSimple → Option Polled
keep_hdr rx stream none = some (quiet rx stream)
keep_hdr rx stream (some b) =
    if rx.have_hdr
    then (if ltb (tailroom b) rx.remaining
        then some (quiet (too_long rx) stream)
        else copy_hdr rx b >>= λ b'. some (quiet (record rx { buf = some b' }) stream))
    else some (quiet rx stream)

module _ (c : Config) where
  unfoldable pub read_header : Env → Rx → List ℕ → Option Polled
  read_header e rx stream =
      if rx.type == h4_none
      then some (h4_get_type c e rx stream)
      else let (got, stream') = recv e.quota rx.remaining stream in
        let rx' = get_hdr c (hdr_read rx got) in keep_hdr rx' stream' rx'.buf

-- `bt_buf_set_type` for the packet that is complete.
unfoldable pub handed : Rx → RxType
handed rx = if rx.type == h4_evt then RxType.evt else RxType.acl_in

-- The payload is complete, or is waited for.
unfoldable pub finish : Rx → NetBufSimple → List ℕ → Polled
finish rx b stream =
    if rx.remaining == 0
    then record {
      rx = reset_rx (record rx { buf = none });
      stream = stream;
      out = some (record { type = handed rx; buf = b });
    }
    else quiet (record rx { buf = some b }) stream

unfoldable pub payload_read : Rx → NetBufSimple → Option (List ℕ) → List ℕ → Option Polled
payload_read rx b none stream = some (quiet (record rx { buf = some b }) stream)
payload_read rx b (some xs) stream = add_mem b xs >>= λ b'.
    some (finish (record rx { remaining = sub_u16 rx.remaining (length xs) }) b' stream)

unfoldable pub receive : Env → Rx → NetBufSimple → List ℕ → Option Polled
receive e rx b stream =
    let (got, stream') = recv e.quota rx.remaining stream in payload_read rx b got stream'

unfoldable pub with_fresh : Env → Rx → Option NetBufSimple → List ℕ → Option Polled
with_fresh e rx none stream =
    if rx.discardable then some (quiet (too_long rx) stream) else some (quiet rx stream)
with_fresh e rx (some b) stream =
    if ltb (tailroom b) rx.remaining
    then some (quiet (too_long (record rx { buf = some b })) stream)
    else copy_hdr rx b >>= λ b'. receive e rx b' stream

unfoldable pub read_payload : Env → Rx → List ℕ → Option Polled
read_payload e rx stream = elim rx.buf [
  | some b ↦ receive e rx b stream
  | none ↦ with_fresh e rx e.fresh stream
]

abbrev pub discarded : Rx → Option (List ℕ) → Rx
discarded rx none = rx
discarded rx (some xs) = record rx { discard = sub_u16 rx.discard (length xs) }

-- `h4_discard` reads at most 33 bytes.
unfoldable pub skip : Env → Rx → List ℕ → Polled
skip e rx stream =
    let (got, stream') = recv e.quota (min rx.discard 33) stream in quiet (discarded rx got) stream'

module _ (c : Config) where
  unfoldable pub process_rx : Env → Rx → List ℕ → Option Polled
  process_rx e rx stream =
      if rx.discard == 0
      then (if rx.have_hdr then read_payload e rx stream else read_header c e rx stream)
      else some (skip e rx stream)
