-- ===== src/H4/Rx/Returns.antt =====
-- A poll meets no failed assertion and no overrun where the buffers have the room.
use zephyr_polling.Prelude.{
  ℕ, sub_u16, length-window, ◌+◌, ◌≤◌, ◌<◌, ◌^◌, ◌≡◌, refl, sym, ap, ◌∙◌, inl, inr, true, false,
  Option, none, some, List, [], ◌∷◌, length, min, window, arith, ==_ne, Bool-cases, Option-cases,
}
use native.Mathlib.Decide.{ℕ_discrete}
use mathlib.Core.Path.{subst}
use zephyr_polling.NetBuf.Simple.{NetBufSimple, headroom, tailroom}
use zephyr_polling.NetBuf.Simple.Room
use zephyr_polling.NetBuf.Simple.Room.{
  contents, length-contents, added, store-add, added-IsValid, tailroom-added,
}
use zephyr_polling.H4.{Config, h4_none}
use zephyr_polling.H4.Rx.{
  Rx, Env, Polled, quiet, recv, reset_rx, set_type, type_read, h4_get_type, hdr_read, get_hdr,
  copy_hdr, too_long, keep_hdr, read_header, finish, payload_read, receive, with_fresh,
  read_payload, discarded, skip, process_rx,
}
use zephyr_polling.H4.Rx.Bytes.{add_mem_fits, IsValid, Kept, Keeps, recv-append, arrived}
use zephyr_polling.H4.Rx.Header.{headed}
use zephyr_polling.H4.Rx.Poll.{process_rx-Keeps}
use zephyr_polling.H4.Rx.Payload.{GivesEmpty}

-- The buffer that is held has the header, and room for what is to come.
unfoldable pub Roomy : Rx → Type 0
Roomy rx = (b : NetBufSimple) → rx.buf ≡ some b → (rx.have_hdr ≡ true) × (rx.remaining ≤ tailroom b)

-- The buffer that the allocator returns has room for the header and the payload.
unfoldable pub FreshFits : Env → Rx → Type 0
FreshFits e rx = (b : NetBufSimple) → e.fresh ≡ some b → rx.hdr_len + rx.remaining ≤ tailroom b

abbrev pub Returns : Option Polled → Type 0
Returns none = ⊥
Returns (some p) = Roomy p.rx

none-Roomy : (rx : Rx) → rx.buf ≡ none → Roomy rx
unfolding Roomy
none-Roomy rx q b h = absurd (cc (sym q ∙ h))

no_buf : (rx : Rx) → Roomy rx → rx.have_hdr ≡ false → rx.buf ≡ none
unfolding Roomy
no_buf rx r n = elim (Option-cases rx.buf) [
  | inl q ↦ q
  | inr (b, q) ↦ absurd (cc (sym (r b q).0 ∙ n))
]

set_type-buf : (c : Config) (rx : Rx) (t : ℕ) → (set_type c rx t).buf ≡ rx.buf
unfolding set_type
set_type-buf c rx t = ground arith

type_read-buf : (c : Config) (rx : Rx) (got : Option (List ℕ)) → (type_read c rx got).buf ≡ rx.buf
type_read-buf c rx none = refl
type_read-buf c rx (some []) = refl
type_read-buf c rx (some (t ∷ ts)) = set_type-buf c rx t

discarded-Roomy : (rx : Rx) (got : Option (List ℕ)) → Roomy rx → Roomy (discarded rx got)
unfolding Roomy
discarded-Roomy rx none r = r
discarded-Roomy rx (some xs) r = r

kept_alone : (rx : Rx) (rest : List ℕ) → rx.buf ≡ none → Returns (keep_hdr rx rest none)
unfolding keep_hdr
kept_alone rx rest q = none-Roomy rx q

read_header-Returns :
    (c : Config) (e : Env) (rx : Rx) (stream : List ℕ)
    → IsValid rx
    → Roomy rx
    → rx.have_hdr ≡ false
    → Returns (read_header c e rx stream)
unfolding read_header h4_get_type
read_header-Returns c e rx stream v r n = elim (ℕ_discrete rx.type h4_none) [
  | yes z ↦
      let k : read_header c e rx stream ≡ some (h4_get_type c e rx stream) = ground arith in
      subst Returns (sym k)
        (none-Roomy _ (type_read-buf c rx (recv e.quota 1 stream).0 ∙ no_buf rx r n))
  | no ne ↦
      let (p, l) = recv-append e.quota rx.remaining stream in
      let got = (recv e.quota rx.remaining stream).0 in
      let rest = (recv e.quota rx.remaining stream).1 in
      let rx' = get_hdr c (hdr_read rx got) in
      let k : read_header c e rx stream ≡ keep_hdr rx' rest rx'.buf =
        rw (==_ne rx.type h4_none ne) refl in
      let (v', ne', c', empty, same) = headed c rx got v n ne l in
      let q : rx'.buf ≡ none = same ∙ no_buf rx r n in
      subst Returns (sym (k ∙ ap (keep_hdr rx' rest) q)) (kept_alone rx' rest q)
]

finish-Roomy :
    (rx : Rx) (b : NetBufSimple) (rest : List ℕ)
    → rx.have_hdr ≡ true
    → rx.remaining ≤ tailroom b
    → Roomy (finish rx b rest).rx
unfolding finish reset_rx Roomy
finish-Roomy rx b rest y fits = elim (ℕ_discrete rx.remaining 0) [
  | yes z ↦
      let k : (finish rx b rest).rx.buf ≡ none = ground arith in λ j h. absurd (cc (sym k ∙ h))
  | no ne ↦
      let k : (finish rx b rest).rx ≡ record rx { buf = some b } = ground arith in
      λ j h.
        let same : b ≡ j = cc (sym (ap (λ r. r.buf) k) ∙ h) in
        subst (λ (r : Rx). (r.have_hdr ≡ true) × (r.remaining ≤ tailroom j)) (sym k)
          (y, subst (λ r. rx.remaining ≤ tailroom r) same fits)
]

tailroom-small : {b : NetBufSimple} → Room.IsValid b → tailroom b < 2 ^ 16
unfolding tailroom headroom
tailroom-small v = omega arith

payload_read-Returns :
    (rx : Rx) (b : NetBufSimple)
    → rx.have_hdr ≡ true
    → Room.IsValid b
    → rx.remaining ≤ tailroom b
    → (got : Option (List ℕ)) (rest : List ℕ) → length (arrived got) ≤ rx.remaining
    → Returns (payload_read rx b got rest)
unfolding payload_read Roomy
payload_read-Returns rx b y v fits none rest l =
    λ j h. let same : b ≡ j = cc h in (y, subst (λ r. rx.remaining ≤ tailroom r) same fits)
payload_read-Returns rx b y v fits (some xs) rest l =
    let rx' : Rx = record rx { remaining = sub_u16 rx.remaining (length xs) } in
    let h = add_mem_fits b xs v (omega arith) in
    let k : payload_read rx b (some xs) rest ≡ some (finish rx' (added b xs) rest) = ground arith in
    subst Returns (sym k) (
      finish-Roomy rx' (added b xs) rest y
        (omega (arith, tailroom-added b xs v (omega arith), tailroom-small v)))

receive-Returns :
    (e : Env) (rx : Rx) (b : NetBufSimple) (stream : List ℕ)
    → rx.have_hdr ≡ true
    → Room.IsValid b
    → rx.remaining ≤ tailroom b
    → Returns (receive e rx b stream)
unfolding receive
receive-Returns e rx b stream y v fits =
    let (p, l) = recv-append e.quota rx.remaining stream in
    payload_read-Returns rx b y v fits (recv e.quota rx.remaining stream).0 _ l

too_long-buf : (rx : Rx) → (too_long rx).buf ≡ rx.buf
unfolding reset_rx
too_long-buf rx = refl

with_fresh-Returns :
    (e : Env) (rx : Rx) (stream : List ℕ) (o : Option NetBufSimple)
    → IsValid rx
    → rx.have_hdr ≡ true
    → rx.buf ≡ none
    → ((b : NetBufSimple) → o ≡ some b → Room.IsValid b × (b.len ≡ 0))
    → ((b : NetBufSimple) → o ≡ some b → rx.hdr_len + rx.remaining ≤ tailroom b)
    → Returns (with_fresh e rx o stream)
unfolding with_fresh
with_fresh-Returns e rx stream none v y q g f = elim (Bool-cases rx.discardable) [
  | inl d ↦
      let k : with_fresh e rx none stream ≡ some (quiet (too_long rx) stream) = ground arith in
      subst Returns (sym k) (none-Roomy (too_long rx) (too_long-buf rx ∙ q))
  | inr d ↦
      let k : with_fresh e rx none stream ≡ some (quiet rx stream) = ground arith in
      subst Returns (sym k) (none-Roomy rx q)
]
with_fresh-Returns e rx stream (some b) v y q g f =
    let vb = (g b refl).0 in
    let fits = f b refl in
    let len : length (window rx.hdr 0 rx.hdr_len) ≡ rx.hdr_len =
      length-window rx.hdr 0 rx.hdr_len (omega (arith, v.len4, v.hdr4)) in
    let b' = added b (window rx.hdr 0 rx.hdr_len) in
    let h : copy_hdr rx b ≡ some b' = add_mem_fits b _ vb (omega arith) in
    let k : with_fresh e rx (some b) stream ≡ receive e rx b' stream = ground arith in
    subst Returns (sym k) (
      receive-Returns e rx b' stream y (added-IsValid vb _ (omega arith))
        (omega (arith, tailroom-added b (window rx.hdr 0 rx.hdr_len) vb (omega arith))))

read_payload-Returns :
    (e : Env) (rx : Rx) (stream : List ℕ)
    → IsValid rx
    → rx.have_hdr ≡ true
    → Roomy rx
    → GivesEmpty e
    → FreshFits e rx
    → Returns (read_payload e rx stream)
unfolding read_payload Roomy FreshFits GivesEmpty
read_payload-Returns e rx stream v y r g f = elim (Option-cases rx.buf) [
  | inl q ↦
      let k : read_payload e rx stream ≡ with_fresh e rx e.fresh stream = rw q refl in
      subst Returns (sym k) (with_fresh-Returns e rx stream e.fresh v y q g f)
  | inr (b, q) ↦
      let k : read_payload e rx stream ≡ receive e rx b stream = rw q refl in
      subst Returns (sym k) (receive-Returns e rx b stream y (v.buffer b q) (r b q).1)
]

-- A poll of a valid receiver fails no assertion and writes past no buffer, and holds a buffer
-- afterwards only with the header in it and room for what is to come, if it did so before, and if the
-- allocator gives valid and empty buffers that have room for the header and the payload.
process_rx-Returns :
    (c : Config) (e : Env) (rx : Rx) (stream : List ℕ)
    → IsValid rx
    → Roomy rx
    → GivesEmpty e
    → FreshFits e rx
    → Returns (process_rx c e rx stream)
unfolding process_rx skip
process_rx-Returns c e rx stream v r g f = elim (ℕ_discrete rx.discard 0) [
  | no ne ↦
      let k : process_rx c e rx stream ≡ some (skip e rx stream) =
        rw (==_ne rx.discard 0 ne) refl in
      subst Returns (sym k) (discarded-Roomy rx (recv e.quota (min rx.discard 33) stream).0 r)
  | yes d ↦ elim (Bool-cases rx.have_hdr) [
    | inl y ↦
        let k : process_rx c e rx stream ≡ read_payload e rx stream = ground arith in
        subst Returns (sym k) (read_payload-Returns e rx stream v y r g f)
    | inr n ↦
        let k : process_rx c e rx stream ≡ read_header c e rx stream = ground arith in
        subst Returns (sym k) (read_header-Returns c e rx stream v r n)
  ]
]

-- With CONFIG_BT_ISO off, a poll of a valid receiver returns, where the buffer that is held has the header and room for what
-- is to come, and the allocator gives valid and empty buffers with room for header and payload. What
-- was taken in and the stream are then, byte for byte and in order: the lost bytes, the packet that
-- was handed out with its indicator, what is taken in now, and the rest of the stream. Bytes are lost
-- only if the poll ends idle and hands no packet out. The receiver is valid and has room as before.
pub process_rx-Kept :
    (c : Config) (e : Env) (rx : Rx) (stream : List ℕ)
    → c.iso ≡ false
    → IsValid rx
    → Roomy rx
    → GivesEmpty e
    → FreshFits e rx
    → (p : Polled) × (process_rx c e rx stream ≡ some p) × Kept rx stream p × Roomy p.rx
process_rx-Kept c e rx stream i v r g f =
    let kept = process_rx-Keeps c e rx stream i v g in
    let room = process_rx-Returns c e rx stream v r g f in
    elim (Option-cases (process_rx c e rx stream)) [
      | inl q ↦ absurd (subst Returns q room)
      | inr (p, q) ↦ (p, q, subst (Keeps rx stream) q kept, subst Returns q room)
    ]
