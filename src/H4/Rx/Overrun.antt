-- ===== src/H4/Rx/Overrun.antt =====
-- The test of `read_payload` for the room of a fresh buffer, which leaves the header out.
use zephyr_polling.Prelude.{
  ℕ, ◌+◌, ◌≤◌, ◌<◌, ◌≡◌, refl, ◌∙◌, true, Option, none, some, List, length, take, min, length-take,
  length-window, window, arith,
}
use native.Mathlib.Decide.{dec_le}
use zephyr_polling.NetBuf.Simple.{NetBufSimple, tailroom}
use zephyr_polling.NetBuf.Simple.Room
use zephyr_polling.NetBuf.Simple.Room.{added, store-add, add-none, added-IsValid, tailroom-added}
use zephyr_polling.H4.{Config}
use zephyr_polling.H4.Rx.{
  Rx, Env, copy_hdr, payload_read, receive, with_fresh, read_payload, process_rx,
}
use zephyr_polling.H4.Rx.Bytes.{IsValid, add_mem_fits, add_mem_over}

-- More bytes arrive than the buffer has room for.
receive_over :
    (rx : Rx) (b : NetBufSimple) (q : ℕ) (fresh : Option NetBufSimple) (stream : List ℕ)
    → Room.IsValid b
    → tailroom b < rx.remaining
    → rx.remaining ≤ q
    → rx.remaining ≤ length stream
    → receive (record { quota = some q; fresh = fresh }) rx b stream ≡ none
unfolding receive payload_read
receive_over rx b q fresh stream v h hq hs =
    let over =
      add_mem_over b (take (min q rx.remaining) stream) v
        (omega (arith, length-take (min q rx.remaining) stream)) in
    rw over refl

with_fresh_over :
    (rx : Rx) (b : NetBufSimple) (q : ℕ) (stream : List ℕ)
    → IsValid rx
    → Room.IsValid b
    → rx.remaining ≤ tailroom b
    → tailroom b < rx.hdr_len + rx.remaining
    → rx.remaining ≤ q
    → rx.remaining ≤ length stream
    → with_fresh (record { quota = some q; fresh = some b }) rx (some b) stream ≡ none
unfolding with_fresh
with_fresh_over rx b q stream v vb fits over hq hs =
    let header = window rx.hdr 0 rx.hdr_len in
    let len : length header ≡ rx.hdr_len =
      length-window rx.hdr 0 rx.hdr_len (omega (arith, v.len4, v.hdr4)) in
    elim (dec_le rx.hdr_len (tailroom b)) [
      | no big ↦
          let h : copy_hdr rx b ≡ none = add_mem_over b header vb (omega arith) in ground arith
      | yes ok ↦
          let h : copy_hdr rx b ≡ some (added b header) = add_mem_fits b header vb (omega arith) in
          let room = tailroom-added b header vb (omega arith) in
          let last =
            receive_over rx (added b header) q (some b) stream
              (added-IsValid vb header (omega arith)) (omega arith) hq hs in
          ground arith
    ]

-- Where the allocator returns a valid buffer with room for the payload, and not for the header as
-- well, the poll that reads the payload fails an assertion or writes past the end of the buffer. The
-- payload must be there for the driver, and the header complete.
pub read_payload_overrun :
    (c : Config) (rx : Rx) (b : NetBufSimple) (q : ℕ) (stream : List ℕ)
    → IsValid rx
    → rx.discard ≡ 0
    → rx.have_hdr ≡ true
    → rx.buf ≡ none
    → Room.IsValid b
    → rx.remaining ≤ tailroom b
    → tailroom b < rx.hdr_len + rx.remaining
    → rx.remaining ≤ q
    → rx.remaining ≤ length stream
    → process_rx c (record { quota = some q; fresh = some b }) rx stream ≡ none
unfolding process_rx read_payload
read_payload_overrun c rx b q stream v d y n vb fits over hq hs =
    let e : Env = record { quota = some q; fresh = some b } in
    let last = with_fresh_over rx b q stream v vb fits over hq hs in
    let k : read_payload e rx stream ≡ with_fresh e rx (some b) stream = rw n refl in
    let k' : process_rx c e rx stream ≡ read_payload e rx stream = ground arith in k' ∙ k ∙ last
