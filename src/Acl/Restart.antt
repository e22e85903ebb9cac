-- ===== src/Acl/Restart.antt =====
-- A buffer of src/host/conn.c that is stopped for want of a fragment.
use zephyr_polling.Prelude.{
  ℕ, suc, ◌+◌, min, ◌<◌, ◌≡◌, refl, false, some, List, [], ◌∷◌, length, take, drop, leb, arith,
  length-drop, ap, Bool-cases, inl, inr,
}
use zephyr_polling.Acl.{
  acl_start, frag_start, frag_cont, frag_single, Frag, TxBuf, SendResult, send_loop, send_buf,
  no_memory,
}
use zephyr_polling.Acl.Send.{acl_of}

-- The buffer that stays is taken for one that was not begun.
stopped_lem :
    (mtu room : ℕ) (bytes : List ℕ) (accepted : ℕ)
    → mtu + min mtu room < length bytes
    → send_buf mtu room (record { bytes = bytes; is_cont = false }) 1 (suc accepted) ≡ record {
      out = record { flag = frag_start; bytes = take (min mtu room) bytes } ∷ [];
      left = some (record { bytes = drop (min mtu room) bytes; is_cont = false });
      err = no_memory;
    }
unfolding send_buf
stopped_lem mtu room bytes accepted h =
    let a : leb (length bytes) mtu ≡ false = ground arith in
    let b : leb (length (drop (min mtu room) bytes)) mtu ≡ false =
      ground (arith, length-drop (min mtu room) bytes) in
    rw (a, b) refl

-- Whether the first packet that is sent starts a frame.
abbrev pub Starts : SendResult → Type 0
Starts r = (f : Frag) × (fs : List Frag) × (r.out ≡ f ∷ fs) × (acl_of f.flag ≡ acl_start)

started :
    (mtu room : ℕ) (bytes : List ℕ) (frags accepted : ℕ)
    → Starts
        (send_buf mtu room (record { bytes = bytes; is_cont = false }) (suc frags) (suc accepted))
unfolding send_buf
started mtu room bytes frags accepted = elim (Bool-cases (leb (length bytes) mtu)) [
  | inl e ↦ rw e (record { bytes = bytes; flag = frag_single }, [], refl, refl)
  | inr e ↦ rw e (
    record { bytes = take (min mtu room) bytes; flag = frag_start },
    (send_loop mtu room frag_cont false (drop (min mtu room) bytes) frags accepted).out,
    refl,
    refl,
  )
]

-- A frame that is stopped for want of a buffer starts again in its middle. When there is a buffer for
-- only one fragment of a frame that needs more, and the driver takes its packet, `send_buf` sends the
-- first fragment, with a flag that starts a frame, and returns -ENOMEM. It leaves the rest of the
-- frame in the queue, and the next call, with a buffer and a driver that takes a packet, begins it
-- with a packet that starts a frame again.
pub send_buf_restarts :
    (mtu room : ℕ) (bytes : List ℕ) (accepted frags accepted' : ℕ)
    → mtu + min mtu room < length bytes
    → let first = send_buf mtu room (record { bytes = bytes; is_cont = false }) 1 (suc accepted) in
      (rest : TxBuf) × Starts first
      × (first.err ≡ no_memory)
      × (first.left ≡ some rest)
      × (rest.bytes ≡ drop (min mtu room) bytes)
      × Starts (send_buf mtu room rest (suc frags) (suc accepted'))
send_buf_restarts mtu room bytes accepted frags accepted' h =
    let e = stopped_lem mtu room bytes accepted h in
    (
      record { bytes = drop (min mtu room) bytes; is_cont = false },
      started mtu room bytes 0 accepted,
      ap (λ (r : SendResult). r.err) e,
      ap (λ (r : SendResult). r.left) e,
      refl,
      started mtu room (drop (min mtu room) bytes) frags accepted',
    )
