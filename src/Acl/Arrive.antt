-- ===== src/Acl/Arrive.antt =====
-- A buffer that src/host/conn.c sends in fragments, and that the other side puts together.
use mathlib.Core.Path.{subst}
use zephyr_polling.Prelude.{
  ℕ, zero, suc, min, ◌≤◌, ◌<◌, ◌≡◌, refl, sym, ap, ◌∙◌, false, Option, none, List, [], ◌∷◌, ◌++◌,
  length, take, drop, leb, arith, append-nil, length-append, All, Bool-cases, inl, inr,
  take-append-drop,
}
use zephyr_polling.Acl.{
  acl_start, acl_cont, RxBuf, frag_start, frag_cont, frag_single, Frag, SendResult, send_loop,
  send_buf, no_error,
}
use zephyr_polling.Acl.Reassemble.{concat, IsFrame, IsNonempty, whole, recv_frame, recv_frame-whole}
use zephyr_polling.Acl.Send.{acl_of, pieces, IsCont, dropped, shorter, send_loop-Continues}

-- What is sent of a new buffer: a packet that starts the frame, and others that continue it.
record Starts (bytes : List ℕ) (r : SendResult) : Type 0 where
  first : Frag
  others : List Frag
  split : r.out ≡ first ∷ others
  starts : acl_of first.flag ≡ acl_start
  content : first.bytes ++ concat (pieces others) ≡ bytes
  conts : All IsCont others
  done : r.left ≡ none
  well : r.err ≡ no_error

send_buf-Starts :
    (mtu room : ℕ) (bytes : List ℕ) (frags accepted : ℕ)
    → 0 < mtu
    → 0 < room
    → IsNonempty bytes
    → length bytes ≤ frags
    → length bytes ≤ accepted
    → Starts bytes (send_buf mtu room (record { bytes = bytes; is_cont = false }) frags accepted)
unfolding send_buf
send_buf-Starts mtu room bytes zero accepted hm hr ne hf ha = absurd (omega arith)
send_buf-Starts mtu room bytes (suc frags) zero hm hr ne hf ha = absurd (omega arith)
send_buf-Starts mtu room bytes (suc frags) (suc accepted) hm hr ne hf ha =
    elim (Bool-cases (leb (length bytes) mtu)) [
      | inl e ↦ rw e (record {
        first = record { flag = frag_single; bytes = bytes };
        others = [];
        split = refl;
        starts = refl;
        content = append-nil bytes;
        conts = tt;
        done = refl;
        well = refl;
      })
      | inr k ↦
          let rest = drop (min mtu room) bytes in
          let c =
            send_loop-Continues mtu room hm hr false rest frags accepted
              (dropped mtu room hm hr bytes k) (shorter mtu room hm hr bytes frags k hf)
              (shorter mtu room hm hr bytes accepted k ha) in
          rw k (record {
            first = record { flag = frag_start; bytes = take (min mtu room) bytes };
            others = (send_loop mtu room frag_cont false rest frags accepted).out;
            split = refl;
            starts = refl;
            content =
                ap (λ x. take (min mtu room) bytes ++ x) (c.0)
                ∙ take-append-drop (min mtu room) bytes;
            conts = c.1;
            done = c.2;
            well = c.3;
          })
    ]

-- With the packets at the other side.
abbrev pub Arrives : List ℕ → Option RxBuf → ℕ → SendResult → Type 0
Arrives bytes rx space r =
    (first : Frag) × (others : List Frag) × (r.out ≡ first ∷ others)
    × (acl_of first.flag ≡ acl_start)
    × All (λ f. acl_of f.flag ≡ acl_cont) others
    × (r.left ≡ none)
    × (r.err ≡ no_error)
    × (recv_frame rx space first.bytes (pieces others) ≡ whole bytes)

flags_cont : (fs : List Frag) → All IsCont fs → All (λ f. acl_of f.flag ≡ acl_cont) fs
flags_cont [] h = tt
flags_cont (f ∷ fs) h = (h.0.1, flags_cont fs h.1)

pieces-IsNonempty : (fs : List Frag) → All IsCont fs → All IsNonempty (pieces fs)
pieces-IsNonempty [] h = tt
pieces-IsNonempty (f ∷ fs) h = (h.0.0, pieces-IsNonempty fs h.1)

-- A frame that is queued goes out and arrives. When there is a buffer for each fragment and the driver
-- takes each packet (as many of both as the frame has bytes are enough), `send_buf` sends all of the
-- buffer in one call, which returns 0 and takes it out of the queue; its packets are one that
-- starts a frame and others that continue it, and a device that receives them, with room for the
-- frame in its buffer, passes exactly this frame on to L2CAP, once, as complete.
pub send_buf-Arrives :
    (mtu room : ℕ) (bytes : List ℕ) (frags accepted : ℕ) (rx : Option RxBuf) (space : ℕ)
    → 0 < mtu
    → 0 < room
    → IsFrame bytes
    → length bytes ≤ frags
    → length bytes ≤ accepted
    → length bytes ≤ space
    → Arrives bytes rx space
        (send_buf mtu room (record { bytes = bytes; is_cont = false }) frags accepted)
send_buf-Arrives mtu room bytes frags accepted rx space hm hr frame hf ha fits =
    let st = send_buf-Starts mtu room bytes frags accepted hm hr (omega (arith, frame.0)) hf ha in
    let cs = pieces st.others in
    let e = st.content in
    (
      st.first,
      st.others,
      st.split,
      st.starts,
      flags_cont st.others st.conts,
      st.done,
      st.well,
      recv_frame-whole rx space st.first.bytes cs (pieces-IsNonempty st.others st.conts)
            (omega (arith, ap length e, length-append st.first.bytes (concat cs)))
            (subst IsFrame (sym e) frame)
          ∙ ap whole e,
    )
