-- ===== src/Acl.antt =====
-- Fragments of L2CAP frames on a connection in src/host/conn.c: `send_buf` cuts a buffer into packets
-- that the controller accepts, and `bt_acl_recv` puts the packets of the other side together. A
-- buffer is its data with the room behind them. How many fragments there are buffers for, and how
-- many packets the driver takes before it fails or the connection is gone, are arguments of a call.
-- The semaphore of this port (src/utils/k_sem.h) never refuses a packet, so that `send_frag` does not
-- return -ENOBUFS.
pub mod Reassemble
pub mod Send
pub mod Arrive
pub mod Restart
use zephyr_polling.Prelude.{
  ℕ, zero, suc, ◌+◌, ◌-◌, min, Bool, true, false, not, ◌&&◌, Option, none, some, List, [], ◌∷◌,
  ◌++◌, length, take, drop, ltb, leb, ◌==◌, if◌then◌else◌, add_u16,
}
use zephyr_polling.ByteOrder.{get_le16}

-- Packet boundary flags of received packets: BT_ACL_START, BT_ACL_CONT, and the others.
pub data AclFlag : Type 0 where
  acl_start acl_cont acl_other : AclFlag

pub record RxBuf : Type 0 where
  pub bytes : List ℕ
  pub room : ℕ

-- A call of `bt_l2cap_recv`, with its argument `complete`.
pub record Delivery : Type 0 where
  pub frame : List ℕ
  pub complete : Bool

-- `conn->rx` and the calls that were made.
pub record Received : Type 0 where
  pub rx : Option RxBuf
  pub out : List Delivery

-- `bt_acl_recv` from the test of the length on.
unfoldable pub check_complete : RxBuf → Received
check_complete b =
    let total = add_u16 (get_le16 b.bytes) 4 in
    if ltb (length b.bytes) 2
    then record { rx = some b; out = [] }
    else if ltb (length b.bytes) total
    then record { rx = some b; out = [] }
    else if ltb total (length b.bytes)
    then record { rx = none; out = [] }
    else record { rx = none; out = record { frame = b.bytes; complete = true } ∷ [] }

-- A continuation for the frame `b`.
unfoldable pub continue_rx : RxBuf → RxBuf → Received
continue_rx b buf =
    if length buf.bytes == 0
    then record { rx = some b; out = [] }
    else if ltb b.room (length buf.bytes)
    then record { rx = none; out = record { frame = b.bytes; complete = false } ∷ [] }
    else check_complete (record { bytes = b.bytes ++ buf.bytes; room = b.room - length buf.bytes })

unfoldable pub bt_acl_recv : Option RxBuf → RxBuf → AclFlag → Received
bt_acl_recv rx buf acl_start = check_complete buf
bt_acl_recv none buf acl_cont = record { rx = none; out = [] }
bt_acl_recv (some b) buf acl_cont = continue_rx b buf
bt_acl_recv rx buf acl_other = record { rx = none; out = [] }

pub data FragFlag : Type 0 where
  frag_start frag_cont frag_single frag_end : FragFlag

pub record Frag : Type 0 where
  pub flag : FragFlag
  pub bytes : List ℕ

-- A buffer of the transmit queue with `is_cont`.
pub record TxBuf : Type 0 where
  pub bytes : List ℕ
  pub is_cont : Bool

-- 0, -ENOMEM of `create_frag`, and an error of `do_send_frag`.
pub data SendErr : Type 0 where
  no_error no_memory not_sent : SendErr

-- The packets that were sent, the buffer if it stays in the queue, and the result.
pub record SendResult : Type 0 where
  pub out : List Frag
  pub left : Option TxBuf
  pub err : SendErr

abbrev pub is_start : FragFlag → Bool
is_start frag_start = true
is_start frag_cont = false
is_start frag_single = false
is_start frag_end = false

-- The last packet is the buffer itself, which has left the queue when the driver fails.
abbrev pub send_last : FragFlag → List ℕ → ℕ → SendResult
send_last flag bytes zero = record { out = []; left = none; err = not_sent }
send_last flag bytes (suc n) = record {
  out = record { flag = flag; bytes = bytes } ∷ [];
  left = none;
  err = no_error;
}

abbrev pub cons_frag : Frag → SendResult → SendResult
cons_frag f r = record r { out = f ∷ r.out }

-- The loop of `send_buf`: `frags` fragments can be created, and the driver takes `accepted` packets.
-- `room` is the tailroom of a new fragment, and `was` the mark of the buffer, which only a failure of
-- the driver sets; the bytes of the fragment that it failed with are pulled by then.
abbrev pub send_loop : ℕ → ℕ → FragFlag → Bool → List ℕ → (frags accepted : ℕ) → SendResult
send_loop mtu room flag was bytes zero accepted =
    if leb (length bytes) mtu
    then send_last frag_end bytes accepted
    else record { out = []; left = some (record { bytes = bytes; is_cont = was }); err = no_memory }
send_loop mtu room flag was bytes (suc frags) zero =
    if leb (length bytes) mtu then send_last frag_end bytes zero else record {
      out = [];
      left = some (record { bytes = drop (min mtu room) bytes; is_cont = not (is_start flag) });
      err = not_sent;
    }
send_loop mtu room flag was bytes (suc frags) (suc accepted) =
    let frag_len = min mtu room in
    let rest = send_loop mtu room frag_cont was (drop frag_len bytes) frags accepted in
    if leb (length bytes) mtu
    then send_last frag_end bytes (suc accepted)
    else cons_frag (record { flag = flag; bytes = take frag_len bytes }) rest

unfoldable pub send_buf : ℕ → ℕ → TxBuf → (frags accepted : ℕ) → SendResult
send_buf mtu room b frags accepted =
    if leb (length b.bytes) mtu && not b.is_cont
    then send_last frag_single b.bytes accepted
    else send_loop mtu room (if b.is_cont then frag_cont else frag_start) b.is_cont b.bytes frags
        accepted
