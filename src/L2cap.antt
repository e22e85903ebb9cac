-- ===== src/L2cap.antt =====
-- The flow control by credits of LE channels in src/host/l2cap.c: a credit is taken for each segment
-- that is sent or received, segments make up SDUs, and credits are given back. What the application,
-- the pools and the lower layer answer is an argument.
pub mod Credits
pub mod Balance
use zephyr_polling.Prelude.{
  ℕ, zero, suc, ◌+◌, ◌-◌, ◌/◌, ◌%◌, ◌^◌, Bool, true, false, not, ◌&&◌, Option, none, some, List, [],
  ◌∷◌, ◌++◌, length, take, drop, ltb, ◌==◌, if◌then◌else◌, add_u16, sub_u16,
}
use zephyr_polling.ByteOrder.{get_le16}

-- What has come of an SDU, with the number of its segments.
pub record Sdu : Type 0 where
  pub bytes : List ℕ
  pub seg : ℕ

-- The receiving side of `struct bt_l2cap_le_chan`; `has_alloc` is whether there is `ops->alloc_buf`.
pub record RxChan : Type 0 where
  pub init_credits : ℕ
  pub credits : ℕ
  pub mps : ℕ
  pub mtu : ℕ
  pub has_alloc : Bool
  pub sdu : Option Sdu
  pub sdu_len : ℕ
  pub connected : Bool

-- The result of `ops->recv`: 0, -EINPROGRESS or another error.
pub data Taken : Type 0 where
  taken in_progress refused : Taken

-- What others answer during one call: a buffer for the signal, one for the SDU, the bytes that
-- there is room for in its fragments.
pub record Answers : Type 0 where
  pub sig_ok : Bool
  pub alloc_ok : Bool
  pub room : ℕ
  pub app : Taken

pub data Fault : Type 0 where
  no_fault no_credits too_long too_short mismatch no_buffer app_error assertion : Fault

-- The channel with the credits that are given back to the other side, the SDU that is passed on, and
-- why the channel is given up, or that an assertion has failed.
pub record RxStep : Type 0 where
  pub chan : RxChan
  pub given : List ℕ
  pub passed : List (List ℕ)
  pub fault : Fault

abbrev pub quiet : RxChan → RxStep
quiet c = record { chan = c; given = []; passed = []; fault = no_fault }

-- `bt_l2cap_chan_disconnect`
abbrev pub give_up : Fault → RxChan → RxStep
give_up f c = record { chan = record c { connected = false }; given = []; passed = []; fault = f }

-- What `l2cap_chan_send_credits` gives back of `n`.
unfoldable pub capped : RxChan → ℕ → ℕ
capped c n =
    let m = if ltb c.init_credits n then c.init_credits else n in
    if ltb c.init_credits (m + c.credits) then sub_u16 c.init_credits c.credits else m

unfoldable pub l2cap_chan_send_credits : Answers → RxChan → ℕ → RxStep
l2cap_chan_send_credits a c n =
    if not c.connected
    then record { chan = c; given = []; passed = []; fault = assertion }
    else if a.sig_ok
    then record {
      chan = record c { credits = c.credits + capped c n };
      given = capped c n ∷ [];
      passed = [];
      fault = no_fault;
    }
    else give_up no_buffer c

-- `l2cap_chan_update_credits` after a segment of `len` bytes.
unfoldable pub l2cap_chan_update_credits : Answers → RxChan → ℕ → RxStep
l2cap_chan_update_credits a c len =
    let n = (sub_u16 c.sdu_len len + (c.mps - 1)) / c.mps % 2 ^ 16 in
    if ltb n c.credits then quiet c else l2cap_chan_send_credits a c (n - c.credits)

abbrev pub pass_on : List ℕ → RxStep → RxStep
pass_on bytes r = record r { passed = bytes ∷ r.passed }

unfoldable pub l2cap_chan_le_recv_sdu : Answers → RxChan → List ℕ → ℕ → RxStep
l2cap_chan_le_recv_sdu a c bytes seg = pass_on bytes (elim a.app [
  | refused ↦ give_up app_error c
  | in_progress ↦ quiet c
  | taken ↦ if c.connected then l2cap_chan_send_credits a c seg else quiet c
])

-- The segment is stored; an SDU that is complete leaves the channel.
unfoldable pub stored : Answers → RxChan → Sdu → ℕ → RxStep
stored a c sdu len =
    let kept = record c { sdu = some sdu } in
    let hungry = (c.credits == 0) && (sdu.seg == c.init_credits) in
    if ltb (length sdu.bytes) c.sdu_len
    then (if hungry then l2cap_chan_update_credits a kept len else quiet kept)
    else l2cap_chan_le_recv_sdu a (record c { sdu = none; sdu_len = 0 }) sdu.bytes sdu.seg

unfoldable pub l2cap_chan_le_recv_seg : Answers → RxChan → Sdu → List ℕ → RxStep
l2cap_chan_le_recv_seg a c sdu bytes =
    let len = length sdu.bytes % 2 ^ 16 in
    let seg = if len == 0 then 0 else sdu.seg in
    if ltb c.sdu_len (len + length bytes)
    then give_up mismatch (record c { sdu = some sdu })
    else if ltb a.room (length bytes)
    then give_up no_buffer (record c {
      sdu = some (record { bytes = sdu.bytes ++ take a.room bytes; seg = add_u16 seg 1 });
    })
    else stored a c (record { bytes = sdu.bytes ++ bytes; seg = add_u16 seg 1 }) (length bytes)

-- A first segment without its length.
unfoldable pub recv_first : Answers → RxChan → ℕ → List ℕ → RxStep
recv_first a c sdu_len bytes =
    if ltb c.mtu sdu_len
    then give_up too_long c
    else if c.has_alloc
    then (if a.alloc_ok
        then l2cap_chan_le_recv_seg a (record c { sdu_len = sdu_len })
            (record { bytes = []; seg = 0 }) bytes
        else give_up no_buffer c)
    else pass_on bytes (elim a.app [
      | refused ↦ give_up app_error c
      | in_progress ↦ quiet c
      | taken ↦ l2cap_chan_send_credits a c 1
    ])

-- `l2cap_chan_le_recv` behind the test for a credit.
unfoldable pub recv_paid : Answers → RxChan → List ℕ → RxStep
recv_paid a c bytes = if ltb c.mps (length bytes) then give_up too_long c else elim c.sdu [
  | some sdu ↦ l2cap_chan_le_recv_seg a c sdu bytes
  | none ↦
      if ltb (length bytes) 2
      then give_up too_short c
      else recv_first a c (get_le16 bytes) (drop 2 bytes)
]

unfoldable pub l2cap_chan_le_recv : Answers → RxChan → List ℕ → RxStep
l2cap_chan_le_recv a c bytes =
    if c.credits == 0
    then give_up no_credits c
    else recv_paid a (record c { credits = c.credits - 1 }) bytes

-- `bt_l2cap_chan_recv_complete`, for an SDU of `seg` segments.
unfoldable pub bt_l2cap_chan_recv_complete : Answers → RxChan → ℕ → RxStep
bt_l2cap_chan_recv_complete a c seg =
    if c.connected then l2cap_chan_send_credits a c seg else quiet c

-- The sending side: what `l2cap_chan_le_send` does to the credits, and whether the segment goes out.
pub record TxStep : Type 0 where
  pub credits : ℕ
  pub went : Bool

unfoldable pub l2cap_chan_le_send : Bool → Bool → ℕ → TxStep
l2cap_chan_le_send seg_ok send_ok zero = record { credits = zero; went = false }
l2cap_chan_le_send seg_ok send_ok (suc n) =
    if seg_ok && send_ok
    then record { credits = n; went = true }
    else record { credits = suc n; went = false }

-- `le_credits`: `none` is an overflow, which disconnects.
unfoldable pub le_credits : ℕ → ℕ → Option ℕ
le_credits credits n = if ltb (2 ^ 16 - 1) (credits + n) then none else some (credits + n)
