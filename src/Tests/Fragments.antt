-- ===== src/Tests/Fragments.antt =====
-- Fragments of connections: a frame of six bytes over packets of four.
use zephyr_polling.Prelude.{some, min, drop, ℕ, ◌≡◌, refl, none, List, [], ◌∷◌, false, arith}
use zephyr_polling.ByteOrder.{get_le16}
use zephyr_polling.Acl.Reassemble.{IsFrame, recv_frame, whole, recv_frame-whole}
use zephyr_polling.Acl.Arrive.{Arrives, send_buf-Arrives}
use zephyr_polling.Acl.{send_buf, TxBuf, no_memory}
use zephyr_polling.Acl.Restart.{Starts, send_buf_restarts}

abbrev small_frame : List ℕ
small_frame = 2 ∷ 0 ∷ 4 ∷ 0 ∷ 9 ∷ 8 ∷ []

small_frame-IsFrame : IsFrame small_frame
unfolding get_le16
small_frame-IsFrame = (refl, omega arith)

recv_frame-whole_example :
    recv_frame none 20 (2 ∷ []) ((0 ∷ 4 ∷ 0 ∷ []) ∷ (9 ∷ 8 ∷ []) ∷ []) ≡ whole small_frame
recv_frame-whole_example =
    recv_frame-whole none 20 (2 ∷ []) ((0 ∷ 4 ∷ 0 ∷ []) ∷ (9 ∷ 8 ∷ []) ∷ [])
      (omega arith, (omega arith, tt)) (omega arith) small_frame-IsFrame

send_buf-Arrives_example :
    Arrives small_frame none 20
      (send_buf 4 27 (record { bytes = small_frame; is_cont = false }) 6 6)
send_buf-Arrives_example =
    send_buf-Arrives 4 27 small_frame 6 6 none 20 (omega arith) (omega arith) small_frame-IsFrame
      (omega arith) (omega arith) (omega arith)

send_buf_restarts_example :
    let first = send_buf 2 27 (record { bytes = small_frame; is_cont = false }) 1 1 in
    (rest : TxBuf) × Starts first
    × (first.err ≡ no_memory)
    × (first.left ≡ some rest)
    × (rest.bytes ≡ drop (min 2 27) small_frame)
    × Starts (send_buf 2 27 rest 1 1)
send_buf_restarts_example = send_buf_restarts 2 27 small_frame 0 0 0 (omega arith)
