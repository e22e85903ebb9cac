-- ===== src/H4/Tx/Stream.antt =====
-- The bytes on the wire are the packets that were sent, in order and each behind its indicator.
use zephyr_polling.Prelude.{ℕ, Bool, List, [], ◌∷◌, ◌++◌}
use zephyr_polling.H4.Tx.{Buf, Tx, Driver, process_tx, h4_send}

-- Polls with any driver behaviour, and the packets that the host queues between them.
pub data Event : Type 0 where
  poll : Driver → Event
  send : Buf → Event

-- The packets that the host queues.
abbrev pub queued : List Event → List Buf
queued [] = []
queued (poll d ∷ es) = queued es
queued (send b ∷ es) = b ∷ queued es

module _ (iso : Bool) where
  -- The bytes on the wire, and the last state.
  unfoldable pub run : Tx → List Event → List ℕ × Tx
  run tx [] = ([], tx)
  run tx (poll d ∷ es) =
      let (ys, tx') = process_tx iso d tx in let (zs, tx'') = run tx' es in (ys ++ zs, tx'')
  run tx (send b ∷ es) = run (h4_send tx b) es
