-- ===== src/Tests/Packets.antt =====
-- Two connections that share three buffers of the controller.
use zephyr_polling.Prelude.{◌+◌, ◌≡◌, refl, true, some, none, [], ◌∷◌, arith}
use zephyr_polling.TxPending.{
  Sem, k_sem_take, k_sem_give, Conn, Step, send_frag, do_send_frag, num_completed, process_unack_tx,
}
use zephyr_polling.TxPending.Held.{held, conn_of}
use zephyr_polling.TxPending.Account.{unacked, process_unack_tx-unacked}
use zephyr_polling.TxPending.Shared.{
  World, Reaches, start, next, sends, completes, Reaches-IsCovered, IsCovered, burst, burst_lem,
}
use zephyr_polling.TxPending.Order.{Log, Serves, idle, sent_log, IsOrdered, Serves-IsOrdered}

abbrev three : Sem
three = record { count = 3; limit = 3 }

abbrev quiet : Conn
quiet = record { pending_no_cb = 0; tx_pending = []; tx_complete = [] }

abbrev sent_one : Step
sent_one = (send_frag true true (some 7) three quiet).step

abbrev sent_two : Step
sent_two = (send_frag true true none sent_one.sem sent_one.conn).step

abbrev reported : Step
reported = num_completed 1 sent_two.sem sent_two.conn

abbrev world : Sem → Conn → World
world sem c = record { sem = sem; conns = quiet ∷ c ∷ [] }

reported-Reaches : Reaches (world three quiet) (world reported.sem reported.conn)
unfolding send_frag do_send_frag k_sem_take k_sem_give
reported-Reaches = next (quiet ∷ []) [] sent_two.conn reported (completes 1) (
    next (quiet ∷ []) [] sent_one.conn sent_two (sends true true none tt)
      (next (quiet ∷ []) [] quiet sent_one (sends true true (some 7) refl) start))

Reaches-IsCovered_example : IsCovered 3 (world reported.sem reported.conn)
unfolding send_frag do_send_frag k_sem_take k_sem_give
Reaches-IsCovered_example =
    Reaches-IsCovered 3 (world three quiet) (world reported.sem reported.conn) reported-Reaches
      (refl, omega arith, omega arith)

-- Five packets in a controller with three buffers.
burst_lem_example : held (burst 5 three quiet).conn ≡ 5 + held quiet
burst_lem_example = burst_lem 5 three quiet

process_unack_tx-unacked_example :
    process_unack_tx 4 sent_two.sem sent_two.conn ≡ some (unacked sent_two.sem sent_two.conn)
unfolding send_frag do_send_frag k_sem_take k_sem_give
process_unack_tx-unacked_example =
    process_unack_tx-unacked 4 sent_two.sem sent_two.conn (omega arith)

abbrev idle_log : Log
idle_log = record { conn = conn_of 0 [] []; sem = three; accepted = []; told = [] }

abbrev sent_log_one : Log
sent_log_one = sent_log idle_log (some 7) (send_frag true true (some 7) three idle_log.conn)

sent_log_one-Serves : Serves sent_log_one
sent_log_one-Serves = Serves.sends true true (some 7) refl (idle three)

Serves-IsOrdered_example : IsOrdered sent_log_one
Serves-IsOrdered_example = Serves-IsOrdered sent_log_one sent_log_one-Serves
