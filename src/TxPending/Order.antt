-- ===== src/TxPending/Order.antt =====
-- The order of the callbacks of a connection: src/host/conn.c and src/host/hci_core.c.
use zephyr_polling.Prelude.{
  ℕ, ◌≡◌, refl, sym, ap, ◌∙◌, Bool, true, false, Option, List, [], ◌++◌, append-nil, append_assoc,
}
use zephyr_polling.TxPending.{
  Sem, k_sem_take, Conn, Told, Step, Sent, do_send_frag, send_frag, num_completed, tx_notify,
}
use zephyr_polling.TxPending.Held.{IsFresh, conn_of}
use zephyr_polling.TxPending.Waiting.{
  accepted_by, waiting, finished, finished-append, finished-completed, finished-failed,
  add_pending-waiting, roll_back-waiting, num_completed-waiting, num_completed-quiet,
}

-- A connection with the contexts that it has accepted and what it has told.
pub record Log : Type 0 where
  pub conn : Conn
  pub sem : Sem
  pub accepted : List ℕ
  pub told : List Told

abbrev pub log_of : Log → List ℕ → Step → Log
log_of l cbs r = record {
  conn = r.conn;
  sem = r.sem;
  accepted = l.accepted ++ cbs;
  told = l.told ++ r.out;
}

abbrev pub sent_log : Log → Option ℕ → Sent → Log
sent_log l tx r = log_of l (accepted_by r.err tx) r.step

pub data Serves : Log → Type 0 where
  idle :
      (sem : Sem) → Serves (record { conn = conn_of 0 [] []; sem = sem; accepted = []; told = [] })
  sends :
      {l : Log} (connected driver_ok : Bool) (tx : Option ℕ)
      → IsFresh tx l.conn
      → Serves l
      → Serves (sent_log l tx (send_frag connected driver_ok tx l.sem l.conn))
  completes :
      {l : Log} (count : ℕ) → Serves l → Serves (log_of l [] (num_completed count l.sem l.conn))
  notifies : {l : Log} → Serves l → Serves (log_of l [] (tx_notify l.sem l.conn))

abbrev pub IsOrdered : Log → Type 0
IsOrdered l = finished l.told ++ waiting l.conn ≡ l.accepted

-- The callbacks that a step has told and those that wait are those before it and the accepted one.
abbrev pub Keeps : Conn → List ℕ → Step → Type 0
Keeps c cbs r = finished r.out ++ waiting r.conn ≡ waiting c ++ cbs

send_frag-Keeps :
    (connected driver_ok : Bool) (tx : Option ℕ) (sem : Sem) (c : Conn)
    → IsFresh tx c
    → let r = send_frag connected driver_ok tx sem c in Keeps c (accepted_by r.err tx) r.step
unfolding send_frag do_send_frag k_sem_take
send_frag-Keeps false driver_ok tx sem c f = rw (finished-failed tx) (sym (append-nil (waiting c)))
send_frag-Keeps true true tx sem c f = add_pending-waiting tx c
send_frag-Keeps true false tx sem c f =
    rw (finished-failed tx) (roll_back-waiting tx c f ∙ sym (append-nil (waiting c)))

num_completed-Keeps : (count : ℕ) (sem : Sem) (c : Conn) → Keeps c [] (num_completed count sem c)
num_completed-Keeps count sem c =
    rw (num_completed-quiet count sem c)
      (num_completed-waiting count sem c ∙ sym (append-nil (waiting c)))

tx_notify-Keeps : (sem : Sem) (c : Conn) → Keeps c [] (tx_notify sem c)
unfolding tx_notify
tx_notify-Keeps sem c = rw (finished-completed c.tx_complete) (sym (append-nil (waiting c)))

log_of-IsOrdered :
    (l : Log) (cbs : List ℕ) (r : Step)
    → Keeps l.conn cbs r
    → IsOrdered l
    → IsOrdered (log_of l cbs r)
log_of-IsOrdered l cbs r k h =
    ap (λ xs. xs ++ waiting r.conn) (finished-append l.told r.out)
    ∙ append_assoc (finished l.told) (finished r.out) (waiting r.conn)
    ∙ ap (λ xs. finished l.told ++ xs) k
    ∙ sym (append_assoc (finished l.told) (waiting l.conn) cbs)
    ∙ ap (λ xs. xs ++ cbs) h

-- While a connection is up, callbacks are told of their completion in the order in which their
-- packets were accepted, each once: those that were told, those that the controller has reported
-- and those that it still holds are, one after the other, all that were accepted. A packet that
-- is refused changes nothing in this.
pub Serves-IsOrdered : (l : Log) → Serves l → IsOrdered l
Serves-IsOrdered _ (idle sem) = refl
Serves-IsOrdered _ (sends {l} connected driver_ok tx f s) =
    let r = send_frag connected driver_ok tx l.sem l.conn in
    log_of-IsOrdered l (accepted_by r.err tx) r.step
      (send_frag-Keeps connected driver_ok tx l.sem l.conn f) (Serves-IsOrdered l s)
Serves-IsOrdered _ (completes {l} count s) =
    log_of-IsOrdered l [] (num_completed count l.sem l.conn)
      (num_completed-Keeps count l.sem l.conn) (Serves-IsOrdered l s)
Serves-IsOrdered _ (notifies {l} s) =
    log_of-IsOrdered l [] (tx_notify l.sem l.conn) (tx_notify-Keeps l.sem l.conn)
      (Serves-IsOrdered l s)
