-- ===== src/TxPending.antt =====
-- Packets that the controller holds: `send_frag`, `do_send_frag`, `process_unack_tx` and `tx_notify` of
-- src/host/conn.c, and the handler `hci_num_completed_packets` of src/host/hci_core.c for one
-- connection. The semaphore (src/utils/k_sem.h) is shared by all connections. A context is named by
-- its callback's data; its callback is run once, with or without an error.
pub mod Held
pub mod Account
pub mod Shared
pub mod Waiting
pub mod Order
use zephyr_polling.Prelude.{
  ℕ, zero, suc, ◌+◌, ◌-◌, Bool, true, false, not, Option, none, some, List, [], ◌∷◌, ◌++◌, ◌==◌,
  if◌then◌else◌,
}

-- `struct bt_conn_tx`, with the packets without a callback behind it.
pub record Tx : Type 0 where
  pub cb : ℕ
  pub pending_no_cb : ℕ

pub record Conn : Type 0 where
  pub pending_no_cb : ℕ
  pub tx_pending : List Tx
  pub tx_complete : List ℕ

pub data Told : Type 0 where
  completed failed : ℕ → Told

-- 0, -ENOBUFS, -ENOTCONN, -EIO
pub data Err : Type 0 where
  no_error no_bufs not_conn io_error : Err

pub record Sem : Type 0 where
  pub count : ℕ
  pub limit : ℕ

-- The result is 0 also when nothing is taken.
unfoldable pub k_sem_take : Sem → ℕ × Sem
k_sem_take sem = (0, record sem { count = sem.count - 1 })

unfoldable pub k_sem_give : Sem → Sem
k_sem_give sem = if sem.count == sem.limit then sem else record sem { count = suc sem.count }

pub record Step : Type 0 where
  pub conn : Conn
  pub sem : Sem
  pub out : List Told

pub record Sent : Type 0 where
  pub step : Step
  pub err : Err

abbrev pub bump_last : List Tx → List Tx
bump_last [] = []
bump_last (t ∷ []) = record t { pending_no_cb = suc t.pending_no_cb } ∷ []
bump_last (t ∷ (u ∷ us)) = t ∷ bump_last (u ∷ us)

abbrev pub unbump_last : List Tx → List Tx
unbump_last [] = []
unbump_last (t ∷ []) = record t { pending_no_cb = t.pending_no_cb - 1 } ∷ []
unbump_last (t ∷ (u ∷ us)) = t ∷ unbump_last (u ∷ us)

-- A packet without a callback belongs to the last context, or else to the connection.
abbrev pub add_no_cb : Conn → List Tx → Conn
add_no_cb c [] = record c { pending_no_cb = suc c.pending_no_cb }
add_no_cb c (t ∷ ts) = record c { tx_pending = bump_last (t ∷ ts) }

abbrev pub remove_no_cb : Conn → List Tx → Conn
remove_no_cb c [] = record c { pending_no_cb = c.pending_no_cb - 1 }
remove_no_cb c (t ∷ ts) = record c { tx_pending = unbump_last (t ∷ ts) }

abbrev pub add_pending : Option ℕ → Conn → Conn
add_pending none c = add_no_cb c c.tx_pending
add_pending (some cb) c = record c {
  tx_pending = c.tx_pending ++ record { cb = cb; pending_no_cb = 0 } ∷ [];
}

abbrev pub remove_tx : ℕ → List Tx → List Tx
remove_tx cb [] = []
remove_tx cb (t ∷ ts) = let rest = remove_tx cb ts in if t.cb == cb then ts else t ∷ rest

abbrev pub roll_back : Option ℕ → Conn → Conn
roll_back none c = remove_no_cb c c.tx_pending
roll_back (some cb) c = record c { tx_pending = remove_tx cb c.tx_pending }

abbrev pub told_failed : Option ℕ → List Told
told_failed none = []
told_failed (some cb) = failed cb ∷ []

-- The semaphore is given back.
abbrev pub fail : Err → Option ℕ → Sem → Conn → Sent
fail err tx sem c = record {
  step = record { conn = c; sem = k_sem_give sem; out = told_failed tx };
  err = err;
}

unfoldable pub do_send_frag : Bool → Bool → Option ℕ → Sem → Conn → Sent
do_send_frag connected driver_ok tx sem c =
    if not connected
    then fail not_conn tx sem c
    else if driver_ok
    then record { step = record { conn = add_pending tx c; sem = sem; out = [] }; err = no_error }
    else fail io_error tx sem (roll_back tx (add_pending tx c))

unfoldable pub send_frag : Bool → Bool → Option ℕ → Sem → Conn → Sent
send_frag connected driver_ok tx sem c =
    let (err, taken) = k_sem_take sem in
    if err == 0
    then do_send_frag connected driver_ok tx taken c
    else record { step = record { conn = c; sem = taken; out = [] }; err = no_bufs }

-- One packet that the controller has sent; `none` when there is no such packet.
abbrev pub completed_from : Conn → ℕ → List Tx → Option Conn
completed_from c (suc n) ts = some (record c { pending_no_cb = n })
completed_from c zero [] = none
completed_from c zero (t ∷ ts) = some (record c {
  pending_no_cb = t.pending_no_cb;
  tx_pending = ts;
  tx_complete = c.tx_complete ++ t.cb ∷ [];
})

abbrev pub complete_one : Conn → Option Conn
complete_one c = completed_from c c.pending_no_cb c.tx_pending

abbrev pub num_completed : ℕ → Sem → Conn → Step
num_completed zero sem c = record { conn = c; sem = sem; out = [] }
num_completed (suc count) sem c = elim (complete_one c) [
  | none ↦ record { conn = c; sem = sem; out = [] }
  | some c' ↦ num_completed count (k_sem_give sem) c'
]

abbrev pub told_completed : List ℕ → List Told
told_completed [] = []
told_completed (cb ∷ cbs) = completed cb ∷ told_completed cbs

-- The loop takes the contexts from the front until there is none.
unfoldable pub tx_notify : Sem → Conn → Step
tx_notify sem c = record {
  conn = record c { tx_complete = [] };
  sem = sem;
  out = told_completed c.tx_complete;
}

-- A round of `process_unack_tx` with what it tells, and `none` at the end.
abbrev pub unacked_from : Conn → ℕ → List Tx → Option (Conn × List Told)
unacked_from c (suc n) ts = some (record c { pending_no_cb = n }, [])
unacked_from c zero [] = none
unacked_from c zero (t ∷ ts) =
    some (record c { pending_no_cb = t.pending_no_cb; tx_pending = ts }, failed t.cb ∷ [])

abbrev pub tell : List Told → Step → Step
tell out r = record r { out = out ++ r.out }

abbrev pub told_before : List Told → Option Step → Option Step
told_before out none = none
told_before out (some r) = some (tell out r)

-- On fuel; `none` when it runs out.
abbrev pub process_unack_tx : ℕ → Sem → Conn → Option Step
process_unack_tx zero sem c = none
process_unack_tx (suc fuel) sem c = elim (unacked_from c c.pending_no_cb c.tx_pending) [
  | none ↦ some (record { conn = c; sem = sem; out = [] })
  | some (c', out) ↦ told_before out (process_unack_tx fuel (k_sem_give sem) c')
]
