-- ===== src/TxPending/Account.antt =====
-- The packets that the controller holds, counted: src/host/conn.c and src/host/hci_core.c.
use mathlib.Core.Path.{subst}
use zephyr_polling.Prelude.{
  sym, ◌≤◌, ◌∙◌, ℕ, zero, suc, ◌+◌, ◌<◌, ◌≡◌, refl, ap, Bool, true, false, Option, none, some, List,
  [], ◌∷◌, arith,
}
use zephyr_polling.TxPending.{
  Sem, k_sem_take, k_sem_give, Tx, Conn, Told, failed, Step, do_send_frag, send_frag, complete_one,
  num_completed, told_before, process_unack_tx,
}
use zephyr_polling.TxPending.Held.{
  held_by, held, IsFresh, conn_of, add_pending-held, roll_back-held, completed_from-held,
}

-- A semaphore with the limit `l`, where every buffer of the controller is free, or taken by one of the
-- `h` packets of a connection or of the `k` packets of others.
abbrev pub Covers : ℕ → ℕ → Sem → ℕ → Type 0
Covers l k sem h = (sem.limit ≡ l) × (sem.count ≤ l) × (l ≤ sem.count + h + k)

give-Covers : (l k : ℕ) (sem : Sem) (h : ℕ) → Covers l k sem (suc h) → Covers l k (k_sem_give sem) h
unfolding k_sem_give
give-Covers l k sem h c = ground arith

take-Covers :
    (l k : ℕ) (sem : Sem) (h : ℕ) → Covers l k sem h → Covers l k (k_sem_take sem).1 (suc h)
unfolding k_sem_take
take-Covers l k sem h c = ground arith

abbrev pub StepCovers : ℕ → ℕ → Step → Type 0
StepCovers l k r = Covers l k r.sem (held r.conn)

do_send_frag-Covers :
    (l k : ℕ) (connected driver_ok : Bool) (tx : Option ℕ) (sem : Sem) (c : Conn)
    → IsFresh tx c
    → Covers l k sem (suc (held c))
    → StepCovers l k (do_send_frag connected driver_ok tx sem c).step
unfolding do_send_frag
do_send_frag-Covers l k false driver_ok tx sem c f h = give-Covers l k sem (held c) h
do_send_frag-Covers l k true true tx sem c f h =
    subst (Covers l k sem) (sym (add_pending-held tx c)) h
do_send_frag-Covers l k true false tx sem c f h =
    subst (Covers l k (k_sem_give sem)) (sym (roll_back-held tx c f))
      (give-Covers l k sem (held c) h)

pub send_frag-Covers :
    (l k : ℕ) (connected driver_ok : Bool) (tx : Option ℕ) (sem : Sem) (c : Conn)
    → IsFresh tx c
    → Covers l k sem (held c)
    → StepCovers l k (send_frag connected driver_ok tx sem c).step
unfolding send_frag k_sem_take
send_frag-Covers l k connected driver_ok tx sem c f h =
    do_send_frag-Covers l k connected driver_ok tx (k_sem_take sem).1 c f
      (take-Covers l k sem (held c) h)

num_from :
    (l k count : ℕ) (sem : Sem) (c : Conn) (o : Option Conn)
    → complete_one c ≡ o
    → Covers l k sem (held c)
    → ((c' : Conn)
        → Covers l k (k_sem_give sem) (held c')
        → StepCovers l k (num_completed count (k_sem_give sem) c'))
    → StepCovers l k (num_completed (suc count) sem c)
num_from l k count sem c none e h f = rw (num_completed, e) h
num_from l k count sem c (some c') e h f =
    let one = completed_from-held c.pending_no_cb c.tx_pending c.tx_complete c' e in
    rw (num_completed, e) (f c' (give-Covers l k sem (held c') (subst (Covers l k sem) one h)))

pub num_completed-Covers :
    (l k count : ℕ) (sem : Sem) (c : Conn)
    → Covers l k sem (held c)
    → StepCovers l k (num_completed count sem c)
num_completed-Covers l k zero sem c h = h
num_completed-Covers l k (suc count) sem c h =
    num_from l k count sem c (complete_one c) refl h
      (λ c' h'. num_completed-Covers l k count (k_sem_give sem) c' h')

-- The names of the contexts that are pending.
abbrev pub names : List Tx → List ℕ
names [] = []
names (t ∷ ts) = t.cb ∷ names ts

abbrev pub told_all_failed : List ℕ → List Told
told_all_failed [] = []
told_all_failed (cb ∷ cbs) = failed cb ∷ told_all_failed cbs

abbrev pub gives : ℕ → Sem → Sem
gives zero sem = sem
gives (suc n) sem = gives n (k_sem_give sem)

-- What `process_unack_tx` leaves: nothing held, every packet given back, every callback told.
abbrev pub unacked : Sem → Conn → Step
unacked sem c = record {
  conn = record c { pending_no_cb = 0; tx_pending = [] };
  sem = gives (held c) sem;
  out = told_all_failed (names c.tx_pending);
}

pub unacked-Covers : (l k : ℕ) (sem : Sem) (n : ℕ) → Covers l k sem n → Covers l k (gives n sem) 0
unacked-Covers l k sem zero h = h
unacked-Covers l k sem (suc n) h = unacked-Covers l k (k_sem_give sem) n (give-Covers l k sem n h)

abbrev step_of : Sem → List ℕ → List Told → ℕ → Option Step
step_of sem cbs out n = some (record { conn = conn_of 0 [] cbs; sem = gives n sem; out = out })

plus_nothing : (n : ℕ) → n ≡ 0 + n
plus_nothing n = omega arith

suc_plus : (n m : ℕ) → suc (n + m) ≡ suc n + m
suc_plus n m = omega arith

unack_lem :
    (fuel : ℕ) (sem : Sem) (n : ℕ) (ts : List Tx) (cbs : List ℕ)
    → n + held_by ts < fuel
    → process_unack_tx fuel sem (conn_of n ts cbs) ≡ some (unacked sem (conn_of n ts cbs))
unack_lem zero sem n ts cbs h = ground arith
unack_lem (suc fuel) sem zero [] cbs h = ap (step_of sem cbs []) (plus_nothing 0)
unack_lem (suc fuel) sem zero (t ∷ ts) cbs h =
    ap (told_before (failed t.cb ∷ []))
      (unack_lem fuel (k_sem_give sem) t.pending_no_cb ts cbs (omega arith))
    ∙ ap (step_of sem cbs (told_all_failed (names (t ∷ ts))))
        (plus_nothing (suc (t.pending_no_cb + held_by ts)))
unack_lem (suc fuel) sem (suc n) ts cbs h =
    ap (told_before []) (unack_lem fuel (k_sem_give sem) n ts cbs (omega arith))
    ∙ ap (step_of sem cbs (told_all_failed (names ts))) (suc_plus n (held_by ts))

-- At a disconnection every packet that the controller still holds is given back to the semaphore, the
-- callback of every context that is pending is told of the failure, once and in the order of
-- sending, and nothing is pending any more; more rounds than there are packets are enough.
pub process_unack_tx-unacked :
    (fuel : ℕ) (sem : Sem) (c : Conn)
    → held c < fuel
    → process_unack_tx fuel sem c ≡ some (unacked sem c)
process_unack_tx-unacked fuel sem c h =
    unack_lem fuel sem c.pending_no_cb c.tx_pending c.tx_complete h
