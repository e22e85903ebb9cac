-- ===== src/TxPending/Waiting.antt =====
-- The callbacks of a connection that wait, in order, for src/host/conn.c.
use zephyr_polling.Prelude.{
  ℕ, zero, suc, ◌≡◌, refl, sym, ap, ◌∙◌, Option, none, some, List, [], ◌∷◌, ◌++◌, arith, append-nil,
  append_assoc,
}
use zephyr_polling.TxPending.{
  Sem, k_sem_give, Tx, Conn, Told, completed, failed, Err, no_error, no_bufs, not_conn, io_error,
  bump_last, unbump_last, add_no_cb, remove_no_cb, add_pending, roll_back, told_failed,
  completed_from, complete_one, num_completed, told_completed,
}
use zephyr_polling.TxPending.Held.{IsFresh, conn_of, remove-append}
use zephyr_polling.TxPending.Account.{names}

abbrev pub accepted_by : Err → Option ℕ → List ℕ
accepted_by no_error none = []
accepted_by no_error (some cb) = cb ∷ []
accepted_by no_bufs tx = []
accepted_by not_conn tx = []
accepted_by io_error tx = []

-- The contexts that were told of their completion.
abbrev pub finished : List Told → List ℕ
finished [] = []
finished (completed cb ∷ ts) = cb ∷ finished ts
finished (failed cb ∷ ts) = finished ts

abbrev pub waiting : Conn → List ℕ
waiting c = c.tx_complete ++ names c.tx_pending

names-append : (ts : List Tx) (t : Tx) → names (ts ++ t ∷ []) ≡ names ts ++ t.cb ∷ []
names-append [] t = refl
names-append (u ∷ us) t = ap (λ cbs. u.cb ∷ cbs) (names-append us t)

names-bump : (ts : List Tx) → names (bump_last ts) ≡ names ts
names-bump [] = refl
names-bump (t ∷ []) = refl
names-bump (t ∷ (u ∷ us)) = ap (λ cbs. t.cb ∷ cbs) (names-bump (u ∷ us))

names-unbump : (ts : List Tx) → names (unbump_last ts) ≡ names ts
names-unbump [] = refl
names-unbump (t ∷ []) = refl
names-unbump (t ∷ (u ∷ us)) = ap (λ cbs. t.cb ∷ cbs) (names-unbump (u ∷ us))

pub finished-append : (ts us : List Told) → finished (ts ++ us) ≡ finished ts ++ finished us
finished-append [] us = refl
finished-append (completed cb ∷ ts) us = ap (λ cbs. cb ∷ cbs) (finished-append ts us)
finished-append (failed cb ∷ ts) us = finished-append ts us

pub finished-completed : (cbs : List ℕ) → finished (told_completed cbs) ≡ cbs
finished-completed [] = refl
finished-completed (cb ∷ cbs) = ap (λ xs. cb ∷ xs) (finished-completed cbs)

pub finished-failed : (tx : Option ℕ) → finished (told_failed tx) ≡ []
finished-failed none = refl
finished-failed (some cb) = refl

add_no_cb-waiting :
    (n : ℕ) (ts : List Tx) (cbs : List ℕ)
    → waiting (add_no_cb (conn_of n ts cbs) ts) ≡ cbs ++ names ts
add_no_cb-waiting n [] cbs = refl
add_no_cb-waiting n (t ∷ ts) cbs = ap (λ xs. cbs ++ xs) (names-bump (t ∷ ts))

remove_no_cb-waiting :
    (c : Conn) (ts : List Tx) → c.tx_pending ≡ ts → waiting (remove_no_cb c ts) ≡ waiting c
remove_no_cb-waiting c [] e = refl
remove_no_cb-waiting c (t ∷ ts) e =
    ap (λ xs. c.tx_complete ++ xs) (names-unbump (t ∷ ts) ∙ ap names (sym e))

pub add_pending-waiting :
    (tx : Option ℕ) (c : Conn) → waiting (add_pending tx c) ≡ waiting c ++ accepted_by no_error tx
add_pending-waiting none c =
    add_no_cb-waiting c.pending_no_cb c.tx_pending c.tx_complete ∙ sym (append-nil (waiting c))
add_pending-waiting (some cb) c =
    ap (λ xs. c.tx_complete ++ xs)
      (names-append c.tx_pending (record { cb = cb; pending_no_cb = 0 }))
    ∙ sym (append_assoc c.tx_complete (names c.tx_pending) (cb ∷ []))

pub roll_back-waiting :
    (tx : Option ℕ) (c : Conn)
    → IsFresh tx c
    → waiting (roll_back tx (add_pending tx c)) ≡ waiting c
roll_back-waiting none c f =
    remove_no_cb-waiting (add_no_cb c c.tx_pending) (add_no_cb c c.tx_pending).tx_pending refl
    ∙ add_no_cb-waiting c.pending_no_cb c.tx_pending c.tx_complete
roll_back-waiting (some cb) c f =
    ap (λ ts. c.tx_complete ++ names ts)
      (remove-append cb c.tx_pending (record { cb = cb; pending_no_cb = 0 }) refl f)

abbrev waiting_of : Option Conn → List ℕ
waiting_of none = []
waiting_of (some c) = waiting c

completed_from-waiting :
    (n : ℕ) (ts : List Tx) (cbs : List ℕ) (c : Conn)
    → completed_from (conn_of n ts cbs) n ts ≡ some c
    → waiting c ≡ cbs ++ names ts
completed_from-waiting (suc n) ts cbs c e = sym (ap waiting_of e)
completed_from-waiting zero [] cbs c e = ground arith
completed_from-waiting zero (t ∷ ts) cbs c e =
    sym (ap waiting_of e) ∙ append_assoc cbs (t.cb ∷ []) (names ts)

num_from :
    (count : ℕ) (sem : Sem) (c : Conn) (o : Option Conn)
    → complete_one c ≡ o
    → ((c' : Conn) → waiting (num_completed count (k_sem_give sem) c').conn ≡ waiting c')
    → waiting (num_completed (suc count) sem c).conn ≡ waiting c
num_from count sem c none e f = rw (num_completed, e) refl
num_from count sem c (some c') e f =
    let h = completed_from-waiting c.pending_no_cb c.tx_pending c.tx_complete c' e in
    rw (num_completed, e) (f c' ∙ h)

pub num_completed-waiting :
    (count : ℕ) (sem : Sem) (c : Conn) → waiting (num_completed count sem c).conn ≡ waiting c
num_completed-waiting zero sem c = refl
num_completed-waiting (suc count) sem c =
    num_from count sem c (complete_one c) refl
      (λ c'. num_completed-waiting count (k_sem_give sem) c')

quiet_from :
    (count : ℕ) (sem : Sem) (c : Conn) (o : Option Conn)
    → complete_one c ≡ o
    → ((c' : Conn) → (num_completed count (k_sem_give sem) c').out ≡ [])
    → (num_completed (suc count) sem c).out ≡ []
quiet_from count sem c none e f = rw (num_completed, e) refl
quiet_from count sem c (some c') e f = rw (num_completed, e) (f c')

pub num_completed-quiet : (count : ℕ) (sem : Sem) (c : Conn) → (num_completed count sem c).out ≡ []
num_completed-quiet zero sem c = refl
num_completed-quiet (suc count) sem c =
    quiet_from count sem c (complete_one c) refl
      (λ c'. num_completed-quiet count (k_sem_give sem) c')
