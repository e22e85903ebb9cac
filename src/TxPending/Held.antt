-- ===== src/TxPending/Held.antt =====
-- The packets of a connection that the controller holds, in src/host/conn.c.
use zephyr_polling.Prelude.{
  ℕ, zero, suc, ◌+◌, ◌≡◌, refl, ap, Bool, true, false, Option, none, some, List, [], ◌∷◌, ◌++◌,
  ◌==◌, if◌then◌else◌, arith, ==_self,
}
use zephyr_polling.TxPending.{
  Tx, Conn, bump_last, unbump_last, add_no_cb, remove_no_cb, add_pending, remove_tx, roll_back,
  completed_from,
}

-- The packets of a connection that the controller has not reported.
abbrev pub held_by : List Tx → ℕ
held_by [] = 0
held_by (t ∷ ts) = suc (t.pending_no_cb + held_by ts)

abbrev pub held : Conn → ℕ
held c = c.pending_no_cb + held_by c.tx_pending

-- A new context is none that is pending: it comes from the pool of free ones.
abbrev pub has_tx : ℕ → List Tx → Bool
has_tx cb [] = false
has_tx cb (t ∷ ts) = let rest = has_tx cb ts in if t.cb == cb then true else rest

abbrev pub IsFresh : Option ℕ → Conn → Type 0
IsFresh none c = Unit
IsFresh (some cb) c = has_tx cb c.tx_pending ≡ false

bump-held : (t : Tx) (ts : List Tx) → held_by (bump_last (t ∷ ts)) ≡ suc (held_by (t ∷ ts))
bump-held t [] = ground arith
bump-held t (u ∷ us) = let rest = bump-held u us in ground arith

unbump-bump :
    (t : Tx) (ts : List Tx) → held_by (unbump_last (bump_last (t ∷ ts))) ≡ held_by (t ∷ ts)
unbump-bump t [] = ground arith
unbump-bump t (u ∷ []) = ground arith
unbump-bump t (u ∷ (v ∷ vs)) = let rest = unbump-bump u (v ∷ vs) in ground arith

append-held : (ts : List Tx) (t : Tx) → held_by (ts ++ t ∷ []) ≡ held_by ts + suc t.pending_no_cb
append-held [] t = ground arith
append-held (u ∷ us) t = let rest = append-held us t in ground arith

fresh_cons :
    (cb : ℕ) (u : Tx) (us : List Tx)
    → has_tx cb (u ∷ us) ≡ false
    → (u.cb == cb ≡ false) × (has_tx cb us ≡ false)
fresh_cons cb u us h = ground arith

pub remove-append :
    (cb : ℕ) (ts : List Tx) (t : Tx)
    → t.cb ≡ cb
    → has_tx cb ts ≡ false
    → remove_tx cb (ts ++ t ∷ []) ≡ ts
remove-append cb [] t e h = rw (e, ==_self cb) refl
remove-append cb (u ∷ us) t e h =
    let (ne, later) = fresh_cons cb u us h in rw (ne, remove-append cb us t e later) refl

abbrev pub conn_of : ℕ → List Tx → List ℕ → Conn
conn_of n ts cbs = record { pending_no_cb = n; tx_pending = ts; tx_complete = cbs }

add_no_cb-held :
    (n : ℕ) (ts : List Tx) (cbs : List ℕ)
    → let c = conn_of n ts cbs in held (add_no_cb c ts) ≡ suc (held c)
add_no_cb-held n [] cbs = ground arith
add_no_cb-held n (t ∷ ts) cbs = let rest = bump-held t ts in ground arith

remove_no_cb-held :
    (n : ℕ) (ts : List Tx) (cbs : List ℕ)
    → let c = conn_of n ts cbs in
      held (remove_no_cb (add_no_cb c ts) (add_no_cb c ts).tx_pending) ≡ held c
remove_no_cb-held n [] cbs = ground arith
remove_no_cb-held n (t ∷ []) cbs = ground arith
remove_no_cb-held n (t ∷ (u ∷ us)) cbs = let rest = unbump-bump t (u ∷ us) in ground arith

pub add_pending-held : (tx : Option ℕ) (c : Conn) → held (add_pending tx c) ≡ suc (held c)
add_pending-held none c = add_no_cb-held c.pending_no_cb c.tx_pending c.tx_complete
add_pending-held (some cb) c =
    let rest = append-held c.tx_pending (record { cb = cb; pending_no_cb = 0 }) in ground arith

pub roll_back-held :
    (tx : Option ℕ) (c : Conn) → IsFresh tx c → held (roll_back tx (add_pending tx c)) ≡ held c
roll_back-held none c f = remove_no_cb-held c.pending_no_cb c.tx_pending c.tx_complete
roll_back-held (some cb) c f =
    ap (λ ts. c.pending_no_cb + held_by ts)
      (remove-append cb c.tx_pending (record { cb = cb; pending_no_cb = 0 }) refl f)

abbrev held_of : Option Conn → ℕ
held_of none = 0
held_of (some c) = held c

pub completed_from-held :
    (n : ℕ) (ts : List Tx) (cbs : List ℕ) (c : Conn)
    → completed_from (conn_of n ts cbs) n ts ≡ some c
    → n + held_by ts ≡ suc (held c)
completed_from-held (suc n) ts cbs c e = let h = ap held_of e in ground arith
completed_from-held zero [] cbs c e = ground arith
completed_from-held zero (t ∷ ts) cbs c e = let h = ap held_of e in ground arith
