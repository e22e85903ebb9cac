-- ===== src/ConnState/Held.antt =====
-- References of a connection in src/host/conn.c that are released only once.
use zephyr_polling.Prelude.{ℕ, suc, ◌+◌, ◌-◌, ◌<◌, ◌≤◌, ◌≡◌, sym, Bool, true, false, arith}
use mathlib.Core.Path.{subst}
use zephyr_polling.ConnState.{
  Build, State, disconnected, disconnect_complete, connecting_scan, connecting_auto, connecting_adv,
  connecting_dir_adv, connecting, connected, disconnecting, Conn, bt_conn_ref, bt_conn_unref, leave,
  enter_disconnected, enter, bt_conn_set_state, conn_destroy, deferred_work,
}
use zephyr_polling.ConnState.Life.{
  is_attempt, Legal, scan_found, scan_again, accept_adv, accept_dir_adv, accept_auto, establish,
  hang_up, hung_up, lost, down, stop_scan, stop_auto, stop_adv, stop_dir_adv, stop, World, Reaches,
  start, begin, change, take, release, fire, own, destroy, is_up, HasRefs,
}

abbrev pub conn_at : State → ℕ → Bool → Bool → Bool → Conn
conn_at s ref is_peripheral err deferred = record {
  state = s;
  ref = ref;
  is_peripheral = is_peripheral;
  err = err;
  deferred = deferred;
  failed = false;
}

change_lem :
    (b : Build) {o s : State}
    → Legal o s
    → (r u : ℕ) (p e d : Bool) → u + own b o d ≤ r
    → HasRefs b u ((bt_conn_set_state b (conn_at o r p e d) s).conn)
unfolding bt_conn_set_state leave enter enter_disconnected bt_conn_ref bt_conn_unref
change_lem b scan_found r u p e d q = ground arith
change_lem b scan_again r u p e d q = ground arith
change_lem b accept_adv r u p e d q = ground arith
change_lem b accept_dir_adv r u p e d q = ground arith
change_lem b accept_auto r u p e d q = ground arith
change_lem b establish r u p e d q = ground arith
change_lem b hang_up r u p e d q = ground arith
change_lem b hung_up r u p e d q = ground arith
change_lem b lost r u p e d q = ground arith
change_lem b down r u p e d q = ground arith
change_lem b stop_scan r u p e d q = ground arith
change_lem b stop_auto r u p e d q = ground arith
change_lem b stop_adv r u p e d q = ground arith
change_lem b stop_dir_adv r u p e d q = ground arith
change_lem b stop r u p e d q = ground arith

begin_lem :
    (b : Build) (s : State)
    → is_attempt s ≡ true
    → (r u : ℕ) (p e d : Bool) → u + own b disconnected d ≤ r
    → 0 < r
    → HasRefs b u ((bt_conn_set_state b (conn_at disconnected r p e d) s).conn)
unfolding bt_conn_set_state leave enter enter_disconnected bt_conn_ref bt_conn_unref
begin_lem b connecting_scan a r u p e d q h = ground arith
begin_lem b connecting_auto a r u p e d q h = ground arith
begin_lem b connecting_adv a r u p e d q h = ground arith
begin_lem b connecting_dir_adv a r u p e d q h = ground arith
begin_lem b connecting a r u p e d q h = ground arith
begin_lem b disconnected a r u p e d q h = ground arith
begin_lem b disconnect_complete a r u p e d q h = ground arith
begin_lem b connected a r u p e d q h = ground arith
begin_lem b disconnecting a r u p e d q h = ground arith

take_lem :
    (b : Build) (c : Conn) (u : ℕ) → 0 < c.ref → HasRefs b u (c) → HasRefs b (suc u) (bt_conn_ref c)
unfolding bt_conn_ref
take_lem b c u h k = ground arith

release_lem :
    (b : Build) (c : Conn) (u : ℕ)
    → 0 < u
    → HasRefs b u (c)
    → HasRefs b (u - 1) ((bt_conn_unref b c).conn)
unfolding bt_conn_unref
release_lem b c u h k = ground arith

fire_lem :
    (b : Build) (s : State) (r u : ℕ) (p e d : Bool)
    → d ≡ true
    → u + own b s d ≤ r
    → HasRefs b u ((deferred_work b (conn_at s r p e d)).conn)
unfolding deferred_work bt_conn_unref
fire_lem b connecting_scan r u p e d h q = ground arith
fire_lem b connecting_auto r u p e d h q = ground arith
fire_lem b connecting_adv r u p e d h q = ground arith
fire_lem b connecting_dir_adv r u p e d h q = ground arith
fire_lem b connecting r u p e d h q = ground arith
fire_lem b disconnected r u p e d h q = ground arith
fire_lem b disconnect_complete r u p e d h q = ground arith
fire_lem b connected r u p e d h q = ground arith
fire_lem b disconnecting r u p e d h q = ground arith

destroy_lem :
    (b : Build) (s : State)
    → is_up s ≡ true
    → (r u : ℕ) (p e d : Bool) → u + own b s d ≤ r
    → HasRefs b u ((conn_destroy b (conn_at s r p e d)).conn)
unfolding conn_destroy bt_conn_set_state leave enter enter_disconnected bt_conn_ref bt_conn_unref
destroy_lem b connecting_scan a r u p e d q = ground arith
destroy_lem b connecting_auto a r u p e d q = ground arith
destroy_lem b connecting_adv a r u p e d q = ground arith
destroy_lem b connecting_dir_adv a r u p e d q = ground arith
destroy_lem b connecting a r u p e d q = ground arith
destroy_lem b disconnected a r u p e d q = ground arith
destroy_lem b disconnect_complete a r u p e d q = ground arith
destroy_lem b connected a r u p e d q = ground arith
destroy_lem b disconnecting a r u p e d q = ground arith

-- It is enough to look at a connection's fields when no assertion has failed.
pub by_fields :
    (P : Conn → Type 0) (act : Conn → Conn) (c : Conn)
    → c.failed ≡ false
    → P (act (conn_at c.state c.ref c.is_peripheral c.err c.deferred))
    → P (act c)
by_fields P act c f = subst (λ x. P (act (record c { failed = x }))) (sym f)

begin_at_lem :
    (b : Build) (s : State)
    → is_attempt s ≡ true
    → (o : State) (r u : ℕ) (p e d : Bool) → o ≡ disconnected
    → u + own b o d ≤ r
    → 0 < r
    → HasRefs b u ((bt_conn_set_state b (conn_at o r p e d) s).conn)
begin_at_lem b s a o r u p e d h q k =
    subst (λ i. u + own b i d ≤ r → HasRefs b u ((bt_conn_set_state b (conn_at i r p e d) s).conn))
      (sym h) (λ c. begin_lem b s a r u p e d c k) q

-- The references that are needed are there after any run, and no assertion has failed.
pub Reaches-HasRefs :
    (b : Build) (w v : World) → Reaches b w v → HasRefs b w.users w.conn → HasRefs b v.users v.conn
Reaches-HasRefs b w _ start i = i
Reaches-HasRefs b w _ (begin {v} s a h k r) i =
    let j = Reaches-HasRefs b w v r i in
    let c = v.conn in
    by_fields (HasRefs b v.users) (λ x. (bt_conn_set_state b x s).conn) c (j.1)
      (begin_at_lem b s a c.state c.ref v.users c.is_peripheral c.err c.deferred h (j.0) k)
Reaches-HasRefs b w _ (change {v} s l r) i =
    let j = Reaches-HasRefs b w v r i in
    let c = v.conn in
    by_fields (HasRefs b v.users) (λ x. (bt_conn_set_state b x s).conn) c (j.1)
      (change_lem b l c.ref v.users c.is_peripheral c.err c.deferred (j.0))
Reaches-HasRefs b w _ (destroy {v} a r) i =
    let j = Reaches-HasRefs b w v r i in
    let c = v.conn in
    by_fields (HasRefs b v.users) (λ x. (conn_destroy b x).conn) c (j.1)
      (destroy_lem b c.state a c.ref v.users c.is_peripheral c.err c.deferred (j.0))
Reaches-HasRefs b w _ (take {v} h r) i = take_lem b v.conn v.users h (Reaches-HasRefs b w v r i)
Reaches-HasRefs b w _ (release {v} h r) i =
    release_lem b v.conn v.users h (Reaches-HasRefs b w v r i)
Reaches-HasRefs b w _ (fire {v} h r) i =
    let j = Reaches-HasRefs b w v r i in
    let c = v.conn in
    by_fields (HasRefs b v.users) (λ x. (deferred_work b x).conn) c (j.1)
      (fire_lem b c.state c.ref v.users c.is_peripheral c.err c.deferred h (j.0))
