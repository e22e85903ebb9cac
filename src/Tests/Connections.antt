-- ===== src/Tests/Connections.antt =====
-- A connection's life: an attempt in the background, a disconnection by the peer, and the clean-up.
use zephyr_polling.Prelude.{◌≡◌, refl, true, false, ◌||◌, arith}
use zephyr_polling.ConnState.{
  Build, State, disconnected, disconnect_complete, connecting_auto, connecting_scan, connected,
  bt_conn_set_state, deferred_work, bt_conn_ref, bt_conn_unref, leave, enter, enter_disconnected,
}
use zephyr_polling.ConnState.Life.{
  World, Reaches, start, begin, change, fire, accept_auto, lost, down,
}

abbrev both : Build
both = record { with_central = true; with_peripheral = true }

-- Its creator holds the one reference.
abbrev fresh : World
fresh = record {
  conn = record {
    state = disconnected;
    ref = 1;
    is_peripheral = true;
    err = false;
    deferred = false;
    failed = false;
  };
  users = 1;
  early = false;
}

abbrev entered : World → State → World
entered w s = record w { conn = (bt_conn_set_state both w.conn s).conn }

abbrev began : World → State → World
began w s = record w {
  conn = (bt_conn_set_state both w.conn s).conn;
  early = w.early || w.conn.deferred;
}

abbrev worked : World → World
worked w = record w { conn = (deferred_work both w.conn).conn }

abbrev downed : World
downed =
    entered (entered (entered (began fresh connecting_auto) connected) disconnect_complete)
      disconnected

downed-Reaches : Reaches both fresh downed
unfolding bt_conn_set_state leave enter enter_disconnected bt_conn_ref bt_conn_unref
downed-Reaches = change disconnected down (
    change disconnect_complete lost
      (change connected accept_auto (begin connecting_auto refl refl (omega arith) start)))

cleaned-Reaches : Reaches both fresh (worked downed)
unfolding bt_conn_set_state leave enter enter_disconnected bt_conn_ref bt_conn_unref
cleaned-Reaches = fire refl downed-Reaches

cleaned_ref : (worked downed).conn.ref ≡ 1
unfolding bt_conn_set_state leave enter enter_disconnected bt_conn_ref bt_conn_unref deferred_work
cleaned_ref = refl

-- An attempt that begins before the clean-up.
abbrev renewed : World
renewed = worked (began downed connecting_scan)

-- The clean-up does not come any more, and its reference stays.
renewed_ref : renewed.conn.ref ≡ 3
unfolding bt_conn_set_state leave enter enter_disconnected bt_conn_ref bt_conn_unref deferred_work
renewed_ref = refl
