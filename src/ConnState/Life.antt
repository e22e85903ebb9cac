-- ===== src/ConnState/Life.antt =====
-- All that can happen to a connection of src/host/conn.c, with the references of its users.
use zephyr_polling.Prelude.{
  ℕ, suc, ◌+◌, ◌-◌, ◌<◌, ◌≤◌, ◌≡◌, Bool, true, false, not, ◌&&◌, ◌||◌, if◌then◌else◌,
}
use zephyr_polling.ConnState.{
  Build, State, disconnected, disconnect_complete, connecting_scan, connecting_auto, connecting_adv,
  connecting_dir_adv, connecting, connected, disconnecting, Conn, bt_conn_ref, bt_conn_unref,
  bt_conn_set_state, conn_destroy, deferred_work,
}

-- An attempt to connect. It begins on a connection that is down, whether the clean-up of the
-- connection before is still to be done or not, with a reference in hand.
abbrev pub is_attempt : State → Bool
is_attempt connecting_scan = true
is_attempt connecting_auto = true
is_attempt connecting_adv = true
is_attempt connecting_dir_adv = true
is_attempt connecting = true
is_attempt disconnected = false
is_attempt disconnect_complete = false
is_attempt connected = false
is_attempt disconnecting = false

-- The states in which the host is deinitialised: no attempt is under way.
abbrev pub is_up : State → Bool
is_up connected = true
is_up disconnecting = true
is_up disconnect_complete = true
is_up connecting_scan = false
is_up connecting_auto = false
is_up connecting_adv = false
is_up connecting_dir_adv = false
is_up connecting = false
is_up disconnected = false

-- The other transitions that the host makes.
pub data Legal : State → State → Type 0 where
  scan_found : Legal connecting_scan connecting
  scan_again : Legal connecting connecting_scan
  accept_adv : Legal connecting_adv connected
  accept_dir_adv : Legal connecting_dir_adv connected
  accept_auto : Legal connecting_auto connected
  establish : Legal connecting connected
  hang_up : Legal connected disconnecting
  hung_up : Legal disconnecting disconnect_complete
  lost : Legal connected disconnect_complete
  down : Legal disconnect_complete disconnected
  stop_scan : Legal connecting_scan disconnected
  stop_auto : Legal connecting_auto disconnected
  stop_adv : Legal connecting_adv disconnected
  stop_dir_adv : Legal connecting_dir_adv disconnected
  stop : Legal connecting disconnected

-- A connection with the references that its users hold, and whether an attempt has begun while the
-- clean-up of the connection before was still scheduled.
pub record World : Type 0 where
  pub conn : Conn
  pub users : ℕ
  pub early : Bool

pub data Reaches (b : Build) (w : World) : World → Type 0 where
  start : Reaches b w w
  begin :
      {v : World} (s : State)
      → is_attempt s ≡ true
      → v.conn.state ≡ disconnected
      → 0 < v.conn.ref
      → Reaches b w v
      → Reaches b w (record v {
        conn = (bt_conn_set_state b v.conn s).conn;
        early = v.early || v.conn.deferred;
      })
  change :
      {v : World} (s : State)
      → Legal v.conn.state s
      → Reaches b w v
      → Reaches b w (record v { conn = (bt_conn_set_state b v.conn s).conn })
  destroy :
      {v : World}
      → is_up v.conn.state ≡ true
      → Reaches b w v
      → Reaches b w (record v { conn = (conn_destroy b v.conn).conn })
  take :
      {v : World}
      → 0 < v.conn.ref
      → Reaches b w v
      → Reaches b w (record v { conn = bt_conn_ref v.conn; users = suc v.users })
  release :
      {v : World}
      → 0 < v.users
      → Reaches b w v
      → Reaches b w (record v { conn = (bt_conn_unref b v.conn).conn; users = v.users - 1 })
  fire :
      {v : World}
      → v.conn.deferred ≡ true
      → Reaches b w v
      → Reaches b w (record v { conn = (deferred_work b v.conn).conn })

-- The references that the host needs. An attempt needs the one that it releases when it is stopped,
-- and another one if the clean-up of the connection before is still to come.
abbrev pub own : Build → State → Bool → ℕ
own b disconnected deferred = if deferred then 1 else 0
own b disconnect_complete deferred = 1
own b connecting_scan deferred = if deferred then 2 else 1
own b connecting_auto deferred = if deferred then 2 else 1
own b connecting_adv deferred = if deferred then 2 else 1
own b connecting_dir_adv deferred = if deferred then 2 else 1
own b connecting deferred = if not b.with_central && deferred then 2 else 1
own b connected deferred = 1
own b disconnecting deferred = 1

abbrev pub HasRefs : Build → ℕ → Conn → Type 0
HasRefs b users c = users + own b c.state c.deferred ≤ c.ref × c.failed ≡ false

-- Whether work may be scheduled in a state, when no attempt has begun before the clean-up.
abbrev pub rests : Build → State → Bool → Bool
rests b disconnected deferred = true
rests b disconnect_complete deferred = true
rests b connecting_scan deferred = not deferred
rests b connecting_auto deferred = not deferred
rests b connecting_adv deferred = not deferred
rests b connecting_dir_adv deferred = not deferred
rests b connecting deferred = b.with_central || not deferred
rests b connected deferred = true
rests b disconnecting deferred = true

abbrev pub IsExact : Build → ℕ → Conn → Type 0
IsExact b users c =
    c.ref ≡ users + own b c.state c.deferred × rests b c.state c.deferred ≡ true × c.failed ≡ false
