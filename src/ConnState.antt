-- ===== src/ConnState.antt =====
-- The states of an LE connection in src/host/conn.c, with its reference count and the delayed work
-- that times out a connection attempt, updates parameters and cleans up. The packets that wait for the
-- controller are not part of it.
pub mod Life
pub mod Held
pub mod Counted
use zephyr_polling.Prelude.{
  ℕ, zero, suc, ◌+◌, ◌-◌, Bool, true, false, not, ◌&&◌, ◌||◌, List, [], ◌∷◌, ◌++◌, ◌==◌,
  if◌then◌else◌,
}

pub record Build : Type 0 where
  pub with_central : Bool
  pub with_peripheral : Bool

pub data State : Type 0 where
  disconnected disconnect_complete connecting_scan connecting_auto connecting_adv connecting_dir_adv
        connecting connected disconnecting :
      State

-- The number of the enumeration.
abbrev pub index : State → ℕ
index disconnected = 0
index disconnect_complete = 1
index connecting_scan = 2
index connecting_auto = 3
index connecting_adv = 4
index connecting_dir_adv = 5
index connecting = 6
index connected = 7
index disconnecting = 8

-- `err` is whether `conn->err` is set, `deferred` whether `deferred_work` is scheduled, `failed` whether
-- the assertion of `bt_conn_unref`, that there is a reference to release, has failed.
pub record Conn : Type 0 where
  pub state : State
  pub ref : ℕ
  pub is_peripheral : Bool
  pub err : Bool
  pub deferred : Bool
  pub failed : Bool

-- The callbacks of the application, and advertising that is resumed.
pub data Out : Type 0 where
  told_connected told_disconnected adv_resumed : Out

pub record Step : Type 0 where
  pub conn : Conn
  pub out : List Out

-- Nothing happens without a reference.
unfoldable pub bt_conn_ref : Conn → Conn
bt_conn_ref c = if c.ref == 0 then c else record c { ref = suc c.ref }

unfoldable pub bt_conn_unref : Build → Conn → Step
bt_conn_unref b c = record {
  conn = record c { ref = c.ref - 1; failed = c.failed || (c.ref == 0) };
  out = if b.with_peripheral && (c.is_peripheral && (c.ref - 1 == 0)) then adv_resumed ∷ [] else [];
}

abbrev pub quiet : Conn → Step
quiet c = record { conn = c; out = [] }

-- The actions on leaving the old state.
unfoldable pub leave : Build → State → Conn → Conn
leave b disconnected c = bt_conn_ref c
leave b connecting c = if b.with_central then record c { deferred = false } else c
leave b disconnect_complete c = c
leave b connecting_scan c = c
leave b connecting_auto c = c
leave b connecting_adv c = c
leave b connecting_dir_adv c = c
leave b connected c = c
leave b disconnecting c = c

abbrev pub failed_attempt : Build → Conn → Step
failed_attempt b c =
    let r = bt_conn_unref b c in record r { out = if c.err then told_connected ∷ r.out else r.out }

-- The actions on becoming disconnected, by the old state; `conn_cleanup` schedules the work.
unfoldable pub enter_disconnected : Build → State → Conn → Step
enter_disconnected b disconnect_complete c = quiet (record c { deferred = true })
enter_disconnected b connecting c = failed_attempt b c
enter_disconnected b connecting_scan c = failed_attempt b c
enter_disconnected b connecting_dir_adv c = failed_attempt b c
enter_disconnected b connecting_auto c = bt_conn_unref b c
enter_disconnected b connecting_adv c = bt_conn_unref b c
enter_disconnected b connected c = quiet c
enter_disconnected b disconnecting c = quiet c
enter_disconnected b disconnected c = quiet c

-- The actions on entering the new state.
unfoldable pub enter : Build → State → State → Conn → Step
enter b old disconnected c = enter_disconnected b old c
enter b old connected c =
    quiet (if b.with_peripheral && c.is_peripheral then record c { deferred = true } else c)
enter b old connecting c = quiet (if b.with_central then record c { deferred = true } else c)
enter b old disconnect_complete c = quiet c
enter b old connecting_scan c = quiet c
enter b old connecting_auto c = quiet c
enter b old connecting_adv c = quiet c
enter b old connecting_dir_adv c = quiet c
enter b old disconnecting c = quiet c

unfoldable pub bt_conn_set_state : Build → Conn → State → Step
bt_conn_set_state b c state =
    if index c.state == index state
    then quiet c
    else enter b c.state state (leave b c.state (record c { state = state }))

-- `deferred_work`. Cancelling an attempt to connect and updating the parameters only send messages.
-- The last reference goes when the connection is down.
unfoldable pub deferred_work : Build → Conn → Step
deferred_work b c =
    let done = record c { deferred = false } in
    let r = bt_conn_unref b done in
    if index c.state == 0 then record r { out = told_disconnected ∷ r.out } else quiet done

-- `conn_destroy`, without the packets.
unfoldable pub conn_destroy : Build → Conn → Step
conn_destroy b c = bt_conn_set_state b (record c { deferred = true }) disconnected
