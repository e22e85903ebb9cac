-- ===== src/Lib.antt =====
-- A verification library for zephyr_polling, a Bluetooth host stack that runs by polling.
--
-- The stack's layers pass packets in network buffers (src/common/net_buf.c), which come from pools
-- (src/utils/spool.c) and wait in FIFOs (src/utils/k_queue.c) that are linked lists
-- (src/utils/list_gen.h). The UART transport (src/drivers/hci_h4.c) moves packets between the FIFOs
-- and the controller. Above it, connections (src/host/conn.c) cut buffers into packets and put them
-- together, L2CAP channels (src/host/l2cap.c) count credits for their segments, and the security
-- manager (src/host/smp.c), a fixed channel, pairs devices.
--
-- Files and code:
--   ByteOrder: sys_put_* and sys_get_* of src/base/byteorder.h.
--   NetBuf/Simple: struct net_buf_simple and the net_buf_simple_* functions of src/common/net_buf.c;
--     NetBuf/Codec: its typed accessors, one function each, and Codec/Field the family of them.
--   Spool: spool_* of src/utils/spool.c; Spool/Queue is what a pool promises.
--   Slist: the operations of src/utils/list_gen.h for sys_slist_t, on node addresses.
--   KQueue: k_queue_* of src/utils/k_queue.c.
--   Hex: src/common/hex.c.
--   H4/Tx: process_tx and h4_send of src/drivers/hci_h4.c; H4/Rx: process_rx and what it calls.
--     Rx/Bytes says which bytes a state has taken in, and Indicator, Header and Payload treat the
--     parts of a poll, which Poll and Returns put together.
--   Timers: src/common/timeout.c, timer.c and work.c; Timers/Timeout is the list of timeouts and
--     Timers/Timer the timers and work items, whose users' functions are lists of calls.
--   MemSlab: src/utils/mem_slab.c, on block addresses; MemSlab/Free is the stack that it promises.
--   Uuid: bt_uuid_cmp and bt_uuid_create of src/host/uuid.c.
--   Addr: bt_addr_from_str of src/host/addr.c.
--   KeyStore: the stored keys (bt_storage_kv_key_*) of src/host/keys.c, over a key-value store.
--   KeyPool: the pool of keys of src/host/keys.c; KeyPool/Irk is the resolving of private addresses.
--   Rpa: src/common/rpa.c.
--   ConnState: bt_conn_set_state, bt_conn_ref, bt_conn_unref, deferred_work and conn_destroy of
--     src/host/conn.c; ConnState/Life is the relation of what can happen to a connection, with
--     attempts that begin before the clean-up. In an attempt, conn_destroy is left out of it.
--   Acl: send_buf and bt_acl_recv of src/host/conn.c, the fragments of both directions.
--   TxPending: the packets that the controller holds, in src/host/conn.c (send_frag, process_unack_tx,
--     tx_notify) and src/host/hci_core.c (hci_num_completed_packets), with src/utils/k_sem.h;
--     TxPending/Shared is the semaphore of all connections, TxPending/Order the order of the callbacks.
--   L2cap: credits of LE channels in src/host/l2cap.c, both directions; L2cap/Balance puts the two
--     sides of a link together, with the segments and the signals on their way.
--   AdvData: set_data_add_complete and hci_set_ad of src/host/adv.c, and bt_data_parse of
--     src/host/hci_core.c.
--   Smp: the flags and the state of a pairing in src/host/smp.c; Smp/Method is the choice of the
--     method and the levels of security, Smp/Features and
--     Smp/Negotiate the exchange of features in both roles,
--     Smp/Failure errors and the end of a pairing, Smp/Recv the dispatch of received PDUs.
--   Prelude/Bits: the bit operations on flags and key masks.
--   Tests: runs at concrete inputs.
--
-- A byte and a machine word are natural numbers, with the wrap-around of their width written out. A
-- pointer to a node is its address, and 0 is NULL. An assertion that fails, and an access outside
-- an array where the code does not rule it out, is `none`. Loops over linked lists take fuel, and
-- their theorems ask for more fuel than the list has nodes. `size_t` has 32 bits. The UART driver
-- and the buffer allocator are parameters of each poll. The queue of the transport is the list of
-- its buffers, and a buffer there is its type and its bytes. The list of timeouts is the list of
-- its nodes, and polling it runs on fuel, more than there are timeouts due.
--
-- The options of the build that a part reads are a record of Booleans, and what a pool, the controller,
-- the lower layers or the application answer is an argument. A call of `send_buf` in Acl is given
-- the number of fragments that can be created and the number of packets that the driver takes;
-- TxPending has the semaphore itself, which never refuses. The laws of the key-value store in
-- KeyStore are what src/host/keys.c relies on; the store of platform/rtthread, which only prints, does
-- not keep them.
--
-- Not modelled: the platform, chipset and example code, logging, the cryptographic library; of the
-- security manager the phases with confirm values, public keys and key distribution, whose handlers are
-- an argument of the dispatch; of connections lookup, creation and
-- parameters; of channels their signalling; of advertising its states; and the attribute protocol,
-- GATT, the commands of the HCI core, the identities and the settings. Each needs a model of many
-- further structures.
pub mod Prelude
pub mod ByteOrder
pub mod NetBuf
pub mod Spool
pub mod Slist
pub mod KQueue
pub mod Hex
pub mod H4
pub mod Timers
pub mod MemSlab
pub mod Uuid
pub mod KeyStore
pub mod Addr
pub mod Smp
pub mod Acl
pub mod L2cap
pub mod AdvData
pub mod ConnState
pub mod Rpa
pub mod KeyPool
pub mod TxPending
pub mod Tests
