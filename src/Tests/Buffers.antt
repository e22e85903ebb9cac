-- ===== src/Tests/Buffers.antt =====
-- src/common/net_buf.c, src/utils/spool.c and src/common/hex.c at concrete inputs.
use zephyr_polling.Prelude.{◌-◌, ◌≡◌, refl, none, some, List, [], ◌∷◌, ◌++◌, replicate, arith}
use zephyr_polling.NetBuf.Simple.{NetBufSimple, tailroom}
use zephyr_polling.NetBuf.Simple.Room.{IsValid}
use zephyr_polling.NetBuf.Codec.Field.{le16, be24}
use zephyr_polling.NetBuf.Codec.RoundTrip.{
  Packet, add_packet, pull_packet, kinds, wire_values, pull_packet-add_packet,
}
use zephyr_polling.Spool
use zephyr_polling.Spool.{Spool, stride, size, is_empty, check_full, dequeue_peek}
use zephyr_polling.Spool.Queue.{put, get}
use zephyr_polling.Spool.Queue
use zephyr_polling.Spool.Ring
use zephyr_polling.Spool.Refine.{enqueue_refines, dequeue_refines}
use zephyr_polling.Spool.Run.{run, pool_run_refines}
use zephyr_polling.Hex.{bin2hex, hex2bin}
use zephyr_polling.Hex.RoundTrip.{digits, hex2bin-digits}
use zephyr_polling.Hex.Overflow.{bin2hex_overflow}

-- Eight bytes of storage, two of them reserved in front.
abbrev reserved : NetBufSimple
reserved = record { mem = replicate 8 0; head = 2; len = 0; size = 8 }

reserved-IsValid : IsValid reserved
reserved-IsValid = omega arith

abbrev header : Packet
header = (le16, 0x1234) ∷ (be24, 0x01abcdef) ∷ []

packet_example :
    (b' b'' : NetBufSimple) × (add_packet reserved header ≡ some b')
    × (pull_packet b' (kinds header) ≡ some (wire_values header, b''))
    × IsValid b''
    × (b''.len ≡ 0)
unfolding tailroom
packet_example = pull_packet-add_packet header reserved-IsValid refl (omega arith)

-- Three buffers of 16 bytes, with 24 bytes of header each.
abbrev pool : Spool
pool = record {
  num = 4;
  rptr = 2;
  wptr = 1;
  user_data_size = 4;
  data_size = 16;
  buf = 144 ∷ 0 ∷ 100 ∷ 188 ∷ [];
  storage = 100;
}

pool-IsValid : Ring.IsValid pool
pool-IsValid = omega arith

abbrev calls : List Queue.Op
calls = get ∷ put 188 ∷ put 100 ∷ get ∷ get ∷ get ∷ get ∷ []

enqueue_example :
    let (s, p') = Spool.enqueue pool 7 in
    ((s, Ring.contents p') ≡ Queue.push (pool.num - 1) (Ring.contents pool) 7)
    × Ring.IsValid p'
    × (p'.num ≡ pool.num)
enqueue_example = enqueue_refines 7 pool-IsValid

dequeue_example :
    let (o, p') = Spool.dequeue pool in
    ((o, Ring.contents p') ≡ Queue.pop (Ring.contents pool)) × Ring.IsValid p' × (p'.num ≡ pool.num)
dequeue_example = dequeue_refines pool-IsValid

pool_runs_example : run pool calls ≡ Queue.run (pool.num - 1) (Ring.contents pool) calls
pool_runs_example = pool_run_refines calls pool-IsValid

hex2bin_example :
    hex2bin (digits (0xa5 ∷ 0x0f ∷ [])) ((0 ∷ 0 ∷ []) ++ 9 ∷ [])
    ≡ some (2, (0xa5 ∷ 0x0f ∷ []) ++ 9 ∷ [])
hex2bin_example = hex2bin-digits (0xa5 ∷ 0x0f ∷ []) (0 ∷ 0 ∷ []) (9 ∷ []) (omega arith) refl

overflow_example : bin2hex (0xa5 ∷ []) (0 ∷ 0 ∷ []) ≡ none
overflow_example = bin2hex_overflow (0xa5 ∷ []) (0 ∷ 0 ∷ []) (omega arith) refl
