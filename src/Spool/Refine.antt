-- ===== src/Spool/Refine.antt =====
-- The pool behaves as the bounded queue of Queue.antt, from `spool_init` on.
use zephyr_polling.Prelude.{ℕ, ◌+◌, ◌-◌, ◌≡◌, sym, ◌≢◌, ◌==◌, length, length-set, set, arith, ◌↔◌}
use zephyr_polling.Spool.{Spool, is_empty, size, next, enqueue, dequeue, dequeue_peek, check_full}
use zephyr_polling.Spool.Queue
use zephyr_polling.Spool.Queue.{Op, put, get, Reply, stored, taken}
use zephyr_polling.Spool.Ring.{
  IsValid, contents, length-ring, size-lt, size-reaches, ring-set, ring_suc,
}

length-contents : (p : Spool) → length (contents p) ≡ size p
unfolding contents
length-contents p = length-ring p.buf p.num p.rptr (size p)

-- On a valid pool the queries agree with the queue: the size is its length, it is empty when the
-- size is 0, full at `num - 1` pointers, and the peeked pointer is the oldest.
pub queries_refine :
    {p : Spool}
    → IsValid p
    → (size p ≡ length (contents p))
      × (is_empty p ≡ (size p == 0))
      × (check_full p ≡ (length (contents p) == p.num - 1))
      × (dequeue_peek p ≡ (Queue.pop (contents p)).0)
unfolding is_empty check_full dequeue_peek contents
queries_refine {p} v =
    (sym (length-contents p), empty, ground (arith, length-contents p, size-lt v), peek)
  where
    empty : is_empty p ≡ (size p == 0)
    empty = ground arith

    peek : dequeue_peek p ≡ (Queue.pop (contents p)).0
    peek = ground (arith, ring_suc p.buf p.num p.rptr (size p))

-- Unless the pool is full, the write index moves on by one place.
grown :
    {p : Spool} (x : ℕ)
    → IsValid p
    → next p.num p.wptr ≢ p.rptr
    → size (record p { buf = set p.buf p.wptr x; wptr = next p.num p.wptr }) ≡ size p + 1
unfolding size
grown {p} x v h = ground arith

full_iff : {p : Spool} → IsValid p → (next p.num p.wptr ≡ p.rptr) ↔ (size p + 1 ≡ p.num)
unfolding size
full_iff {p} v = (λ h. ground arith, λ h. ground arith)

shrunk :
    {p : Spool}
    → IsValid p
    → p.wptr ≢ p.rptr
    → size (record p { rptr = next p.num p.rptr }) + 1 ≡ size p
unfolding size
shrunk {p} v h = ground arith

-- On a valid pool `spool_enqueue` answers as the queue of `num - 1` places, leaves the pool holding
-- that queue, and keeps it valid.
pub enqueue_refines :
    {p : Spool} (x : ℕ)
    → IsValid p
    → let (s, p') = enqueue p x in
      ((s, contents p') ≡ Queue.push (p.num - 1) (contents p) x) × IsValid p' × (p'.num ≡ p.num)
unfolding enqueue contents
enqueue_refines {p} x v = ground (
  arith,
  length-contents p,
  size-lt v,
  length-set p.buf p.wptr x,
  ring-set p.buf p.num p.rptr (size p) p.wptr x,
  size-reaches v,
  grown x v,
  full_iff v,
)

-- On a valid pool `spool_dequeue` answers as the queue does, leaves the pool holding the rest, and
-- keeps it valid.
pub dequeue_refines :
    {p : Spool}
    → IsValid p
    → let (o, p') = dequeue p in
      ((o, contents p') ≡ Queue.pop (contents p)) × IsValid p' × (p'.num ≡ p.num)
unfolding dequeue contents
dequeue_refines {p} v = ground (arith, size-lt v, ring_suc p.buf p.num p.rptr (size p), shrunk v)
