-- ===== src/Spool/Run.antt =====
-- `spool_init`, and a client's calls in any order.
use zephyr_polling.Prelude.{
  ℕ, zero, suc, ◌+◌, ◌-◌, ◌*◌, ◌≤◌, ◌<◌, ◌≡◌, refl, ◌∙◌, ap₂, List, [], ◌∷◌, length, length-set,
  get_or, set, get_or-set_self, get_or-set_ne, add_u8, arith, ltb, leb, ◌&&◌, if◌then◌else◌,
}
use zephyr_polling.Spool.{Spool, stride, fill, init, size, next, enqueue, dequeue}
use zephyr_polling.Spool.Queue
use zephyr_polling.Spool.Queue.{Op, put, get, Reply, stored, taken}
use zephyr_polling.Spool.Ring.{IsValid, ring, contents}
use zephyr_polling.Spool.Refine.{enqueue_refines, dequeue_refines}

-- A client's calls in order, with what each returns.
unfoldable pub run : Spool → List Op → List Reply
run p [] = []
run p (put x ∷ ops) = let (s, p') = enqueue p x in stored s ∷ run p' ops
run p (get ∷ ops) = let (o, p') = dequeue p in taken o ∷ run p' ops

-- No sequence of calls tells a valid pool from the bounded queue of its contents.
pub pool_run_refines :
    (ops : List Op) {p : Spool} → IsValid p → run p ops ≡ Queue.run (p.num - 1) (contents p) ops
unfolding run Queue.run
pool_run_refines [] v = refl
pool_run_refines (put x ∷ ops) {p} v =
    let r = enqueue_refines x v in rw (pool_run_refines ops r.1, r.2, ← r.0)
pool_run_refines (get ∷ ops) {p} v =
    let r = dequeue_refines v in rw (pool_run_refines ops r.1, r.2, ← r.0)

-- The addresses of `k` buffers in the storage, from number `i` on.
unfoldable pub blocks : (step at i k : ℕ) → List ℕ
blocks step at i zero = []
blocks step at i (suc k) = (at + step * i) ∷ blocks step at (i + 1) k

length-fill : (step at left i : ℕ) (buf : List ℕ) → length (fill step at left i buf) ≡ length buf
unfolding fill
length-fill step at zero i buf = refl
length-fill step at (suc left) i buf =
    length-fill step at left (i + 1) (set buf i (at + step * i)) ∙ length-set buf i (at + step * i)

get_or-fill :
    (step at left i j : ℕ) (buf : List ℕ)
    → i + left ≤ length buf
    → get_or (fill step at left i buf) j 0
      ≡ (if leb i j && ltb j (i + left) then at + step * j else get_or buf j 0)
unfolding fill
get_or-fill step at zero i j buf h = ground arith
get_or-fill step at (suc left) i j buf h = ground (
  arith,
  get_or-fill step at left (i + 1) j (set buf i (at + step * i)),
  length-set buf i (at + step * i),
  get_or-set_self buf i (at + step * i) 0,
  get_or-set_ne buf i j (at + step * i) 0,
)

ring-blocks :
    (step at num k r : ℕ) (buf : List ℕ)
    → num < 256
    → r + k < num
    → ((j : ℕ) → j + 1 < num → get_or buf j 0 ≡ at + step * j)
    → ring buf num r k ≡ blocks step at r k
unfolding ring blocks
ring-blocks step at num zero r buf s h filled = refl
ring-blocks step at num (suc k) r buf s h filled = ap₂ ◌∷◌ (filled r (omega arith)) (
    let e : next num r ≡ r + 1 = ground arith in
    rw e (ring-blocks step at num k (r + 1) buf s (omega arith) filled))

-- `spool_init` for fewer than 255 buffers makes a valid pool that holds every buffer of the storage
-- once, in the order of their addresses, if the pointer array has a place more than that.
pub contents-init :
    (header num : ℕ) (buf : List ℕ) (storage data_size user_data_size : ℕ)
    → num < 255
    → num < length buf
    → let p = init header num buf storage data_size user_data_size in
      IsValid p
      × (contents p ≡ blocks (stride header data_size user_data_size) storage 0 num)
      × (p.num ≡ num + 1)
unfolding init contents
contents-init header num buf storage data_size user_data_size small room = (
  record {
    small = omega arith;
    read = omega arith;
    written = omega arith;
    storage = omega (arith, length-fill step storage num 0 buf);
  },
  rw size_is (
      ring-blocks step storage (add_u8 num 1) num 0 (fill step storage num 0 buf) (omega arith)
        (omega arith) λ j h. ground (arith, get_or-fill step storage num 0 j buf)),
  omega arith,
)
  where
    step : ℕ
    step = stride header data_size user_data_size

    size_is : size (init header num buf storage data_size user_data_size) ≡ num
    size_is = ground arith
