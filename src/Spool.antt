-- ===== src/Spool.antt =====
-- src/utils/spool.c: a pool of buffers as a ring of pointers. One entry of the ring stays unused, so
-- that a full ring differs from an empty one. A pointer is a number, and `none` is NULL; an index
-- into `buf` that is out of range reads 0 and writes nothing (`Spool.Ring.in_bounds` rules it out).
pub mod Ring
pub mod Queue
pub mod Refine
pub mod Run
use zephyr_polling.Prelude.{
  ℕ, zero, suc, ◌+◌, ◌-◌, ◌*◌, ◌/◌, ◌%◌, ◌^◌, Bool, true, false, Option, none, some, List, [], ◌∷◌,
  leb, ◌==◌, if◌then◌else◌, get_or, set, add_u8, sub_u8,
}

pub record Spool : Type 0 where
  pub num : ℕ
  pub rptr : ℕ
  pub wptr : ℕ
  pub user_data_size : ℕ
  pub data_size : ℕ
  pub buf : List ℕ
  pub storage : ℕ

unfoldable pub is_empty : Spool → Bool
is_empty pool = pool.rptr == pool.wptr

-- Bytes from one buffer of the storage to the next; `header` is `sizeof(struct net_buf)`.
abbrev pub stride : (header data_size user_data_size : ℕ) → ℕ
stride header data_size user_data_size = (data_size + header + user_data_size + 3) / 4 * 4

-- The loop that fills `buf[i]`, `buf[i + 1]`, … for the `left` rounds that remain.
fill : (step at : ℕ) (left i : ℕ) → List ℕ → List ℕ
fill step at zero i buf = buf
fill step at (suc left) i buf = fill step at left (i + 1) (set buf i (at + step * i))

pub init : (header num : ℕ) → List ℕ → (storage_buf data_size user_data_size : ℕ) → Spool
unfolding fill
init header num buf storage_buf data_size user_data_size = record {
  num = add_u8 num 1;
  rptr = 0;
  wptr = num;
  user_data_size = user_data_size;
  data_size = data_size;
  buf = fill (stride header data_size user_data_size) storage_buf num 0 buf;
  storage = storage_buf;
}

unfoldable pub size : Spool → ℕ
size pool =
    if leb pool.rptr pool.wptr
    then sub_u8 pool.wptr pool.rptr
    else sub_u8 pool.num (pool.rptr - pool.wptr)

-- The index after `i`: `(i == num - 1) ? 0 : i + 1`.
abbrev pub next : ℕ → ℕ → ℕ
next num i = if i + 1 == num then 0 else add_u8 i 1

pub enqueue : Spool → ℕ → Bool × Spool
enqueue pool val =
    let nwptr = next pool.num pool.wptr in
    if nwptr == pool.rptr
    then (false, pool)
    else (true, record pool { buf = set pool.buf pool.wptr val; wptr = nwptr })

pub dequeue : Spool → Option ℕ × Spool
dequeue pool =
    if pool.wptr == pool.rptr
    then (none, pool)
    else (some (get_or pool.buf pool.rptr 0), record pool { rptr = next pool.num pool.rptr })

pub dequeue_peek : Spool → Option ℕ
dequeue_peek pool = if pool.wptr == pool.rptr then none else some (get_or pool.buf pool.rptr 0)

pub check_full : Spool → Bool
unfolding size
check_full pool = size pool + 1 == pool.num
