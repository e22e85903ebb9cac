-- ===== src/NetBuf/Simple.antt =====
-- `struct net_buf_simple` and the `net_buf_simple_*` functions of src/common/net_buf.c.
-- `__buf` is the list `mem`, and the `data` pointer is the index `head` into it. An assertion that fails stops the
-- program: the functions return `none` there. `size_t` has 32 bits.
pub mod Room
use zephyr_polling.Prelude.{
  ℕ, ◌+◌, ◌-◌, Option, none, some, List, [], ◌∷◌, length, leb, ◌==◌, if◌then◌else◌, add_u16,
  sub_u16, sub_u32, write,
}

pub record NetBufSimple : Type 0 where
  pub mem : List ℕ
  pub head : ℕ
  pub len : ℕ
  pub size : ℕ

infixl 5 ◌>>=◌
abbrev pub ◌>>=◌ {ℓ κ} : {A : Type ℓ} {B : Type κ} → Option A → (A → Option B) → Option B
none >>= f = none
some a >>= f = f a

-- `net_buf_simple_init_with_data`: the storage is full of data.
pub init_with_data : List ℕ → ℕ → NetBufSimple
init_with_data mem size = record { mem = mem; head = 0; len = size; size = size }

-- `net_buf_simple_reset`
pub reset : NetBufSimple → NetBufSimple
reset b = record b { len = 0; head = 0 }

pub reserve : NetBufSimple → ℕ → Option NetBufSimple
reserve b n = if b.len == 0 then some (record b { head = n }) else none

unfoldable pub headroom : NetBufSimple → ℕ
headroom b = b.head

unfoldable pub tailroom : NetBufSimple → ℕ
unfolding headroom
tailroom b = sub_u32 (sub_u32 b.size (headroom b)) b.len

-- `net_buf_simple_tail`: the index behind the data.
abbrev pub tail : NetBufSimple → ℕ
tail b = b.head + b.len

-- The index where the new bytes start, and the buffer.
unfoldable pub add : NetBufSimple → ℕ → Option (ℕ × NetBufSimple)
unfolding tailroom
add b n = if leb n (tailroom b) then some (tail b, record b { len = add_u16 b.len n }) else none

unfoldable pub push : NetBufSimple → ℕ → Option (ℕ × NetBufSimple)
unfolding headroom
push b n =
    if leb n (headroom b)
    then some (b.head - n, record b { head = b.head - n; len = add_u16 b.len n })
    else none

unfoldable pub pull : NetBufSimple → ℕ → Option NetBufSimple
pull b n =
    if leb n b.len then some (record b { len = sub_u16 b.len n; head = b.head + n }) else none

-- The index of the data that was pulled, and the buffer.
unfoldable pub pull_mem : NetBufSimple → ℕ → Option (ℕ × NetBufSimple)
pull_mem b n =
    if leb n b.len
    then some (b.head, record b { len = sub_u16 b.len n; head = b.head + n })
    else none

-- The `memcpy` or `sys_put_*` that follows a `net_buf_simple_add` or a `net_buf_simple_push`.
unfoldable pub store : Option (ℕ × NetBufSimple) → List ℕ → Option NetBufSimple
store none xs = none
store (some (at, b)) xs = some (record b { mem = write b.mem at xs })

unfoldable pub add_mem : NetBufSimple → List ℕ → Option NetBufSimple
unfolding add store
add_mem b xs = store (add b (length xs)) xs

pub add_u8 : NetBufSimple → ℕ → Option NetBufSimple
unfolding add store
add_u8 b val = store (add b 1) (val ∷ [])
