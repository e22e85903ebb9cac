-- ===== src/NetBuf/Codec.antt =====
-- The typed accessors of src/common/net_buf.c: integers of 8 to 64 bits, in either byte order, added
-- behind the data, pushed in front of it, or pulled off its front. The host is little-endian, so
-- `UNALIGNED_GET` followed by `sys_le16_to_cpu` is `get_le16`, and `sys_be16_to_cpu` swaps.
pub mod Field
pub mod RoundTrip
use zephyr_polling.Prelude.{ℕ, ◌%◌, ◌^◌, Option, some, List, [], ◌∷◌, window}
use zephyr_polling.ByteOrder.{
  byte_at, put_be16, put_be24, put_be32, put_be48, put_be64, put_le16, put_le24, put_le32, put_le48,
  put_le64, get_be16, get_be24, get_be32, get_be48, get_be64, get_le16, get_le24, get_le32,
  get_le48, get_le64,
}
use zephyr_polling.NetBuf.Simple.{NetBufSimple, add, push, pull, store, ◌>>=◌}

pub add_u8 : NetBufSimple → ℕ → Option NetBufSimple
add_u8 b val = store (add b 1) (val % 2 ^ 8 ∷ [])

pub add_le16 : NetBufSimple → ℕ → Option NetBufSimple
add_le16 b val = store (add b 2) (put_le16 val)

pub add_be16 : NetBufSimple → ℕ → Option NetBufSimple
add_be16 b val = store (add b 2) (put_be16 val)

pub add_le24 : NetBufSimple → ℕ → Option NetBufSimple
add_le24 b val = store (add b 3) (put_le24 val)

pub add_be24 : NetBufSimple → ℕ → Option NetBufSimple
add_be24 b val = store (add b 3) (put_be24 val)

pub add_le32 : NetBufSimple → ℕ → Option NetBufSimple
add_le32 b val = store (add b 4) (put_le32 val)

pub add_be32 : NetBufSimple → ℕ → Option NetBufSimple
add_be32 b val = store (add b 4) (put_be32 val)

pub add_le48 : NetBufSimple → ℕ → Option NetBufSimple
add_le48 b val = store (add b 6) (put_le48 val)

pub add_be48 : NetBufSimple → ℕ → Option NetBufSimple
add_be48 b val = store (add b 6) (put_be48 val)

pub add_le64 : NetBufSimple → ℕ → Option NetBufSimple
add_le64 b val = store (add b 8) (put_le64 val)

pub add_be64 : NetBufSimple → ℕ → Option NetBufSimple
add_be64 b val = store (add b 8) (put_be64 val)

pub push_u8 : NetBufSimple → ℕ → Option NetBufSimple
push_u8 b val = store (push b 1) (val % 2 ^ 8 ∷ [])

pub push_le16 : NetBufSimple → ℕ → Option NetBufSimple
push_le16 b val = store (push b 2) (put_le16 val)

pub push_be16 : NetBufSimple → ℕ → Option NetBufSimple
push_be16 b val = store (push b 2) (put_be16 val)

pub push_le24 : NetBufSimple → ℕ → Option NetBufSimple
push_le24 b val = store (push b 3) (put_le24 val)

pub push_be24 : NetBufSimple → ℕ → Option NetBufSimple
push_be24 b val = store (push b 3) (put_be24 val)

pub push_le32 : NetBufSimple → ℕ → Option NetBufSimple
push_le32 b val = store (push b 4) (put_le32 val)

pub push_be32 : NetBufSimple → ℕ → Option NetBufSimple
push_be32 b val = store (push b 4) (put_be32 val)

pub push_le48 : NetBufSimple → ℕ → Option NetBufSimple
push_le48 b val = store (push b 6) (put_le48 val)

pub push_be48 : NetBufSimple → ℕ → Option NetBufSimple
push_be48 b val = store (push b 6) (put_be48 val)

pub push_le64 : NetBufSimple → ℕ → Option NetBufSimple
push_le64 b val = store (push b 8) (put_le64 val)

pub push_be64 : NetBufSimple → ℕ → Option NetBufSimple
push_be64 b val = store (push b 8) (put_be64 val)

pub pull_u8 : NetBufSimple → Option (ℕ × NetBufSimple)
pull_u8 b = do let val = byte_at (window b.mem b.head 1) 0; b' ← pull b 1; some (val, b')

pub pull_le16 : NetBufSimple → Option (ℕ × NetBufSimple)
pull_le16 b = do let val = get_le16 (window b.mem b.head 2); b' ← pull b 2; some (val, b')

pub pull_be16 : NetBufSimple → Option (ℕ × NetBufSimple)
pull_be16 b = do let val = get_be16 (window b.mem b.head 2); b' ← pull b 2; some (val, b')

pub pull_le24 : NetBufSimple → Option (ℕ × NetBufSimple)
pull_le24 b = do let val = get_le24 (window b.mem b.head 3); b' ← pull b 3; some (val, b')

pub pull_be24 : NetBufSimple → Option (ℕ × NetBufSimple)
pull_be24 b = do let val = get_be24 (window b.mem b.head 3); b' ← pull b 3; some (val, b')

pub pull_le32 : NetBufSimple → Option (ℕ × NetBufSimple)
pull_le32 b = do let val = get_le32 (window b.mem b.head 4); b' ← pull b 4; some (val, b')

pub pull_be32 : NetBufSimple → Option (ℕ × NetBufSimple)
pull_be32 b = do let val = get_be32 (window b.mem b.head 4); b' ← pull b 4; some (val, b')

pub pull_le48 : NetBufSimple → Option (ℕ × NetBufSimple)
pull_le48 b = do let val = get_le48 (window b.mem b.head 6); b' ← pull b 6; some (val, b')

pub pull_be48 : NetBufSimple → Option (ℕ × NetBufSimple)
pull_be48 b = do let val = get_be48 (window b.mem b.head 6); b' ← pull b 6; some (val, b')

pub pull_le64 : NetBufSimple → Option (ℕ × NetBufSimple)
pull_le64 b = do let val = get_le64 (window b.mem b.head 8); b' ← pull b 8; some (val, b')

pub pull_be64 : NetBufSimple → Option (ℕ × NetBufSimple)
pull_be64 b = do let val = get_be64 (window b.mem b.head 8); b' ← pull b 8; some (val, b')
