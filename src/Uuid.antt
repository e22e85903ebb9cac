-- ===== src/Uuid.antt =====
-- src/host/uuid.c: UUIDs of 16, 32 and 128 bits, and when two of them are the same. The value of a
-- UUID of 128 bits is its bytes, the lowest first.
pub mod Compare
use Prim.Native.Nat.{compare, Ordering, lt, eq, gt}
use zephyr_polling.Prelude.{
  ℕ, ◌+◌, ◌-◌, ◌%◌, ◌^◌, Bool, Option, none, some, List, [], ◌∷◌, take, ltb, ◌==◌, if◌then◌else◌,
  sub_u32, write,
}
use zephyr_polling.ByteOrder.{put_le16, put_le32, get_le16, get_le32}

pub data Uuid : Type 0 where
  uuid_16 : ℕ → Uuid
  uuid_32 : ℕ → Uuid
  uuid_128 : List ℕ → Uuid

-- BT_UUID_128_ENCODE of 00000000-0000-1000-8000-00805F9B34FB.
abbrev pub uuid128_base : List ℕ
uuid128_base =
    0xfb ∷ 0x34 ∷ 0x9b ∷ 0x5f ∷ 0x80 ∷ 0 ∷ 0 ∷ 0x80 ∷ 0 ∷ 0x10 ∷ 0 ∷ 0 ∷ 0 ∷ 0 ∷ 0 ∷ 0 ∷ []

unfoldable pub uuid_to_uuid128 : Uuid → List ℕ
uuid_to_uuid128 (Uuid.uuid_16 val) = write uuid128_base 12 (put_le16 val)
uuid_to_uuid128 (Uuid.uuid_32 val) = write uuid128_base 12 (put_le32 val)
uuid_to_uuid128 (Uuid.uuid_128 val) = val

-- `memcmp`: the sign of its result.
abbrev pub memcmp : List ℕ → List ℕ → Ordering
memcmp [] ys = eq
memcmp (x ∷ xs) [] = eq
memcmp (x ∷ xs) (y ∷ ys) =
    let rest = memcmp xs ys in elim (compare x y) [ lt ↦ lt | eq ↦ rest | gt ↦ gt ]

abbrev pub uuid128_cmp : Uuid → Uuid → Ordering
uuid128_cmp u₁ u₂ = memcmp (uuid_to_uuid128 u₁) (uuid_to_uuid128 u₂)

-- The sign of a difference of type `int`, which wraps around.
abbrev pub sign32 : ℕ → Ordering
sign32 d = if d == 0 then eq else if ltb d (2 ^ 31) then gt else lt

-- The sign of the result.
unfoldable pub bt_uuid_cmp : Uuid → Uuid → Ordering
bt_uuid_cmp (Uuid.uuid_16 a) (Uuid.uuid_16 b) = sign32 (sub_u32 a b)
bt_uuid_cmp (Uuid.uuid_32 a) (Uuid.uuid_32 b) = sign32 (sub_u32 a b)
bt_uuid_cmp (Uuid.uuid_128 a) (Uuid.uuid_128 b) = memcmp a b
bt_uuid_cmp (Uuid.uuid_16 a) (Uuid.uuid_32 b) = uuid128_cmp (Uuid.uuid_16 a) (Uuid.uuid_32 b)
bt_uuid_cmp (Uuid.uuid_16 a) (Uuid.uuid_128 b) = uuid128_cmp (Uuid.uuid_16 a) (Uuid.uuid_128 b)
bt_uuid_cmp (Uuid.uuid_32 a) (Uuid.uuid_16 b) = uuid128_cmp (Uuid.uuid_32 a) (Uuid.uuid_16 b)
bt_uuid_cmp (Uuid.uuid_32 a) (Uuid.uuid_128 b) = uuid128_cmp (Uuid.uuid_32 a) (Uuid.uuid_128 b)
bt_uuid_cmp (Uuid.uuid_128 a) (Uuid.uuid_16 b) = uuid128_cmp (Uuid.uuid_128 a) (Uuid.uuid_16 b)
bt_uuid_cmp (Uuid.uuid_128 a) (Uuid.uuid_32 b) = uuid128_cmp (Uuid.uuid_128 a) (Uuid.uuid_32 b)

-- `none` is the result false.
unfoldable pub bt_uuid_create : List ℕ → ℕ → Option Uuid
bt_uuid_create data_ data_len =
    if data_len == 2
    then some (Uuid.uuid_16 (get_le16 data_))
    else if data_len == 4
    then some (Uuid.uuid_32 (get_le32 data_))
    else if data_len == 16
    then some (Uuid.uuid_128 (take 16 data_))
    else none
