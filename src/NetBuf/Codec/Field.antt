-- ===== src/NetBuf/Codec/Field.antt =====
-- The typed accessors of Codec.antt as one family, indexed by the kind of integer.
use zephyr_polling.Prelude.{
  ℕ, ◌%◌, ◌^◌, ◌≡◌, refl, Option, some, List, [], ◌∷◌, length, arith, window,
}
use zephyr_polling.ByteOrder.{
  byte_at, put_le16, put_be16, put_le24, put_be24, put_le32, put_be32, put_le48, put_be48, put_le64,
  put_be64, get_le16, get_be16, get_le24, get_be24, get_le32, get_be32, get_le48, get_be48,
  get_le64, get_be64,
}
use zephyr_polling.NetBuf.Simple.{NetBufSimple, add, push, pull, store, ◌>>=◌}
use zephyr_polling.NetBuf.Codec.{
  add_u8, add_le16, add_be16, add_le24, add_be24, add_le32, add_be32, add_le48, add_be48, add_le64,
  add_be64, push_u8, push_le16, push_be16, push_le24, push_be24, push_le32, push_be32, push_le48,
  push_be48, push_le64, push_be64, pull_u8, pull_le16, pull_be16, pull_le24, pull_be24, pull_le32,
  pull_be32, pull_le48, pull_be48, pull_le64, pull_be64,
}

pub data Field : Type 0 where
  u8 le16 be16 le24 be24 le32 be32 le48 be48 le64 be64 : Field

-- Bytes on the wire.
abbrev pub width : Field → ℕ
width u8 = 1
width le16 = 2
width be16 = 2
width le24 = 3
width be24 = 3
width le32 = 4
width be32 = 4
width le48 = 6
width be48 = 6
width le64 = 8
width be64 = 8

abbrev pub modulus : Field → ℕ
modulus u8 = 2 ^ 8
modulus le16 = 2 ^ 16
modulus be16 = 2 ^ 16
modulus le24 = 2 ^ 24
modulus be24 = 2 ^ 24
modulus le32 = 2 ^ 32
modulus be32 = 2 ^ 32
modulus le48 = 2 ^ 48
modulus be48 = 2 ^ 48
modulus le64 = 2 ^ 64
modulus be64 = 2 ^ 64

-- The bytes that a value is written as.
pub encode : Field → ℕ → List ℕ
unfolding put_le16 put_be16 put_le24 put_be24 put_le32 put_be32 put_le48 put_be48 put_le64 put_be64
encode u8 val = val % 2 ^ 8 ∷ []
encode le16 val = put_le16 val
encode be16 val = put_be16 val
encode le24 val = put_le24 val
encode be24 val = put_be24 val
encode le32 val = put_le32 val
encode be32 val = put_be32 val
encode le48 val = put_le48 val
encode be48 val = put_be48 val
encode le64 val = put_le64 val
encode be64 val = put_be64 val

pub decode : Field → List ℕ → ℕ
unfolding get_le16 get_be16 get_le24 get_be24 get_le32 get_be32 get_le48 get_be48 get_le64 get_be64
decode u8 src = byte_at src 0
decode le16 src = get_le16 src
decode be16 src = get_be16 src
decode le24 src = get_le24 src
decode be24 src = get_be24 src
decode le32 src = get_le32 src
decode be32 src = get_be32 src
decode le48 src = get_le48 src
decode be48 src = get_be48 src
decode le64 src = get_le64 src
decode be64 src = get_be64 src

pub add_field : Field → NetBufSimple → ℕ → Option NetBufSimple
add_field u8 b val = add_u8 b val
add_field le16 b val = add_le16 b val
add_field be16 b val = add_be16 b val
add_field le24 b val = add_le24 b val
add_field be24 b val = add_be24 b val
add_field le32 b val = add_le32 b val
add_field be32 b val = add_be32 b val
add_field le48 b val = add_le48 b val
add_field be48 b val = add_be48 b val
add_field le64 b val = add_le64 b val
add_field be64 b val = add_be64 b val

pub push_field : Field → NetBufSimple → ℕ → Option NetBufSimple
push_field u8 b val = push_u8 b val
push_field le16 b val = push_le16 b val
push_field be16 b val = push_be16 b val
push_field le24 b val = push_le24 b val
push_field be24 b val = push_be24 b val
push_field le32 b val = push_le32 b val
push_field be32 b val = push_be32 b val
push_field le48 b val = push_le48 b val
push_field be48 b val = push_be48 b val
push_field le64 b val = push_le64 b val
push_field be64 b val = push_be64 b val

pub pull_field : Field → NetBufSimple → Option (ℕ × NetBufSimple)
pull_field u8 b = pull_u8 b
pull_field le16 b = pull_le16 b
pull_field be16 b = pull_be16 b
pull_field le24 b = pull_le24 b
pull_field be24 b = pull_be24 b
pull_field le32 b = pull_le32 b
pull_field be32 b = pull_be32 b
pull_field le48 b = pull_le48 b
pull_field be48 b = pull_be48 b
pull_field le64 b = pull_le64 b
pull_field be64 b = pull_be64 b

pub length-encode : (f : Field) (val : ℕ) → length (encode f val) ≡ width f
unfolding encode
length-encode u8 val = refl
length-encode le16 val = refl
length-encode be16 val = refl
length-encode le24 val = refl
length-encode be24 val = refl
length-encode le32 val = refl
length-encode be32 val = refl
length-encode le48 val = refl
length-encode be48 val = refl
length-encode le64 val = refl
length-encode be64 val = refl

pub decode-encode : (f : Field) (val : ℕ) → decode f (encode f val) ≡ val % modulus f
unfolding encode decode
decode-encode u8 val = omega arith
decode-encode le16 val = omega arith
decode-encode be16 val = omega arith
decode-encode le24 val = omega arith
decode-encode be24 val = omega arith
decode-encode le32 val = omega arith
decode-encode be32 val = omega arith
decode-encode le48 val = omega arith
decode-encode be48 val = omega arith
decode-encode le64 val = omega arith
decode-encode be64 val = omega arith

pub add_field-store :
    (f : Field) (b : NetBufSimple) (val : ℕ)
    → add_field f b val ≡ store (add b (width f)) (encode f val)
unfolding add_field encode add_u8 add_le16 add_be16 add_le24 add_be24 add_le32 add_be32 add_le48
    add_be48 add_le64 add_be64
add_field-store u8 b val = refl
add_field-store le16 b val = refl
add_field-store be16 b val = refl
add_field-store le24 b val = refl
add_field-store be24 b val = refl
add_field-store le32 b val = refl
add_field-store be32 b val = refl
add_field-store le48 b val = refl
add_field-store be48 b val = refl
add_field-store le64 b val = refl
add_field-store be64 b val = refl

pub push_field-store :
    (f : Field) (b : NetBufSimple) (val : ℕ)
    → push_field f b val ≡ store (push b (width f)) (encode f val)
unfolding push_field encode push_u8 push_le16 push_be16 push_le24 push_be24 push_le32 push_be32
    push_le48 push_be48 push_le64 push_be64
push_field-store u8 b val = refl
push_field-store le16 b val = refl
push_field-store be16 b val = refl
push_field-store le24 b val = refl
push_field-store be24 b val = refl
push_field-store le32 b val = refl
push_field-store be32 b val = refl
push_field-store le48 b val = refl
push_field-store be48 b val = refl
push_field-store le64 b val = refl
push_field-store be64 b val = refl

pub pull_field-decode :
    (f : Field) (b : NetBufSimple)
    → pull_field f b ≡ (do
      let val = decode f (window b.mem b.head (width f))
      b' ← pull b (width f)
      some (val, b'))
unfolding pull_field decode pull_u8 pull_le16 pull_be16 pull_le24 pull_be24 pull_le32 pull_be32
    pull_le48 pull_be48 pull_le64 pull_be64
pull_field-decode u8 b = refl
pull_field-decode le16 b = refl
pull_field-decode be16 b = refl
pull_field-decode le24 b = refl
pull_field-decode be24 b = refl
pull_field-decode le32 b = refl
pull_field-decode be32 b = refl
pull_field-decode le48 b = refl
pull_field-decode be48 b = refl
pull_field-decode le64 b = refl
pull_field-decode be64 b = refl
