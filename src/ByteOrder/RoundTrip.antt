-- ===== src/ByteOrder/RoundTrip.antt =====
-- Reading back what was written, for every width and both byte orders of src/base/byteorder.h.
use zephyr_polling.Prelude.{ℕ, ◌%◌, ◌^◌, ◌≡◌, List, ◌++◌, arith}
use zephyr_polling.ByteOrder.{
  put_be16, put_be24, put_be32, put_be48, put_be64, put_le16, put_le24, put_le32, put_le48,
  put_le64, get_be16, get_be24, get_be32, get_be48, get_be64, get_le16, get_le24, get_le32,
  get_le48, get_le64,
}

module _ (v : ℕ) (rest : List ℕ) where
  pub get_le16-put_le16 : get_le16 (put_le16 v ++ rest) ≡ v % 2 ^ 16
  unfolding get_le16 put_le16
  get_le16-put_le16 = omega arith

  pub get_be16-put_be16 : get_be16 (put_be16 v ++ rest) ≡ v % 2 ^ 16
  unfolding get_be16 put_be16
  get_be16-put_be16 = omega arith

  pub get_le24-put_le24 : get_le24 (put_le24 v ++ rest) ≡ v % 2 ^ 24
  unfolding get_le24 put_le24
  get_le24-put_le24 = omega arith

  pub get_be24-put_be24 : get_be24 (put_be24 v ++ rest) ≡ v % 2 ^ 24
  unfolding get_be24 put_be24
  get_be24-put_be24 = omega arith

  pub get_le32-put_le32 : get_le32 (put_le32 v ++ rest) ≡ v % 2 ^ 32
  unfolding get_le32 put_le32
  get_le32-put_le32 = omega arith

  pub get_be32-put_be32 : get_be32 (put_be32 v ++ rest) ≡ v % 2 ^ 32
  unfolding get_be32 put_be32
  get_be32-put_be32 = omega arith

  pub get_le48-put_le48 : get_le48 (put_le48 v ++ rest) ≡ v % 2 ^ 48
  unfolding get_le48 put_le48
  get_le48-put_le48 = omega arith

  pub get_be48-put_be48 : get_be48 (put_be48 v ++ rest) ≡ v % 2 ^ 48
  unfolding get_be48 put_be48
  get_be48-put_be48 = omega arith

  pub get_le64-put_le64 : get_le64 (put_le64 v ++ rest) ≡ v % 2 ^ 64
  unfolding get_le64 put_le64
  get_le64-put_le64 = omega arith

  pub get_be64-put_be64 : get_be64 (put_be64 v ++ rest) ≡ v % 2 ^ 64
  unfolding get_be64 put_be64
  get_be64-put_be64 = omega arith
