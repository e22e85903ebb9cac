-- ===== src/ByteOrder.antt =====
-- The byte-order accessors of src/base/byteorder.h. A write yields the bytes that it stores at
-- `dst`, in the order of their addresses; a read takes the bytes from `src` on. The two sides of
-- each `|` of the source hold no bit in common, so `|` is written `+`, and `<< n` is `* 2 ^ n`.
pub mod RoundTrip
use zephyr_polling.Prelude.{ℕ, ◌+◌, ◌*◌, ◌/◌, ◌%◌, ◌^◌, List, [], ◌∷◌, ◌++◌, get_or, drop}

-- `src[i]`
abbrev pub byte_at : List ℕ → ℕ → ℕ
byte_at src i = get_or src i 0

unfoldable pub put_be16 : ℕ → List ℕ
put_be16 val = let v = val % 2 ^ 16 in v / 2 ^ 8 % 2 ^ 8 ∷ v % 2 ^ 8 ∷ []

unfoldable pub put_be24 : ℕ → List ℕ
unfolding put_be16
put_be24 val = let v = val % 2 ^ 32 in v / 2 ^ 16 % 2 ^ 8 ∷ put_be16 v

unfoldable pub put_be32 : ℕ → List ℕ
unfolding put_be16
put_be32 val = let v = val % 2 ^ 32 in put_be16 (v / 2 ^ 16) ++ put_be16 v

unfoldable pub put_be48 : ℕ → List ℕ
unfolding put_be16 put_be32
put_be48 val = let v = val % 2 ^ 64 in put_be16 (v / 2 ^ 32) ++ put_be32 v

unfoldable pub put_be64 : ℕ → List ℕ
unfolding put_be32
put_be64 val = let v = val % 2 ^ 64 in put_be32 (v / 2 ^ 32) ++ put_be32 v

unfoldable pub put_le16 : ℕ → List ℕ
put_le16 val = let v = val % 2 ^ 16 in v % 2 ^ 8 ∷ v / 2 ^ 8 % 2 ^ 8 ∷ []

unfoldable pub put_le24 : ℕ → List ℕ
unfolding put_le16
put_le24 val = let v = val % 2 ^ 32 in put_le16 v ++ v / 2 ^ 16 % 2 ^ 8 ∷ []

unfoldable pub put_le32 : ℕ → List ℕ
unfolding put_le16
put_le32 val = let v = val % 2 ^ 32 in put_le16 v ++ put_le16 (v / 2 ^ 16)

unfoldable pub put_le48 : ℕ → List ℕ
unfolding put_le16 put_le32
put_le48 val = let v = val % 2 ^ 64 in put_le32 v ++ put_le16 (v / 2 ^ 32)

unfoldable pub put_le64 : ℕ → List ℕ
unfolding put_le32
put_le64 val = let v = val % 2 ^ 64 in put_le32 v ++ put_le32 (v / 2 ^ 32)

unfoldable pub get_be16 : List ℕ → ℕ
get_be16 src = byte_at src 0 * 2 ^ 8 + byte_at src 1

unfoldable pub get_be24 : List ℕ → ℕ
unfolding get_be16
get_be24 src = byte_at src 0 * 2 ^ 16 + get_be16 (drop 1 src)

unfoldable pub get_be32 : List ℕ → ℕ
unfolding get_be16
get_be32 src = get_be16 src * 2 ^ 16 + get_be16 (drop 2 src)

unfoldable pub get_be48 : List ℕ → ℕ
unfolding get_be16 get_be32
get_be48 src = get_be32 src * 2 ^ 16 + get_be16 (drop 4 src)

unfoldable pub get_be64 : List ℕ → ℕ
unfolding get_be32
get_be64 src = get_be32 src * 2 ^ 32 + get_be32 (drop 4 src)

unfoldable pub get_le16 : List ℕ → ℕ
get_le16 src = byte_at src 1 * 2 ^ 8 + byte_at src 0

unfoldable pub get_le24 : List ℕ → ℕ
unfolding get_le16
get_le24 src = byte_at src 2 * 2 ^ 16 + get_le16 src

unfoldable pub get_le32 : List ℕ → ℕ
unfolding get_le16
get_le32 src = get_le16 (drop 2 src) * 2 ^ 16 + get_le16 src

unfoldable pub get_le48 : List ℕ → ℕ
unfolding get_le16 get_le32
get_le48 src = get_le32 (drop 2 src) * 2 ^ 16 + get_le16 src

unfoldable pub get_le64 : List ℕ → ℕ
unfolding get_le32
get_le64 src = get_le32 (drop 4 src) * 2 ^ 32 + get_le32 src
