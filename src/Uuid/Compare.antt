-- ===== src/Uuid/Compare.antt =====
-- Two UUIDs compare as equal when their 128-bit forms are the same.
use zephyr_polling.Prelude.{
  ℕ, zero, suc, ◌^◌, ◌<◌, ◌≡◌, refl, sym, ap, ◌∙◌, some, List, [], ◌∷◌, append-nil, length, take,
  arith,
}
use zephyr_polling.ByteOrder.{put_le16, put_le32, get_le16, get_le32}
use zephyr_polling.ByteOrder.RoundTrip.{get_le16-put_le16, get_le32-put_le32}
use zephyr_polling.Uuid.{Uuid, bt_uuid_create}

-- The value of a UUID is in the range of its type.
abbrev pub InRange : Uuid → Type 0
InRange (Uuid.uuid_16 val) = val < 2 ^ 16
InRange (Uuid.uuid_32 val) = val < 2 ^ 32
InRange (Uuid.uuid_128 val) = length val ≡ 16

-- The bytes of a UUID in a packet.
abbrev pub wire : Uuid → List ℕ
wire (Uuid.uuid_16 val) = put_le16 val
wire (Uuid.uuid_32 val) = put_le32 val
wire (Uuid.uuid_128 val) = val

take_all : (n : ℕ) (xs : List ℕ) → length xs ≡ n → take n xs ≡ xs
take_all zero [] h = refl
take_all zero (x ∷ xs) h = absurd (omega arith)
take_all (suc n) [] h = absurd (omega arith)
take_all (suc n) (x ∷ xs) h = ap (λ l. x ∷ l) (take_all n xs (omega arith))

-- `bt_uuid_create` reads a UUID whose value is in range back from its bytes.
pub bt_uuid_create-wire :
    (u : Uuid) → InRange u → bt_uuid_create (wire u) (length (wire u)) ≡ some u
unfolding bt_uuid_create put_le16 put_le32
bt_uuid_create-wire (Uuid.uuid_16 val) h =
    let read = ap get_le16 (append-nil (put_le16 val)) in
    ap (λ v. some (Uuid.uuid_16 v)) (sym read ∙ get_le16-put_le16 val [] ∙ omega arith)
bt_uuid_create-wire (Uuid.uuid_32 val) h =
    let read = ap get_le32 (append-nil (put_le32 val)) in
    ap (λ v. some (Uuid.uuid_32 v)) (sym read ∙ get_le32-put_le32 val [] ∙ omega arith)
bt_uuid_create-wire (Uuid.uuid_128 val) h =
    let k : bt_uuid_create val (length val) ≡ some (Uuid.uuid_128 (take 16 val)) = ground arith in
    k ∙ ap (λ v. some (Uuid.uuid_128 v)) (take_all 16 val h)
