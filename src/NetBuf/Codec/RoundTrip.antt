-- ===== src/NetBuf/Codec/RoundTrip.antt =====
-- Packets are built by the adders and pushers and taken apart by the pullers of Codec.antt.
use zephyr_polling.Prelude.{
  ℕ, ◌+◌, ◌%◌, ◌≤◌, ◌<◌, ◌≡◌, refl, sym, ◌∙◌, ap, Option, none, some, List, [], ◌∷◌, ◌++◌, map,
  length, length-append, append_assoc, append-nil, arith, window, length-window,
}
use zephyr_polling.NetBuf.Simple.{NetBufSimple, headroom, tailroom, ◌>>=◌}
use zephyr_polling.NetBuf.Simple.Room.{
  IsValid, contents, length-contents, rooms, added, pushed, pulled, store-add, add-none,
  added-IsValid, contents-added, store-push, push-none, pushed-IsValid, contents-pushed, pull-some,
  pull-none, pulled-IsValid, contents-pulled,
}
use zephyr_polling.NetBuf.Codec.Field.{
  Field, width, modulus, encode, add_field, push_field, pull_field, length-encode, decode-encode,
  add_field-store, push_field-store, pull_field-decode,
}

-- Two lists split alike where the first parts are equally long.
append-injective :
    (xs ys us vs : List ℕ) → length xs ≡ length us → xs ++ ys ≡ us ++ vs → (xs ≡ us) × (ys ≡ vs)
append-injective [] ys [] vs h e = (refl, e)
append-injective [] ys (u ∷ us) vs h e = absurd (omega arith)
append-injective (x ∷ xs) ys [] vs h e = absurd (omega arith)
append-injective (x ∷ xs) ys (u ∷ us) vs h e =
    let r = append-injective xs ys us vs (omega arith) (cc) in (ground (arith, r), r.1)

module _ {b : NetBufSimple} (v : IsValid b) (f : Field) where
  -- Where there is room, a value is appended in its encoding, and the buffer stays valid.
  add_field-some :
      (val : ℕ)
      → width f ≤ tailroom b
      → let b' = added b (encode f val) in
        (add_field f b val ≡ some b') × IsValid b' × (contents b' ≡ contents b ++ encode f val)
  add_field-some val h =
      let len = length-encode f val in
      let fits : length (encode f val) ≤ tailroom b = rw len h in
      (
        add_field-store f b val ∙ store-add v (encode f val) (width f) len h,
        added-IsValid v (encode f val) fits,
        contents-added v (encode f val) fits,
      )

  -- A value that stands in front of the data is read back, and the rest stays.
  pull_field-some :
      (val : ℕ) (rest : List ℕ)
      → contents b ≡ encode f val ++ rest
      → let b' = pulled b (width f) in
        (pull_field f b ≡ some (val % modulus f, b')) × IsValid b' × (contents b' ≡ rest)
  pull_field-some val rest e = (
    pull_field-decode f b ∙ rw (pull-some v (width f) fits, split.0, decode-encode f val),
    pulled-IsValid v (width f) fits,
    split.1,
  )
    where
      total : width f + length rest ≡ b.len
      total = omega (
        arith,
        sym (length-contents v),
        ap (λ k. length k) e,
        length-append (encode f val) rest,
        length-encode f val,
      )

      fits : width f ≤ b.len
      fits = omega (arith, total)

      split :
          (window b.mem b.head (width f) ≡ encode f val) × (contents (pulled b (width f)) ≡ rest)
      split =
          append-injective (window b.mem b.head (width f)) (contents (pulled b (width f)))
            (encode f val) rest
            (length-window b.mem b.head (width f) (omega (arith, fits, v.inside, v.storage))
              ∙ sym (length-encode f val))
            (sym (contents-pulled v (width f) fits) ∙ e)

-- Adding an integer to a valid buffer appends its encoding behind the data and keeps the buffer
-- valid, if the room behind the data is enough, and fails its assertion otherwise.
pub add_field_lem :
    {b : NetBufSimple}
    → IsValid b
    → (f : Field) (val : ℕ)
    → (width f ≤ tailroom b
        → (b' : NetBufSimple) × (add_field f b val ≡ some b')
          × IsValid b'
          × (contents b' ≡ contents b ++ encode f val))
      × (tailroom b < width f → add_field f b val ≡ none)
add_field_lem {b} v f val = (
  λ h. let r = add_field-some v f val h in (added b (encode f val), r.0, r.1, r.2),
  λ h. add_field-store f b val ∙ add-none v (encode f val) (width f) h,
)

-- Pushing an integer in front of a valid buffer and pulling one of that kind gives the value
-- modulo its width and a valid buffer with the old contents, if the headroom is enough; the push
-- fails its assertion otherwise.
pub pull_field-push_field :
    {b : NetBufSimple}
    → IsValid b
    → (f : Field) (val : ℕ)
    → (width f ≤ headroom b
        → (b' b'' : NetBufSimple) × (push_field f b val ≡ some b')
          × (pull_field f b' ≡ some (val % modulus f, b''))
          × IsValid b''
          × (contents b'' ≡ contents b))
      × (headroom b < width f → push_field f b val ≡ none)
pull_field-push_field {b} v f val = (
  λ h.
      let len = length-encode f val in
      let fits : length (encode f val) ≤ headroom b = rw len h in
      let back =
        pull_field-some (pushed-IsValid v (encode f val) fits) f val (contents b)
          (contents-pushed v (encode f val) fits) in
      (
        pushed b (encode f val),
        pulled (pushed b (encode f val)) (width f),
        push_field-store f b val ∙ store-push v (encode f val) (width f) len h,
        back.0,
        back.1,
        back.2,
      ),
  λ h. push_field-store f b val ∙ push-none v (encode f val) (width f) h,
)

-- Pulling an integer off a valid buffer that holds fewer bytes fails the assertion.
pull_field-none :
    {b : NetBufSimple} → IsValid b → (f : Field) → b.len < width f → pull_field f b ≡ none
pull_field-none {b} v f h = pull_field-decode f b ∙ rw (pull-none v (width f) h)

-- A packet: the integers of a protocol data unit, in order.
abbrev pub Packet : Type 0
Packet = List (Field × ℕ)

unfoldable pub add_packet : NetBufSimple → Packet → Option NetBufSimple
add_packet b [] = some b
add_packet b ((f, val) ∷ fs) = add_field f b val >>= λ b'. add_packet b' fs

unfoldable pub pull_packet : NetBufSimple → List Field → Option (List ℕ × NetBufSimple)
pull_packet b [] = some ([], b)
pull_packet b (f ∷ fs) =
    pull_field f b >>= λ (val, b'). pull_packet b' fs >>= λ (vals, b''). some (val ∷ vals, b'')

abbrev pub packet_width : Packet → ℕ
packet_width [] = 0
packet_width ((f, val) ∷ fs) = width f + packet_width fs

abbrev pub encode_packet : Packet → List ℕ
encode_packet [] = []
encode_packet ((f, val) ∷ fs) = encode f val ++ encode_packet fs

abbrev pub kinds : Packet → List Field
kinds = map (λ p. p.0)

-- The values that the wire can carry.
abbrev pub wire_values : Packet → List ℕ
wire_values = map (λ p. p.1 % modulus p.0)

add_packet-some :
    (fs : Packet) {b : NetBufSimple}
    → IsValid b
    → packet_width fs ≤ tailroom b
    → (b' : NetBufSimple) × (add_packet b fs ≡ some b')
      × IsValid b'
      × (contents b' ≡ contents b ++ encode_packet fs)
unfolding add_packet tailroom
add_packet-some [] {b} v h = (b, refl, v, sym (append-nil (contents b)))
add_packet-some ((f, val) ∷ fs) {b} v h =
    let r = add_field-some v f val (omega arith) in
    let b' = added b (encode f val) in
    let room : tailroom b ≡ width f + tailroom b' =
      omega (arith, rooms v, rooms r.1, length-encode f val) in
    let (b'', e, w, c) = add_packet-some fs {b = b'} r.1 (omega arith) in
    (b'', rw r.0 e, w, c ∙ rw (r.2) (append_assoc (contents b) (encode f val) (encode_packet fs)))

pull_packet-some :
    (fs : Packet) (rest : List ℕ) {b : NetBufSimple}
    → IsValid b
    → contents b ≡ encode_packet fs ++ rest
    → (b' : NetBufSimple) × (pull_packet b (kinds fs) ≡ some (wire_values fs, b'))
      × IsValid b'
      × (contents b' ≡ rest)
unfolding pull_packet
pull_packet-some [] rest {b} v e = (b, refl, v, e)
pull_packet-some ((f, val) ∷ fs) rest {b} v e =
    let r =
      pull_field-some v f val (encode_packet fs ++ rest)
        (e ∙ append_assoc (encode f val) (encode_packet fs) rest) in
    let (b'', p, w, c) = pull_packet-some fs rest {b = pulled b (width f)} r.1 r.2 in
    (b'', rw (r.0, p), w, c)

-- A packet of any integers that is added to an empty valid buffer with room for it is pulled off
-- again, value by value modulo its width, and leaves the buffer valid and empty.
pub pull_packet-add_packet :
    (fs : Packet) {b : NetBufSimple}
    → IsValid b
    → b.len ≡ 0
    → packet_width fs ≤ tailroom b
    → (b' b'' : NetBufSimple) × (add_packet b fs ≡ some b')
      × (pull_packet b' (kinds fs) ≡ some (wire_values fs, b''))
      × IsValid b''
      × (b''.len ≡ 0)
pull_packet-add_packet fs {b} v empty h =
    let (b', e, w, c) = add_packet-some fs v h in
    let none_yet : contents b ≡ [] = nothing (contents b) (length-contents v ∙ empty) in
    let (b'', p, w', c') =
      pull_packet-some fs [] w (c ∙ rw none_yet (sym (append-nil (encode_packet fs)))) in
    (b', b'', e, p, w', sym (length-contents w') ∙ ap (λ k. length k) c')
  where
    nothing : (xs : List ℕ) → length xs ≡ 0 → xs ≡ []
    nothing [] z = refl
    nothing (x ∷ xs) z = absurd (omega arith)
