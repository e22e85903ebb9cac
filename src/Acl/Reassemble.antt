-- ===== src/Acl/Reassemble.antt =====
-- What src/host/conn.c passes on to L2CAP: whole frames, from packets of any size.
use mathlib.Core.Path.{subst}
use zephyr_polling.Prelude.{
  ℕ, ◌+◌, ◌-◌, ◌^◌, ◌≤◌, ◌<◌, ◌≡◌, refl, sym, ap, ◌∙◌, true, Option, none, some, List, [], ◌∷◌,
  ◌++◌, length, ltb, arith, append_assoc, append-nil, Bool-cases, inl, inr, length-append, All,
  add_u16,
}
use zephyr_polling.ByteOrder.{get_le16}
use zephyr_polling.Acl.{
  acl_start, acl_cont, RxBuf, Received, check_complete, continue_rx, bt_acl_recv,
}

-- The packets of one frame behind the first one: the state in the end, and all that was passed on.
abbrev pub recv_all : Option RxBuf → List (List ℕ) → Received
recv_all rx [] = record { rx = rx; out = [] }
recv_all rx (c ∷ cs) =
    let r = bt_acl_recv rx (record { bytes = c; room = 0 }) acl_cont in
    let rest = recv_all r.rx cs in record { rx = rest.rx; out = r.out ++ rest.out }

abbrev pub concat : List (List ℕ) → List ℕ
concat [] = []
concat (c ∷ cs) = c ++ concat cs

-- The length of a frame is the one in its header, with the header.
abbrev pub IsFrame : List ℕ → Type 0
IsFrame bytes = (length bytes ≡ get_le16 bytes + 4) × (length bytes < 2 ^ 16)

-- The length stands in the first two bytes.
get_le16-append : (xs ys : List ℕ) → 2 ≤ length xs → get_le16 (xs ++ ys) ≡ get_le16 xs
unfolding get_le16
get_le16-append [] ys h = absurd (omega arith)
get_le16-append (x ∷ []) ys h = absurd (omega arith)
get_le16-append (x ∷ (y ∷ xs)) ys h = refl

check_complete-whole :
    (b : RxBuf)
    → IsFrame b.bytes
    → check_complete b
      ≡ record { rx = none; out = record { frame = b.bytes; complete = true } ∷ [] }
unfolding check_complete
check_complete-whole b h = ground arith

-- A proper beginning of a frame is kept.
check_complete-part :
    (b : RxBuf) (more : List ℕ)
    → IsFrame (b.bytes ++ more)
    → 0 < length more
    → check_complete b ≡ record { rx = some b; out = [] }
unfolding check_complete
check_complete-part b more h pos =
    let split = length-append b.bytes more in
    elim (Bool-cases (ltb (length b.bytes) 2)) [
      | inl e ↦ rw e refl
      | inr n ↦
          let same = get_le16-append b.bytes more (ground (arith, n)) in
          let short : ltb (length b.bytes) (add_u16 (get_le16 b.bytes) 4) ≡ true = ground arith in
          rw (n, short) refl
    ]

abbrev pub IsNonempty : List ℕ → Type 0
IsNonempty c = 0 < length c

abbrev pub whole : List ℕ → Received
whole frame = record { rx = none; out = record { frame = frame; complete = true } ∷ [] }

-- A continuation that fits.
continue_rx-append :
    (b : RxBuf) (c : List ℕ)
    → IsNonempty c
    → length c ≤ b.room
    → continue_rx b (record { bytes = c; room = 0 })
      ≡ check_complete (record { bytes = b.bytes ++ c; room = b.room - length c })
unfolding continue_rx
continue_rx-append b c h k = ground arith

concat-length :
    (c d : List ℕ) (ds : List (List ℕ))
    → length (concat (c ∷ (d ∷ ds))) ≡ length c + length (concat (d ∷ ds))
concat-length c d ds = length-append c (concat (d ∷ ds))

-- The packets behind the beginning `b` of a frame.
rest-whole :
    (b : RxBuf) (c : List ℕ) (cs : List (List ℕ))
    → IsNonempty c
    → All IsNonempty cs
    → length (concat (c ∷ cs)) ≤ b.room
    → IsFrame (b.bytes ++ concat (c ∷ cs))
    → recv_all (some b) (c ∷ cs) ≡ whole (b.bytes ++ concat (c ∷ cs))
unfolding bt_acl_recv
rest-whole b c [] nc ncs fits frame =
    let e : c ++ [] ≡ c = append-nil c in
    let k = continue_rx-append b c nc (subst (λ x. length x ≤ b.room) e fits) in
    let w =
      check_complete-whole (record { bytes = b.bytes ++ c; room = b.room - length c })
        (subst (λ x. IsFrame (b.bytes ++ x)) e frame) in
    rw (k, w, e) refl
rest-whole b c (d ∷ ds) nc ncs fits frame =
    let more = concat (d ∷ ds) in
    let b₁ : RxBuf = record { bytes = b.bytes ++ c; room = b.room - length c } in
    let sizes = concat-length c d ds in
    let k = continue_rx-append b c nc (omega arith) in
    let assoc : (b.bytes ++ c) ++ more ≡ b.bytes ++ (c ++ more) = append_assoc b.bytes c more in
    let frame₁ : IsFrame (b₁.bytes ++ more) = subst IsFrame (sym assoc) frame in
    let w =
      check_complete-part b₁ more frame₁ (omega (arith, length-append d (concat ds), ncs.0)) in
    let ih = rest-whole b₁ d ds ncs.0 ncs.1 (omega arith) frame₁ in rw (k, w) (ih ∙ ap whole assoc)

-- A frame whose first packet starts it, and whose other packets continue it.
abbrev pub recv_frame : Option RxBuf → ℕ → List ℕ → List (List ℕ) → Received
recv_frame rx room c cs =
    let r = bt_acl_recv rx (record { bytes = c; room = room }) acl_start in
    let rest = recv_all r.rx cs in record { rx = rest.rx; out = r.out ++ rest.out }

-- A frame that arrives in packets of any sizes is passed on to L2CAP whole, once, as complete, and no
-- buffer is kept, whatever was there before: the other packets are not empty, and the buffer of
-- the first one has room for them.
pub recv_frame-whole :
    (rx : Option RxBuf) (room : ℕ) (c : List ℕ) (cs : List (List ℕ))
    → All IsNonempty cs
    → length (concat cs) ≤ room
    → IsFrame (c ++ concat cs)
    → recv_frame rx room c cs ≡ whole (c ++ concat cs)
unfolding bt_acl_recv
recv_frame-whole rx room c [] ncs fits frame =
    let e : c ++ [] ≡ c = append-nil c in
    let w = check_complete-whole (record { bytes = c; room = room }) (subst IsFrame e frame) in
    rw (w, e) refl
recv_frame-whole rx room c (d ∷ ds) ncs fits frame =
    let b : RxBuf = record { bytes = c; room = room } in
    let more = length-append d (concat ds) in
    let w = check_complete-part b (concat (d ∷ ds)) frame (omega (arith, more, ncs.0)) in
    rw w (rest-whole b d ds ncs.0 ncs.1 fits frame)
