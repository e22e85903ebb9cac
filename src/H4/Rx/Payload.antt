-- ===== src/H4/Rx/Payload.antt =====
-- `read_payload`: the payload of a packet arrives in any number of pieces.
use zephyr_polling.Prelude.{
  ℕ, sub_u16, ◌≡◌, refl, sym, ap, ◌∙◌, ◌≢◌, inl, inr, true, Option, none, some, List, [], ◌∷◌, ◌++◌,
  append_assoc, append-nil, length, ltb, window, window-zero, arith, ==_ne, Bool-cases,
  Option-cases,
}
use native.Mathlib.Decide.{ℕ_discrete}
use mathlib.Core.Path.{subst}
use zephyr_polling.NetBuf.Simple.{NetBufSimple, tailroom, add_mem}
use zephyr_polling.NetBuf.Simple.Room
use zephyr_polling.NetBuf.Simple.Room.{contents, length-contents}
use zephyr_polling.H4.{h4_none, h4_evt}
use zephyr_polling.H4.Rx.{
  handed, Rx, Env, Packet, quiet, recv, reset_rx, copy_hdr, too_long, finish, payload_read, receive,
  with_fresh, read_payload,
}
use zephyr_polling.H4.Rx.Bytes.{
  indicator, IsValid, consumed, Kept, Keeps, consumed_idle, consumed_busy, body_alone, body_buf,
  recv-append, add_mem-some, arrived,
}
use zephyr_polling.H4.Rx.Kept.{too_long-IsValid, too_long-idle, quiet-Kept, dropped-Kept}

held-IsValid :
    (rx : Rx) (b : NetBufSimple)
    → IsValid rx
    → rx.have_hdr ≡ true
    → Room.IsValid b
    → IsValid (record rx { buf = some b })
held-IsValid rx b v y vb = record {
  hdr4 = v.hdr4;
  len4 = v.len4;
  left = v.left;
  idle = v.idle;
  known = v.known;
  whole = v.whole;
  buffer = λ k e. subst Room.IsValid (cc e) vb;
  unused = λ k e n. absurd (cc (sym y ∙ n));
}

-- The state after a packet was handed out.
abbrev emptied : Rx → Rx
emptied rx = reset_rx (record rx { buf = none })

emptied-IsValid : (rx : Rx) → IsValid rx → IsValid (emptied rx) × ((emptied rx).type ≡ h4_none)
unfolding reset_rx
emptied-IsValid rx v = (
  record {
    hdr4 = v.hdr4;
    len4 = omega arith;
    left = λ h. omega arith;
    idle = λ h. refl;
    known = λ h. absurd (h refl);
    whole = λ h. absurd (h refl);
    buffer = λ b e. absurd (cc e);
    unused = λ b e. absurd (cc e);
  },
  refl,
)

handed-indicator : (rx : Rx) → IsValid rx → rx.type ≢ h4_none → indicator (handed rx) ≡ rx.type
unfolding handed
handed-indicator rx v ne = elim (ℕ_discrete rx.type h4_evt) [
  | yes e ↦ ground arith
  | no na ↦ let a = v.known ne na in rw (==_ne rx.type h4_evt na) (sym a)
]

finish-Kept :
    (rx₀ rx : Rx) (b : NetBufSimple) (stream got rest : List ℕ)
    → IsValid rx
    → rx.have_hdr ≡ true
    → rx.type ≢ h4_none
    → Room.IsValid b
    → got ++ rest ≡ stream
    → consumed rx₀ ++ got ≡ rx.type ∷ contents b
    → Kept rx₀ stream (finish rx b rest)
unfolding finish
finish-Kept rx₀ rx b stream got rest v y ne vb e c = elim (ℕ_discrete rx.remaining 0) [
  | yes z ↦
      let p : Packet = record { type = handed rx; buf = b } in
      let k : finish rx b rest ≡ record { rx = emptied rx; stream = rest; out = some p } =
        ground arith in
      let (v', z') = emptied-IsValid rx v in
      subst (Kept rx₀ stream) (sym k) (record {
        valid = v';
        lost = [];
        bytes =
            ap (λ k. consumed rx₀ ++ k) (sym e)
            ∙ sym (append_assoc (consumed rx₀) got rest)
            ∙ ap (λ k. k ++ rest) c
            ∙ ap (λ k. k ∷ (contents b ++ rest)) (sym (handed-indicator rx v ne))
            ∙ ap (λ k. (indicator (handed rx) ∷ contents b) ++ (k ++ rest))
                (sym (consumed_idle (emptied rx) z'));
        why = inl refl;
      })
  | no more ↦
      let k : finish rx b rest ≡ quiet (record rx { buf = some b }) rest = ground arith in
      subst (Kept rx₀ stream) (sym k) (
        quiet-Kept rx₀ _ stream got rest (held-IsValid rx b v y vb) e (
          consumed_busy (record rx { buf = some b }) ne
          ∙ ap (λ k. rx.type ∷ k) (body_buf (record rx { buf = some b }) b y refl)
          ∙ sym c))
]

-- The state that has `n` fewer bytes to come.
fewer-IsValid :
    (rx : Rx) (n : ℕ) → IsValid rx → rx.have_hdr ≡ true → IsValid (record rx { remaining = n })
fewer-IsValid rx n v y = record {
  hdr4 = v.hdr4;
  len4 = v.len4;
  left = λ h. absurd (cc (sym y ∙ h));
  idle = v.idle;
  known = v.known;
  whole = v.whole;
  buffer = v.buffer;
  unused = v.unused;
}

module _ (rx₀ rx : Rx) (b : NetBufSimple) (stream : List ℕ) (v : IsValid rx)
    (y : rx.have_hdr ≡ true) (ne : rx.type ≢ h4_none) (vb : Room.IsValid b)
    (c : consumed rx₀ ≡ rx.type ∷ contents b) where
  payload_read-Keeps :
      (got : Option (List ℕ)) (rest : List ℕ)
      → arrived got ++ rest ≡ stream
      → Keeps rx₀ stream (payload_read rx b got rest)
  unfolding payload_read
  payload_read-Keeps none rest e = quiet-Kept rx₀ _ stream [] rest (held-IsValid rx b v y vb) e (
      consumed_busy (record rx { buf = some b }) ne
      ∙ ap (λ k. rx.type ∷ k) (body_buf (record rx { buf = some b }) b y refl)
      ∙ sym c
      ∙ sym (append-nil (consumed rx₀)))
  payload_read-Keeps (some xs) rest e = elim (Option-cases (add_mem b xs)) [
    | inl full ↦
        let k : payload_read rx b (some xs) rest ≡ none = ground arith in
        subst (Keeps rx₀ stream) (sym k) tt
    | inr (b', h) ↦
        let rx' : Rx = record rx { remaining = sub_u16 rx.remaining (length xs) } in
        let k : payload_read rx b (some xs) rest ≡ some (finish rx' b' rest) = ground arith in
        let (vb', cb) = add_mem-some xs vb h in
        subst (Keeps rx₀ stream) (sym k) (
          finish-Kept rx₀ rx' b' stream xs rest (fewer-IsValid rx _ v y) y ne vb' e
            (ap (λ k. k ++ xs) c ∙ ap (λ k. rx.type ∷ k) (sym cb)))
  ]

  receive-Keeps : (e : Env) → Keeps rx₀ stream (receive e rx b stream)
  unfolding receive
  receive-Keeps e =
      payload_read-Keeps (recv e.quota rx.remaining stream).0 (recv e.quota rx.remaining stream).1
        (recv-append e.quota rx.remaining stream).0

-- The buffer that the allocator returns is valid and empty.
unfoldable pub GivesEmpty : Env → Type 0
GivesEmpty e = (b : NetBufSimple) → e.fresh ≡ some b → Room.IsValid b × (b.len ≡ 0)

module _ (e : Env) (rx : Rx) (stream : List ℕ) (v : IsValid rx) (y : rx.have_hdr ≡ true)
    (ne : rx.type ≢ h4_none) where
  with_fresh-Keeps :
      (o : Option NetBufSimple)
      → ((b : NetBufSimple) → o ≡ some b → Room.IsValid b × (b.len ≡ 0))
      → rx.buf ≡ none
      → Keeps rx stream (with_fresh e rx o stream)
  unfolding with_fresh
  with_fresh-Keeps none g q = elim (Bool-cases rx.discardable) [
    | inl d ↦
        let k : with_fresh e rx none stream ≡ some (quiet (too_long rx) stream) = ground arith in
        subst (Keeps rx stream) (sym k) (
          dropped-Kept rx _ stream [] stream
            (too_long-IsValid rx v (λ b h. absurd (cc (sym q ∙ h)))) refl (too_long-idle rx v))
    | inr d ↦
        let k : with_fresh e rx none stream ≡ some (quiet rx stream) = ground arith in
        subst (Keeps rx stream) (sym k)
          (quiet-Kept rx rx stream [] stream v refl (sym (append-nil (consumed rx))))
  ]
  with_fresh-Keeps (some b) g q =
      let (vb, z) = g b refl in
      let rx' : Rx = record rx { buf = some b } in
      let v' = held-IsValid rx b v y vb in
      let empty : (k : NetBufSimple) → rx'.buf ≡ some k → k.len ≡ 0 =
        λ k h. let same : b ≡ k = cc h in subst (λ (r : NetBufSimple). r.len ≡ 0) same z in
      elim (Bool-cases (ltb (tailroom b) rx.remaining)) [
        | inl lt ↦
            let k : with_fresh e rx (some b) stream ≡ some (quiet (too_long rx') stream) =
              ground arith in
            subst (Keeps rx stream) (sym k) (
              dropped-Kept rx _ stream [] stream (too_long-IsValid rx' v' empty) refl
                (too_long-idle rx' v'))
        | inr ge ↦ elim (Option-cases (copy_hdr rx b)) [
          | inl full ↦
              let k : with_fresh e rx (some b) stream ≡ none = ground arith in
              subst (Keeps rx stream) (sym k) tt
          | inr (b', h) ↦
              let k : with_fresh e rx (some b) stream ≡ receive e rx b' stream = ground arith in
              let (vb', cb) = add_mem-some (window rx.hdr 0 rx.hdr_len) vb h in
              let none_yet : contents b ≡ [] =
                ap (window b.mem b.head) z ∙ window-zero b.mem b.head in
              subst (Keeps rx stream) (sym k) (
                receive-Keeps rx rx b' stream v y ne vb'
                  (consumed_busy rx ne
                    ∙ ap (λ k. rx.type ∷ k)
                        (body_alone rx y q
                          ∙ ap (λ k. k ++ window rx.hdr 0 rx.hdr_len) (sym none_yet)
                          ∙ sym cb))
                  e)
        ]
      ]

  pub read_payload-Keeps : GivesEmpty e → Keeps rx stream (read_payload e rx stream)
  unfolding read_payload GivesEmpty
  read_payload-Keeps g = elim (Option-cases rx.buf) [
    | inl q ↦
        let k : read_payload e rx stream ≡ with_fresh e rx e.fresh stream = rw q refl in
        subst (Keeps rx stream) (sym k) (with_fresh-Keeps e.fresh g q)
    | inr (b, q) ↦
        let k : read_payload e rx stream ≡ receive e rx b stream = rw q refl in
        subst (Keeps rx stream) (sym k) (
          receive-Keeps rx rx b stream v y ne (v.buffer b q)
            (consumed_busy rx ne ∙ ap (λ k. rx.type ∷ k) (body_buf rx b y q)) e)
  ]
