-- ===== src/H4/Rx/Header.antt =====
-- `read_header`: the header of a packet arrives in any number of pieces.
use zephyr_polling.Prelude.{
  ℕ, ◌-◌, ◌≤◌, ◌≡◌, refl, sym, ap, ◌∙◌, ◌≢◌, ◌⊎◌, inl, inr, true, false, Option, none, some, List,
  [], ◌∷◌, ◌++◌, length, ltb, if◌then◌else◌, window, window-zero, arith, ==_ne, Bool-cases,
  Option-cases,
}
use native.Mathlib.Decide.{ℕ_discrete}
use mathlib.Core.Path.{subst}
use zephyr_polling.NetBuf.Simple.{NetBufSimple, tailroom}
use zephyr_polling.NetBuf.Simple.Room
use zephyr_polling.NetBuf.Simple.Room.{contents, length-contents}
use zephyr_polling.H4.{Config, h4_none}
use zephyr_polling.H4.Rx.{
  Rx, Env, quiet, recv, h4_get_type, hdr_read, get_hdr, copy_hdr, too_long, keep_hdr, read_header,
}
use zephyr_polling.H4.Rx.Bytes.{
  IsValid, filled, consumed, Keeps, consumed_busy, body_hdr, body_alone, body_buf, recv-append,
  add_mem-some, hdr_read-window, get_hdr-filled, arrived,
}
use zephyr_polling.H4.Rx.Kept.{too_long-IsValid, too_long-idle, quiet-Kept, dropped-Kept}
use zephyr_polling.H4.Rx.Indicator.{h4_get_type-Kept}

-- Behind the header functions.
head_consumed :
    (rx : Rx)
    → rx.type ≢ h4_none
    → (rx.have_hdr ≡ true → rx.buf ≡ none)
    → consumed rx ≡ rx.type ∷ window rx.hdr 0 (filled rx)
head_consumed rx ne alone = elim (Bool-cases rx.have_hdr) [
  | inl y ↦
      consumed_busy rx ne
      ∙ ap (λ k. rx.type ∷ k)
          (body_alone rx y (alone y)
            ∙ ap (λ k. window rx.hdr 0 (if k then rx.hdr_len else rx.hdr_len - rx.remaining))
                (sym y))
  | inr n ↦
      consumed_busy rx ne
      ∙ ap (λ k. rx.type ∷ k)
          (body_hdr rx n
            ∙ ap (λ k. window rx.hdr 0 (if k then rx.hdr_len else rx.hdr_len - rx.remaining))
                (sym n))
]

-- A buffer that is there gets the header.
with_header :
    (rx : Rx) (b b' : NetBufSimple)
    → IsValid rx
    → rx.type ≢ h4_none
    → rx.have_hdr ≡ true
    → rx.buf ≡ some b
    → b.len ≡ 0
    → copy_hdr rx b ≡ some b'
    → IsValid (record rx { buf = some b' })
      × (consumed (record rx { buf = some b' }) ≡ rx.type ∷ window rx.hdr 0 (filled rx))
with_header rx b b' v ne y q z h =
    let (vb, cb) = add_mem-some (window rx.hdr 0 rx.hdr_len) (v.buffer b q) h in
    let empty : contents b ≡ [] = ap (window b.mem b.head) z ∙ window-zero b.mem b.head in
    (
      record {
        hdr4 = v.hdr4;
        len4 = v.len4;
        left = v.left;
        idle = v.idle;
        known = v.known;
        whole = v.whole;
        buffer = λ k e. subst Room.IsValid (cc e) vb;
        unused = λ k e n. absurd (cc (sym y ∙ n));
      },
      consumed_busy (record rx { buf = some b' }) ne
          ∙ ap (λ k. rx.type ∷ k)
              (body_buf (record rx { buf = some b' }) b' y refl
                ∙ cb
                ∙ ap (λ k. k ++ window rx.hdr 0 rx.hdr_len) empty
                ∙ ap (λ k. window rx.hdr 0 (if k then rx.hdr_len else rx.hdr_len - rx.remaining))
                    (sym y)),
    )

keep_hdr-cases :
    (rx : Rx) (b : NetBufSimple) (rest : List ℕ)
    → ((rx.have_hdr ≡ false) × (keep_hdr rx rest (some b) ≡ some (quiet rx rest)))
      ⊎ (((rx.have_hdr ≡ true) × (keep_hdr rx rest (some b) ≡ some (quiet (too_long rx) rest)))
          ⊎ (((rx.have_hdr ≡ true) × (keep_hdr rx rest (some b) ≡ none))
              ⊎ ((b' : NetBufSimple) × (rx.have_hdr ≡ true)
                  × (copy_hdr rx b ≡ some b')
                  × (keep_hdr rx rest (some b) ≡ some (quiet (record rx { buf = some b' }) rest)))))
unfolding keep_hdr
keep_hdr-cases rx b rest = elim (Bool-cases rx.have_hdr) [
  | inr n ↦ inl (n, ground arith)
  | inl y ↦ elim (Bool-cases (ltb (tailroom b) rx.remaining)) [
    | inl lt ↦ inr (inl (y, ground arith))
    | inr ge ↦ elim (Option-cases (copy_hdr rx b)) [
      | inl full ↦ inr (inr (inl (y, ground arith)))
      | inr (b', e) ↦ inr (inr (inr (b', y, e, ground arith)))
    ]
  ]
]

keep_hdr-Keeps :
    (rx rx' : Rx) (stream got rest : List ℕ) (o : Option NetBufSimple)
    → IsValid rx'
    → rx'.type ≢ h4_none
    → got ++ rest ≡ stream
    → consumed rx ++ got ≡ rx'.type ∷ window rx'.hdr 0 (filled rx')
    → ((b : NetBufSimple) → rx'.buf ≡ some b → b.len ≡ 0)
    → rx'.buf ≡ o
    → Keeps rx stream (keep_hdr rx' rest o)
unfolding keep_hdr
keep_hdr-Keeps rx rx' stream got rest none v ne e c empty q =
    quiet-Kept rx rx' stream got rest v e (head_consumed rx' ne (λ h. q) ∙ sym c)
keep_hdr-Keeps rx rx' stream got rest (some b) v ne e c empty q = elim (keep_hdr-cases rx' b rest) [
  | inl (n, k) ↦ subst (Keeps rx stream) (sym k) (
      quiet-Kept rx rx' stream got rest v e
        (head_consumed rx' ne (λ y. absurd (cc (sym y ∙ n))) ∙ sym c))
  | inr (inl (y, k)) ↦ subst (Keeps rx stream) (sym k) (
      dropped-Kept rx (too_long rx') stream got rest (too_long-IsValid rx' v empty) e
        (too_long-idle rx' v))
  | inr (inr (inl (y, k))) ↦ subst (Keeps rx stream) (sym k) tt
  | inr (inr (inr (b', y, h, k))) ↦
      let (v', c') = with_header rx' b b' v ne y q (empty b q) h in
      subst (Keeps rx stream) (sym k) (quiet-Kept rx _ stream got rest v' e (c' ∙ sym c))
]

-- The state after the header functions.
pub headed :
    (c : Config) (rx : Rx) (got : Option (List ℕ))
    → IsValid rx
    → rx.have_hdr ≡ false
    → rx.type ≢ h4_none
    → length (arrived got) ≤ rx.remaining
    → let rx' = get_hdr c (hdr_read rx got) in
      IsValid rx'
      × (rx'.type ≢ h4_none)
      × (consumed rx ++ arrived got ≡ rx'.type ∷ window rx'.hdr 0 (filled rx'))
      × ((b : NetBufSimple) → rx'.buf ≡ some b → b.len ≡ 0)
      × (rx'.buf ≡ rx.buf)
headed c rx got v n ne fits =
    let (w, r, l4, same) = hdr_read-window rx got v n fits in
    let rx₁ = hdr_read rx got in
    let have₁ : rx₁.have_hdr ≡ false = ap (λ k. k.have_hdr) same ∙ n in
    let len₁ : rx₁.hdr_len ≡ rx.hdr_len = ap (λ k. k.hdr_len) same in
    let type₁ : rx₁.type ≡ rx.type = ap (λ k. k.type) same in
    let buf₁ : rx₁.buf ≡ rx.buf = ap (λ k. k.buf) same in
    let drop₁ : rx₁.discard ≡ rx.discard = ap (λ k. k.discard) same in
    let lv = v.left n in
    let (hd, fl, l, lf, ty, bf, dc) =
      get_hdr-filled c rx₁ have₁ (omega (arith, v.len4)) (omega (arith, v.len4)) in
    let busy : (get_hdr c rx₁).type ≢ h4_none = λ z. ne (sym type₁ ∙ sym ty ∙ z) in
    let bufs = bf ∙ buf₁ in
    (
      record {
        hdr4 = ap length hd ∙ l4;
        len4 = l;
        left = lf;
        idle = λ z. absurd (busy z);
        known = λ z w. ty ∙ type₁ ∙ v.known ne (λ q. w (ty ∙ type₁ ∙ q));
        whole = λ z. dc ∙ drop₁ ∙ v.whole ne;
        buffer = λ b e. v.buffer b (sym bufs ∙ e);
        unused = λ b e z. v.unused b (sym bufs ∙ e) n;
      },
      busy,
      ap (λ k. k ++ arrived got) (consumed_busy rx ne ∙ ap (λ k. rx.type ∷ k) (body_hdr rx n))
          ∙ ap (λ k. rx.type ∷ k) (sym w)
          ∙ ap (λ k. k ∷ window rx₁.hdr 0 (rx₁.hdr_len - rx₁.remaining)) (sym (ty ∙ type₁))
          ∙ ap (λ k. (get_hdr c rx₁).type ∷ window rx₁.hdr 0 k) (sym fl)
          ∙ ap (λ k. (get_hdr c rx₁).type ∷ window k 0 (filled (get_hdr c rx₁))) (sym hd),
      λ b e. v.unused b (sym bufs ∙ e) n,
      bufs,
    )

pub read_header-Keeps :
    (c : Config) (e : Env) (rx : Rx) (stream : List ℕ)
    → c.iso ≡ false
    → IsValid rx
    → rx.have_hdr ≡ false
    → rx.discard ≡ 0
    → Keeps rx stream (read_header c e rx stream)
unfolding read_header
read_header-Keeps c e rx stream i v n d = elim (ℕ_discrete rx.type h4_none) [
  | yes z ↦
      let k : read_header c e rx stream ≡ some (h4_get_type c e rx stream) = ground arith in
      subst (Keeps rx stream) (sym k) (h4_get_type-Kept c e rx stream i v z d)
  | no ne ↦
      let (p, l) = recv-append e.quota rx.remaining stream in
      let got = (recv e.quota rx.remaining stream).0 in
      let rest = (recv e.quota rx.remaining stream).1 in
      let rx' = get_hdr c (hdr_read rx got) in
      let k : read_header c e rx stream ≡ keep_hdr rx' rest rx'.buf =
        rw (==_ne rx.type h4_none ne) refl in
      let (v', ne', c', empty, same) = headed c rx got v n ne l in
      subst (Keeps rx stream) (sym k)
        (keep_hdr-Keeps rx rx' stream (arrived got) rest rx'.buf v' ne' p c' empty refl)
]
