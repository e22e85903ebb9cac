-- ===== src/H4/Rx/Bytes.antt =====
-- Which bytes of the stream a state has taken in, and that the parts of a poll lose none of them.
use zephyr_polling.Prelude.{
  ℕ, ◌-◌, ◌≤◌, ◌<◌, ◌≡◌, refl, sym, ◌∙◌, ◌≢◌, ◌⊎◌, true, false, Option, none, some, List, [], ◌∷◌,
  ◌++◌, append-nil, length, min, length-take, take-append-drop, ◌==◌, if◌then◌else◌, window,
  window-write_end, length-write, arith, ==_ne,
}
use native.Mathlib.Decide.{dec_le}
use zephyr_polling.NetBuf.Simple.{NetBufSimple, tailroom, add_mem}
use zephyr_polling.NetBuf.Simple.Room
use zephyr_polling.NetBuf.Simple.Room.{
  contents, added, store-add, added-IsValid, contents-added, add-none,
}
use zephyr_polling.H4.{Config, h4_none, h4_acl, h4_evt}
use zephyr_polling.H4.Rx.{RxType, Rx, Packet, Polled, recv, hdr_read, get_hdr}

pub record IsValid (rx : Rx) : Type 0 where
  pub hdr4 : length rx.hdr ≡ 4
  pub len4 : rx.hdr_len ≤ 4
  pub left : rx.have_hdr ≡ false → rx.remaining ≤ rx.hdr_len
  pub idle : rx.type ≡ h4_none → rx.have_hdr ≡ false
  pub known : rx.type ≢ h4_none → rx.type ≢ h4_evt → rx.type ≡ h4_acl
  pub whole : rx.type ≢ h4_none → rx.discard ≡ 0
  pub buffer : (b : NetBufSimple) → rx.buf ≡ some b → Room.IsValid b
  pub unused : (b : NetBufSimple) → rx.buf ≡ some b → rx.have_hdr ≡ false → b.len ≡ 0

-- How much of the header is there.
abbrev pub filled : Rx → ℕ
filled rx = if rx.have_hdr then rx.hdr_len else rx.hdr_len - rx.remaining

-- The bytes of the current packet that were taken in, behind its indicator.
pub body : Rx → List ℕ
body rx =
    if rx.have_hdr
    then elim rx.buf [ none ↦ window rx.hdr 0 rx.hdr_len | some b ↦ contents b ]
    else window rx.hdr 0 (rx.hdr_len - rx.remaining)

pub consumed : Rx → List ℕ
consumed rx = if rx.type == h4_none then [] else rx.type ∷ body rx

-- The packet indicator of a type.
abbrev pub indicator : RxType → ℕ
indicator RxType.evt = h4_evt
indicator RxType.acl_in = h4_acl

abbrev pub delivered : Option Packet → List ℕ
delivered none = []
delivered (some p) = indicator p.type ∷ contents p.buf

-- What a poll leaves of the bytes: those that were taken in and those of the stream are the lost
-- ones, then those of the packet that was handed out, then those that are taken in and the stream.
-- Only a poll that ends idle and hands no packet out loses bytes.
pub record Kept (rx : Rx) (stream : List ℕ) (p : Polled) : Type 0 where
  pub valid : IsValid p.rx
  pub lost : List ℕ
  pub bytes : consumed rx ++ stream ≡ lost ++ (delivered p.out ++ (consumed p.rx ++ p.stream))
  pub why : (lost ≡ []) ⊎ ((p.rx.type ≡ h4_none) × (p.out ≡ none))

abbrev pub Keeps : Rx → List ℕ → Option Polled → Type 0
Keeps rx stream none = Unit
Keeps rx stream (some p) = Kept rx stream p

pub consumed_idle : (rx : Rx) → rx.type ≡ h4_none → consumed rx ≡ []
unfolding consumed
consumed_idle rx z = ground arith

pub consumed_busy : (rx : Rx) → rx.type ≢ h4_none → consumed rx ≡ rx.type ∷ body rx
unfolding consumed
consumed_busy rx ne = rw (==_ne rx.type h4_none ne) refl

pub body_hdr :
    (rx : Rx) → rx.have_hdr ≡ false → body rx ≡ window rx.hdr 0 (rx.hdr_len - rx.remaining)
unfolding body
body_hdr rx h = ground arith

pub body_alone :
    (rx : Rx) → rx.have_hdr ≡ true → rx.buf ≡ none → body rx ≡ window rx.hdr 0 rx.hdr_len
unfolding body
body_alone rx h n = ground arith

pub body_buf :
    (rx : Rx) (b : NetBufSimple) → rx.have_hdr ≡ true → rx.buf ≡ some b → body rx ≡ contents b
unfolding body
body_buf rx b h n = ground arith

-- The bytes of a read; a failed read has none.
abbrev pub arrived : Option (List ℕ) → List ℕ
arrived none = []
arrived (some xs) = xs

-- The driver hands out the front of the stream, at most as much as was asked for.
pub recv-append :
    (q : Option ℕ) (n : ℕ) (stream : List ℕ)
    → (arrived (recv q n stream).0 ++ (recv q n stream).1 ≡ stream)
      × (length (arrived (recv q n stream).0) ≤ n)
recv-append none n stream = (refl, omega arith)
recv-append (some q) n stream =
    (take-append-drop (min q n) stream, omega (arith, length-take (min q n) stream))

-- Appending to a valid buffer, where it succeeds.
pub add_mem-some :
    {b : NetBufSimple} (xs : List ℕ) {b' : NetBufSimple}
    → Room.IsValid b
    → add_mem b xs ≡ some b'
    → Room.IsValid b' × (contents b' ≡ contents b ++ xs)
unfolding add_mem
add_mem-some {b} xs {b'} v h = elim (dec_le (length xs) (tailroom b)) [
  | yes fits ↦
      let e : added b xs ≡ b' = cc (sym (store-add v xs (length xs) refl fits) ∙ h) in
      rw (← e) (added-IsValid v xs fits, contents-added v xs fits)
  | no over ↦ absurd (cc (sym (add-none v xs (length xs) (omega arith)) ∙ h))
]

pub add_mem_fits :
    (b : NetBufSimple) (xs : List ℕ)
    → Room.IsValid b
    → length xs ≤ tailroom b
    → add_mem b xs ≡ some (added b xs)
unfolding add_mem
add_mem_fits b xs v h = store-add v xs (length xs) refl h

pub add_mem_over :
    (b : NetBufSimple) (xs : List ℕ) → Room.IsValid b → tailroom b < length xs → add_mem b xs ≡ none
unfolding add_mem
add_mem_over b xs v h = add-none v xs (length xs) h

-- Header bytes that arrive extend those that are there.
pub hdr_read-window :
    (rx : Rx) (got : Option (List ℕ))
    → IsValid rx
    → rx.have_hdr ≡ false
    → length (arrived got) ≤ rx.remaining
    → let rx' = hdr_read rx got in
      (window rx'.hdr 0 (rx'.hdr_len - rx'.remaining)
        ≡ window rx.hdr 0 (rx.hdr_len - rx.remaining) ++ arrived got)
      × (rx'.remaining ≡ rx.remaining - length (arrived got))
      × (length rx'.hdr ≡ 4)
      × (rx' ≡ record rx { hdr = rx'.hdr; remaining = rx'.remaining })
unfolding hdr_read
hdr_read-window rx none v h fits = (sym (append-nil _), omega arith, v.hdr4, refl)
hdr_read-window rx (some xs) v h fits =
    let l = v.left h in
    (
      window-write_end rx.hdr 0 (rx.hdr_len - rx.remaining) xs (rx.hdr_len - rx.remaining) _
          (omega arith) (omega (arith, v.len4)) (omega (arith, v.len4, v.hdr4)),
      omega (arith, v.len4),
      omega (arith, length-write rx.hdr (rx.hdr_len - rx.remaining) xs, v.hdr4),
      refl,
    )

-- The header functions keep the bytes of the header, and the count of those that are there.
pub get_hdr-filled :
    (c : Config) (rx : Rx)
    → rx.have_hdr ≡ false
    → rx.remaining ≤ rx.hdr_len
    → rx.hdr_len ≤ 4
    → let rx' = get_hdr c rx in
      (rx'.hdr ≡ rx.hdr)
      × (filled rx' ≡ rx.hdr_len - rx.remaining)
      × (rx'.hdr_len ≤ 4)
      × (rx'.have_hdr ≡ false → rx'.remaining ≤ rx'.hdr_len)
      × (rx'.type ≡ rx.type)
      × (rx'.buf ≡ rx.buf)
      × (rx'.discard ≡ rx.discard)
unfolding get_hdr
get_hdr-filled c rx h l f = ground arith
