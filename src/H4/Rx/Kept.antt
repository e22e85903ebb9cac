-- ===== src/H4/Rx/Kept.antt =====
-- A poll that only takes bytes in, and one that gives a packet up, of process_rx.
use zephyr_polling.Prelude.{
  ℕ, ◌≡◌, refl, sym, ap, ◌∙◌, inl, inr, Option, none, some, List, [], ◌++◌, append_assoc, min,
  arith,
}
use zephyr_polling.NetBuf.Simple.{NetBufSimple}
use zephyr_polling.H4.{h4_none}
use zephyr_polling.H4.Rx.{Rx, Env, quiet, recv, reset_rx, too_long, discarded, skip}
use zephyr_polling.H4.Rx.Bytes.{IsValid, consumed, Kept, consumed_idle, recv-append}

-- Giving up a packet loses what was taken in of it.
module _ (rx : Rx) (v : IsValid rx) where
  pub too_long-IsValid : ((b : NetBufSimple) → rx.buf ≡ some b → b.len ≡ 0) → IsValid (too_long rx)
  unfolding reset_rx
  too_long-IsValid empty = record {
    hdr4 = v.hdr4;
    len4 = omega arith;
    left = λ h. omega arith;
    idle = λ h. refl;
    known = λ h. absurd (h refl);
    whole = λ h. absurd (h refl);
    buffer = v.buffer;
    unused = λ b e h. empty b e;
  }

  pub too_long-idle : (too_long rx).type ≡ h4_none
  unfolding reset_rx
  too_long-idle = refl

-- A state that has taken in the same bytes, with nothing of the stream.
pub quiet-Kept :
    (rx rx' : Rx) (stream got rest : List ℕ)
    → IsValid rx'
    → got ++ rest ≡ stream
    → consumed rx' ≡ consumed rx ++ got
    → Kept rx stream (quiet rx' rest)
quiet-Kept rx rx' stream got rest v e c = record {
  valid = v;
  lost = [];
  bytes =
      ap (λ k. consumed rx ++ k) (sym e)
      ∙ sym (append_assoc (consumed rx) got rest)
      ∙ ap (λ k. k ++ rest) (sym c);
  why = inl refl;
}

pub dropped-Kept :
    (rx rx' : Rx) (stream got rest : List ℕ)
    → IsValid rx'
    → got ++ rest ≡ stream
    → rx'.type ≡ h4_none
    → Kept rx stream (quiet rx' rest)
dropped-Kept rx rx' stream got rest v e z = record {
  valid = v;
  lost = consumed rx ++ got;
  bytes =
      ap (λ k. consumed rx ++ k) (sym e)
      ∙ sym (append_assoc (consumed rx) got rest)
      ∙ ap (λ k. (consumed rx ++ got) ++ (k ++ rest)) (sym (consumed_idle rx' z));
  why = inr (z, refl);
}

-- Skipping the rest of a packet.
discarded-IsValid :
    (rx : Rx) (got : Option (List ℕ))
    → IsValid rx
    → rx.type ≡ h4_none
    → IsValid (discarded rx got) × ((discarded rx got).type ≡ h4_none)
discarded-IsValid rx none v z = (v, z)
discarded-IsValid rx (some xs) v z = (
  record {
    hdr4 = v.hdr4;
    len4 = v.len4;
    left = v.left;
    idle = v.idle;
    known = λ h. absurd (h z);
    whole = λ h. absurd (h z);
    buffer = v.buffer;
    unused = v.unused;
  },
  z,
)

pub skip-Kept :
    (e : Env) (rx : Rx) (stream : List ℕ)
    → IsValid rx
    → rx.type ≡ h4_none
    → Kept rx stream (skip e rx stream)
unfolding skip
skip-Kept e rx stream v z =
    let (p, l) = recv-append e.quota (min rx.discard 33) stream in
    let (v', z') = discarded-IsValid rx (recv e.quota (min rx.discard 33) stream).0 v z in
    dropped-Kept rx _ stream _ _ v' p z'
