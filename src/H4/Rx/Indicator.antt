-- ===== src/H4/Rx/Indicator.antt =====
-- `h4_get_type`: reading the packet indicator.
use zephyr_polling.Prelude.{
  ℕ, ◌-◌, ◌≤◌, ◌≡◌, refl, sym, ap, ◌∙◌, ◌≢◌, ◌⊎◌, inl, inr, false, Option, none, some, List, [],
  ◌∷◌, ◌++◌, length, window, window-zero, arith,
}
use native.Mathlib.Decide.{ℕ_discrete}
use mathlib.Core.Path.{subst}
use zephyr_polling.H4.{Config, h4_none, h4_acl, h4_evt}
use zephyr_polling.H4.Rx.{Rx, Env, quiet, recv, set_type, type_read, h4_get_type}
use zephyr_polling.H4.Rx.Bytes.{
  IsValid, consumed, Kept, consumed_idle, consumed_busy, body_hdr, recv-append, arrived,
}
use zephyr_polling.H4.Rx.Kept.{quiet-Kept, dropped-Kept}

-- Reading the packet indicator.
set_type-cases :
    (c : Config) (rx : Rx) (t : ℕ)
    → c.iso ≡ false
    → (set_type c rx t ≡ record rx { type = h4_none })
      ⊎ ((n : ℕ) × (n ≤ 4)
          × (t ≢ h4_none)
          × (t ≢ h4_evt → t ≡ h4_acl)
          × (set_type c rx t ≡ record rx { type = t; remaining = n; hdr_len = n }))
unfolding set_type
set_type-cases c rx t i = elim (ℕ_discrete t h4_evt) [
  | yes e ↦ inr (2, omega arith, omega arith, λ ne. absurd (ne e), ground arith)
  | no ne ↦ elim (ℕ_discrete t h4_acl) [
    | yes e ↦ inr (4, omega arith, omega arith, λ _. e, ground arith)
    | no na ↦ inl (ground arith)
  ]
]

no_type-IsValid :
    {rx : Rx} → IsValid rx → rx.type ≡ h4_none → IsValid (record rx { type = h4_none })
no_type-IsValid {rx} v z = record {
  hdr4 = v.hdr4;
  len4 = v.len4;
  left = v.left;
  idle = λ h. v.idle z;
  known = λ h. absurd (h refl);
  whole = λ h. absurd (h refl);
  buffer = v.buffer;
  unused = v.unused;
}

with_type-IsValid :
    {rx : Rx} (t n : ℕ)
    → IsValid rx
    → t ≢ h4_none
    → (t ≢ h4_evt → t ≡ h4_acl)
    → n ≤ 4
    → rx.discard ≡ 0
    → IsValid (record rx { type = t; remaining = n; hdr_len = n })
with_type-IsValid {rx} t n v ne k l d = record {
  hdr4 = v.hdr4;
  len4 = l;
  left = λ h. omega arith;
  idle = λ h. absurd (ne h);
  known = λ h w. k w;
  whole = λ h. d;
  buffer = v.buffer;
  unused = v.unused;
}

with_type-consumed :
    (rx : Rx) (t n : ℕ)
    → t ≢ h4_none
    → rx.have_hdr ≡ false
    → consumed (record rx { type = t; remaining = n; hdr_len = n }) ≡ t ∷ []
with_type-consumed rx t n ne h =
    let rx' : Rx = record rx { type = t; remaining = n; hdr_len = n } in
    let e : n - n ≡ 0 = omega arith in
    consumed_busy rx' ne
    ∙ ap (λ k. t ∷ k) (body_hdr rx' h ∙ ap (window rx.hdr 0) e ∙ window-zero rx.hdr 0)

set_type-Kept :
    (c : Config) (rx : Rx) (t : ℕ) (stream rest : List ℕ)
    → c.iso ≡ false
    → IsValid rx
    → rx.type ≡ h4_none
    → rx.discard ≡ 0
    → t ∷ rest ≡ stream
    → Kept rx stream (quiet (set_type c rx t) rest)
set_type-Kept c rx t stream rest i v z d e = elim (set_type-cases c rx t i) [
  | inl q ↦
      subst (λ k. Kept rx stream (quiet k rest)) (sym q)
        (dropped-Kept rx _ stream (t ∷ []) rest (no_type-IsValid v z) e refl)
  | inr (n, l, ne, k, q) ↦
      subst (λ k. Kept rx stream (quiet k rest)) (sym q)
        (quiet-Kept rx _ stream (t ∷ []) rest (with_type-IsValid t n v ne k l d) e (
          with_type-consumed rx t n ne (v.idle z)
          ∙ ap (λ k. k ++ (t ∷ [])) (sym (consumed_idle rx z))))
]

type_read-Kept :
    (c : Config) (rx : Rx) (got : Option (List ℕ)) (stream rest : List ℕ)
    → c.iso ≡ false
    → IsValid rx
    → rx.type ≡ h4_none
    → rx.discard ≡ 0
    → arrived got ++ rest ≡ stream
    → length (arrived got) ≤ 1
    → Kept rx stream (quiet (type_read c rx got) rest)
type_read-Kept c rx none stream rest i v z d e l =
    dropped-Kept rx _ stream [] rest (no_type-IsValid v z) e refl
type_read-Kept c rx (some []) stream rest i v z d e l =
    dropped-Kept rx _ stream [] rest (no_type-IsValid v z) e refl
type_read-Kept c rx (some (t ∷ [])) stream rest i v z d e l =
    set_type-Kept c rx t stream rest i v z d e
type_read-Kept c rx (some (t ∷ (u ∷ us))) stream rest i v z d e l = absurd (omega arith)

pub h4_get_type-Kept :
    (c : Config) (e : Env) (rx : Rx) (stream : List ℕ)
    → c.iso ≡ false
    → IsValid rx
    → rx.type ≡ h4_none
    → rx.discard ≡ 0
    → Kept rx stream (h4_get_type c e rx stream)
unfolding h4_get_type
h4_get_type-Kept c e rx stream i v z d =
    let (p, l) = recv-append e.quota 1 stream in
    type_read-Kept c rx (recv e.quota 1 stream).0 stream (recv e.quota 1 stream).1 i v z d p l
