-- ===== src/Spool/Ring.antt =====
-- A spool is a queue of at most `num - 1` pointers.
use zephyr_polling.Prelude.{
  ℕ, zero, suc, ◌+◌, ◌-◌, ◌≤◌, ◌<◌, ◌≡◌, refl, ap, ap₂, ◌⊎◌, List, [], ◌∷◌, ◌++◌, length, get_or,
  set, get_or-set_self, get_or-set_ne, arith,
}
use zephyr_polling.Spool.{Spool, size, next}

pub record IsValid (p : Spool) : Type 0 where
  pub small : p.num < 256
  pub read : p.rptr < p.num
  pub written : p.wptr < p.num
  pub storage : p.num ≤ length p.buf

-- The index that `enqueue` writes and the one that `dequeue` reads lie inside the array.
in_bounds : {p : Spool} → IsValid p → (p.wptr < length p.buf) × (p.rptr < length p.buf)
in_bounds v = omega arith

-- The `k` pointers from index `r` on, round the end of the ring.
unfoldable pub ring : List ℕ → (num r k : ℕ) → List ℕ
ring buf num r zero = []
ring buf num r (suc k) = get_or buf r 0 ∷ ring buf num (next num r) k

-- The pointers in the pool, oldest first.
unfoldable pub contents : Spool → List ℕ
unfolding ring size
contents p = ring p.buf p.num p.rptr (size p)

pub length-ring : (buf : List ℕ) (num r k : ℕ) → length (ring buf num r k) ≡ k
unfolding ring
length-ring buf num r zero = refl
length-ring buf num r (suc k) = ap suc (length-ring buf num (next num r) k)

pub size-lt : {p : Spool} → IsValid p → size p < p.num
unfolding size
size-lt {p} v = ground arith

-- `size` rounds behind the read index stands the write index.
pub size-reaches :
    {p : Spool} → IsValid p → (p.wptr ≡ p.rptr + size p) ⊎ (p.wptr + p.num ≡ p.rptr + size p)
unfolding size
size-reaches {p} v = ground arith

pub ring-set :
    (buf : List ℕ) (num r k w x : ℕ)
    → num < 256
    → num ≤ length buf
    → r < num
    → k < num
    → (w ≡ r + k) ⊎ (w + num ≡ r + k)
    → w < num
    → ring (set buf w x) num r (suc k) ≡ ring buf num r k ++ x ∷ []
unfolding ring
ring-set buf num r zero w x s l hr hk reach hw =
    let e : w ≡ r = omega arith in ap (λ y. y ∷ []) (rw e (get_or-set_self buf r x 0 (omega arith)))
ring-set buf num r (suc k) w x s l hr hk reach hw =
    ap₂ ◌∷◌ (get_or-set_ne buf w r x 0 (omega arith))
      (ring-set buf num (next num r) k w x s l (ground arith) (omega arith) (ground arith) hw)

pub ring_suc :
    (buf : List ℕ) (num r k : ℕ)
    → 0 < k
    → ring buf num r k ≡ get_or buf r 0 ∷ ring buf num (next num r) (k - 1)
unfolding ring
ring_suc buf num r zero h = absurd (omega arith)
ring_suc buf num r (suc k) h = ap (λ j. ring buf num r (suc j)) (omega arith)
