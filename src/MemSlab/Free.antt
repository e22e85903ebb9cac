-- ===== src/MemSlab/Free.antt =====
-- What a slab promises: the free blocks are a stack, and every block is free or used.
use zephyr_polling.Prelude.{
  add_u32, ℕ, zero, suc, ◌+◌, ◌^◌, ◌<◌, ◌≡◌, refl, sym, ap, ap₂, ◌∙◌, ◌≢◌, ◌⊎◌, inl, inr, false,
  List, [], ◌∷◌, length, arith, ==_self, ==_ne,
}
use mathlib.Core.Path.{subst}
use zephyr_polling.Slist.{Ptr, null, set_next}
use zephyr_polling.Slist.Chain.{has, Seg, frame_set}
use zephyr_polling.MemSlab.{State, k_mem_slab_alloc, k_mem_slab_free}

-- The free blocks are the distinct blocks `xs`, the last freed first, and the others are used.
pub record Holds (s : State) (xs : List Ptr) : Type 0 where
  pub chain : Seg s.next s.slab.free_list xs null
  pub count : s.slab.num_used + length xs ≡ s.slab.num_blocks
  pub small : s.slab.num_blocks < 2 ^ 32

-- Allocating hands out the block that was freed last.
pub k_mem_slab_alloc-some :
    (s : State) (x : Ptr) (xs : List Ptr)
    → Holds s (x ∷ xs)
    → ((k_mem_slab_alloc s).0 ≡ x)
      × (x ≢ null)
      × ((k_mem_slab_alloc s).1.slab.num_used ≡ suc s.slab.num_used)
      × Holds (k_mem_slab_alloc s).1 xs
unfolding k_mem_slab_alloc
k_mem_slab_alloc-some s x xs h =
    let (at, ne, out, rest) = h.chain in
    let busy : s.slab.free_list ≢ null = λ z. ne (sym at ∙ z) in
    let s' : State = record s {
      slab = record s.slab {
        free_list = s.next s.slab.free_list;
        num_used = add_u32 s.slab.num_used 1;
      };
    } in
    let k : k_mem_slab_alloc s ≡ (s.slab.free_list, s') =
      rw (==_ne s.slab.free_list null busy) refl in
    subst
      (λ (r : Ptr × State).
        (r.0 ≡ x) × (x ≢ null) × (r.1.slab.num_used ≡ suc s.slab.num_used) × Holds r.1 xs)
      (sym k)
      (
        at,
        ne,
        omega (arith, h.count, h.small),
        record {
          chain = subst (λ p. Seg s.next (s.next p) xs null) (sym at) rest;
          count = omega (arith, h.count, h.small);
          small = h.small;
        },
      )

-- Without a free block there is none to hand out, and nothing changes.
pub k_mem_slab_alloc-none : (s : State) → Holds s [] → k_mem_slab_alloc s ≡ (null, s)
unfolding k_mem_slab_alloc
k_mem_slab_alloc-none s h = let e = h.chain in ground arith

next_self : (s : State) (x : Ptr) → set_next s.next x s.slab.free_list x ≡ s.slab.free_list
next_self s x = rw (==_self x) refl

-- A block that is used is the next one to be handed out, once it was freed.
pub k_mem_slab_free-Holds :
    (s : State) (x : Ptr) (xs : List Ptr)
    → Holds s xs
    → x ≢ null
    → has x xs ≡ false
    → 0 < s.slab.num_used
    → Holds (k_mem_slab_free s x) (x ∷ xs)
unfolding k_mem_slab_free
k_mem_slab_free-Holds s x xs h ne out pos = record {
  chain = (
    refl,
    ne,
    out,
    subst (λ p. Seg (set_next s.next x s.slab.free_list) p xs null) (sym (next_self s x))
        (frame_set s.next s.slab.free_list xs null x s.slab.free_list out h.chain),
  );
  count = omega (arith, h.count, h.small);
  small = h.small;
}

-- A slab as its users see it: a stack of blocks.
pub data Op : Type 0 where
  alloc : Op
  free : Ptr → Op

-- The blocks that the calls hand out, and the state behind them.
abbrev pub run : List Op → State → List Ptr × State
run [] s = ([], s)
run (Op.alloc ∷ ops) s =
    let (x, s₁) = k_mem_slab_alloc s in let (xs, s₂) = run ops s₁ in (x ∷ xs, s₂)
run (Op.free x ∷ ops) s = run ops (k_mem_slab_free s x)

abbrev pub run_stack : List Op → List Ptr → List Ptr × List Ptr
run_stack [] blocks = ([], blocks)
run_stack (Op.alloc ∷ ops) [] = let (ys, blocks₁) = run_stack ops [] in (null ∷ ys, blocks₁)
run_stack (Op.alloc ∷ ops) (x ∷ xs) = let (ys, blocks₁) = run_stack ops xs in (x ∷ ys, blocks₁)
run_stack (Op.free x ∷ ops) blocks = run_stack ops (x ∷ blocks)

-- Only used blocks are freed; `n` blocks are used.
abbrev pub Legal : List Op → List Ptr → ℕ → Type 0
Legal [] blocks n = Unit
Legal (Op.alloc ∷ ops) [] n = Legal ops [] n
Legal (Op.alloc ∷ ops) (x ∷ xs) n = Legal ops xs (suc n)
Legal (Op.free x ∷ ops) blocks zero = ⊥
Legal (Op.free x ∷ ops) blocks (suc n) =
    (x ≢ null) × (has x blocks ≡ false) × Legal ops (x ∷ blocks) n

pos_cases : (n : ℕ) → (n ≡ 0) ⊎ ((m : ℕ) × (n ≡ suc m))
pos_cases zero = inl refl
pos_cases (suc m) = inr (m, refl)

used_free :
    (s : State) (x : Ptr) (xs : List Ptr) (n : ℕ)
    → Holds s xs
    → s.slab.num_used ≡ suc n
    → (k_mem_slab_free s x).slab.num_used ≡ n
unfolding k_mem_slab_free
used_free s x xs n h q = omega (arith, h.count, h.small)

-- Any calls that free only used blocks hand out the blocks of a stack, NULL where that is empty, and
-- the slab holds the stack afterwards.
pub slab_run_refines :
    (ops : List Op) (s : State) (blocks : List Ptr)
    → Holds s blocks
    → Legal ops blocks s.slab.num_used
    → let (xs, s') = run ops s in
      let (ys, blocks') = run_stack ops blocks in (xs ≡ ys) × Holds s' blocks'
slab_run_refines [] s blocks h l = (refl, h)
slab_run_refines (Op.alloc ∷ ops) s [] h l =
    let k = k_mem_slab_alloc-none s h in
    let (p, q) = slab_run_refines ops s [] h l in
    subst
      (λ (r : Ptr × State).
        (r.0 ∷ (run ops r.1).0 ≡ null ∷ (run_stack ops []).0)
        × Holds (run ops r.1).1 (run_stack ops []).1)
      (sym k) (ap (λ ys. null ∷ ys) p, q)
slab_run_refines (Op.alloc ∷ ops) s (x ∷ xs) h l =
    let (at, ne, u, h') = k_mem_slab_alloc-some s x xs h in
    let (p, q) =
      slab_run_refines ops (k_mem_slab_alloc s).1 xs h' (subst (Legal ops xs) (sym u) l) in
    (ap₂ (λ y ys. y ∷ ys) at p, q)
slab_run_refines (Op.free x ∷ ops) s blocks h l = elim (pos_cases s.slab.num_used) [
  | inl z ↦ absurd (subst (Legal (Op.free x ∷ ops) blocks) z l)
  | inr (n, q) ↦
      let (ne, out, l') = subst (Legal (Op.free x ∷ ops) blocks) q l in
      let h' = k_mem_slab_free-Holds s x blocks h ne out (omega arith) in
      slab_run_refines ops (k_mem_slab_free s x) (x ∷ blocks) h'
        (subst (Legal ops (x ∷ blocks)) (sym (used_free s x blocks n h q)) l')
]
