-- ===== src/MemSlab/Init.antt =====
-- `k_mem_slab_init`: every block of the buffer is free.
use zephyr_polling.Prelude.{
  ℕ, zero, suc, ◌+◌, ◌%◌, ◌^◌, ◌≤◌, ◌<◌, ◌≡◌, refl, sym, Bool, true, false, List, [], ◌∷◌, ◌++◌,
  append_assoc, append-nil, length, length-append, arith, ==_self,
}
use mathlib.Core.Path.{subst}
use zephyr_polling.Slist.{Ptr, null, set_next}
use zephyr_polling.Slist.Chain.{has, Seg, frame_set}
use zephyr_polling.MemSlab.{State, link_blocks, create_free_list, k_mem_slab_init}
use zephyr_polling.MemSlab.Free.{Holds}

-- The `n` blocks from `p` on, the last one first.
abbrev pub blocks : ℕ → Ptr → ℕ → List Ptr
blocks zero p size = []
blocks (suc n) p size = blocks n (p + size) size ++ (p ∷ [])

length-blocks : (n : ℕ) (p : Ptr) (size : ℕ) → length (blocks n p size) ≡ n
length-blocks zero p size = refl
length-blocks (suc n) p size =
    omega
      (arith, length-append (blocks n (p + size) size) (p ∷ []), length-blocks n (p + size) size)

abbrev Below : Ptr → List Ptr → Type 0
Below p [] = Unit
Below p (x ∷ xs) = (x < p) × Below p xs

Below-trans : (p q : Ptr) (xs : List Ptr) → p ≤ q → Below p xs → Below q xs
Below-trans p q [] h b = tt
Below-trans p q (x ∷ xs) h b = (omega (arith, b.0), Below-trans p q xs h b.1)

has-Below : (p : Ptr) (xs : List Ptr) → Below p xs → has p xs ≡ false
has-Below p [] b = refl
has-Below p (x ∷ xs) b = let r = has-Below p xs b.1 in let l = b.0 in ground arith

link_blocks-Seg :
    (n : ℕ) (p : Ptr) (s : State) (xs : List Ptr)
    → 0 < p
    → 0 < s.slab.block_size
    → Below p xs
    → Seg s.next s.slab.free_list xs null
    → let s' = link_blocks n p s in
      Seg s'.next s'.slab.free_list (blocks n p s.slab.block_size ++ xs) null
      × (s'.slab.num_used ≡ s.slab.num_used)
      × (s'.slab.num_blocks ≡ s.slab.num_blocks)
link_blocks-Seg zero p s xs pos size below seg = (seg, refl, refl)
link_blocks-Seg (suc n) p s xs pos size below seg =
    let s₁ : State = record {
      slab = record s.slab { free_list = p };
      next = set_next s.next p s.slab.free_list;
    } in
    let back : set_next s.next p s.slab.free_list p ≡ s.slab.free_list = rw (==_self p) refl in
    let out = has-Below p xs below in
    let chain : Seg s₁.next p (p ∷ xs) null = (
      refl,
      omega arith,
      out,
      subst (λ q. Seg s₁.next q xs null) (sym back)
          (frame_set s.next s.slab.free_list xs null p s.slab.free_list out seg),
    ) in
    let (c, u, b) =
      link_blocks-Seg n (p + s.slab.block_size) s₁ (p ∷ xs) (omega arith) size
        (omega arith, Below-trans p (p + s.slab.block_size) xs (omega arith) below) chain in
    (
      subst
          (λ l. Seg (link_blocks (suc n) p s).next (link_blocks (suc n) p s).slab.free_list l null)
          (sym (append_assoc (blocks n (p + s.slab.block_size) s.slab.block_size) (p ∷ []) xs)) c,
      u,
      b,
    )

-- A slab that is initialised with an aligned buffer and an aligned block size that is not zero has
-- every block free, the last one of the buffer first.
pub k_mem_slab_init-Holds :
    (s : State) (buffer : Ptr) (size n : ℕ)
    → 0 < buffer
    → 0 < size
    → n < 2 ^ 32
    → buffer % 4 ≡ 0
    → size % 4 ≡ 0
    → ((k_mem_slab_init s buffer size n).0 ≡ true)
      × Holds (k_mem_slab_init s buffer size n).1 (blocks n buffer size)
unfolding k_mem_slab_init create_free_list
k_mem_slab_init-Holds s buffer size n hb hs hn ab as_ =
    let s₀ : State = record s {
      slab = record s.slab {
        num_blocks = n;
        block_size = size;
        buffer = buffer;
        num_used = 0;
        free_list = null;
      };
    } in
    let (c, u, b) = link_blocks-Seg n buffer s₀ [] hb hs tt refl in
    let k : k_mem_slab_init s buffer size n ≡ (true, link_blocks n buffer s₀) = ground arith in
    subst (λ (r : Bool × State). (r.0 ≡ true) × Holds r.1 (blocks n buffer size)) (sym k)
      (
        refl,
        record {
          chain =
              subst
                (λ l.
                  Seg (link_blocks n buffer s₀).next (link_blocks n buffer s₀).slab.free_list l
                    null)
                (append-nil (blocks n buffer size)) c;
          count = omega (arith, u, b, length-blocks n buffer size);
          small = omega (arith, b);
        },
      )
