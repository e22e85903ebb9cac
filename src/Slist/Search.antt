-- ===== src/Slist/Search.antt =====
-- Removing a node from the middle, by its predecessor and by search.
use zephyr_polling.Prelude.{
  ℕ, zero, suc, ◌+◌, ◌<◌, ◌≡◌, refl, sym, ap, ◌≢◌, ◌∙◌, true, false, some, List, [], ◌∷◌, ◌++◌,
  arith, ◌==◌, if◌then◌else◌, append-nil, append_assoc, length, ==_self, ==_ne,
}
use zephyr_polling.Slist.{
  Ptr, null, Links, State, set_next, remove, find_and_remove_from, find_and_remove, size_from, size,
}
use zephyr_polling.Slist.Chain.{
  has, Seg, last, Holds, Disjoint, frame_set, relink, Seg-append, Seg-split, Disjoint-tail,
  not-has_front, last-append, last-ne-null, has-last, apart_of_has, not-has_of_Disjoint,
}
use zephyr_polling.Slist.Ops.{state}
use native.Mathlib.Decide.{ℕ_discrete}

module _ (s : State) (prev node : Ptr) where
  remove_first_last :
      prev ≡ null
      → s.list.tail ≡ node
      → remove s prev node ≡ state (s.next node) (s.next node) (set_next s.next node null)
  unfolding remove
  remove_first_last h t = ground arith

  remove_first :
      prev ≡ null
      → s.list.tail ≢ node
      → remove s prev node ≡ state (s.next node) s.list.tail (set_next s.next node null)
  unfolding remove
  remove_first h t = ground arith

  remove_last :
      prev ≢ null
      → s.list.tail ≡ node
      → remove s prev node
        ≡ state s.list.head prev (set_next (set_next s.next prev (s.next node)) node null)
  unfolding remove
  remove_last h t = ground arith

  remove_inner :
      prev ≢ null
      → s.list.tail ≢ node
      → remove s prev node
        ≡ state s.list.head s.list.tail (set_next (set_next s.next prev (s.next node)) node null)
  unfolding remove
  remove_inner h t = ground arith

-- The last of a list behind another is its own.
last_behind :
    (xs : List Ptr) (x y : Ptr) (ys : List Ptr) → last (xs ++ x ∷ (y ∷ ys)) ≡ last (y ∷ ys)
last_behind xs x y ys = last-append xs x (y ∷ ys)

module _ (s : State) (x : Ptr) (xs : List Ptr) (node q : Ptr) (after : List Ptr)
    (front : Seg s.next s.list.head (x ∷ xs) q) (back : Seg s.next q (node ∷ after) null)
    (apart : Disjoint (x ∷ xs) (node ∷ after)) where
  -- The links behind the removal lead past the node.
  bypass :
      Seg
        (set_next (set_next s.next (last (x ∷ xs)) (s.next node)) node null)
        s.list.head
        ((x ∷ xs) ++ after)
        null
  bypass =
      let prev = last (x ∷ xs) in
      let jump = s.next node in
      let next₁ = set_next s.next prev jump in
      let prev_out = not-has_of_Disjoint prev (x ∷ xs) (node ∷ after) apart (has-last x xs) in
      let prev_out' : has prev after ≡ false = ground (arith, prev_out) in
      let node_in : has node (node ∷ after) ≡ true = ground arith in
      let node_out = not-has_front node (x ∷ xs) (node ∷ after) apart node_in in
      Seg-append (set_next next₁ node null) s.list.head (x ∷ xs) jump after null
        (frame_set next₁ s.list.head (x ∷ xs) jump node null node_out
          (relink s.next s.list.head x xs q jump front))
        (frame_set next₁ jump after null node null back.2
          (frame_set s.next jump after null prev jump prev_out' back.3))
        (Disjoint-tail (x ∷ xs) node after apart)

remove_behind :
    {s : State} (x : Ptr) (xs : List Ptr) (node : Ptr) (after : List Ptr)
    → Holds s ((x ∷ xs) ++ node ∷ after)
    → (q : Ptr) → Seg s.next s.list.head (x ∷ xs) q
    → Seg s.next q (node ∷ after) null
    → Disjoint (x ∷ xs) (node ∷ after)
    → Holds (remove s (last (x ∷ xs)) node) ((x ∷ xs) ++ after)
remove_behind {s} x xs node [] h q front back apart =
    let nn = last-ne-null s.next s.list.head x xs q front in
    let end : s.list.tail ≡ node = h.ends ∙ last-append (x ∷ xs) node [] in
    rw (remove_last s (last (x ∷ xs)) node nn end) (record {
      chain = bypass s x xs node q [] front back apart;
      ends = ap last (sym (append-nil (x ∷ xs)));
    })
remove_behind {s} x xs node (y ∷ ys) h q front back apart =
    let nn = last-ne-null s.next s.list.head x xs q front in
    let end : s.list.tail ≡ last (y ∷ ys) = h.ends ∙ last_behind (x ∷ xs) node y ys in
    let ne = apart_of_has node (last (y ∷ ys)) (y ∷ ys) back.2 (has-last y ys) in
    rw (remove_inner s (last (x ∷ xs)) node nn (λ e. ne (sym e ∙ end))) (record {
      chain = bypass s x xs node q (y ∷ ys) front back apart;
      ends = end ∙ sym (last-append (x ∷ xs) y ys);
    })

-- Removing a node, given its predecessor or NULL for the first, leaves the others in order.
pub remove-Holds :
    {s : State} (before : List Ptr) (node : Ptr) (after : List Ptr)
    → Holds s (before ++ node ∷ after)
    → Holds (remove s (last before) node) (before ++ after)
remove-Holds {s} [] node [] h =
    rw (remove_first_last s null node refl h.ends) (record { chain = h.chain.3; ends = h.chain.3 })
remove-Holds {s} [] node (y ∷ ys) h =
    let ne = apart_of_has node (last (y ∷ ys)) (y ∷ ys) h.chain.2 (has-last y ys) in
    rw (remove_first s null node refl (λ e. ne (sym e ∙ h.ends))) (record {
      chain = frame_set s.next (s.next node) (y ∷ ys) null node null h.chain.2 h.chain.3;
      ends = h.ends;
    })
remove-Holds {s} (x ∷ xs) node after h =
    let (q, front, back, apart) =
      Seg-split s.next s.list.head (x ∷ xs) (node ∷ after) null h.chain in
    remove_behind x xs node after h q front back apart

-- The list without the first occurrence of a node.
abbrev pub erase : Ptr → List Ptr → List Ptr
erase node [] = []
erase node (x ∷ xs) = if x == node then xs else x ∷ erase node xs

module _ (fuel : ℕ) (s : State) (node prev test : Ptr) where
  find_end : test ≡ null → find_and_remove_from (suc fuel) s node prev test ≡ some (false, s)
  unfolding find_and_remove_from
  find_end h = ground arith

  find_hit :
      test ≢ null
      → test ≡ node
      → find_and_remove_from (suc fuel) s node prev test ≡ some (true, remove s prev node)
  unfolding find_and_remove_from
  find_hit h e = ground arith

  find_miss :
      test ≢ null
      → test ≢ node
      → find_and_remove_from (suc fuel) s node prev test
        ≡ find_and_remove_from fuel s node test (s.next test)
  unfolding find_and_remove_from
  find_miss h e = ground arith

find_from-Holds :
    (fuel : ℕ) {s : State} (before rest : List Ptr) (node test : Ptr)
    → length rest < fuel
    → Holds s (before ++ rest)
    → Seg s.next test rest null
    → (s' : State) × (find_and_remove_from fuel s node (last before) test
        ≡ some (has node rest, s'))
      × Holds s' (before ++ erase node rest)
      × ((has node rest ≡ false) → s' ≡ s)
find_from-Holds zero before rest node test f h t = absurd (omega arith)
find_from-Holds (suc fuel) {s} before [] node test f h t =
    (s, find_end fuel s node (last before) test t, h, λ e. refl)
find_from-Holds (suc fuel) {s} before (x ∷ xs) node test f h t = elim (ℕ_discrete x node) [
  | yes e ↦
      rw (← e, ==_self x)
        (
          remove s (last before) x,
          find_hit fuel s x (last before) test (λ z. t.1 (sym t.0 ∙ z)) t.0,
          remove-Holds before x xs h,
          λ z. cc,
        )
  | no ne ↦
      let ih =
        find_from-Holds fuel {s = s} (before ++ x ∷ []) xs node (s.next x) (omega arith)
          (rw (append_assoc before (x ∷ []) xs) h) t.3 in
      let step =
        find_miss fuel s node (last before) test (λ z. t.1 (sym t.0 ∙ z)) (λ z. ne (sym t.0 ∙ z)) in
      rw (==_ne x node ne, ==_ne node x (λ e. ne (sym e)))
        (
          ih.0,
          step ∙ rw t.0 (rw (last-append before x []) at ih.1),
          rw (append_assoc before (x ∷ []) (erase node xs)) at ih.2,
          ih.3,
        )
]

-- Searching for a node and removing it says whether the list holds it and, with more fuel than the
-- list has nodes, leaves the list without that node, and unchanged if it is not there.
pub find_and_remove-Holds :
    (fuel : ℕ) {s : State} (xs : List Ptr) (node : Ptr)
    → length xs < fuel
    → Holds s xs
    → (s' : State) × (find_and_remove fuel s node ≡ some (has node xs, s'))
      × Holds s' (erase node xs)
      × ((has node xs ≡ false) → s' ≡ s)
unfolding find_and_remove
find_and_remove-Holds fuel xs node f h = find_from-Holds fuel [] xs node _ f h h.chain

size_from_lem :
    (fuel : ℕ) (next : Links) (test : Ptr) (xs : List Ptr) (len : ℕ)
    → length xs < fuel
    → Seg next test xs null
    → size_from fuel next test len ≡ some (len + length xs)
unfolding size_from
size_from_lem zero next test xs len f t = absurd (omega arith)
size_from_lem (suc fuel) next test [] len f t = ground arith
size_from_lem (suc fuel) next test (x ∷ xs) len f t =
    ground (arith, size_from_lem fuel next (next x) xs (len + 1), t)

-- With more fuel than the list has nodes, the size is their number.
pub size-length :
    (fuel : ℕ) {s : State} (xs : List Ptr)
    → length xs < fuel
    → Holds s xs
    → size fuel s ≡ some (length xs)
unfolding size
size-length fuel {s} xs f h = size_from_lem fuel s.next s.list.head xs 0 f h.chain ∙ ground arith
