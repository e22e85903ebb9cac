-- ===== src/Slist/Insert.antt =====
-- Inserting a node behind a given one.
use zephyr_polling.Prelude.{
  ◌≡◌, refl, sym, ◌≢◌, ◌∙◌, false, List, [], ◌∷◌, ◌++◌, arith, append_assoc,
}
use mathlib.Core.Path.{subst}
use zephyr_polling.Slist.{Ptr, null, Links, State, set_next, append, insert}
use zephyr_polling.Slist.Chain.{
  has, Seg, Holds, Disjoint, has-append, frame_set, relink, Seg-append, Seg-split, last-append,
}
use zephyr_polling.Slist.Ops.{state, append-Holds}

module _ (s : State) (prev node : Ptr) where
  insert_end : prev ≢ null → s.next prev ≡ null → insert s prev node ≡ append s node
  unfolding insert
  insert_end h e = ground arith

  insert_inner :
      prev ≢ null
      → s.next prev ≢ null
      → insert s prev node
        ≡ state s.list.head s.list.tail (set_next (set_next s.next node (s.next prev)) prev node)
  unfolding insert
  insert_inner h e = ground arith

-- A segment's links up to its last node can be redirected there.
relink_at :
    (next : Links) (p : Ptr) (xs : List Ptr) (prev stop to : Ptr)
    → Seg next p (xs ++ prev ∷ []) stop
    → Seg (set_next next prev to) p (xs ++ prev ∷ []) to
relink_at next p [] prev stop to s = relink next p prev [] stop to s
relink_at next p (x ∷ xs) prev stop to s =
    subst (λ a. Seg (set_next next a to) p (x ∷ (xs ++ prev ∷ [])) to)
      (last-append (x ∷ xs) prev []) (relink next p x (xs ++ prev ∷ []) stop to s)

module _ (s : State) (before : List Ptr) (prev y : Ptr) (ys : List Ptr) (node q : Ptr)
    (front : Seg s.next s.list.head (before ++ prev ∷ []) q) (back : Seg s.next q (y ∷ ys) null)
    (apart : Disjoint (before ++ prev ∷ []) (y ∷ ys)) where
  spliced :
      node ≢ null
      → has prev (y ∷ ys) ≡ false
      → has node (before ++ prev ∷ []) ≡ false
      → has node (y ∷ ys) ≡ false
      → node ≢ prev
      → Disjoint (before ++ prev ∷ []) (node ∷ (y ∷ ys))
      → Seg
          (set_next (set_next s.next node y) prev node)
          s.list.head
          ((before ++ prev ∷ []) ++ node ∷ (y ∷ ys))
          null
  spliced nn prev_out out_front out_back ne apart' =
      let next₁ = set_next s.next node y in
      let next₂ = set_next next₁ prev node in
      let at : next₂ node ≡ y = ground (arith, ne) in
      Seg-append next₂ s.list.head (before ++ prev ∷ []) node (node ∷ (y ∷ ys)) null
        (relink_at next₁ s.list.head before prev q node
          (frame_set s.next s.list.head (before ++ prev ∷ []) q node y out_front front))
        (
          refl,
          nn,
          out_back,
          rw at (
              frame_set next₁ y (y ∷ ys) null prev node prev_out
                (frame_set s.next y (y ∷ ys) null node y out_back (rw back.0 at back))),
        )
        apart'

Disjoint-cons :
    (xs : List Ptr) (a : Ptr) (ys : List Ptr)
    → has a xs ≡ false
    → Disjoint xs ys
    → Disjoint xs (a ∷ ys)
Disjoint-cons [] a ys h d = tt
Disjoint-cons (x ∷ xs) a ys h d = (ground (arith, d.0), Disjoint-cons xs a ys (ground arith) d.1)

-- Inserting a node that is not in the list behind a node of it puts it there.
pub insert-Holds :
    {s : State} (before : List Ptr) (prev : Ptr) (after : List Ptr) (node : Ptr)
    → Holds s (before ++ prev ∷ after)
    → node ≢ null
    → has node (before ++ prev ∷ after) ≡ false
    → Holds (insert s prev node) (before ++ prev ∷ (node ∷ after))
insert-Holds {s} before prev [] node h nn out =
    let (q, front, back, apart) = Seg-split s.next s.list.head before (prev ∷ []) null h.chain in
    let at : s.next prev ≡ null = back.3 in
    rw (insert_end s prev node back.1 at, ← append_assoc before (prev ∷ []) (node ∷ []))
      (append-Holds (before ++ prev ∷ []) node h nn out)
insert-Holds {s} before prev (y ∷ ys) node h nn out =
    let split : before ++ prev ∷ (y ∷ ys) ≡ (before ++ prev ∷ []) ++ (y ∷ ys) =
      sym (append_assoc before (prev ∷ []) (y ∷ ys)) in
    let (q, front, back, apart) =
      Seg-split s.next s.list.head (before ++ prev ∷ []) (y ∷ ys) null (rw split at h.chain) in
    let (q', front', back', apart') =
      Seg-split s.next s.list.head before (prev ∷ (y ∷ ys)) null h.chain in
    let outs = has-append node (before ++ prev ∷ []) (y ∷ ys) in
    let out' : has node ((before ++ prev ∷ []) ++ (y ∷ ys)) ≡ false = rw split at out in
    let out_front : has node (before ++ prev ∷ []) ≡ false = ground (arith, outs, out') in
    let out_back : has node (y ∷ ys) ≡ false = ground (arith, outs, out') in
    let out_prev = has-append node before (prev ∷ []) in
    let ne : node ≢ prev = ground (arith, out_prev, out_front) in
    let link : s.next prev ≡ y = back'.3.0 in
    rw
      (
        insert_inner s prev node back'.1 (λ z. back'.3.1 (sym link ∙ z)),
        link,
        ← append_assoc before (prev ∷ []) (node ∷ (y ∷ ys)),
      )
      (record {
        chain =
            spliced s before prev y ys node q front back apart nn back'.2 out_front out_back ne
              (Disjoint-cons (before ++ prev ∷ []) node (y ∷ ys) out_front apart);
        ends =
            h.ends
            ∙ last-append before prev (y ∷ ys)
            ∙ sym (last-append (before ++ prev ∷ []) node (y ∷ ys));
      })
