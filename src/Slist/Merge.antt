-- ===== src/Slist/Merge.antt =====
-- Joining two lists, and what happens where the second is empty.
use zephyr_polling.Prelude.{◌≡◌, refl, sym, ◌≢◌, ◌∙◌, List, [], ◌∷◌, ◌++◌, arith}
use zephyr_polling.Slist.{
  Ptr, null, Links, State, SysSlist, empty, set_next, append, append_list, merge_slist,
}
use zephyr_polling.Slist.Chain.{Holds, Disjoint, last-ne-null}
use zephyr_polling.Slist.Ops.{append_list-Holds, state}

-- A nonempty list that shares no node with the first is merged behind it, and is itself emptied.
pub merge_slist-Holds :
    {s : State} (other : SysSlist) (xs : List Ptr) (y : Ptr) (ys : List Ptr)
    → Holds s xs
    → Holds (record { list = other; next = s.next }) (y ∷ ys)
    → Disjoint xs (y ∷ ys)
    → let (s', other') = merge_slist s other in
      Holds s' (xs ++ y ∷ ys) × Holds (record { list = other'; next = s'.next }) []
unfolding merge_slist
merge_slist-Holds {s} other xs y ys h k apart =
    rw (k.ends, k.chain.0)
      (
        append_list-Holds xs y ys h (rw k.chain.0 at k.chain) apart,
        record { chain = refl; ends = refl },
      )

-- What the merge of an empty list computes.
module _ {s : State} (x : Ptr) (xs : List Ptr) (h : Holds s (x ∷ xs)) where
  merged_empty :
      merge_slist s empty ≡ (state s.list.head null (set_next s.next s.list.tail null), empty)
  unfolding merge_slist append_list
  merged_empty = ground (arith, last-ne-null s.next s.list.head x xs null h.chain, h.ends)

not-Holds_of_tail_null :
    (head : Ptr) (next : Links) (ys : List Ptr) → head ≢ null → ¬ Holds (state head null next) ys
not-Holds_of_tail_null head next [] ne h = ne h.chain
not-Holds_of_tail_null head next (y ∷ ys) ne h =
    last-ne-null next head y ys null h.chain (sym h.ends)

append_at_tail_null :
    (head node : Ptr) (next : Links) → (append (state head null next) node).list.head ≡ node
unfolding append
append_at_tail_null head node next = refl

-- Merging an empty list into a nonempty one resets the tail pointer: the list then holds no
-- sequence of nodes, and a node that is appended next becomes its head.
pub merge_slist-empty :
    {s : State} (x : Ptr) (xs : List Ptr) (node : Ptr)
    → Holds s (x ∷ xs)
    → ((ys : List Ptr) → ¬ Holds (merge_slist s empty).0 ys)
      × ((append (merge_slist s empty).0 node).list.head ≡ node)
merge_slist-empty {s} x xs node h =
    let e = merged_empty x xs h in
    let ne : s.list.head ≢ null = λ z. h.chain.1 (sym h.chain.0 ∙ z) in
    (
      λ ys k. not-Holds_of_tail_null s.list.head _ ys ne (rw e at k),
      rw e (append_at_tail_null s.list.head node (set_next s.next s.list.tail null)),
    )
