-- ===== src/Slist/Ops.antt =====
-- Adding nodes at either end, and taking the first, as operations on the sequence of nodes.
use zephyr_polling.Prelude.{◌≡◌, refl, sym, ◌≢◌, false, List, [], ◌∷◌, ◌++◌, arith}
use zephyr_polling.Slist.{Ptr, null, Links, State, set_next, prepend, append, append_list, get}
use zephyr_polling.Slist.Chain.{
  has, Seg, last, Holds, Disjoint, frame_set, relink, Seg-append, last-append, last-ne-null,
  Disjoint-one, has-last, apart_of_has, not-has_of_Disjoint,
}

-- The state with that list and those links.
abbrev pub state : (head tail : Ptr) → Links → State
state head tail next = record { list = record { head = head; tail = tail }; next = next }

pub set_next_self : (next : Links) (node to : Ptr) → set_next next node to node ≡ to
set_next_self next node to = ground arith

-- What each operation computes, by whether the list has a last node.
module _ (s : State) (node : Ptr) where
  prepend_first :
      s.list.tail ≡ null → prepend s node ≡ state node node (set_next s.next node s.list.head)
  unfolding prepend
  prepend_first h = ground arith

  prepend_more :
      s.list.tail ≢ null
      → prepend s node ≡ state node s.list.tail (set_next s.next node s.list.head)
  unfolding prepend
  prepend_more h = ground arith

  append_first : s.list.tail ≡ null → append s node ≡ state node node (set_next s.next node null)
  unfolding append
  append_first h = ground arith

  append_more :
      s.list.tail ≢ null
      → append s node
        ≡ state s.list.head node (set_next (set_next s.next node null) s.list.tail node)
  unfolding append
  append_more h = ground arith

module _ (s : State) (head tail : Ptr) where
  append_list_first : s.list.tail ≡ null → append_list s head tail ≡ state head tail s.next
  unfolding append_list
  append_list_first h = ground arith

  append_list_more :
      s.list.tail ≢ null
      → append_list s head tail ≡ state s.list.head tail (set_next s.next s.list.tail head)
  unfolding append_list
  append_list_more h = ground arith

-- What taking the first node computes, by whether it is also the last.
module _ (s : State) (x : Ptr) where
  get_last : Holds s (x ∷ []) → get s ≡ (x, state (s.next x) (s.next x) s.next)
  unfolding get
  get_last h = ground (arith, h.chain, h.ends)

  get_more :
      (xs : List Ptr)
      → Holds s (x ∷ xs)
      → last (x ∷ xs) ≢ x
      → get s ≡ (x, state (s.next x) s.list.tail s.next)
  unfolding get
  get_more xs h ne = ground (arith, h.chain, h.ends)

-- Prepending a node that is not in the list puts it first.
pub prepend-Holds :
    {s : State} (xs : List Ptr) (node : Ptr)
    → Holds s xs
    → node ≢ null
    → has node xs ≡ false
    → Holds (prepend s node) (node ∷ xs)
prepend-Holds {s} [] node h nn out =
    rw (prepend_first s node h.ends) (record { chain = ground (arith, h.chain); ends = refl })
prepend-Holds {s} (x ∷ xs) node h nn out =
    let nl = last-ne-null s.next s.list.head x xs null h.chain in
    rw (prepend_more s node (ground (arith, h.ends, nl))) (record {
      chain = (
        refl,
        nn,
        out,
        rw (set_next_self s.next node s.list.head)
            (frame_set s.next s.list.head (x ∷ xs) null node s.list.head out h.chain),
      );
      ends = h.ends;
    })

-- Appending a node that is not in the list puts it last.
pub append-Holds :
    {s : State} (xs : List Ptr) (node : Ptr)
    → Holds s xs
    → node ≢ null
    → has node xs ≡ false
    → Holds (append s node) (xs ++ node ∷ [])
append-Holds {s} [] node h nn out =
    rw (append_first s node h.ends)
      (record { chain = (refl, nn, refl, set_next_self s.next node null); ends = refl })
append-Holds {s} (x ∷ xs) node h nn out =
    let nl = last-ne-null s.next s.list.head x xs null h.chain in
    let kept = frame_set s.next s.list.head (x ∷ xs) null node null out h.chain in
    let next' = set_next s.next node null in
    let ne = apart_of_has node (last (x ∷ xs)) (x ∷ xs) out (has-last x xs) in
    rw (append_more s node (ground (arith, h.ends, nl)), h.ends)
      (record {
        chain =
            Seg-append (set_next next' (last (x ∷ xs)) node) s.list.head (x ∷ xs) node (node ∷ [])
              null (relink next' s.list.head x xs null node kept)
              (refl, nn, refl, ground (arith, ne, set_next_self s.next node null))
              (Disjoint-one (x ∷ xs) node out);
        ends = sym (last-append (x ∷ xs) node []);
      })

-- Appending a nonempty chain of other nodes, given by its first and last node, appends them all.
pub append_list-Holds :
    {s : State} (xs : List Ptr) (y : Ptr) (ys : List Ptr)
    → Holds s xs
    → Seg s.next y (y ∷ ys) null
    → Disjoint xs (y ∷ ys)
    → Holds (append_list s y (last (y ∷ ys))) (xs ++ y ∷ ys)
append_list-Holds {s} [] y ys h t apart =
    rw (append_list_first s y (last (y ∷ ys)) h.ends) (record { chain = t; ends = refl })
append_list-Holds {s} (x ∷ xs) y ys h t apart =
    let nl = last-ne-null s.next s.list.head x xs null h.chain in
    let end = last (x ∷ xs) in
    let out = not-has_of_Disjoint end (x ∷ xs) (y ∷ ys) apart (has-last x xs) in
    rw (append_list_more s y (last (y ∷ ys)) (ground (arith, h.ends, nl)), h.ends)
      (record {
        chain =
            Seg-append (set_next s.next end y) s.list.head (x ∷ xs) y (y ∷ ys) null
              (relink s.next s.list.head x xs null y h.chain)
              (frame_set s.next y (y ∷ ys) null end y out t) apart;
        ends = sym (last-append (x ∷ xs) y ys);
      })

pub get-empty : {s : State} → Holds s [] → get s ≡ (null, s)
unfolding get
get-empty {s} h = ground (arith, h.chain)

-- Taking from a nonempty list returns its first node, leaves the others, and changes no link.
pub get-Holds :
    {s : State} (x : Ptr) (xs : List Ptr)
    → Holds s (x ∷ xs)
    → ((get s).0 ≡ x) × Holds (get s).1 xs × ((get s).1.next ≡ s.next)
get-Holds {s} x [] h =
    rw (get_last s x h) (refl, record { chain = h.chain.3; ends = h.chain.3 }, refl)
get-Holds {s} x (y ∷ ys) h =
    rw
      (get_more s x (y ∷ ys) h
        (λ e. apart_of_has x (last (y ∷ ys)) (y ∷ ys) h.chain.2 (has-last y ys) (sym e)))
      (refl, record { chain = h.chain.3; ends = h.ends }, refl)
