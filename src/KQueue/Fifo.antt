-- ===== src/KQueue/Fifo.antt =====
-- A queue is a sequence of distinct nodes: what its calls do to that sequence.
use zephyr_polling.Prelude.{
  ℕ, zero, suc, ◌+◌, ◌<◌, ◌≡◌, refl, ap, ◌≢◌, Bool, true, false, not, Option, none, some, List, [],
  ◌∷◌, ◌++◌, arith, if◌then◌else◌, length, length-append, ◌≤◌, Bool-cases, inl, inr,
}
use zephyr_polling.Slist.{Ptr, null, State, SysSlist, insert, prepend, append}
use zephyr_polling.Slist
use zephyr_polling.Slist.Chain.{has, Seg, Holds, last-ne-null, next-last}
use zephyr_polling.Slist.Ops.{prepend-Holds, append-Holds, get-Holds, get-empty}
use zephyr_polling.Slist.Search.{erase, find_and_remove-Holds}
use zephyr_polling.KQueue.{
  queue_insert, k_queue_append, k_queue_prepend, k_queue_get, k_queue_remove, contains_from,
  k_queue_unique_append,
}

insert-null : (s : State) (node : Ptr) → insert s null node ≡ prepend s node
unfolding insert
insert-null s node = refl

insert_of_null : (s : State) (prev node : Ptr) → prev ≡ null → insert s prev node ≡ prepend s node
unfolding insert
insert_of_null s prev node h = ground arith

insert_at_end :
    (s : State) (prev node : Ptr)
    → prev ≢ null
    → s.next prev ≡ null
    → insert s prev node ≡ append s node
unfolding insert
insert_at_end s prev node h e = ground arith

pub k_queue_append-Holds :
    {s : State} (xs : List Ptr) (node : Ptr)
    → Holds s xs
    → node ≢ null
    → has node xs ≡ false
    → Holds (k_queue_append s node) (xs ++ node ∷ [])
unfolding k_queue_append queue_insert
k_queue_append-Holds {s} [] node h nn out =
    rw (insert_of_null s s.list.tail node h.ends) (prepend-Holds [] node h nn out)
k_queue_append-Holds {s} (x ∷ xs) node h nn out =
    let at : s.next s.list.tail ≡ null =
      rw h.ends (next-last s.next s.list.head x xs null h.chain) in
    let ne : s.list.tail ≢ null = rw h.ends (last-ne-null s.next s.list.head x xs null h.chain) in
    rw (insert_at_end s s.list.tail node ne at) (append-Holds (x ∷ xs) node h nn out)

pub k_queue_prepend-Holds :
    {s : State} (xs : List Ptr) (node : Ptr)
    → Holds s xs
    → node ≢ null
    → has node xs ≡ false
    → Holds (k_queue_prepend s node) (node ∷ xs)
unfolding k_queue_prepend queue_insert
k_queue_prepend-Holds {s} xs node h nn out = rw insert-null (prepend-Holds xs node h nn out)

contains_from-has :
    (fuel : ℕ) (s : State) (node test : Ptr) (xs : List Ptr)
    → length xs < fuel
    → Seg s.next test xs null
    → contains_from fuel s node test ≡ some (has node xs)
unfolding contains_from
contains_from-has zero s node test xs f t = absurd (omega arith)
contains_from-has (suc fuel) s node test [] f t = ground arith
contains_from-has (suc fuel) s node test (x ∷ xs) f t =
    ground (arith, contains_from-has fuel s node (s.next x) xs, t)

-- What the calls of a client ask for; `fuel` bounds the loops.
pub data Op : Type 0 where
  put put_front put_unique take_out : Ptr → Op
  get : Op

pub data Reply : Type 0 where
  done : Reply
  answer : Bool → Reply
  node : Ptr → Reply

abbrev pub answered : Option (Bool × State) → Option (Reply × State)
answered none = none
answered (some (b, s)) = some (answer b, s)

-- One call; `none` means that a loop ran out of fuel.
unfoldable pub step : ℕ → State → Op → Option (Reply × State)
step fuel s (put p) = some (done, k_queue_append s p)
step fuel s (put_front p) = some (done, k_queue_prepend s p)
step fuel s (put_unique p) = answered (k_queue_unique_append fuel s p)
step fuel s (take_out p) = answered (k_queue_remove fuel s p)
step fuel s get = let (p, s') = k_queue_get s in some (node p, s')

-- The same call on a sequence of nodes.
unfoldable pub spec : List Ptr → Op → Reply × List Ptr
spec xs (put p) = (done, xs ++ p ∷ [])
spec xs (put_front p) = (done, p ∷ xs)
spec xs (put_unique p) = if has p xs then (answer false, xs) else (answer true, xs ++ p ∷ [])
spec xs (take_out p) = (answer (has p xs), erase p xs)
spec [] get = (node null, [])
spec (x ∷ xs) get = (node x, xs)

-- A client adds no NULL, and no node that the queue already holds, unless it asks for that check.
abbrev pub Admits : List Ptr → Op → Type 0
Admits xs (put p) = (p ≢ null) × (has p xs ≡ false)
Admits xs (put_front p) = (p ≢ null) × (has p xs ≡ false)
Admits xs (put_unique p) = p ≢ null
Admits xs (take_out p) = Unit
Admits xs get = Unit

unique_append-Holds :
    (fuel : ℕ) {s : State} (xs : List Ptr) (p : Ptr)
    → length xs < fuel
    → Holds s xs
    → p ≢ null
    → (s' : State) × (k_queue_unique_append fuel s p ≡ some (not (has p xs), s'))
      × Holds s' (if has p xs then xs else xs ++ p ∷ [])
unfolding k_queue_unique_append
unique_append-Holds fuel {s} xs p f h nn =
    let e = contains_from-has fuel s p s.list.head xs f h.chain in
    elim (Bool-cases (has p xs)) [
      | inl there ↦ rw there (s, found e there, h)
      | inr out ↦ rw out (k_queue_append s p, missing e out, k_queue_append-Holds xs p h nn out)
    ]
  where
    found :
        contains_from fuel s p s.list.head ≡ some (has p xs)
        → has p xs ≡ true
        → k_queue_unique_append fuel s p ≡ some (false, s)
    found e there = rw (e, there, k_queue_unique_append)

    missing :
        contains_from fuel s p s.list.head ≡ some (has p xs)
        → has p xs ≡ false
        → k_queue_unique_append fuel s p ≡ some (true, k_queue_append s p)
    missing e out = rw (e, out, k_queue_unique_append)

-- On a queue that holds a sequence, an admitted call with fuel for its length replies as that call
-- on the sequence, and leaves the queue holding the new sequence.
pub step_refines :
    (fuel : ℕ) {s : State} (xs : List Ptr) (op : Op)
    → length xs < fuel
    → Holds s xs
    → Admits xs op
    → (s' : State) × (step fuel s op ≡ some ((spec xs op).0, s')) × Holds s' (spec xs op).1
unfolding step spec k_queue_remove k_queue_get
step_refines fuel {s} xs (put p) f h a =
    (k_queue_append s p, refl, k_queue_append-Holds xs p h a.0 a.1)
step_refines fuel {s} xs (put_front p) f h a =
    (k_queue_prepend s p, refl, k_queue_prepend-Holds xs p h a.0 a.1)
step_refines fuel {s} xs (put_unique p) f h a =
    let (s', e, k) = unique_append-Holds fuel xs p f h a in
    elim (Bool-cases (has p xs)) [
      | inl there ↦ (s', rw (e, there) refl, rw there (rw there at k))
      | inr out ↦ (s', rw (e, out) refl, rw out (rw out at k))
    ]
step_refines fuel {s} xs (take_out p) f h a =
    let (s', e, k, same) = find_and_remove-Holds fuel xs p f h in (s', rw e refl, k)
step_refines fuel {s} [] get f h a = (s, rw (get-empty h) refl, h)
step_refines fuel {s} (x ∷ xs) get f h a =
    let r = get-Holds x xs h in ((Slist.get s).1, ap (λ q. some (node q, (Slist.get s).1)) r.0, r.1)

-- A client's calls in order, with their replies and the last state.
unfoldable pub run : ℕ → State → List Op → Option (List Reply × State)
run fuel s [] = some ([], s)
run fuel s (op ∷ ops) = elim (step fuel s op) [
  | none ↦ none
  | some (r, s') ↦ elim (run fuel s' ops) [ none ↦ none | some (rs, s'') ↦ some (r ∷ rs, s'') ]
]

unfoldable pub spec_run : List Ptr → List Op → List Reply × List Ptr
spec_run xs [] = ([], xs)
spec_run xs (op ∷ ops) =
    let (r, xs') = spec xs op in let (rs, xs'') = spec_run xs' ops in (r ∷ rs, xs'')

abbrev pub AdmitsAll : List Ptr → List Op → Type 0
AdmitsAll xs [] = Unit
AdmitsAll xs (op ∷ ops) = Admits xs op × AdmitsAll (spec xs op).1 ops

length-erase : (a : Ptr) (xs : List Ptr) → length (erase a xs) ≤ length xs
length-erase a [] = omega arith
length-erase a (x ∷ xs) = ground (arith, length-erase a xs)

length-spec : (xs : List Ptr) (op : Op) → length (spec xs op).1 ≤ length xs + 1
unfolding spec
length-spec xs (put p) = omega (arith, length-append xs (p ∷ []))
length-spec xs (put_front p) = omega arith
length-spec xs (put_unique p) = ground (arith, length-append xs (p ∷ []))
length-spec xs (take_out p) = omega (arith, length-erase p xs)
length-spec [] get = omega arith
length-spec (x ∷ xs) get = omega arith

-- Admitted calls in any order, with fuel for the queue and the calls, reply as the same calls on the
-- sequence that the queue held at first, and leave the queue holding the sequence that results.
pub queue_run_refines :
    (fuel : ℕ) {s : State} (xs : List Ptr) (ops : List Op)
    → length xs + length ops < fuel
    → Holds s xs
    → AdmitsAll xs ops
    → (s' : State) × (run fuel s ops ≡ some ((spec_run xs ops).0, s'))
      × Holds s' (spec_run xs ops).1
unfolding run spec_run
queue_run_refines fuel {s} xs [] f h a = (s, refl, h)
queue_run_refines fuel {s} xs (op ∷ ops) f h a =
    let (s', e, k) = step_refines fuel xs op (omega arith) h a.0 in
    let (s'', e', k') =
      queue_run_refines fuel {s = s'} (spec xs op).1 ops (omega (arith, length-spec xs op)) k a.1 in
    (s'', rw (e, run) (rw (e', run) refl), k')
