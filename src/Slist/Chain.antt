-- ===== src/Slist/Chain.antt =====
-- What a linked list stands for: the addresses of its nodes, in order.
use zephyr_polling.Prelude.{
  ◌≡◌, refl, ap, ◌≢◌, Bool, true, false, ◌||◌, List, [], ◌∷◌, ◌++◌, arith, ◌==◌,
}
use zephyr_polling.Slist.{Ptr, null, Links, State, set_next}

abbrev pub has : Ptr → List Ptr → Bool
has p [] = false
has p (x ∷ xs) = p == x || has p xs

-- `next` leads from `p` through the distinct nodes `xs` to `stop`.
abbrev pub Seg : Links → Ptr → List Ptr → Ptr → Type 0
Seg next p [] stop = p ≡ stop
Seg next p (x ∷ xs) stop = (p ≡ x) × (x ≢ null) × (has x xs ≡ false) × Seg next (next x) xs stop

abbrev pub last : List Ptr → Ptr
last [] = null
last (x ∷ []) = x
last (x ∷ (y ∷ ys)) = last (y ∷ ys)

-- The list holds exactly the nodes `xs`, and `tail` is the last of them.
pub record Holds (s : State) (xs : List Ptr) : Type 0 where
  pub chain : Seg s.next s.list.head xs null
  pub ends : s.list.tail ≡ last xs

abbrev pub Disjoint : List Ptr → List Ptr → Type 0
Disjoint [] ys = Unit
Disjoint (x ∷ xs) ys = (has x ys ≡ false) × Disjoint xs ys

pub has-append : (a : Ptr) (xs ys : List Ptr) → has a (xs ++ ys) ≡ (has a xs || has a ys)
has-append a [] ys = refl
has-append a (x ∷ xs) ys = ground (arith, has-append a xs ys)

-- A segment survives a change of links outside it.
pub frame :
    (next to : Links) (p : Ptr) (xs : List Ptr) (stop : Ptr)
    → ((a : Ptr) → has a xs ≡ true → to a ≡ next a)
    → Seg next p xs stop
    → Seg to p xs stop
frame next to p [] stop same s = s
frame next to p (x ∷ xs) stop same s = (
  s.0,
  s.1,
  s.2,
  let e : to x ≡ next x = same x (ground arith) in
      rw e (frame next to (next x) xs stop (λ a h. same a (ground arith)) s.3),
)

pub frame_set :
    (next : Links) (p : Ptr) (xs : List Ptr) (stop node to : Ptr)
    → has node xs ≡ false
    → Seg next p xs stop
    → Seg (set_next next node to) p xs stop
frame_set next p xs stop node to out s =
    frame next (set_next next node to) p xs stop (λ a h. away a h) s
  where
    away : (a : Ptr) → has a xs ≡ true → set_next next node to a ≡ next a
    away a h = ground arith

pub has-last : (x : Ptr) (xs : List Ptr) → has (last (x ∷ xs)) (x ∷ xs) ≡ true
has-last x [] = ground arith
has-last x (y ∷ ys) = ground (arith, has-last y ys)

pub apart_of_has : (a b : Ptr) (xs : List Ptr) → has a xs ≡ false → has b xs ≡ true → a ≢ b
apart_of_has a b xs out in_ e = cc (ap (λ k. has k xs) e)

-- Redirecting the last link of a nonempty segment redirects the segment.
pub relink :
    (next : Links) (p x : Ptr) (xs : List Ptr) (stop to : Ptr)
    → Seg next p (x ∷ xs) stop
    → Seg (set_next next (last (x ∷ xs)) to) p (x ∷ xs) to
relink next p x [] stop to s = (s.0, s.1, s.2, ground arith)
relink next p x (y ∷ ys) stop to s =
    let inside = has-last y ys in
    (
      s.0,
      s.1,
      s.2,
      let e : set_next next (last (y ∷ ys)) to x ≡ next x =
            ground (arith, apart_of_has x (last (y ∷ ys)) (y ∷ ys) s.2 inside) in
          rw e (relink next (next x) y ys stop to s.3),
    )

pub Seg-append :
    (next : Links) (p : Ptr) (xs : List Ptr) (q : Ptr) (ys : List Ptr) (stop : Ptr)
    → Seg next p xs q
    → Seg next q ys stop
    → Disjoint xs ys
    → Seg next p (xs ++ ys) stop
Seg-append next p [] q ys stop s t apart = rw s t
Seg-append next p (x ∷ xs) q ys stop s t apart = (
  s.0,
  s.1,
  rw (has-append x xs ys) (ground arith),
  Seg-append next (next x) xs q ys stop s.3 t apart.1,
)

pub last-append : (xs : List Ptr) (y : Ptr) (ys : List Ptr) → last (xs ++ y ∷ ys) ≡ last (y ∷ ys)
last-append [] y ys = refl
last-append (x ∷ []) y ys = refl
last-append (x ∷ (x' ∷ xs)) y ys = last-append (x' ∷ xs) y ys

-- The last node of a nonempty list is no NULL.
pub last-ne-null :
    (next : Links) (p x : Ptr) (xs : List Ptr) (stop : Ptr)
    → Seg next p (x ∷ xs) stop
    → last (x ∷ xs) ≢ null
last-ne-null next p x [] stop s = s.1
last-ne-null next p x (y ∷ ys) stop s = last-ne-null next (next x) y ys stop s.3

-- The link of the last node leads to the end of the segment.
pub next-last :
    (next : Links) (p x : Ptr) (xs : List Ptr) (stop : Ptr)
    → Seg next p (x ∷ xs) stop
    → next (last (x ∷ xs)) ≡ stop
next-last next p x [] stop s = s.3
next-last next p x (y ∷ ys) stop s = next-last next (next x) y ys stop s.3

pub Disjoint-one : (xs : List Ptr) (y : Ptr) → has y xs ≡ false → Disjoint xs (y ∷ [])
Disjoint-one [] y h = tt
Disjoint-one (x ∷ xs) y h = (ground arith, Disjoint-one xs y (ground arith))

pub not-has_of_Disjoint :
    (a : Ptr) (xs ys : List Ptr) → Disjoint xs ys → has a xs ≡ true → has a ys ≡ false
not-has_of_Disjoint a [] ys d h = cc
not-has_of_Disjoint a (x ∷ xs) ys d h = ground (arith, not-has_of_Disjoint a xs ys d.1)

-- A segment splits where its sequence does.
pub Seg-split :
    (next : Links) (p : Ptr) (xs ys : List Ptr) (stop : Ptr)
    → Seg next p (xs ++ ys) stop
    → (q : Ptr) × Seg next p xs q × Seg next q ys stop × Disjoint xs ys
Seg-split next p [] ys stop s = (p, refl, s, tt)
Seg-split next p (x ∷ xs) ys stop s =
    let (q, front, back, apart) = Seg-split next (next x) xs ys stop s.3 in
    let out = has-append x xs ys in
    (q, (s.0, s.1, ground (arith, out, s.2), front), back, (ground (arith, out, s.2), apart))

-- Where a segment starts is known from its first node, or from its end.
pub Seg-start :
    (next : Links) (p q : Ptr) (xs : List Ptr) (stop : Ptr)
    → Seg next p xs stop
    → Seg next q xs stop
    → p ≡ q
Seg-start next p q [] stop s t = cc
Seg-start next p q (x ∷ xs) stop s t = cc (s.0, t.0)

pub Disjoint-tail :
    (xs : List Ptr) (y : Ptr) (ys : List Ptr) → Disjoint xs (y ∷ ys) → Disjoint xs ys
Disjoint-tail [] y ys d = tt
Disjoint-tail (x ∷ xs) y ys d = (ground (arith, d.0), Disjoint-tail xs y ys d.1)

-- A node of the second list is not in the first.
pub not-has_front :
    (a : Ptr) (xs ys : List Ptr) → Disjoint xs ys → has a ys ≡ true → has a xs ≡ false
not-has_front a [] ys d h = refl
not-has_front a (x ∷ xs) ys d h =
    ground (arith, not-has_front a xs ys d.1 h, apart_of_has x a ys d.0 h)
