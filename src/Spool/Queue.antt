-- ===== src/Spool/Queue.antt =====
-- What a spool promises: a queue of at most `cap` pointers, oldest first.
use zephyr_polling.Prelude.{
  ℕ, Bool, true, false, Option, none, some, List, [], ◌∷◌, ◌++◌, ◌==◌, if◌then◌else◌, length,
}

pub data Op : Type 0 where
  put : ℕ → Op
  get : Op

-- What the caller sees of a call.
pub data Reply : Type 0 where
  stored : Bool → Reply
  taken : Option ℕ → Reply

abbrev pub push : ℕ → List ℕ → ℕ → Bool × List ℕ
push cap q x = if length q == cap then (false, q) else (true, q ++ x ∷ [])

abbrev pub pop : List ℕ → Option ℕ × List ℕ
pop [] = (none, [])
pop (x ∷ q) = (some x, q)

unfoldable pub run : ℕ → List ℕ → List Op → List Reply
run cap q [] = []
run cap q (put x ∷ ops) = let (s, q') = push cap q x in stored s ∷ run cap q' ops
run cap q (get ∷ ops) = let (o, q') = pop q in taken o ∷ run cap q' ops
