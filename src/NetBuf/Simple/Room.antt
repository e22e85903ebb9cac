-- ===== src/NetBuf/Simple/Room.antt =====
-- What a valid buffer holds, and how adding, pushing and pulling change it.
use zephyr_polling.Prelude.{
  ℕ, ◌+◌, ◌-◌, ◌≤◌, ◌<◌, ◌^◌, ◌≡◌, refl, none, some, List, ◌++◌, length, arith, window, write,
  length-write, length-window, window-write_end, window-write_front, window-append,
}
use zephyr_polling.NetBuf.Simple.{NetBufSimple, headroom, tailroom, add, push, pull, store}

pub record IsValid (b : NetBufSimple) : Type 0 where
  pub inside : b.head + b.len ≤ b.size
  pub storage : b.size ≤ length b.mem
  pub small : b.size < 2 ^ 16

-- The bytes that the buffer holds.
abbrev pub contents : NetBufSimple → List ℕ
contents b = window b.mem b.head b.len

pub length-contents : {b : NetBufSimple} → IsValid b → length (contents b) ≡ b.len
length-contents {b} v = length-window b.mem b.head b.len (omega arith)

-- The three rooms of a valid buffer make up its size.
pub rooms : {b : NetBufSimple} → IsValid b → headroom b + b.len + tailroom b ≡ b.size
unfolding headroom tailroom
rooms v = omega arith

-- The buffer after `xs` was stored behind the data.
abbrev pub added : NetBufSimple → List ℕ → NetBufSimple
added b xs = record b { mem = write b.mem (b.head + b.len) xs; len = b.len + length xs }

-- The buffer after `xs` was stored in front of the data.
abbrev pub pushed : NetBufSimple → List ℕ → NetBufSimple
pushed b xs = record b {
  mem = write b.mem (b.head - length xs) xs;
  head = b.head - length xs;
  len = b.len + length xs;
}

abbrev pub pulled : NetBufSimple → ℕ → NetBufSimple
pulled b n = record b { head = b.head + n; len = b.len - n }

module _ {b : NetBufSimple} (v : IsValid b) where
  pub store-add :
      (xs : List ℕ) (n : ℕ)
      → length xs ≡ n
      → n ≤ tailroom b
      → store (add b n) xs ≡ some (added b xs)
  unfolding store add
  store-add xs n e h = ground (arith)

  pub add-none : (xs : List ℕ) (n : ℕ) → tailroom b < n → store (add b n) xs ≡ none
  unfolding store add
  add-none xs n h = ground arith

  pub added-IsValid : (xs : List ℕ) → length xs ≤ tailroom b → IsValid (added b xs)
  unfolding tailroom
  added-IsValid xs h = omega (arith, length-write b.mem (b.head + b.len) xs)

  pub contents-added :
      (xs : List ℕ) → length xs ≤ tailroom b → contents (added b xs) ≡ contents b ++ xs
  unfolding tailroom
  contents-added xs h =
      window-write_end b.mem b.head b.len xs (b.head + b.len) (b.len + length xs) refl refl
        (omega arith)

  pub store-push :
      (xs : List ℕ) (n : ℕ)
      → length xs ≡ n
      → n ≤ headroom b
      → store (push b n) xs ≡ some (pushed b xs)
  unfolding store push
  store-push xs n e h = ground arith

  pub push-none : (xs : List ℕ) (n : ℕ) → headroom b < n → store (push b n) xs ≡ none
  unfolding store push
  push-none xs n h = ground arith

  pub pushed-IsValid : (xs : List ℕ) → length xs ≤ headroom b → IsValid (pushed b xs)
  unfolding headroom
  pushed-IsValid xs h = omega (arith, length-write b.mem (b.head - length xs) xs)

  pub contents-pushed :
      (xs : List ℕ) → length xs ≤ headroom b → contents (pushed b xs) ≡ xs ++ contents b
  unfolding headroom
  contents-pushed xs h =
      window-write_front b.mem (b.head - length xs) b.len xs b.head (b.len + length xs)
        (omega arith) (omega arith) (omega arith)

  pub pull-some : (n : ℕ) → n ≤ b.len → pull b n ≡ some (pulled b n)
  unfolding pull
  pull-some n h = ground arith

  pub pull-none : (n : ℕ) → b.len < n → pull b n ≡ none
  unfolding pull
  pull-none n h = ground arith

  pub pulled-IsValid : (n : ℕ) → n ≤ b.len → IsValid (pulled b n)
  pulled-IsValid n h = omega arith

  -- Pulling cuts the data at `n`.
  pub contents-pulled :
      (n : ℕ) → n ≤ b.len → contents b ≡ window b.mem b.head n ++ contents (pulled b n)
  contents-pulled n h =
      window-append b.mem b.head n (b.head + n) (b.len - n) b.len refl (omega arith)

pub tailroom-added :
    (b : NetBufSimple) (xs : List ℕ)
    → IsValid b
    → length xs ≤ tailroom b
    → tailroom (added b xs) ≡ tailroom b - length xs
unfolding tailroom headroom
tailroom-added b xs v h = omega arith
