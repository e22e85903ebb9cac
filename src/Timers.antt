-- ===== src/Timers.antt =====
-- Timeouts, timers and work of src/common: the state that they share. A timeout is its address; the
-- list `timeout_list` is the addresses of the linked timeouts in order, first to last.
pub mod Timeout
pub mod Timer
use zephyr_polling.Prelude.{
  ℕ, ◌+◌, ◌%◌, ◌^◌, Bool, true, false, List, [], ◌∷◌, ltb, ◌==◌, if◌then◌else◌,
}

-- The two functions that `fn` of a timeout points to.
pub data Handler : Type 0 where
  timer work : Handler

-- The calls of the users' functions.
pub data Event : Type 0 where
  expired : ℕ → Event
  worked : ℕ → Event
  stopped : ℕ → Event

pub record State : Type 0 where
  pub list : List ℕ
  pub fn : ℕ → Handler
  pub dticks : ℕ → ℕ
  pub curr_tick : ℕ
  pub period : ℕ → ℕ
  pub status : ℕ → ℕ
  pub events : List Event

abbrev pub update {ℓ} : {A : Type ℓ} → (ℕ → A) → ℕ → A → ℕ → A
update f k v = λ i. if i == k then v else f i

-- `int32_t` comparison of two words.
abbrev pub slt32 : ℕ → ℕ → Bool
slt32 a b = ltb ((a + 2 ^ 31) % 2 ^ 32) ((b + 2 ^ 31) % 2 ^ 32)

-- `sys_dnode_is_linked`: the nodes of the list are linked, a node that was taken out is not.
abbrev pub contains : List ℕ → ℕ → Bool
contains [] t = false
contains (x ∷ xs) t = if x == t then true else contains xs t

-- `sys_dlist_remove`
abbrev pub without : List ℕ → ℕ → List ℕ
without [] t = []
without (x ∷ xs) t = let rest = without xs t in if x == t then xs else x ∷ rest
