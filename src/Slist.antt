-- ===== src/Slist.antt =====
-- The singly linked lists of src/utils/slist.h and src/utils/list_gen.h. A node is its address, 0 is
-- NULL, and the `next` pointers of all nodes are one function, which the operations update.
pub mod Chain
pub mod Ops
pub mod Search
pub mod Insert
pub mod Merge
use zephyr_polling.Prelude.{
  ℕ, zero, suc, ◌+◌, Bool, true, false, Option, none, some, ◌==◌, if◌then◌else◌,
}

abbrev pub Ptr : Type 0
Ptr = ℕ

abbrev pub null : Ptr
null = 0

-- The `next` field of every node.
abbrev pub Links : Type 0
Links = Ptr → Ptr

-- `sys_slist_t`
pub record SysSlist : Type 0 where
  pub head : Ptr
  pub tail : Ptr

pub record State : Type 0 where
  pub list : SysSlist
  pub next : Links

abbrev pub set_next : Links → Ptr → Ptr → Links
set_next next node to p = if p == node then to else next p

-- The setters of slist.h.
abbrev pub next_set : State → Ptr → Ptr → State
next_set s parent child = record s { next = set_next s.next parent child }

abbrev pub head_set : State → Ptr → State
head_set s node = record s { list = record { head = node; tail = s.list.tail } }

abbrev pub tail_set : State → Ptr → State
tail_set s node = record s { list = record { head = s.list.head; tail = node } }

abbrev pub empty : SysSlist
empty = record { head = null; tail = null }

abbrev pub init : State → State
init s = record s { list = empty }

abbrev pub is_empty : State → Bool
is_empty s = s.list.head == null

unfoldable pub prepend : State → Ptr → State
prepend s node =
    let s₁ = next_set s node s.list.head in
    let s₂ = head_set s₁ node in if s₂.list.tail == null then tail_set s₂ s₂.list.head else s₂

unfoldable pub append : State → Ptr → State
append s node =
    let s₁ = next_set s node null in
    if s₁.list.tail == null
    then head_set (tail_set s₁ node) node
    else tail_set (next_set s₁ s₁.list.tail node) node

unfoldable pub append_list : State → (head tail : Ptr) → State
append_list s head tail =
    let s₁ = if s.list.tail == null then head_set s head else next_set s s.list.tail head in
    tail_set s₁ tail

-- `sys_slist_merge_slist`: the second list is emptied.
unfoldable pub merge_slist : State → SysSlist → State × SysSlist
unfolding append_list
merge_slist s list_to_append = (append_list s list_to_append.head list_to_append.tail, empty)

unfoldable pub insert : State → (prev node : Ptr) → State
unfolding prepend append
insert s prev node =
    if prev == null
    then prepend s node
    else if s.next prev == null
    then append s node
    else next_set (next_set s node (s.next prev)) prev node

unfoldable pub get_not_empty : State → Ptr × State
get_not_empty s =
    let node = s.list.head in
    let s₁ = head_set s (s.next node) in
    (node, if s₁.list.tail == node then tail_set s₁ s₁.list.head else s₁)

-- The node, or NULL.
unfoldable pub get : State → Ptr × State
unfolding get_not_empty
get s = if is_empty s then (null, s) else get_not_empty s

unfoldable pub remove : State → (prev_node node : Ptr) → State
remove s prev_node node =
    next_set
      (if prev_node == null
        then (let s₁ = head_set s (s.next node) in
            if s₁.list.tail == node then tail_set s₁ s₁.list.head else s₁)
        else (let s₁ = next_set s prev_node (s.next node) in
            if s₁.list.tail == node then tail_set s₁ prev_node else s₁))
      node null

-- The loop of `sys_slist_find_and_remove` at the node `test`; `none` means that the fuel ran out.
unfoldable pub find_and_remove_from : ℕ → State → (node prev test : Ptr) → Option (Bool × State)
find_and_remove_from zero s node prev test = none
find_and_remove_from (suc fuel) s node prev test =
    let rest = find_and_remove_from fuel s node test (s.next test) in
    if test == null
    then some (false, s)
    else if test == node
    then some (true, remove s prev node)
    else rest

unfoldable pub find_and_remove : ℕ → State → Ptr → Option (Bool × State)
find_and_remove fuel s node = find_and_remove_from fuel s node null s.list.head

-- The count of `sys_slist_size` from the node `test` on.
unfoldable pub size_from : ℕ → Links → Ptr → ℕ → Option ℕ
size_from zero next test len = none
size_from (suc fuel) next test len =
    let rest = size_from fuel next (next test) (len + 1) in if test == null then some len else rest

unfoldable pub size : ℕ → State → Option ℕ
unfolding size_from
size fuel s = size_from fuel s.next s.list.head 0
