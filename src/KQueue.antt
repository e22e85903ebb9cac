-- ===== src/KQueue.antt =====
-- The queues of src/utils/k_queue.c and the FIFOs of src/utils/k_fifo.h, which are linked lists of
-- nodes that the caller owns. The state is that of the list and of all links.
pub mod Fifo
use zephyr_polling.Prelude.{
  ℕ, zero, suc, Bool, true, false, Option, none, some, ◌==◌, if◌then◌else◌,
}
use zephyr_polling.Slist.{
  Ptr, null, State, SysSlist, init, is_empty, insert, append_list, merge_slist, get,
  find_and_remove,
}

unfoldable pub queue_insert : State → (prev data_ : Ptr) → (alloc is_append : Bool) → State
queue_insert queue prev data_ alloc is_append =
    let prev' = if is_append then queue.list.tail else prev in insert queue prev' data_

pub k_queue_init : State → State
k_queue_init queue = init queue

pub k_queue_insert : State → (prev data_ : Ptr) → State
unfolding queue_insert
k_queue_insert queue prev data_ = queue_insert queue prev data_ false false

pub k_queue_append : State → Ptr → State
k_queue_append queue data_ = queue_insert queue null data_ false true

pub k_queue_prepend : State → Ptr → State
k_queue_prepend queue data_ = queue_insert queue null data_ false false

-- The `alloc` variants allocate nothing: the assertion there holds of every call.
pub k_queue_alloc_append : State → Ptr → State
k_queue_alloc_append queue data_ = queue_insert queue null data_ true true

pub k_queue_alloc_prepend : State → Ptr → State
k_queue_alloc_prepend queue data_ = queue_insert queue null data_ true false

unfoldable pub k_queue_append_list : State → (head tail : Ptr) → State
k_queue_append_list queue head tail = append_list queue head tail

pub k_queue_merge_slist : State → SysSlist → State × SysSlist
k_queue_merge_slist queue list = merge_slist queue list

unfoldable pub k_queue_get : State → Ptr × State
k_queue_get queue = get queue

pub k_queue_remove : ℕ → State → Ptr → Option (Bool × State)
k_queue_remove fuel queue data_ = find_and_remove fuel queue data_

-- The loop of `k_queue_unique_append` from the node `test` on: whether it meets `data_`.
contains_from : ℕ → State → (data_ test : Ptr) → Option Bool
contains_from zero queue data_ test = none
contains_from (suc fuel) queue data_ test =
    let rest = contains_from fuel queue data_ (queue.next test) in
    if test == null then some false else if test == data_ then some true else rest

pub k_queue_unique_append : ℕ → State → Ptr → Option (Bool × State)
k_queue_unique_append fuel queue data_ = elim (contains_from fuel queue data_ queue.list.head) [
  | none ↦ none
  | some true ↦ some (false, queue)
  | some false ↦ some (true, k_queue_append queue data_)
]

pub k_queue_is_empty : State → Bool
k_queue_is_empty queue = is_empty queue

pub k_queue_peek_head : State → Ptr
k_queue_peek_head queue = queue.list.head

pub k_queue_peek_tail : State → Ptr
k_queue_peek_tail queue = queue.list.tail
