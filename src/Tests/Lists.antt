-- ===== src/Tests/Lists.antt =====
-- src/utils/list_gen.h and src/utils/k_queue.c at concrete inputs.
use zephyr_polling.Prelude.{◌≡◌, some, List, [], ◌∷◌, arith, ◌==◌, if◌then◌else◌}
use zephyr_polling.Slist.{Ptr, State, empty, append, append_list, merge_slist}
use zephyr_polling.Slist.Chain.{Holds}
use zephyr_polling.Slist.Ops.{append_list-Holds}
use zephyr_polling.Slist.Merge.{merge_slist-empty}
use zephyr_polling.KQueue.Fifo.{
  Op, put, put_front, put_unique, take_out, get, run, spec, spec_run, queue_run_refines,
}

-- Nodes 1 and 2 are linked in the list; nodes 5 and 6 are a chain of their own.
abbrev links : Ptr → Ptr
links p = if p == 1 then 2 else if p == 5 then 6 else 0

abbrev two : State
two = record { list = record { head = 1; tail = 2 }; next = links }

two-Holds : Holds two (1 ∷ 2 ∷ [])
two-Holds = ground arith

append_list_example : Holds (append_list two 5 6) (1 ∷ 2 ∷ 5 ∷ 6 ∷ [])
append_list_example =
    append_list-Holds (1 ∷ 2 ∷ []) 5 (6 ∷ []) two-Holds (ground arith) (ground arith)

merge_empty_example :
    ((ys : List Ptr) → ¬ Holds (merge_slist two empty).0 ys)
    × ((append (merge_slist two empty).0 9).list.head ≡ 9)
merge_empty_example = merge_slist-empty 1 (2 ∷ []) 9 two-Holds

abbrev calls : List Op
calls = put 3 ∷ put_unique 1 ∷ get ∷ put_front 1 ∷ take_out 2 ∷ get ∷ get ∷ get ∷ []

queue_run_example :
    (s' : State) × (run 20 two calls ≡ some ((spec_run (1 ∷ 2 ∷ []) calls).0, s'))
    × Holds s' (spec_run (1 ∷ 2 ∷ []) calls).1
unfolding spec
queue_run_example = queue_run_refines 20 (1 ∷ 2 ∷ []) calls (omega arith) two-Holds (ground arith)
