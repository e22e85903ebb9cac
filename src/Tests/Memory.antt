-- ===== src/Tests/Memory.antt =====
-- src/utils/mem_slab.c and src/host/uuid.c at concrete inputs.
use Prim.Native.Nat.{eq}
use zephyr_polling.Prelude.{◌≡◌, refl, true, List, [], ◌∷◌, arith, write}
use zephyr_polling.Slist.{null}
use zephyr_polling.MemSlab.{State, k_mem_slab_init}
use zephyr_polling.MemSlab.Free.{Holds, Op, run, run_stack, slab_run_refines}
use zephyr_polling.MemSlab.Init.{blocks, k_mem_slab_init-Holds}
use zephyr_polling.ByteOrder.{put_le16, put_le32}
use zephyr_polling.Uuid.{Uuid, bt_uuid_cmp, uuid_to_uuid128}

abbrev raw : State
raw = record {
  slab = record { num_blocks = 0; block_size = 0; buffer = 0; free_list = 0; num_used = 0 };
  next = λ p. 0;
}

abbrev slab : State
slab = (k_mem_slab_init raw 64 8 3).1

initial_blocks :
    ((k_mem_slab_init raw 64 8 3).0 ≡ true) × Holds (k_mem_slab_init raw 64 8 3).1 (blocks 3 64 8)
initial_blocks =
    k_mem_slab_init-Holds raw 64 8 3 (omega arith) (omega arith) (omega arith) (omega arith)
      (omega arith)

abbrev calls : List Op
calls = Op.alloc ∷ Op.alloc ∷ Op.free 80 ∷ Op.alloc ∷ Op.alloc ∷ Op.alloc ∷ []

stack_blocks : (run_stack calls (80 ∷ 72 ∷ 64 ∷ [])).0 ≡ 80 ∷ 72 ∷ 80 ∷ 64 ∷ null ∷ []
stack_blocks = refl

slab_run_example :
    let (xs, s') = run calls slab in
    let (ys, blocks') = run_stack calls (80 ∷ 72 ∷ 64 ∷ []) in (xs ≡ ys) × Holds s' blocks'
slab_run_example =
    slab_run_refines calls slab (80 ∷ 72 ∷ 64 ∷ []) initial_blocks.1 (omega arith, refl, tt)

same_uuid : bt_uuid_cmp (Uuid.uuid_16 0x2800) (Uuid.uuid_32 0x2800) ≡ eq
unfolding bt_uuid_cmp uuid_to_uuid128 write put_le16 put_le32
same_uuid = refl
