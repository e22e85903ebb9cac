-- ===== src/MemSlab.antt =====
-- src/utils/mem_slab.c: blocks of one size, the free ones linked through their first words. A block is
-- its address; `next` is the pointer that is stored at an address.
pub mod Free
pub mod Init
use zephyr_polling.Prelude.{
  ℕ, zero, suc, ◌+◌, ◌-◌, ◌%◌, ◌^◌, Bool, true, false, ◌&&◌, List, ◌==◌, if◌then◌else◌, add_u32,
  sub_u32,
}
use zephyr_polling.Slist.{Ptr, null, Links, set_next}

pub record MemSlab : Type 0 where
  pub num_blocks : ℕ
  pub block_size : ℕ
  pub buffer : Ptr
  pub free_list : Ptr
  pub num_used : ℕ

pub record State : Type 0 where
  pub slab : MemSlab
  pub next : Links

-- The loop of `create_free_list`, with `j` blocks to go from `p` on.
abbrev pub link_blocks : ℕ → Ptr → State → State
link_blocks zero p s = s
link_blocks (suc j) p s =
    link_blocks j (p + s.slab.block_size)
      (record { slab = record s.slab { free_list = p }; next = set_next s.next p s.slab.free_list })

-- `CHECKIF` for words of 4 bytes.
abbrev pub aligned : MemSlab → Bool
aligned slab = (slab.block_size % 4 == 0) && (slab.buffer % 4 == 0)

-- `true` is the result 0, `false` is -EINVAL.
unfoldable pub create_free_list : State → Bool × State
create_free_list s =
    if aligned s.slab
    then (
      true,
      link_blocks s.slab.num_blocks s.slab.buffer
          (record s { slab = record s.slab { free_list = null } }),
    )
    else (false, s)

unfoldable pub k_mem_slab_init : State → Ptr → ℕ → ℕ → Bool × State
unfolding create_free_list
k_mem_slab_init s buffer block_size num_blocks = create_free_list (record s {
  slab = record s.slab {
    num_blocks = num_blocks;
    block_size = block_size;
    buffer = buffer;
    num_used = 0;
  };
})

-- The block, or NULL with -ENOMEM.
unfoldable pub k_mem_slab_alloc : State → Ptr × State
k_mem_slab_alloc s = if s.slab.free_list == null then (null, s) else (
  s.slab.free_list,
  record s {
    slab = record s.slab {
      free_list = s.next s.slab.free_list;
      num_used = add_u32 s.slab.num_used 1;
    };
  },
)

unfoldable pub k_mem_slab_free : State → Ptr → State
k_mem_slab_free s mem = record {
  slab = record s.slab { free_list = mem; num_used = sub_u32 s.slab.num_used 1 };
  next = set_next s.next mem s.slab.free_list;
}
