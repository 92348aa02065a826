-- ===== src/Examples/Blocks.antt =====
-- A block manager with three GPU blocks and two CPU blocks.
use mathlib.Core.Option
use mathlib.Core.Bool.{true}
use cache_flow.Base.{◌+◌, ◌≡◌, refl, [], ◌∷◌, Option, none, some, arith, ◌⊎◌, ◌≤◌}
use cache_flow.Base.Int.{pos}
use cache_flow.Common.{CacheConfig, ModelConfig, cuda, invalid_block, BlockId}
use cache_flow.BlockManager.{
  BlockManager, init, allocate_block, free_block, free_blocks, copy_on_write, increment_ref,
  reset_block, arena_for,
}
use cache_flow.BlockManager.Refs.{count_map, count_owned}
use cache_flow.BlockManager.Balance.{Refs, at_device, more, less}
use cache_flow.BlockManager.Accounts.{Accounts, held}
use cache_flow.BlockManager.Init.{no_refs, init-Accounts}
use cache_flow.BlockManager.Claim.{Allocation, allocate_block-Allocation, allocate_block-Accounts}
use cache_flow.BlockManager.Release.{
  Keeps, Keeps-Accounts, free_blocks-Keeps, free_block-Keeps, increment_ref-Keeps,
}
use cache_flow.BlockManager.Fragmentation.{
  compute_fragmentation, count_used, compute_fragmentation-counts,
}
use cache_flow.BlockManager.Copy.{Copies, copy_on_write-Copies}

abbrev pub small_cache : CacheConfig
small_cache = record {
  num_gpu_blocks = 3;
  num_cpu_blocks = 2;
  block_size = 16;
  enable_prefix_cache = true;
}

abbrev pub small_model : ModelConfig
small_model = record {
  n_layers = 2;
  n_heads = 4;
  n_kv_heads = 4;
  head_dim = 8;
  vocab_size = 100;
  max_seq_len = 64;
}

abbrev pub fresh : BlockManager
fresh = init small_cache small_model

pub fresh-Accounts : Accounts no_refs fresh
fresh-Accounts = init-Accounts small_cache small_model (omega arith) (omega arith)

-- Block 0 goes first, since it was pushed last.
first_id : (Option.map (λ r. r.1) (allocate_block 7 cuda fresh)) ≡ some (pos 0)
unfolding init allocate_block
first_id = refl

free_list_order : (init small_cache small_model).gpu.free_list ≡ pos 0 ∷ pos 1 ∷ pos 2 ∷ []
unfolding init
free_list_order = refl

allocate_block-Allocation_example :
    Allocation no_refs 7 cuda (reset_block (pos 1)) fresh (allocate_block 7 cuda fresh)
allocate_block-Allocation_example = allocate_block-Allocation no_refs 7 cuda fresh fresh-Accounts

-- Sequence 7 owns block 0.
abbrev pub or_fresh : Option (BlockManager × BlockId) → BlockManager
or_fresh none = fresh
or_fresh (some r) = r.0

abbrev pub after_call : Option BlockManager → BlockManager
after_call none = fresh
after_call (some bm) = bm

abbrev pub one_block : BlockManager
one_block = or_fresh (allocate_block 7 cuda fresh)

one_block_runs : allocate_block 7 cuda fresh ≡ some (one_block, pos 0)
unfolding init allocate_block
one_block_runs = refl

pub one_block-Accounts : Accounts no_refs one_block
one_block-Accounts =
    allocate_block-Accounts no_refs 7 cuda fresh fresh-Accounts one_block (pos 0) one_block_runs

free_blocks-Keeps_example : Keeps no_refs one_block (free_blocks 7 one_block)
free_blocks-Keeps_example = free_blocks-Keeps no_refs one_block one_block-Accounts 7

-- Block 0, which a caller holds as well.
abbrev pub caller_ref : Refs
caller_ref = at_device cuda (more (pos 0)) no_refs

abbrev pub shared : BlockManager
shared = after_call (increment_ref (pos 0) cuda one_block)

pub one_reference : held no_refs one_block cuda (pos 0) ≡ 1
unfolding init allocate_block count_map count_owned
one_reference = refl

shared_runs : increment_ref (pos 0) cuda one_block ≡ some shared
unfolding init allocate_block increment_ref
shared_runs = refl

pub shared-Accounts : Accounts caller_ref shared
shared-Accounts =
    Keeps-Accounts caller_ref one_block shared _
      (increment_ref-Keeps no_refs one_block one_block-Accounts cuda (pos 0) 0 one_reference)
      shared_runs

free_block-Keeps_example :
    Keeps (at_device cuda (less (pos 0)) caller_ref) shared (free_block (pos 0) cuda shared)
free_block-Keeps_example = free_block-Keeps caller_ref shared shared-Accounts cuda (pos 0) 0 refl

copy_on_write-Copies_example :
    ((2 ≤ held caller_ref shared cuda (pos 0))
      × ((arena_for cuda shared).free_list ≡ [])
      × (copy_on_write (pos 0) 8 cuda shared ≡ some (shared, invalid_block)))
    ⊎ Copies caller_ref cuda (pos 0) 8 shared (copy_on_write (pos 0) 8 cuda shared)
copy_on_write-Copies_example =
    copy_on_write-Copies caller_ref cuda (pos 0) 8 shared shared-Accounts 0 refl

-- The copy is block 1, and block 0 keeps the reference of sequence 7.
copied : Option.map (λ r. r.1) (copy_on_write (pos 0) 8 cuda shared) ≡ some (pos 1)
unfolding init allocate_block increment_ref copy_on_write
copied = refl

compute_fragmentation-counts_example :
    ((compute_fragmentation cuda shared).used_blocks ≡ count_used (arena_for cuda shared).blocks)
    × ((compute_fragmentation cuda shared).free_blocks
          + (compute_fragmentation cuda shared).used_blocks
        ≡ (compute_fragmentation cuda shared).total_blocks)
    × ((compute_fragmentation cuda shared).largest_free_run
        ≤ (compute_fragmentation cuda shared).free_blocks)
compute_fragmentation-counts_example =
    compute_fragmentation-counts caller_ref cuda shared shared-Accounts

longest_run : (compute_fragmentation cuda shared).largest_free_run ≡ 2
unfolding init allocate_block increment_ref compute_fragmentation
longest_run = refl
