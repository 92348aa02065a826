-- ===== src/BlockManager.antt =====
-- src/cacheflow/kv_cache/block_manager.h and block_manager.cpp: physical blocks, free lists and
-- the map from sequences to the blocks they own.
--
-- A method returns the new manager beside its result, or `none` where the C++ indexes a vector
-- out of its range. A free list is written with the back of the vector first. Locks are left
-- out: each method holds the one mutex from its first line to its last.
pub mod Refs
pub mod Balance
pub mod Accounts
pub mod Release
pub mod Claim
pub mod Copy
pub mod Init
pub mod Fragmentation
use cache_flow.Base.{
  ℕ, zero, suc, ◌-◌, Bool, false, List, [], ◌∷◌, ◌++◌, Option, none, some, length, get_elem?, set,
  leb, if◌then◌else◌,
}
use cache_flow.Base.Int.{ℤ, pos, negsuc, to_int32, predℤ, is_nonpos, ◌==ℤ◌, succℤ}
use cache_flow.Base.Assoc.{lookup, insert, erase}
use cache_flow.Common.{
  BlockId, SeqId, invalid_block, is_invalid, DeviceType, cpu, cuda, CacheConfig, ModelConfig,
}

pub record PhysicalBlock : Type 0 where
  pub block_id : BlockId
  pub device : DeviceType
  pub ref_count : ℤ
  pub num_filled : ℕ
  pub hash : ℕ
  pub is_prefix : Bool

abbrev pub blank_block : PhysicalBlock
blank_block = record {
  block_id = invalid_block;
  device = cuda;
  ref_count = pos 0;
  num_filled = 0;
  hash = 0;
  is_prefix = false;
}

-- `gpu_blocks_` with `gpu_free_list_`, or `cpu_blocks_` with `cpu_free_list_`.
pub record Arena : Type 0 where
  pub blocks : List PhysicalBlock
  pub free_list : List BlockId

abbrev pub Owned : Type 0
Owned = DeviceType × BlockId

pub record BlockManager : Type 0 where
  pub config : CacheConfig
  pub model_config : ModelConfig
  pub gpu : Arena
  pub cpu : Arena
  pub seq_block_map : List (SeqId × List Owned)

-- `blocks_for` and `free_list_for`.
abbrev pub arena_for : DeviceType → BlockManager → Arena
arena_for cuda bm = bm.gpu
arena_for cpu bm = bm.cpu

abbrev pub set_arena : DeviceType → Arena → BlockManager → BlockManager
set_arena cuda a bm = record bm { gpu = a }
set_arena cpu a bm = record bm { cpu = a }

-- `blocks[static_cast<size_t>(id)]`: a negative id converts to an index past every vector.
unfoldable pub block_at : List PhysicalBlock → BlockId → Option PhysicalBlock
block_at bs (pos n) = get_elem? bs n
block_at bs (negsuc n) = none

unfoldable pub store : List PhysicalBlock → BlockId → PhysicalBlock → List PhysicalBlock
store bs (pos n) b = set bs n b
store bs (negsuc n) b = bs

abbrev pub reset_block : ℤ → PhysicalBlock → PhysicalBlock
reset_block refs b = record b { ref_count = refs; num_filled = 0; hash = 0; is_prefix = false }

-- The loop of `init_blocks` from `i`, with `rounds` rounds left of `count`.
init_loop : ℕ → ℕ → ℕ → DeviceType → Arena → Arena
init_loop zero i count d a = a
init_loop (suc rounds) i count d a = init_loop rounds (suc i) count d (record {
  blocks = a.blocks ++ record blank_block { block_id = to_int32 i; device = d } ∷ [];
  free_list = to_int32 (count - 1 - i) ∷ a.free_list;
})

unfoldable pub init_blocks : ℕ → DeviceType → Arena
unfolding init_loop to_int32
init_blocks count d = init_loop count 0 count d (record { blocks = []; free_list = [] })

unfoldable pub init : CacheConfig → ModelConfig → BlockManager
unfolding init_blocks
init c m = record {
  config = c;
  model_config = m;
  gpu = init_blocks c.num_gpu_blocks cuda;
  cpu = init_blocks c.num_cpu_blocks cpu;
  seq_block_map = [];
}

unfoldable pub pop_free : List BlockId → BlockId × List BlockId
pop_free [] = (invalid_block, [])
pop_free (id ∷ rest) = (id, rest)

unfoldable pub push_free : List BlockId → BlockId → List BlockId
push_free fl id = id ∷ fl

-- `seq_block_map_[seq_id].emplace_back(device, bid)`.
unfoldable pub add_owned : SeqId → Owned → List (SeqId × List Owned) → List (SeqId × List Owned)
unfolding lookup insert
add_owned sid o m = elim (lookup sid m) [
  | none ↦ insert sid (o ∷ []) m
  | some os ↦ insert sid (os ++ o ∷ []) m
]

-- A popped block that the caller claims: its fields are set by `write`.
pub claim_block :
    BlockId → (PhysicalBlock → PhysicalBlock) → PhysicalBlock → List BlockId → Arena → Arena
claim_block bid write b rest a = record { blocks = store a.blocks bid (write b); free_list = rest }

-- `--blk.ref_count <= 0` and what both outcomes do to the block and the free list.
pub release_block : BlockId → PhysicalBlock → Arena → Arena
unfolding push_free
release_block id b a =
    if is_nonpos (predℤ b.ref_count)
    then record {
      blocks = store a.blocks id (reset_block (pos 0) b);
      free_list = push_free a.free_list id;
    }
    else record a { blocks = store a.blocks id (record b { ref_count = predℤ b.ref_count }) }

pub claim :
    SeqId
    → DeviceType
    → BlockId
    → List BlockId
    → (PhysicalBlock → PhysicalBlock)
    → BlockManager
    → Option (BlockManager × BlockId)
unfolding block_at store add_owned claim_block
claim sid d bid rest write bm = elim (block_at (arena_for d bm).blocks bid) [
  | none ↦ none
  | some b ↦ some (
    record (set_arena d (claim_block bid write b rest (arena_for d bm)) bm) {
      seq_block_map = add_owned sid (d, bid) bm.seq_block_map;
    },
    bid,
  )
]

unfoldable pub allocate_block : SeqId → DeviceType → BlockManager → Option (BlockManager × BlockId)
unfolding pop_free claim
allocate_block sid d bm =
    let (bid, rest) = pop_free (arena_for d bm).free_list in
    if is_invalid bid
    then some (set_arena d (record (arena_for d bm) { free_list = rest }) bm, invalid_block)
    else claim sid d bid rest (reset_block (pos 1)) bm

unfoldable pub free_block : BlockId → DeviceType → BlockManager → Option BlockManager
unfolding block_at store release_block
free_block id d bm = elim (block_at (arena_for d bm).blocks id) [
  | none ↦ none
  | some b ↦ some (set_arena d (release_block id b (arena_for d bm)) bm)
]

-- The loop of `free_blocks`, whose body is that of `free_block`.
unfoldable pub free_owned : List Owned → BlockManager → Option BlockManager
unfolding free_block
free_owned [] bm = some bm
free_owned ((d, id) ∷ os) bm = elim (free_block id d bm) [
  | none ↦ none
  | some bm' ↦ free_owned os bm'
]

unfoldable pub free_blocks : SeqId → BlockManager → Option BlockManager
unfolding free_owned lookup erase
free_blocks sid bm = elim (lookup sid bm.seq_block_map) [
  | none ↦ some bm
  | some os ↦ elim (free_owned os bm) [
    | none ↦ none
    | some bm' ↦ some (record bm' { seq_block_map = erase sid bm'.seq_block_map })
  ]
]

unfoldable pub can_allocate : ℕ → BlockManager → Bool
can_allocate n bm = leb n (length bm.gpu.free_list)

unfoldable pub num_free_gpu_blocks : BlockManager → ℕ
num_free_gpu_blocks bm = length bm.gpu.free_list

unfoldable pub num_free_cpu_blocks : BlockManager → ℕ
num_free_cpu_blocks bm = length bm.cpu.free_list

unfoldable pub num_total_gpu_blocks : BlockManager → ℕ
num_total_gpu_blocks bm = length bm.gpu.blocks

unfoldable pub num_total_cpu_blocks : BlockManager → ℕ
num_total_cpu_blocks bm = length bm.cpu.blocks

-- `none` is the null pointer.
unfoldable pub get_block : BlockId → DeviceType → BlockManager → Option PhysicalBlock
get_block (negsuc n) d bm = none
get_block (pos n) d bm =
    if leb (length (arena_for d bm).blocks) n then none else get_elem? (arena_for d bm).blocks n

-- `blk.ref_count = f(blk.ref_count)`, the block in place.
pub set_refs : BlockId → PhysicalBlock → ℤ → Arena → Arena
set_refs id b n a = record a { blocks = store a.blocks id (record b { ref_count = n }) }

-- The fields that `copy_on_write` gives the fresh block.
abbrev pub copy_fields : PhysicalBlock → PhysicalBlock → PhysicalBlock
copy_fields src b = record b {
  ref_count = pos 1;
  num_filled = src.num_filled;
  hash = src.hash;
  is_prefix = false;
}

-- `src.ref_count--`.
pub drop_src : BlockId → DeviceType → BlockManager → Option BlockManager
unfolding block_at store set_refs
drop_src id d bm = elim (block_at (arena_for d bm).blocks id) [
  | none ↦ none
  | some b ↦ some (set_arena d (set_refs id b (predℤ b.ref_count) (arena_for d bm)) bm)
]

pub drop_after :
    BlockId → DeviceType → Option (BlockManager × BlockId) → Option (BlockManager × BlockId)
unfolding drop_src
drop_after id d none = none
drop_after id d (some (bm, new_bid)) = elim (drop_src id d bm) [
  | none ↦ none
  | some bm' ↦ some (bm', new_bid)
]

-- `copy_on_write` from the `pop_free` on. The count of `src` falls after the popped block is
-- written, which may be the same block.
pub cow_fresh :
    PhysicalBlock → BlockId → SeqId → DeviceType → BlockManager → Option (BlockManager × BlockId)
unfolding pop_free claim drop_after
cow_fresh src src_block new_seq d bm =
    let (bid, rest) = pop_free (arena_for d bm).free_list in
    if is_invalid bid
    then some (set_arena d (record (arena_for d bm) { free_list = rest }) bm, invalid_block)
    else drop_after src_block d (claim new_seq d bid rest (copy_fields src) bm)

unfoldable pub copy_on_write :
    BlockId → SeqId → DeviceType → BlockManager → Option (BlockManager × BlockId)
unfolding block_at add_owned cow_fresh
copy_on_write src_block new_seq d bm = elim (block_at (arena_for d bm).blocks src_block) [
  | none ↦ none
  | some src ↦
      if src.ref_count ==ℤ pos 1
      then some (
        record bm { seq_block_map = add_owned new_seq (d, src_block) bm.seq_block_map },
        src_block,
      )
      else cow_fresh src src_block new_seq d bm
]

unfoldable pub increment_ref : BlockId → DeviceType → BlockManager → Option BlockManager
unfolding block_at store set_refs
increment_ref id d bm = elim (block_at (arena_for d bm).blocks id) [
  | none ↦ none
  | some b ↦ some (set_arena d (set_refs id b (succℤ b.ref_count) (arena_for d bm)) bm)
]

-- Unlike `release_block` it leaves the other fields of a block that it frees.
pub unref_block : BlockId → PhysicalBlock → Arena → Arena
unfolding push_free set_refs
unref_block id b a =
    if is_nonpos (predℤ b.ref_count)
    then record (set_refs id b (pos 0) a) { free_list = push_free a.free_list id }
    else set_refs id b (predℤ b.ref_count) a

unfoldable pub decrement_ref : BlockId → DeviceType → BlockManager → Option BlockManager
unfolding block_at store unref_block
decrement_ref id d bm = elim (block_at (arena_for d bm).blocks id) [
  | none ↦ none
  | some b ↦ some (set_arena d (unref_block id b (arena_for d bm)) bm)
]
