-- ===== src/Kernels/Blocks.antt =====
-- src/cacheflow/cuda: the kernels that move whole blocks, `copy_blocks`, `swap_blocks` and
-- `compact_kv_cache` of kv_cache_kernels.cu, and `memset_blocks` of memory_utils.cu.
pub mod Moved
pub mod Launches
pub mod Runs
use cache_flow.Base.{ℕ, ◌+◌, ◌-◌, ◌*◌, ◌/◌, if◌then◌else◌, ltb, ◌==◌, List, [], ◌∷◌}
use cache_flow.Kernels.Moves.{Move}
use cache_flow.Kernels.Grid.{for_each, strided}
use cache_flow.Kernels.Reshape.{Shape}

abbrev pub num_threads : ℕ
num_threads = 256

abbrev pub elems_per_block : Shape → ℕ
elems_per_block s = s.num_kv_heads * s.block_size * s.head_dim

-- The blocks of threads that cover `elems` elements.
abbrev pub blocks_y : ℕ → ℕ
blocks_y elems = (elems + num_threads - 1) / num_threads

-- The element `i` of the block `src`, to the same place of the block `dst`.
abbrev pub block_move : (elems src dst i : ℕ) → Move
block_move elems src dst i = record { dst = dst * elems + i; src = src * elems + i }

-- A mapping is [num_pairs, 2]: the source of a pair, and its destination.
abbrev pub source_of : (ℕ → ℕ) → ℕ → ℕ
source_of block_mapping pair = block_mapping (pair * 2)

abbrev pub target_of : (ℕ → ℕ) → ℕ → ℕ
target_of block_mapping pair = block_mapping (pair * 2 + 1)

-- The thread `t` of the block (pair, y).
unfoldable pub copy_blocks_kernel : Shape → (ℕ → ℕ) → (pair y t : ℕ) → List Move
copy_blocks_kernel s block_mapping pair y t =
    let tid = t + y * num_threads in
    if ltb tid (elems_per_block s)
    then block_move (elems_per_block s) (source_of block_mapping pair)
        (target_of block_mapping pair) tid
      ∷ []
    else []

unfoldable pub launch_copy_blocks : Shape → (ℕ → ℕ) → (num_pairs : ℕ) → List Move
unfolding copy_blocks_kernel
launch_copy_blocks s block_mapping num_pairs = for_each num_pairs (λ pair.
    for_each (blocks_y (elems_per_block s))
      (λ y. for_each num_threads (λ t. copy_blocks_kernel s block_mapping pair y t)))

unfoldable pub swap_blocks_kernel : (elems : ℕ) → (ℕ → ℕ) → (pair t : ℕ) → List Move
swap_blocks_kernel elems block_mapping pair t =
    strided elems elems num_threads t
      (λ i. block_move elems (source_of block_mapping pair) (target_of block_mapping pair) i ∷ [])

-- `sizeof(float)` is 4.
unfoldable pub launch_swap_blocks : (block_size_bytes : ℕ) → (ℕ → ℕ) → (num_pairs : ℕ) → List Move
unfolding swap_blocks_kernel
launch_swap_blocks block_size_bytes block_mapping num_pairs = for_each num_pairs (λ pair.
    for_each num_threads (λ t. swap_blocks_kernel (block_size_bytes / 4) block_mapping pair t))

-- `grid_y` is `gridDim.y`.
unfoldable pub compact_kv_cache_kernel :
    Shape → (src_ids dst_ids : ℕ → ℕ) → (grid_y block y t : ℕ) → List Move
compact_kv_cache_kernel s src_ids dst_ids grid_y block y t =
    if src_ids block == dst_ids block
    then []
    else strided (elems_per_block s) (elems_per_block s) (num_threads * grid_y)
        (t + y * num_threads)
        (λ i. block_move (elems_per_block s) (src_ids block) (dst_ids block) i ∷ [])

unfoldable pub launch_compact_kv_cache :
    Shape → (src_block_ids dst_block_ids : ℕ → ℕ) → (num_blocks : ℕ) → List Move
unfolding compact_kv_cache_kernel
launch_compact_kv_cache s src_block_ids dst_block_ids num_blocks =
    let grid_y = blocks_y (elems_per_block s) in
    for_each num_blocks (λ block. for_each grid_y (λ y.
      for_each num_threads
        (λ t. compact_kv_cache_kernel s src_block_ids dst_block_ids grid_y block y t)))

-- The zeros are written as moves from an array of zeros.
unfoldable pub memset_blocks_kernel : (elems : ℕ) → (ℕ → ℕ) → (block t : ℕ) → List Move
memset_blocks_kernel elems block_ids block t =
    strided elems elems num_threads t
      (λ i. block_move elems (block_ids block) (block_ids block) i ∷ [])

unfoldable pub launch_memset_blocks :
    (block_size_bytes : ℕ) → (ℕ → ℕ) → (num_blocks : ℕ) → List Move
unfolding memset_blocks_kernel
launch_memset_blocks block_size_bytes block_ids num_blocks = for_each num_blocks (λ block.
    for_each num_threads (λ t. memset_blocks_kernel (block_size_bytes / 4) block_ids block t))
