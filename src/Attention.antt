-- ===== src/Attention.antt =====
-- src/cacheflow/cuda/paged_attention.cu and `execute_attention` of
-- src/cacheflow/decode/batch_decode.cpp: which keys and values the attention kernels read.
--
-- The kernels weigh the values of the positions that they visit, with floats. Here a kernel is
-- the list of its visits, of all warps, for one sequence and one head; Softmax and Running have
-- the arithmetic.
-- A number of tokens that is not positive leaves no visit, as 0 does.
pub mod Hits
pub mod Visits
pub mod Reads
pub mod Warp
pub mod Race
pub mod Softmax
pub mod Positions
pub mod Placed
pub mod Passes
pub mod Reference
pub mod Totals
pub mod Exact
pub mod Running
pub mod Parts
pub mod Online
pub mod Lanes
pub mod Merge
use cache_flow.Base.{
  ℕ, zero, suc, ◌+◌, ◌-◌, ◌*◌, ◌/◌, ◌≤◌, ◌<◌, min, max, Bool, true, false, ◌&&◌, ◌||◌, ltb, leb,
  ◌==◌, if◌then◌else◌, List, [], ◌∷◌, ◌++◌, Option, none, some,
}
use cache_flow.Base.Int.{ℤ, pos, negsuc}
use cache_flow.Kernels.Grid.{for_each, strided}

pub record PagedAttentionParams : Type 0 where
  pub num_seqs : ℕ
  pub num_heads : ℕ
  pub num_kv_heads : ℕ
  pub head_dim : ℕ
  pub block_size : ℕ
  pub max_context_len : ℕ
  pub max_blocks_per_seq : ℕ

-- A visit reads the keys or the values at the offset `off` of the block `block` of a sequence.
pub record Visit : Type 0 where
  pub block : ℕ
  pub off : ℕ

-- The template arguments BLOCK_SIZE, NUM_THREADS / WARP_SIZE and PARTITION_SIZE of all launches.
abbrev pub tokens_per_block : ℕ
tokens_per_block = 16

abbrev pub num_warps : ℕ
num_warps = 4

abbrev pub partition_size : ℕ
partition_size = 512

abbrev pub position : Visit → ℕ
position v = v.block * tokens_per_block + v.off

-- The head of the keys and values that a head of the queries reads.
abbrev pub kv_head : PagedAttentionParams → ℕ → ℕ
kv_head p head = head / (p.num_heads / p.num_kv_heads)

-- Where the vector of a visit starts in the cache; `block_tables` is [num_seqs, max_blocks_per_seq].
unfoldable pub vector_offset :
    PagedAttentionParams → (block_tables : ℕ → ℕ) → (seq head : ℕ) → Visit → ℕ
vector_offset p block_tables seq head v =
    let phys_block = block_tables (seq * p.max_blocks_per_seq + v.block) in
    ((phys_block * p.num_kv_heads + kv_head p head) * tokens_per_block + v.off) * p.head_dim

-- The loop over the tokens of a block, which ends at the end of the context.
unfoldable pub tokens_v1 : (rounds ctx_len block off : ℕ) → List Visit
tokens_v1 zero ctx_len block off = []
tokens_v1 (suc k) ctx_len block off =
    let rest = tokens_v1 k ctx_len block (suc off) in
    if leb ctx_len (block * tokens_per_block + off)
    then []
    else record { block = block; off = off } ∷ rest

-- The warps of `paged_attention_v1_kernel`, each with every `num_warps`-th block.
unfoldable pub visits_v1 : (ctx_len : ℕ) → List Visit
unfolding tokens_v1
visits_v1 ctx_len =
    let num_blocks = (ctx_len + tokens_per_block - 1) / tokens_per_block in
    for_each num_warps (λ warp.
      strided num_blocks num_blocks num_warps warp
        (λ block. tokens_v1 tokens_per_block ctx_len block 0))

-- The loop over the tokens of a block, which skips what is out of the partition.
unfoldable pub tokens_v2 : (rounds start_tok end_tok block off : ℕ) → List Visit
tokens_v2 zero start_tok end_tok block off = []
tokens_v2 (suc k) start_tok end_tok block off =
    let tok_pos = block * tokens_per_block + off in
    let rest = tokens_v2 k start_tok end_tok block (suc off) in
    if ltb tok_pos start_tok || leb end_tok tok_pos
    then rest
    else record { block = block; off = off } ∷ rest

-- The warps of a partition of `paged_attention_v2_kernel`.
unfoldable pub partition_v2 : (ctx_len part : ℕ) → List Visit
unfolding tokens_v2
partition_v2 ctx_len part =
    let start_tok = part * partition_size in
    let end_tok = min (start_tok + partition_size) ctx_len in
    let start_block = start_tok / tokens_per_block in
    let end_block = (end_tok + tokens_per_block - 1) / tokens_per_block in
    if leb ctx_len start_tok
    then []
    else for_each num_warps (λ warp.
      strided end_block end_block num_warps (start_block + warp)
        (λ block. tokens_v2 tokens_per_block start_tok end_tok block 0))

unfoldable pub visits_v2 : (num_partitions ctx_len : ℕ) → List Visit
unfolding partition_v2
visits_v2 num_partitions ctx_len = for_each num_partitions (λ part. partition_v2 ctx_len part)

-- The partitions that `paged_attention_v2_reduce_kernel` adds up.
abbrev pub num_parts : ℕ → ℕ
num_parts ctx_len = (ctx_len + 511) / 512

-- `launch_paged_attention_v1` and `launch_paged_attention_v2`: other sizes have no kernel, and
-- nothing is launched for them.
unfoldable pub launch_paged_attention_v1 : PagedAttentionParams → (ctx_len : ℕ) → List Visit
unfolding visits_v1
launch_paged_attention_v1 p ctx_len =
    if p.head_dim == 128 && p.block_size == 16
    then visits_v1 ctx_len
    else if p.head_dim == 64 && p.block_size == 16
    then visits_v1 ctx_len
    else []

unfoldable pub launch_paged_attention_v2 :
    PagedAttentionParams → (num_partitions ctx_len : ℕ) → List Visit
unfolding visits_v2
launch_paged_attention_v2 p num_partitions ctx_len =
    if p.head_dim == 128 && p.block_size == 16 then visits_v2 num_partitions ctx_len else []

abbrev pub to_len : ℤ → ℕ
to_len (pos n) = n
to_len (negsuc n) = 0

-- `max_ctx`, from the lengths of the contexts.
unfoldable pub max_context : List ℤ → ℕ
max_context [] = 0
max_context (len ∷ lens) = max (to_len len) (max_context lens)

-- The visits for a sequence whose context has the length `ctx_len`, one of `context_lens`.
unfoldable pub execute_attention : PagedAttentionParams → (context_lens : List ℤ) → ℤ → List Visit
unfolding launch_paged_attention_v1 launch_paged_attention_v2 max_context
execute_attention p context_lens ctx_len =
    let max_ctx = max_context context_lens in
    if leb max_ctx 8192
    then launch_paged_attention_v1 p (to_len ctx_len)
    else launch_paged_attention_v2 p ((max_ctx + partition_size - 1) / partition_size)
        (to_len ctx_len)
