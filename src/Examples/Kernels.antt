-- ===== src/Examples/Kernels.antt =====
-- Launches on small caches.
use mathlib.Core.List.Permᴰ
use cache_flow.Base.{ℕ, ◌+◌, ◌*◌, ◌≡◌, refl, arith, if◌then◌else◌, ltb}
use cache_flow.Kernels.Moves.{copy_from, copy_within}
use cache_flow.Kernels.Grid.{for_each}
use cache_flow.Kernels.Reshape.{Shape, launch_reshape_and_cache, cache_offset, token_offset}
use cache_flow.Kernels.Reshape.Scatter.{expected, reshape_and_cache-expected}
use cache_flow.Kernels.Blocks.{launch_compact_kv_cache, elems_per_block}
use cache_flow.Kernels.Blocks.Moved.{moved}
use cache_flow.Kernels.Blocks.Runs.{compact_kv_cache-moved}

-- Two heads of three numbers, in blocks of four tokens.
abbrev shape : Shape
shape = record { num_kv_heads = 2; head_dim = 3; block_size = 4 }

-- The tokens 0 and 1 have the last slot of block 0 and the first one of block 1.
abbrev slots : ℕ → ℕ
slots i = i + 3

abbrev keys : ℕ → ℕ
keys i = 100 + i

reshape_and_cache-expected_example :
    copy_from (launch_reshape_and_cache shape 2 slots) keys (λ a. 0) 9
    ≡ expected shape 2 slots keys (λ a. 0) 9
reshape_and_cache-expected_example =
    reshape_and_cache-expected shape 2 slots (launch_reshape_and_cache shape 2 slots) keys (λ a. 0)
      9 (omega arith) (omega arith) (omega arith) (λ i j li lj e. omega arith) (Permᴰ.refl _)

-- The first number of head 1 of token 1 stands in block 1.
token_1 :
    copy_from (launch_reshape_and_cache shape 2 slots) keys (λ a. 0) (cache_offset shape 1 1 0 0)
    ≡ 100 + token_offset shape 1 1 0
unfolding copy_from launch_reshape_and_cache for_each cache_offset token_offset
token_1 = refl

-- The blocks 5 and 7 move to 1 and 2, and block 3 stays.
abbrev sources : ℕ → ℕ
sources k = if ltb k 2 then 5 + 2 * k else 3

abbrev targets : ℕ → ℕ
targets k = k + 1

compact_kv_cache-moved_example :
    copy_within (launch_compact_kv_cache shape sources targets 3) keys 30
    ≡ moved 3 (elems_per_block shape) sources targets keys keys 30
compact_kv_cache-moved_example =
    compact_kv_cache-moved shape sources targets 3 (launch_compact_kv_cache shape sources targets 3)
      keys 30 (omega arith) (λ i j li lj e. omega arith) (λ k j lk lj e. ground arith)
      (Permᴰ.refl _)
