-- ===== src/Examples/Swapping.antt =====
-- A sequence that is swapped out and freed in the mode SWAP.
use cache_flow.Base.{◌≡◌, refl, List, [], ◌∷◌, Option, none, some}
use cache_flow.Base.Int.{pos}
use cache_flow.Common.{BlockId}
use cache_flow.BlockManager.{BlockManager, init, allocate_block, free_blocks}
use cache_flow.Scheduler.State.{BlockOp}
use cache_flow.Scheduler.Sequences.{swap_out_blocks}
use cache_flow.Examples.Blocks.{fresh, one_block, after_call}

abbrev swapped_manager : Option (List BlockId × BlockManager × List BlockOp) → BlockManager
swapped_manager none = fresh
swapped_manager (some r) = r.1

-- Block 0 of the GPU is free again, and block 0 of the CPU holds its content.
abbrev swapped_out : BlockManager
swapped_out = swapped_manager (swap_out_blocks 7 (pos 0 ∷ []) one_block [])

free_after_swap : swapped_out.gpu.free_list ≡ pos 0 ∷ pos 1 ∷ pos 2 ∷ []
unfolding init allocate_block swap_out_blocks
free_after_swap = refl

-- The owner map still names block 0 of the GPU, so freeing the sequence frees it once more.
free_twice :
    (after_call (free_blocks 7 swapped_out)).gpu.free_list ≡ pos 0 ∷ pos 0 ∷ pos 1 ∷ pos 2 ∷ []
unfolding init allocate_block swap_out_blocks free_blocks
free_twice = refl
