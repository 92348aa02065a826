-- ===== src/Kernels/Blocks/Runs.antt =====
-- What a run of each kernel that moves blocks leaves, in whatever order its threads run.

use mathlib.Core.List.{Permᴰ}
use cache_flow.Base.{ℕ, ◌/◌, ◌<◌, ◌≡◌, ◌≢◌, List, ◌==◌, ==-eq, ==_refl}
use cache_flow.Kernels.Moves.{Move, copy_from, copy_within}
use cache_flow.Kernels.Owner.{IsDistinct}
use cache_flow.Kernels.Reshape.{Shape}
use cache_flow.Kernels.Blocks.{
  elems_per_block, source_of, target_of, swap_blocks_kernel, memset_blocks_kernel,
  launch_copy_blocks, launch_swap_blocks, launch_compact_kv_cache, launch_memset_blocks,
}
use cache_flow.Kernels.Blocks.Moved.{moved, copy_from-moved, copy_within-moved, MovesBlocks-IsApart}
use cache_flow.Kernels.Blocks.Launches.{
  none_skipped, run-MovesBlocks, copy_blocks-MovesBlocks, threads-MovesBlocks,
  compact_kv_cache-MovesBlocks,
}

-- If no two pairs have the same destination and none has another's source as its destination,
-- `copy_blocks` leaves every element of a destination as it was in the source, and every other
-- element as it was.
pub copy_blocks-moved {ℓ} :
    {A : Type ℓ} (s : Shape) (mapping : ℕ → ℕ) (n : ℕ) (run : List Move) (cache : ℕ → A) (a : ℕ)
    → 0 < elems_per_block s
    → IsDistinct n (target_of mapping)
    → ((k j : ℕ) → k < n → j < n → target_of mapping k ≢ source_of mapping j)
    → Permᴰ run (launch_copy_blocks s mapping n)
    → copy_within run cache a
      ≡ moved n (elems_per_block s) (source_of mapping) (target_of mapping) cache cache a
copy_blocks-moved s mapping n run cache a z distinct apart order =
    let elems = elems_per_block s in
    let m =
      run-MovesBlocks n elems (source_of mapping) (target_of mapping) none_skipped run
        (launch_copy_blocks s mapping n) order (copy_blocks-MovesBlocks s mapping n) in
    copy_within-moved n elems (source_of mapping) (target_of mapping) none_skipped run z m distinct
      cache a (λ k l e. absurd (cc (e)))
      (MovesBlocks-IsApart n elems (source_of mapping) (target_of mapping) none_skipped run m
        (λ k j lk lj u v. apart k j lk lj))

-- If no two pairs have the same destination, `swap_blocks` leaves every element of a destination
-- as it is in the source of the other array, and every other element as it was.
pub swap_blocks-moved {ℓ} :
    {A : Type ℓ} (bytes : ℕ) (mapping : ℕ → ℕ) (n : ℕ) (run : List Move) (source cache : ℕ → A)
    (a : ℕ)
    → 0 < bytes / 4
    → IsDistinct n (target_of mapping)
    → Permᴰ run (launch_swap_blocks bytes mapping n)
    → copy_from run source cache a
      ≡ moved n (bytes / 4) (source_of mapping) (target_of mapping) source cache a
unfolding launch_swap_blocks swap_blocks_kernel
swap_blocks-moved bytes mapping n run source cache a z distinct order =
    let elems = bytes / 4 in
    let m =
      run-MovesBlocks n elems (source_of mapping) (target_of mapping) none_skipped run
        (launch_swap_blocks bytes mapping n) order
        (threads-MovesBlocks elems n (source_of mapping) (target_of mapping)) in
    copy_from-moved n elems (source_of mapping) (target_of mapping) none_skipped run z m distinct
      source cache a (λ k i l e. absurd (cc (e)))

-- `memset_blocks` leaves a zero at every element of its blocks, and every other element as it was.
pub memset_blocks-moved {ℓ} :
    {A : Type ℓ} (bytes : ℕ) (block_ids : ℕ → ℕ) (n : ℕ) (run : List Move) (nought : A)
    (cache : ℕ → A) (a : ℕ)
    → 0 < bytes / 4
    → IsDistinct n block_ids
    → Permᴰ run (launch_memset_blocks bytes block_ids n)
    → copy_from run (λ i. nought) cache a
      ≡ moved n (bytes / 4) block_ids block_ids (λ i. nought) cache a
unfolding launch_memset_blocks memset_blocks_kernel
memset_blocks-moved bytes block_ids n run nought cache a z distinct order =
    let elems = bytes / 4 in
    let m =
      run-MovesBlocks n elems block_ids block_ids none_skipped run
        (launch_memset_blocks bytes block_ids n) order
        (threads-MovesBlocks elems n block_ids block_ids) in
    copy_from-moved n elems block_ids block_ids none_skipped run z m distinct (λ i. nought) cache a
      (λ k i l e. absurd (cc (e)))

-- If no two blocks have the same destination, and a destination is the source of no other block,
-- `compact_kv_cache` leaves, in whatever order its threads run, every element of a destination as
-- it was in the source, and every other element as it was. A block may stay where it is.
pub compact_kv_cache-moved {ℓ} :
    {A : Type ℓ} (s : Shape) (src dst : ℕ → ℕ) (n : ℕ) (run : List Move) (cache : ℕ → A) (a : ℕ)
    → 0 < elems_per_block s
    → IsDistinct n dst
    → ((k j : ℕ) → k < n → j < n → dst k ≡ src j → k ≡ j)
    → Permᴰ run (launch_compact_kv_cache s src dst n)
    → copy_within run cache a ≡ moved n (elems_per_block s) src dst cache cache a
compact_kv_cache-moved s src dst n run cache a z distinct apart order =
    let elems = elems_per_block s in
    let m =
      run-MovesBlocks n elems src dst (λ k. src k == dst k) run
        (launch_compact_kv_cache s src dst n) order (compact_kv_cache-MovesBlocks s src dst n z) in
    copy_within-moved n elems src dst (λ k. src k == dst k) run z m distinct cache a
      (λ k l e. ==-eq (src k) (dst k) e)
      (MovesBlocks-IsApart n elems src dst (λ k. src k == dst k) run m
        (λ k j lk lj u v e.
          let one : k ≡ j = apart k j lk lj e in absurd (cc (u, ==_refl (src k), one, e))))
