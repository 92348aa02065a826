-- ===== src/Profiler/Usage.antt =====
-- The fractions that the profiler reports of the parts it points to: `gpu_cache_usage`,
-- `cpu_cache_usage` and the fragmentation of src/cacheflow/kv_cache/block_manager.cpp, and
-- `hit_rate` of src/cacheflow/kv_cache/prefix_cache.cpp. They are of the type `float`, which the
-- platform does not tell from `double`.
use cache_flow.Base.{ℕ, length, ltb, ◌==◌, if◌then◌else◌}
use cache_flow.Platform.{Platform}
use cache_flow.BlockManager.{BlockManager, num_free_gpu_blocks, num_free_cpu_blocks}
use cache_flow.BlockManager.Fragmentation.{FragmentationStats}
use cache_flow.PrefixCache.{PrefixCache}

module _ (platform : Platform) where
  open platform use {Double, nought, count, minus, over}

  -- 1 - part / whole.
  abbrev pub missing : ℕ → ℕ → Double
  missing part whole = minus (count 1) (over (count part) (count whole))

  unfoldable pub gpu_cache_usage : BlockManager → Double
  gpu_cache_usage bm =
      let total = length bm.gpu.blocks in
      if total == 0 then nought else missing (num_free_gpu_blocks bm) total

  unfoldable pub cpu_cache_usage : BlockManager → Double
  cpu_cache_usage bm =
      let total = length bm.cpu.blocks in
      if total == 0 then nought else missing (num_free_cpu_blocks bm) total

  unfoldable pub internal_fragmentation : FragmentationStats → Double
  internal_fragmentation s =
      if ltb 0 s.max_capacity then missing s.total_filled s.max_capacity else nought

  unfoldable pub external_fragmentation : FragmentationStats → Double
  external_fragmentation s =
      if ltb 0 s.free_blocks then missing s.largest_free_run s.free_blocks else nought

  unfoldable pub hit_rate : PrefixCache → Double
  hit_rate pc =
      if pc.stats.lookups == 0 then nought else over (count pc.stats.hits) (count pc.stats.lookups)
