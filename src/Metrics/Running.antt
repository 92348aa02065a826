-- ===== src/Metrics/Running.antt =====
-- src/cacheflow/profiler/metrics.h: `RunningStats`, the algorithm of Welford.
use cache_flow.Base.{ℕ, suc, ◌-◌, ltb, if◌then◌else◌}
use cache_flow.Platform.{Platform, min, max}

module _ (platform : Platform) where
  open platform use {Double, nought, huge, minus_huge, count, plus, minus, times, over, root}

  pub record RunningStats : Type 0 where
    pub updates : ℕ
    pub mean : Double
    pub m2 : Double
    pub least : Double
    pub greatest : Double

  unfoldable pub reset : RunningStats
  reset = record { updates = 0; mean = nought; m2 = nought; least = huge; greatest = minus_huge }

  unfoldable pub update : Double → RunningStats → RunningStats
  update x s =
      let n = suc s.updates in
      let delta = minus x s.mean in
      let mean' = plus s.mean (over delta (count n)) in
      let delta2 = minus x mean' in
      record {
        updates = n;
        mean = mean';
        m2 = plus s.m2 (times delta delta2);
        least = min platform s.least x;
        greatest = max platform s.greatest x;
      }

  unfoldable pub variance : RunningStats → Double
  variance s = if ltb 1 s.updates then over s.m2 (count (s.updates - 1)) else nought

  unfoldable pub stddev : RunningStats → Double
  unfolding variance
  stddev s = root (variance s)
