-- ===== src/Metrics/Throughput.antt =====
-- src/cacheflow/profiler/metrics.h: `ThroughputMeter`.
use cache_flow.Base.{ℕ, suc, ◌+◌, ◌==◌, if◌then◌else◌}
use cache_flow.Platform.{Platform}

module _ (platform : Platform) where
  open platform use {Double, nought, count, plus, over, at_most}

  pub record ThroughputMeter : Type 0 where
    pub total_tokens : ℕ
    pub total_time_ms : Double
    pub intervals : ℕ

  unfoldable pub reset : ThroughputMeter
  reset = record { total_tokens = 0; total_time_ms = nought; intervals = 0 }

  unfoldable pub record_tokens : ℕ → ThroughputMeter → ThroughputMeter
  record_tokens n t = record t { total_tokens = t.total_tokens + n }

  unfoldable pub record_interval : Double → ThroughputMeter → ThroughputMeter
  record_interval ms t = record t {
    total_time_ms = plus t.total_time_ms ms;
    intervals = suc t.intervals;
  }

  unfoldable pub tokens_per_sec : ThroughputMeter → Double
  tokens_per_sec t =
      if at_most t.total_time_ms nought
      then nought
      else over (count t.total_tokens) (over t.total_time_ms (count 1000))

  unfoldable pub avg_interval_ms : ThroughputMeter → Double
  avg_interval_ms t = if t.intervals == 0 then nought else over t.total_time_ms (count t.intervals)
