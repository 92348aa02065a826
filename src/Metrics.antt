-- ===== src/Metrics.antt =====
-- src/cacheflow/profiler/metrics.h: the statistics of a run. The bins of the histogram are in
-- Histogram.
pub mod Running
pub mod Throughput
pub mod Latency
use cache_flow.Base.{ℕ}
use cache_flow.Platform.{Platform}

module _ (platform : Platform) where
  open platform use {Double}

  pub record MetricsSnapshot : Type 0 where
    pub throughput_tok_per_sec : Double
    pub avg_latency_ms : Double
    pub p50_latency_ms : Double
    pub p90_latency_ms : Double
    pub p95_latency_ms : Double
    pub p99_latency_ms : Double
    pub latency_stddev_ms : Double
    pub avg_ttft_ms : Double
    pub avg_tpot_ms : Double
    pub gpu_cache_usage : Double
    pub cpu_cache_usage : Double
    pub prefix_cache_hit_rate : Double
    pub internal_fragmentation : Double
    pub external_fragmentation : Double
    pub num_running_seqs : ℕ
    pub num_waiting_seqs : ℕ
    pub num_swapped_seqs : ℕ
    pub total_tokens_generated : ℕ
    pub total_requests_served : ℕ
