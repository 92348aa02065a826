-- ===== src/Profiler/Report.antt =====
-- src/cacheflow/profiler/profiler.cpp: `snapshot` and the two reports.
use Prim.Native.String.{String}
use cache_flow.Base.{List, [], ◌∷◌, ◌++◌, Option, none, some, Bool, if◌then◌else◌}
use cache_flow.Common.{DeviceType}
use cache_flow.Platform.{Platform}
use cache_flow.BlockManager.{BlockManager}
use cache_flow.BlockManager.Fragmentation.{compute_fragmentation}
use cache_flow.PrefixCache.{PrefixCache}
use cache_flow.Scheduler.State.{Scheduler}
use cache_flow.Scheduler.Api.{num_running, num_waiting, num_swapped}
use cache_flow.Metrics.{MetricsSnapshot}
use cache_flow.Metrics.Running.{stddev}
use cache_flow.Metrics.Throughput.{tokens_per_sec}
use cache_flow.Metrics.Latency.{percentile}
use cache_flow.Profiler.{Profiler}
use cache_flow.Profiler.Usage.{
  gpu_cache_usage, cpu_cache_usage, internal_fragmentation, external_fragmentation, hit_rate,
}

-- What the pointers of the profiler point to.
pub record Sources : Type 0 where
  pub block_manager : Option BlockManager
  pub prefix_cache : Option PrefixCache
  pub scheduler : Option Scheduler

module _ (platform : Platform) where
  open platform use {Double, nought, count, times, plain, fixed, padded, size_to_string}

  abbrev pub read_blocks : Option BlockManager → MetricsSnapshot platform → MetricsSnapshot platform
  read_blocks none snap = snap
  read_blocks (some bm) snap =
      let frag = compute_fragmentation DeviceType.cuda bm in
      record snap {
        gpu_cache_usage = gpu_cache_usage platform bm;
        cpu_cache_usage = cpu_cache_usage platform bm;
        internal_fragmentation = internal_fragmentation platform frag;
        external_fragmentation = external_fragmentation platform frag;
      }

  abbrev pub read_prefixes :
      Option PrefixCache → MetricsSnapshot platform → MetricsSnapshot platform
  read_prefixes none snap = snap
  read_prefixes (some pc) snap = record snap { prefix_cache_hit_rate = hit_rate platform pc }

  abbrev pub read_queues : Option Scheduler → MetricsSnapshot platform → MetricsSnapshot platform
  read_queues none snap = snap
  read_queues (some s) snap = record snap {
    num_running_seqs = num_running s;
    num_waiting_seqs = num_waiting s;
    num_swapped_seqs = num_swapped s;
  }

  -- The members that are read of the profiler itself; the others have their defaults.
  unfoldable pub own_metrics : Profiler platform → MetricsSnapshot platform
  own_metrics p = record {
    throughput_tok_per_sec = tokens_per_sec platform p.throughput;
    avg_latency_ms = p.step_latency.mean;
    p50_latency_ms = percentile platform (count 50) p.latency_hist;
    p90_latency_ms = percentile platform (count 90) p.latency_hist;
    p95_latency_ms = percentile platform (count 95) p.latency_hist;
    p99_latency_ms = percentile platform (count 99) p.latency_hist;
    latency_stddev_ms = stddev platform p.step_latency;
    avg_ttft_ms = p.ttft_stats.mean;
    avg_tpot_ms = p.tpot_stats.mean;
    gpu_cache_usage = nought;
    cpu_cache_usage = nought;
    prefix_cache_hit_rate = nought;
    internal_fragmentation = nought;
    external_fragmentation = nought;
    num_running_seqs = 0;
    num_waiting_seqs = 0;
    num_swapped_seqs = 0;
    total_tokens_generated = p.throughput.total_tokens;
    total_requests_served = p.total_requests;
  }

  unfoldable pub snapshot : Sources → Profiler platform → MetricsSnapshot platform
  unfolding own_metrics
  snapshot s p =
      read_queues s.scheduler
        (read_prefixes s.prefix_cache (read_blocks s.block_manager (own_metrics p)))

  unfoldable pub line : String → String → List String
  line name value = name ∷ value ∷ "\n" ∷ []

  unfoldable pub csv_lines : MetricsSnapshot platform → List String
  unfolding line
  csv_lines snap =
      "metric,value\n" ∷ []
      ++ line "throughput_tok_per_sec," (plain snap.throughput_tok_per_sec)
      ++ line "avg_latency_ms," (plain snap.avg_latency_ms)
      ++ line "p50_latency_ms," (plain snap.p50_latency_ms)
      ++ line "p90_latency_ms," (plain snap.p90_latency_ms)
      ++ line "p95_latency_ms," (plain snap.p95_latency_ms)
      ++ line "p99_latency_ms," (plain snap.p99_latency_ms)
      ++ line "latency_stddev_ms," (plain snap.latency_stddev_ms)
      ++ line "avg_ttft_ms," (plain snap.avg_ttft_ms)
      ++ line "avg_tpot_ms," (plain snap.avg_tpot_ms)
      ++ line "gpu_cache_usage," (plain snap.gpu_cache_usage)
      ++ line "cpu_cache_usage," (plain snap.cpu_cache_usage)
      ++ line "internal_fragmentation," (plain snap.internal_fragmentation)
      ++ line "external_fragmentation," (plain snap.external_fragmentation)
      ++ line "prefix_cache_hit_rate," (plain snap.prefix_cache_hit_rate)
      ++ line "num_running_seqs," (size_to_string snap.num_running_seqs)
      ++ line "num_waiting_seqs," (size_to_string snap.num_waiting_seqs)
      ++ line "num_swapped_seqs," (size_to_string snap.num_swapped_seqs)
      ++ line "total_requests_served," (size_to_string snap.total_requests_served)
      ++ line "total_tokens_generated," (size_to_string snap.total_tokens_generated)

  -- What is written to the file, if it could be opened.
  unfoldable pub dump_csv : Bool → Sources → Profiler platform → Option (List String)
  unfolding snapshot csv_lines
  dump_csv opened s p = if opened then some (csv_lines (snapshot s p)) else none

  unfoldable pub summary_lines : MetricsSnapshot platform → List String
  summary_lines snap =
      "\n╔══════════════════════════════════════════════════╗\n"
      ∷ "║          CacheFlow Performance Summary           ║\n"
      ∷ "╠══════════════════════════════════════════════════╣\n"
      ∷ "║ Throughput:    "
      ∷ fixed snap.throughput_tok_per_sec
      ∷ " tok/s           ║\n"
      ∷ "║ Avg Latency:   "
      ∷ fixed snap.avg_latency_ms
      ∷ " ms              ║\n"
      ∷ "║ P50 Latency:   "
      ∷ fixed snap.p50_latency_ms
      ∷ " ms              ║\n"
      ∷ "║ P90 Latency:   "
      ∷ fixed snap.p90_latency_ms
      ∷ " ms              ║\n"
      ∷ "║ P95 Latency:   "
      ∷ fixed snap.p95_latency_ms
      ∷ " ms              ║\n"
      ∷ "║ P99 Latency:   "
      ∷ fixed snap.p99_latency_ms
      ∷ " ms              ║\n"
      ∷ "║ Latency σ:     "
      ∷ fixed snap.latency_stddev_ms
      ∷ " ms              ║\n"
      ∷ "║ Avg TTFT:      "
      ∷ fixed snap.avg_ttft_ms
      ∷ " ms              ║\n"
      ∷ "║ Avg TPOT:      "
      ∷ fixed snap.avg_tpot_ms
      ∷ " ms              ║\n"
      ∷ "╠══════════════════════════════════════════════════╣\n"
      ∷ "║ GPU Cache:     "
      ∷ fixed (times snap.gpu_cache_usage (count 100))
      ∷ " %               ║\n"
      ∷ "║ Int. Frag:     "
      ∷ fixed (times snap.internal_fragmentation (count 100))
      ∷ " %               ║\n"
      ∷ "║ Ext. Frag:     "
      ∷ fixed (times snap.external_fragmentation (count 100))
      ∷ " %               ║\n"
      ∷ "║ Prefix Hit:    "
      ∷ fixed (times snap.prefix_cache_hit_rate (count 100))
      ∷ " %               ║\n"
      ∷ "╠══════════════════════════════════════════════════╣\n"
      ∷ "║ Running:       "
      ∷ padded snap.num_running_seqs
      ∷ "                  ║\n"
      ∷ "║ Waiting:       "
      ∷ padded snap.num_waiting_seqs
      ∷ "                  ║\n"
      ∷ "║ Swapped:       "
      ∷ padded snap.num_swapped_seqs
      ∷ "                  ║\n"
      ∷ "║ Total Served:  "
      ∷ padded snap.total_requests_served
      ∷ "                  ║\n"
      ∷ "║ Total Tokens:  "
      ∷ padded snap.total_tokens_generated
      ∷ "                  ║\n"
      ∷ "╚══════════════════════════════════════════════════╝\n"
      ∷ []

  unfoldable pub dump_summary : Sources → Profiler platform → List String
  unfolding snapshot summary_lines
  dump_summary s p = summary_lines (snapshot s p)
