-- ===== src/Profiler.antt =====
-- src/cacheflow/profiler/profiler.h and profiler.cpp: the profiler and the marks that it takes.
--
-- The objects that the profiler points to belong to others and change between its calls, so a
-- call that reads them has them as an argument, `none` for a null pointer. So is what a call
-- reads of the clock and of its thread. A record into a histogram without bins is undefined and
-- gives `none`.
pub mod Usage
pub mod Report
pub mod Calls
pub mod Tracks
pub mod Traced
pub mod Fresh
use Prim.Native.String.{String}
use cache_flow.Base.{
  ℕ, suc, ◌-◌, ltb, Bool, true, false, ◌&&◌, if◌then◌else◌, List, [], ◌∷◌, Option, none, some,
}
use cache_flow.Base.Assoc.{lookup, insert, erase}
use cache_flow.Common.{SeqId}
use cache_flow.Platform.{Platform}
use cache_flow.BlockManager.{BlockManager}
use cache_flow.Profiler.Usage.{gpu_cache_usage}
use cache_flow.Trace.{
  EventPhase, TraceEvent, TraceWriter, new_event, create, add_event, add_counter,
}
use cache_flow.Metrics.Running.{RunningStats, update}
use cache_flow.Metrics.Running
use cache_flow.Metrics.Throughput.{ThroughputMeter, record_tokens, record_interval}
use cache_flow.Metrics.Throughput
use cache_flow.Metrics.Latency.{LatencyHistogram, record_latency}
use cache_flow.Metrics.Latency

-- The hash of the thread of a call, and what its first and its second `Clock::now()` read.
pub record Moment : Type 0 where
  pub hash : ℕ
  pub now : ℕ
  pub later : ℕ

pub record RequestRecord : Type 0 where
  pub start : ℕ
  pub first_token : ℕ
  pub got_first_token : Bool

module _ (platform : Platform) where
  open platform use {Double, nought, count, over, elapsed, size_to_string, double_to_string}

  -- `enable_metrics` is read by no code.
  pub record ProfilerConfig : Type 0 where
    pub enable_tracing : Bool
    pub enable_metrics : Bool
    pub histogram_min : Double
    pub histogram_max : Double
    pub histogram_bins : ℕ

  pub record Profiler : Type 0 where
    pub step_latency : RunningStats platform
    pub ttft_stats : RunningStats platform
    pub tpot_stats : RunningStats platform
    pub latency_hist : LatencyHistogram platform
    pub throughput : ThroughputMeter platform
    pub active_requests : List (SeqId × RequestRecord)
    pub trace_writer : Option (TraceWriter platform)
    pub step_start : ℕ
    pub total_requests : ℕ

  -- The constructor; `opened` tells whether the file of the trace could be opened.
  unfoldable pub new : ProfilerConfig → Bool → ℕ → Profiler
  new config opened now = record {
    step_latency = Running.reset platform;
    ttft_stats = Running.reset platform;
    tpot_stats = Running.reset platform;
    latency_hist =
        Latency.create platform config.histogram_min config.histogram_max config.histogram_bins;
    throughput = Throughput.reset platform;
    active_requests = [];
    trace_writer = if config.enable_tracing then some (create platform opened now) else none;
    step_start = 0;
    total_requests = 0;
  }

  -- `if (trace_writer_) trace_writer_->...`.
  abbrev pub with_writer :
      (TraceWriter platform → TraceWriter platform)
      → Option (TraceWriter platform)
      → Option (TraceWriter platform)
  with_writer f none = none
  with_writer f (some w) = some (f w)

  unfoldable pub begin_event : ℕ → ℕ → TraceEvent platform
  begin_event now num_tokens =
      record (new_event platform "decode_step" "engine" EventPhase.begin now) {
        args = record { key = "num_tokens"; value = size_to_string num_tokens } ∷ [];
      }

  unfoldable pub begin_step : Moment → ℕ → Profiler → Profiler
  unfolding begin_event
  begin_step m num_tokens p = record p {
    step_start = m.now;
    throughput = record_tokens platform num_tokens p.throughput;
    trace_writer =
        with_writer (add_event platform m.hash (begin_event m.now num_tokens)) p.trace_writer;
  }

  unfoldable pub end_event : ℕ → TraceEvent platform
  end_event now = new_event platform "decode_step" "engine" EventPhase.end now

  abbrev pub count_usage :
      Moment → Option BlockManager → TraceWriter platform → TraceWriter platform
  count_usage m none w = w
  count_usage m (some bm) w =
      add_counter platform m.hash "gpu_cache_usage" "utilization" (gpu_cache_usage platform bm)
        m.later w

  -- The rest of `end_step` once the latency is in the histogram.
  unfoldable pub note_step :
      Moment → Option BlockManager → Double → LatencyHistogram platform → Profiler → Profiler
  unfolding end_event
  note_step m bm step_time_ms hist p = record p {
    step_latency = update platform step_time_ms p.step_latency;
    latency_hist = hist;
    throughput = record_interval platform step_time_ms p.throughput;
    trace_writer =
        with_writer (λ w. count_usage m bm (add_event platform m.hash (end_event m.now) w))
          p.trace_writer;
  }

  unfoldable pub end_step : Moment → Option BlockManager → Double → Profiler → Option Profiler
  unfolding note_step
  end_step m bm step_time_ms p = elim (record_latency platform step_time_ms p.latency_hist) [
    | none ↦ none
    | some hist ↦ some (note_step m bm step_time_ms hist p)
  ]

  unfoldable pub mark_event : ℕ → String → TraceEvent platform
  mark_event now label = new_event platform label "mark" EventPhase.instant now

  unfoldable pub mark : Moment → String → Profiler → Profiler
  unfolding mark_event
  mark m label p = record p {
    trace_writer = with_writer (add_event platform m.hash (mark_event m.now label)) p.trace_writer;
  }

  -- A record that is not started twice is new; one that is has its start overwritten.
  unfoldable pub record_request_start : Moment → SeqId → Profiler → Profiler
  record_request_start m id p =
      let rec : RequestRecord = record {
        start = m.now;
        first_token = 0;
        got_first_token = false;
      } in
      record p { active_requests = insert id rec p.active_requests }

  unfoldable pub record_first_token : Moment → SeqId → Profiler → Profiler
  record_first_token m id p = elim (lookup id p.active_requests) [
    | none ↦ p
    | some rec ↦ record p {
      active_requests =
          insert id (record rec { first_token = m.now; got_first_token = true }) p.active_requests;
      ttft_stats = update platform (elapsed m.now rec.start) p.ttft_stats;
    }
  ]

  abbrev pub time_per_token : Moment → ℕ → RequestRecord → Double
  time_per_token m output_tokens rec =
      over (elapsed m.now rec.first_token) (count (output_tokens - 1))

  unfoldable pub record_request_end : Moment → SeqId → ℕ → Profiler → Profiler
  record_request_end m id output_tokens p = elim (lookup id p.active_requests) [
    | none ↦ p
    | some rec ↦ record p {
      tpot_stats =
          if rec.got_first_token && ltb 1 output_tokens
          then update platform (time_per_token m output_tokens rec) p.tpot_stats
          else p.tpot_stats;
      total_requests = suc p.total_requests;
      active_requests = erase id p.active_requests;
      trace_writer =
          with_writer
            (add_counter platform m.hash "requests_completed" "count" (count (suc p.total_requests))
              m.later)
            p.trace_writer;
    }
  ]

  unfoldable pub prefill_event : ℕ → SeqId → ℕ → Double → TraceEvent platform
  prefill_event now id prompt_len time_ms =
      record (new_event platform "prefill" "decode" EventPhase.complete now) {
        duration = time_ms;
        args =
            record { key = "seq_id"; value = size_to_string id }
            ∷ record { key = "prompt_len"; value = size_to_string prompt_len }
            ∷ [];
      }

  unfoldable pub record_prefill : Moment → SeqId → ℕ → Double → Profiler → Profiler
  unfolding prefill_event
  record_prefill m id prompt_len time_ms p = record p {
    trace_writer =
        with_writer (add_event platform m.hash (prefill_event m.now id prompt_len time_ms))
          p.trace_writer;
  }

  unfoldable pub decode_event : ℕ → SeqId → Double → TraceEvent platform
  decode_event now id time_ms =
      record (new_event platform "decode" "decode" EventPhase.complete now) {
        duration = time_ms;
        args = record { key = "seq_id"; value = size_to_string id } ∷ [];
      }

  unfoldable pub record_decode : Moment → SeqId → Double → Profiler → Profiler
  unfolding decode_event
  record_decode m id time_ms p = record p {
    trace_writer =
        with_writer (add_event platform m.hash (decode_event m.now id time_ms)) p.trace_writer;
  }

  -- The trace and the time of the last step are kept.
  unfoldable pub reset : Profiler → Profiler
  reset p = record p {
    step_latency = Running.reset platform;
    ttft_stats = Running.reset platform;
    tpot_stats = Running.reset platform;
    latency_hist = Latency.reset platform p.latency_hist;
    throughput = Throughput.reset platform;
    active_requests = [];
    total_requests = 0;
  }
