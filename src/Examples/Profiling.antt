-- ===== src/Examples/Profiling.antt =====
-- A profiler that counts in whole milliseconds, and the trace that it writes.
use Prim.Native.String.{String}
use cache_flow.Base.{
  ℕ, ◌+◌, ◌-◌, ◌*◌, ◌/◌, ◌<◌, ◌≡◌, refl, true, false, List, [], ◌∷◌, ◌++◌, none, some, arith, ltb,
  leb,
}
use cache_flow.Platform.{Platform}
use cache_flow.Trace.{
  TraceWriter, EventPhase, new_event, create, num_events, close, add_event, add_counter, flush,
}
use cache_flow.Trace.Calls
use cache_flow.Trace.Calls.{add, count, span, drain, events_of}
use cache_flow.Trace.Document.{document, run-close}
use cache_flow.Trace.Buffer.{run-num_events}
use cache_flow.Profiler.{Moment, ProfilerConfig, Profiler, new, reset}
use cache_flow.Profiler.Calls.{Call, begin, end, label, start, first, finish, run, empty, post_all}
use cache_flow.Profiler.Tracks.{Tracks, run-new}
use cache_flow.Profiler.Traced.{writes_all, run-trace}
use cache_flow.Profiler.Report.{Sources, snapshot}
use cache_flow.Profiler.Fresh.{snapshot-reset}

abbrev pub digit : ℕ → String
digit n = elim n [ ℕ.zero ↦ "0" | ℕ.suc k ↦ elim k [ ℕ.zero ↦ "1" | ℕ.suc j ↦ "many" ] ]

-- Milliseconds as natural numbers, and a clock whose ticks are milliseconds.
abbrev pub whole : Platform
whole = record {
  Double = ℕ;
  nought = 0;
  half = 0;
  tiny = 0;
  huge = 1000000;
  minus_huge = 0;
  least = 0;
  epsilon = 0;
  count = λ n. n;
  to_size = λ x. x;
  plus = λ a b. a + b;
  minus = λ a b. a - b;
  times = λ a b. a * b;
  over = λ a b. a / b;
  root = λ x. x;
  exp = λ x. x + 1;
  less = λ a b. ltb a b;
  at_most = λ a b. leb a b;
  elapsed = λ a b. a - b;
  elapsed_us = λ a b. digit (a - b);
  duration_us = digit;
  int_to_string = λ i. "0";
  size_to_string = digit;
  double_to_string = digit;
  plain = digit;
  fixed = digit;
  padded = digit;
}

abbrev tracing : List (Calls.Call whole)
tracing =
    span 7 "load" "io" (record { key = "bytes"; value = "4" } ∷ []) 5 6
    ∷ drain
    ∷ count 7 "usage" "gpu" 1 6
    ∷ add 7 (new_event whole "ready" "mark" EventPhase.instant 6)
    ∷ []

run-close_example :
    close whole (Calls.run whole (create whole true 5) tracing)
    ≡ some ("[\n" ∷ document whole 5 (events_of whole tracing) ++ "\n]\n" ∷ [])
run-close_example = run-close whole 5 tracing

run-num_events_example :
    (num_events whole (Calls.run whole (create whole false 5) tracing)
      ≡ num_events whole (Calls.run whole (create whole true 5) tracing))
    × (num_events whole (Calls.run whole (create whole false 5) tracing) < 1000)
    × (close whole (Calls.run whole (create whole false 5) tracing) ≡ none)
run-num_events_example = run-num_events whole 5 tracing

-- The counter and the mark come after the flush.
two_kept : num_events whole (Calls.run whole (create whole true 5) tracing) ≡ 2
unfolding num_events Calls.run create Calls.act add_event add_counter flush
two_kept = refl

abbrev config : ProfilerConfig whole
config = record {
  enable_tracing = true;
  enable_metrics = true;
  histogram_min = 0;
  histogram_max = 500;
  histogram_bins = 5;
}

abbrev at_time : ℕ → Moment
at_time t = record { hash = 7; now = t; later = t + 1 }

-- Two requests start, one of them ends, and one that never started ends too.
abbrev calls : List (Call whole)
calls =
    start (at_time 10) 1
    ∷ start (at_time 11) 2
    ∷ begin (at_time 12) 3
    ∷ first (at_time 14) 1
    ∷ end (at_time 15) none 3
    ∷ finish (at_time 16) 1 2
    ∷ finish (at_time 17) 9 2
    ∷ label (at_time 18) "done"
    ∷ []

one_served : (post_all whole (empty whole) calls).served ≡ 1
unfolding post_all
one_served = refl

run-new_example :
    (p : Profiler whole) × (run whole (new whole config true 9) calls ≡ some p)
    × Tracks whole (post_all whole (empty whole) calls) p
run-new_example = run-new whole config true 9 calls (omega arith)

run-trace_example :
    (p : Profiler whole) × (w : TraceWriter whole) × (run whole (new whole config true 9) calls
      ≡ some p)
    × (p.trace_writer ≡ some w)
    × (close whole w
        ≡ some (
            "[\n" ∷ document whole 9 (events_of whole (writes_all whole (empty whole) calls))
            ++ "\n]\n" ∷ []))
run-trace_example = run-trace whole config 9 calls (omega arith) refl

abbrev nothing : Sources
nothing = record { block_manager = none; prefix_cache = none; scheduler = none }

-- The profiler after one step and the end of a request.
snapshot-reset_example :
    snapshot whole nothing (reset whole (run-new whole config true 9 calls (omega arith)).0)
    ≡ snapshot whole nothing (new whole config true 9)
snapshot-reset_example =
    snapshot-reset whole config true 9 calls (run-new whole config true 9 calls (omega arith)).0
      nothing (run-new whole config true 9 calls (omega arith)).1
