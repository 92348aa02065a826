-- ===== src/Profiler/Tracks.antt =====
-- src/cacheflow/profiler/profiler.cpp: the profiler keeps the ledger of its calls.
use cache_flow.Base.{
  ℕ, zero, suc, ◌+◌, ◌<◌, ◌==◌, ◌≡◌, ◌∙◌, refl, sym, ap, if◌then◌else◌, Bool, true, false, List, [],
  ◌∷◌, Option, none, some, length, arith, Option-cases, inl, inr,
}
use cache_flow.Base.Assoc.{lookup, insert, lookup-insert, lookup-erase}
use cache_flow.Common.{SeqId}
use cache_flow.Platform.{Platform}
use cache_flow.BlockManager.{BlockManager}
use cache_flow.Histogram.{Histogram, IsSummed, record_value-IsSummed, length-record_value, sum}
use cache_flow.Metrics.Running.{update}
use cache_flow.Metrics.Running
use cache_flow.Metrics.Throughput.{record_tokens, record_interval}
use cache_flow.Metrics.Throughput
use cache_flow.Metrics.Latency.{
  LatencyHistogram, reading, record_latency, replicate, fill, length-replicate, length-fill,
}
use cache_flow.Metrics.Latency
use cache_flow.Profiler.{
  Moment, ProfilerConfig, RequestRecord, Profiler, new, begin_step, end_step, note_step, mark,
  record_request_start, record_first_token, record_request_end, record_prefill, record_decode,
  reset,
}
use cache_flow.Trace.{TraceWriter}
use cache_flow.Profiler.Calls.{
  Call, begin, end, label, start, first, finish, prefill, decode, clear, act, run, Ledger, empty,
  post, post_all,
}

abbrev pub is_some : Option RequestRecord → Bool
is_some none = false
is_some (some rec) = true

-- The histogram has a bin and has counted `n` values, the ones in range in its bins.
pub record Counted (n : ℕ) (h : Histogram) : Type 0 where
  pub has_bin : 0 < length h.bins
  pub summed : IsSummed h
  pub readings : h.underflow + h.overflow + h.total ≡ n

is_some-if :
    (b : Bool) (rec : RequestRecord) (o : Option RequestRecord) (x : Bool)
    → is_some o ≡ x
    → is_some (if b then some rec else o) ≡ (if b then true else x)
is_some-if true rec o x e = refl
is_some-if false rec o x e = e

is_some-if_none :
    (b : Bool) (o : Option RequestRecord) (x : Bool)
    → is_some o ≡ x
    → is_some (if b then none else o) ≡ (if b then false else x)
is_some-if_none true o x e = refl
is_some-if_none false o x e = e

-- A write to a key that is there adds no key.
is_some-insert :
    (id j : SeqId) (rec old : RequestRecord) (m : List (SeqId × RequestRecord))
    → lookup id m ≡ some old
    → is_some (lookup j (insert id rec m)) ≡ is_some (lookup j m)
is_some-insert id j rec old m e = ground (arith, lookup-insert id j rec m)

sum-fill : (ns : List ℕ) → sum (fill ns) ≡ 0
unfolding sum
sum-fill [] = refl
sum-fill (n ∷ ns) = omega (arith, sum-fill ns)

sum-replicate : (k : ℕ) → sum (replicate k 0) ≡ 0
unfolding sum
sum-replicate zero = refl
sum-replicate (suc k) = omega (arith, sum-replicate k)

module _ (platform : Platform) where
  -- What the ledger says of the state of the profiler.
  pub record Tracks (l : Ledger platform) (p : Profiler platform) : Type 0 where
    pub requests : (id : SeqId) → is_some (lookup id p.active_requests) ≡ l.is_open id
    pub served : p.total_requests ≡ l.served
    pub tokens : p.throughput.total_tokens ≡ l.tokens
    pub latencies : p.step_latency.updates ≡ l.steps
    pub intervals : p.throughput.intervals ≡ l.steps
    pub counted : Counted l.steps p.latency_hist.histogram

  record_latency-Counted :
      (v : platform.Double) (n : ℕ) (h : LatencyHistogram platform)
      → Counted n h.histogram
      → (h' : LatencyHistogram platform) × (record_latency platform v h ≡ some h')
        × Counted (suc n) h'.histogram
  unfolding record_latency
  record_latency-Counted v n h c =
      let (g, r, s, grown) =
        record_value-IsSummed (reading platform v h) h.histogram c.has_bin c.summed in
      (
        record h { histogram = g },
        rw (r, record_latency),
        record {
          has_bin = rw (length-record_value (reading platform v h) h.histogram g r) c.has_bin;
          summed = s;
          readings = omega (arith, grown, c.readings);
        },
      )

  -- A profiler with another trace is tracked alike.
  same_counts :
      (l : Ledger platform) (p : Profiler platform) (w : Option (TraceWriter platform))
      → Tracks l p
      → Tracks l (record p { trace_writer = w })
  same_counts l p w t = record {
    requests = t.requests;
    served = t.served;
    tokens = t.tokens;
    latencies = t.latencies;
    intervals = t.intervals;
    counted = t.counted;
  }

  end_step-Tracks :
      (m : Moment) (bm : Option BlockManager) (v : platform.Double) (l : Ledger platform)
      (p : Profiler platform)
      → Tracks l p
      → (h : LatencyHistogram platform) × (record_latency platform v p.latency_hist ≡ some h)
        × Tracks (record l { steps = suc l.steps }) (note_step platform m bm v h p)
  unfolding note_step update record_interval
  end_step-Tracks m bm v l p t =
      let (h, r, c) = record_latency-Counted v l.steps p.latency_hist t.counted in
      (
        h,
        r,
        record {
          requests = t.requests;
          served = t.served;
          tokens = t.tokens;
          latencies = ap suc t.latencies;
          intervals = ap suc t.intervals;
          counted = c;
        },
      )

  record_request_start-Tracks :
      (m : Moment) (id : SeqId) (l : Ledger platform) (p : Profiler platform)
      → Tracks l p
      → Tracks (post platform l (start m id)) (record_request_start platform m id p)
  unfolding record_request_start
  record_request_start-Tracks m id l p t =
      let rec : RequestRecord = record {
        start = m.now;
        first_token = 0;
        got_first_token = false;
      } in
      record {
        requests = λ j.
            ap is_some (lookup-insert id j rec p.active_requests)
            ∙ is_some-if (id == j) rec (lookup j p.active_requests) (l.is_open j) (t.requests j);
        served = t.served;
        tokens = t.tokens;
        latencies = t.latencies;
        intervals = t.intervals;
        counted = t.counted;
      }

  record_first_token-Tracks :
      (m : Moment) (id : SeqId) (l : Ledger platform) (p : Profiler platform)
      → Tracks l p
      → Tracks l (record_first_token platform m id p)
  unfolding record_first_token
  record_first_token-Tracks m id l p t = elim (Option-cases (lookup id p.active_requests)) [
    | inl e ↦ rw (e, record_first_token) t
    | inr (rec, e) ↦
        rw (e, record_first_token)
          (record {
            requests = λ j.
                is_some-insert id j (record rec { first_token = m.now; got_first_token = true }) rec
                  p.active_requests e
                ∙ t.requests j;
            served = t.served;
            tokens = t.tokens;
            latencies = t.latencies;
            intervals = t.intervals;
            counted = t.counted;
          })
  ]

  record_request_end-Tracks :
      (m : Moment) (id : SeqId) (n : ℕ) (l : Ledger platform) (p : Profiler platform)
      → Tracks l p
      → Tracks (post platform l (finish m id n)) (record_request_end platform m id n p)
  unfolding record_request_end
  record_request_end-Tracks m id n l p t = elim (Option-cases (lookup id p.active_requests)) [
    | inl e ↦
        let unknown : l.is_open id ≡ false = sym (t.requests id) ∙ ap is_some e in
        rw (e, record_request_end, unknown) t
    | inr (rec, e) ↦
        let known : l.is_open id ≡ true = sym (t.requests id) ∙ ap is_some e in
        rw (e, record_request_end, known)
          (record {
            requests = λ j.
                ap is_some (lookup-erase id j p.active_requests)
                ∙ is_some-if_none (id == j) (lookup j p.active_requests) (l.is_open j)
                    (t.requests j);
            served = ap suc t.served;
            tokens = t.tokens;
            latencies = t.latencies;
            intervals = t.intervals;
            counted = t.counted;
          })
  ]

  reset-Tracks :
      (l : Ledger platform) (p : Profiler platform)
      → Tracks l p
      → Tracks (empty platform) (reset platform p)
  unfolding reset Running.reset Throughput.reset Latency.reset lookup
  reset-Tracks l p t = record {
    requests = λ j. refl;
    served = refl;
    tokens = refl;
    latencies = refl;
    intervals = refl;
    counted = record {
      has_bin = rw (length-fill p.latency_hist.histogram.bins) t.counted.has_bin;
      summed = sum-fill p.latency_hist.histogram.bins;
      readings = refl;
    };
  }

  -- Every call runs, and does to the profiler what it does to the ledger.
  pub act-Tracks :
      (c : Call platform) (l : Ledger platform) (p : Profiler platform)
      → Tracks l p
      → (p' : Profiler platform) × (act platform p c ≡ some p') × Tracks (post platform l c) p'
  unfolding act begin_step record_tokens end_step mark record_prefill record_decode
  act-Tracks (begin m n) l p t = (
    begin_step platform m n p,
    refl,
    record {
      requests = t.requests;
      served = t.served;
      tokens = ap (λ (k : ℕ). k + n) t.tokens;
      latencies = t.latencies;
      intervals = t.intervals;
      counted = t.counted;
    },
  )
  act-Tracks (end m bm v) l p t =
      let (h, r, t') = end_step-Tracks m bm v l p t in
      (note_step platform m bm v h p, rw (r, end_step), t')
  act-Tracks (label m text) l p t = (mark platform m text p, refl, same_counts l p _ t)
  act-Tracks (start m id) l p t =
      (record_request_start platform m id p, refl, record_request_start-Tracks m id l p t)
  act-Tracks (first m id) l p t =
      (record_first_token platform m id p, refl, record_first_token-Tracks m id l p t)
  act-Tracks (finish m id n) l p t =
      (record_request_end platform m id n p, refl, record_request_end-Tracks m id n l p t)
  act-Tracks (prefill m id n v) l p t =
      (record_prefill platform m id n v p, refl, same_counts l p _ t)
  act-Tracks (decode m id v) l p t = (record_decode platform m id v p, refl, same_counts l p _ t)
  act-Tracks clear l p t = (reset platform p, refl, reset-Tracks l p t)

  run-Tracks :
      (cs : List (Call platform)) (l : Ledger platform) (p : Profiler platform)
      → Tracks l p
      → (p' : Profiler platform) × (run platform p cs ≡ some p')
        × Tracks (post_all platform l cs) p'
  unfolding run post_all
  run-Tracks [] l p t = (p, refl, t)
  run-Tracks (c ∷ cs) l p t =
      let (q, acted, t') = act-Tracks c l p t in
      let (p', ran, t'') = run-Tracks cs (post platform l c) q t' in (p', rw (acted, run) ran, t'')

  pub new-Tracks :
      (config : ProfilerConfig platform) (opened : Bool) (now : ℕ)
      → 0 < config.histogram_bins
      → Tracks (empty platform) (new platform config opened now)
  unfolding new Running.reset Throughput.reset Latency.create lookup
  new-Tracks config opened now bins = record {
    requests = λ j. refl;
    served = refl;
    tokens = refl;
    latencies = refl;
    intervals = refl;
    counted = record {
      has_bin = rw (length-replicate config.histogram_bins) bins;
      summed = sum-replicate config.histogram_bins;
      readings = refl;
    };
  }

  -- A profiler whose histogram has a bin takes all calls in any order, and keeps their ledger: the
  -- requests that have started and not ended, how many have ended, the tokens, and the steps, each
  -- of which is one latency, one interval and one reading of the histogram; the bins sum up to the
  -- total. Ends of requests that are not open count nothing.
  pub run-new :
      (config : ProfilerConfig platform) (opened : Bool) (now : ℕ) (cs : List (Call platform))
      → 0 < config.histogram_bins
      → (p : Profiler platform) × (run platform (new platform config opened now) cs ≡ some p)
        × Tracks (post_all platform (empty platform) cs) p
  run-new config opened now cs bins =
      run-Tracks cs (empty platform) (new platform config opened now)
        (new-Tracks config opened now bins)
