-- ===== src/Profiler/Fresh.antt =====
-- src/cacheflow/profiler/profiler.cpp: a profiler that is reset reports as a new one.
use cache_flow.Base.{
  ℕ, ◌≡◌, ◌∙◌, refl, sym, ap, Bool, List, [], ◌∷◌, Option, some, length, Option-cases, inl, inr,
}
use cache_flow.Base.Assoc.{lookup}
use cache_flow.Platform.{Platform}
use cache_flow.BlockManager.{BlockManager}
use cache_flow.Histogram.{record_value, length-record_value}
use cache_flow.Metrics.Latency.{
  LatencyHistogram, create, reading, record_latency, replicate, fill, length-replicate, length-fill,
}
use cache_flow.Metrics.Latency
use cache_flow.Common.{SeqId}
use cache_flow.Profiler.{
  Moment, ProfilerConfig, Profiler, new, begin_step, end_step, note_step, mark,
  record_request_start, record_first_token, record_request_end, record_prefill, record_decode,
  reset,
}
use cache_flow.Profiler.Calls.{
  Call, begin, end, label, start, first, finish, prefill, decode, clear, act, run,
}
use cache_flow.Profiler.Report.{Sources, own_metrics, snapshot}

fill-replicate : (ns : List ℕ) → fill ns ≡ replicate (length ns) 0
fill-replicate [] = refl
fill-replicate (n ∷ ns) = ap (λ (ms : List ℕ). 0 ∷ ms) (fill-replicate ns)

module _ (platform : Platform) where
  -- The histogram has the range and the bins of the configuration.
  record IsShaped (config : ProfilerConfig platform) (h : LatencyHistogram platform) : Type 0 where
    lowest : h.min_val ≡ config.histogram_min
    highest : h.max_val ≡ config.histogram_max
    width :
        h.bin_width
        ≡ platform.over
            (platform.minus config.histogram_max config.histogram_min)
            (platform.count config.histogram_bins)
    bins : length h.histogram.bins ≡ config.histogram_bins

  record_latency-IsShaped :
      (config : ProfilerConfig platform) (v : platform.Double) (h h' : LatencyHistogram platform)
      → record_latency platform v h ≡ some h'
      → IsShaped config h
      → IsShaped config h'
  unfolding record_latency
  record_latency-IsShaped config v h h' e s =
      elim (Option-cases (record_value (reading platform v h) h.histogram)) [
        | inl stuck ↦ absurd (cc (stuck, e))
        | inr (g, counted) ↦
            let same : record h { histogram = g } ≡ h' = cc (counted, e) in
            rw (← same) (record {
              lowest = s.lowest;
              highest = s.highest;
              width = s.width;
              bins = length-record_value (reading platform v h) h.histogram g counted ∙ s.bins;
            })
      ]

  -- A call that leaves the histogram alone.
  keeps_shape :
      (config : ProfilerConfig platform) (p q p' : Profiler platform)
      → q.latency_hist ≡ p.latency_hist
      → ◌≡◌ {A = Option (Profiler platform)} (some q) (some p')
      → IsShaped config p.latency_hist
      → IsShaped config p'.latency_hist
  keeps_shape config p q p' same e s = let at : q ≡ p' = cc (e) in rw (← at, same) s

  first_keeps :
      (m : Moment) (id : SeqId) (p : Profiler platform)
      → (record_first_token platform m id p).latency_hist ≡ p.latency_hist
  unfolding record_first_token
  first_keeps m id p = elim (Option-cases (lookup id p.active_requests)) [
    | inl e ↦ rw (e, record_first_token)
    | inr (rec, e) ↦ rw (e, record_first_token)
  ]

  end_keeps :
      (m : Moment) (id : SeqId) (n : ℕ) (p : Profiler platform)
      → (record_request_end platform m id n p).latency_hist ≡ p.latency_hist
  unfolding record_request_end
  end_keeps m id n p = elim (Option-cases (lookup id p.active_requests)) [
    | inl e ↦ rw (e, record_request_end)
    | inr (rec, e) ↦ rw (e, record_request_end)
  ]

  end_step-IsShaped :
      (config : ProfilerConfig platform) (m : Moment) (bm : Option BlockManager)
      (v : platform.Double) (p p' : Profiler platform)
      → end_step platform m bm v p ≡ some p'
      → IsShaped config p.latency_hist
      → IsShaped config p'.latency_hist
  unfolding end_step note_step
  end_step-IsShaped config m bm v p p' e s =
      elim (Option-cases (record_latency platform v p.latency_hist)) [
        | inl stuck ↦ absurd (cc (stuck, e))
        | inr (h, r) ↦
            let at : note_step platform m bm v h p ≡ p' = cc (r, e) in
            rw (← at) (record_latency-IsShaped config v p.latency_hist h r s)
      ]

  act-IsShaped :
      (config : ProfilerConfig platform) (c : Call platform) (p p' : Profiler platform)
      → act platform p c ≡ some p'
      → IsShaped config p.latency_hist
      → IsShaped config p'.latency_hist
  unfolding act begin_step mark record_request_start record_prefill record_decode reset
      Latency.reset
  act-IsShaped config (begin m n) p p' e s = keeps_shape config p _ p' refl e s
  act-IsShaped config (end m bm v) p p' e s = end_step-IsShaped config m bm v p p' e s
  act-IsShaped config (label m text) p p' e s = keeps_shape config p _ p' refl e s
  act-IsShaped config (start m id) p p' e s = keeps_shape config p _ p' refl e s
  act-IsShaped config (first m id) p p' e s = keeps_shape config p _ p' (first_keeps m id p) e s
  act-IsShaped config (finish m id n) p p' e s = keeps_shape config p _ p' (end_keeps m id n p) e s
  act-IsShaped config (prefill m id n v) p p' e s = keeps_shape config p _ p' refl e s
  act-IsShaped config (decode m id v) p p' e s = keeps_shape config p _ p' refl e s
  act-IsShaped config clear p p' e s =
      let at : reset platform p ≡ p' = cc (e) in
      rw (← at) (record {
        lowest = s.lowest;
        highest = s.highest;
        width = s.width;
        bins = length-fill p.latency_hist.histogram.bins ∙ s.bins;
      })

  run-IsShaped :
      (config : ProfilerConfig platform) (cs : List (Call platform)) (p p' : Profiler platform)
      → run platform p cs ≡ some p'
      → IsShaped config p.latency_hist
      → IsShaped config p'.latency_hist
  unfolding run
  run-IsShaped config [] p p' e s = let at : p ≡ p' = cc (e) in rw (← at) s
  run-IsShaped config (c ∷ cs) p p' e s = elim (Option-cases (act platform p c)) [
    | inl stuck ↦ absurd (cc (stuck, e))
    | inr (q, acted) ↦
        let later : run platform q cs ≡ some p' = sym (rw (acted, run)) ∙ e in
        run-IsShaped config cs q p' later (act-IsShaped config c p q acted s)
  ]

  -- A histogram of the shape, once reset, is the one of a new profiler.
  reset-create :
      (config : ProfilerConfig platform) (h : LatencyHistogram platform)
      → IsShaped config h
      → Latency.reset platform h
        ≡ create platform config.histogram_min config.histogram_max config.histogram_bins
  unfolding Latency.reset create
  reset-create config h s =
      let empty_bins : fill h.histogram.bins ≡ replicate config.histogram_bins 0 =
        fill-replicate h.histogram.bins ∙ ap (λ (k : ℕ). replicate k 0) s.bins in
      cc (empty_bins, s.lowest, s.highest, s.width)

  -- Whatever calls came before, a profiler that is reset reports the same as a new one with its
  -- configuration, of the same block manager, prefix cache and scheduler.
  pub snapshot-reset :
      (config : ProfilerConfig platform) (opened : Bool) (now : ℕ) (cs : List (Call platform))
      (p : Profiler platform) (sources : Sources)
      → run platform (new platform config opened now) cs ≡ some p
      → snapshot platform sources (reset platform p)
        ≡ snapshot platform sources (new platform config opened now)
  unfolding snapshot own_metrics reset new create
  snapshot-reset config opened now cs p sources e =
      let shaped = run-IsShaped config cs (new platform config opened now) p e (record {
        lowest = refl;
        highest = refl;
        width = refl;
        bins = length-replicate config.histogram_bins;
      }) in
      rw (reset-create config p.latency_hist shaped)
