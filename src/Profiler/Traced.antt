-- ===== src/Profiler/Traced.antt =====
-- src/cacheflow/profiler/profiler.cpp: what the calls of a profiler leave in the trace.

use cache_flow.Base.{
  ℕ, suc, ◌<◌, ◌≡◌, ◌∙◌, refl, sym, ap, true, false, if◌then◌else◌, List, [], ◌∷◌, ◌++◌, Option,
  none, some, Option-cases, inl, inr,
}
use cache_flow.Base.Assoc.{lookup}
use cache_flow.Common.{SeqId}
use cache_flow.Platform.{Platform}
use cache_flow.BlockManager.{BlockManager}
use cache_flow.Trace.{TraceWriter, create, close}
use cache_flow.Trace.Calls
use cache_flow.Trace.Calls.{events_of, add, count}
use cache_flow.Trace.Document.{document, run-close}
use cache_flow.Metrics.Latency.{LatencyHistogram, record_latency}
use cache_flow.Profiler.Usage.{gpu_cache_usage}
use cache_flow.Profiler.{
  Moment, ProfilerConfig, Profiler, new, with_writer, begin_event, end_event, mark_event,
  prefill_event, decode_event, begin_step, end_step, note_step, mark, record_request_start,
  record_first_token, record_request_end, record_prefill, record_decode, reset,
}
use cache_flow.Profiler.Calls.{
  Call, begin, end, label, start, first, finish, prefill, decode, clear, act, run, Ledger, empty,
  post,
}
use cache_flow.Profiler.Tracks.{Tracks, is_some, act-Tracks, new-Tracks}

module _ (platform : Platform) where
  -- The usage of the blocks, if there is a block manager.
  abbrev pub usage_counter : Moment → Option BlockManager → List (Calls.Call platform)
  usage_counter m none = []
  usage_counter m (some bm) =
      count m.hash "gpu_cache_usage" "utilization" (gpu_cache_usage platform bm) m.later ∷ []

  -- What a call writes to the trace, given the ledger before it.
  abbrev pub writes : Ledger platform → Call platform → List (Calls.Call platform)
  writes l (begin m n) = add m.hash (begin_event platform m.now n) ∷ []
  writes l (end m bm v) = add m.hash (end_event platform m.now) ∷ usage_counter m bm
  writes l (label m text) = add m.hash (mark_event platform m.now text) ∷ []
  writes l (start m id) = []
  writes l (first m id) = []
  writes l (finish m id n) =
      if l.is_open id
      then count m.hash "requests_completed" "count" (platform.count (suc l.served)) m.later ∷ []
      else []
  writes l (prefill m id n v) = add m.hash (prefill_event platform m.now id n v) ∷ []
  writes l (decode m id v) = add m.hash (decode_event platform m.now id v) ∷ []
  writes l clear = []

  pub writes_all : Ledger platform → List (Call platform) → List (Calls.Call platform)
  writes_all l [] = []
  writes_all l (c ∷ cs) = writes l c ++ writes_all (post platform l c) cs

  -- A trace with the calls `ws` more.
  abbrev traced :
      List (Calls.Call platform) → Option (TraceWriter platform) → Option (TraceWriter platform)
  traced ws o = with_writer platform (λ w. Calls.run platform w ws) o

  traced_none : (o : Option (TraceWriter platform)) → o ≡ traced [] o
  unfolding Calls.run
  traced_none none = refl
  traced_none (some w) = refl

  run-append :
      (w : TraceWriter platform) (ws vs : List (Calls.Call platform))
      → Calls.run platform (Calls.run platform w ws) vs ≡ Calls.run platform w (ws ++ vs)
  unfolding Calls.run
  run-append w [] vs = refl
  run-append w (c ∷ ws) vs = run-append (Calls.act platform w c) ws vs

  traced-traced :
      (o : Option (TraceWriter platform)) (ws vs : List (Calls.Call platform))
      → traced vs (traced ws o) ≡ traced (ws ++ vs) o
  traced-traced none ws vs = refl
  traced-traced (some w) ws vs = ap some (run-append w ws vs)

  note_step-traced :
      (m : Moment) (bm : Option BlockManager) (v : platform.Double) (l : Ledger platform)
      (p : Profiler platform) (h : LatencyHistogram platform)
      → (note_step platform m bm v h p).trace_writer ≡ traced (writes l (end m bm v)) p.trace_writer
  unfolding note_step Calls.run Calls.act
  note_step-traced m none v l p h = refl
  note_step-traced m (some bm) v l p h = refl

  end_step-traced :
      (m : Moment) (bm : Option BlockManager) (v : platform.Double) (l : Ledger platform)
      (p p' : Profiler platform)
      → end_step platform m bm v p ≡ some p'
      → p'.trace_writer ≡ traced (writes l (end m bm v)) p.trace_writer
  unfolding end_step
  end_step-traced m bm v l p p' e = elim (Option-cases (record_latency platform v p.latency_hist)) [
    | inl stuck ↦ absurd (cc (stuck, e))
    | inr (h, r) ↦
        let at : note_step platform m bm v h p ≡ p' = cc (r, e) in
        rw (← at) (note_step-traced m bm v l p h)
  ]

  first-traced :
      (m : Moment) (id : SeqId) (p : Profiler platform)
      → (record_first_token platform m id p).trace_writer ≡ p.trace_writer
  unfolding record_first_token
  first-traced m id p = elim (Option-cases (lookup id p.active_requests)) [
    | inl e ↦ rw (e, record_first_token)
    | inr (rec, e) ↦ rw (e, record_first_token)
  ]

  end-traced :
      (m : Moment) (id : SeqId) (n : ℕ) (l : Ledger platform) (p : Profiler platform)
      → Tracks platform l p
      → (record_request_end platform m id n p).trace_writer
        ≡ traced (writes l (finish m id n)) p.trace_writer
  unfolding record_request_end Calls.run Calls.act
  end-traced m id n l p t = elim (Option-cases (lookup id p.active_requests)) [
    | inl e ↦
        let unknown : l.is_open id ≡ false = sym (t.requests id) ∙ ap is_some e in
        rw (e, record_request_end, unknown) (traced_none p.trace_writer)
    | inr (rec, e) ↦
        let known : l.is_open id ≡ true = sym (t.requests id) ∙ ap is_some e in
        rw (e, record_request_end, known, ← t.served) refl
  ]

  same_trace :
      (o : Option (TraceWriter platform)) (q p' : Profiler platform)
      → q.trace_writer ≡ o
      → ◌≡◌ {A = Option (Profiler platform)} (some q) (some p')
      → p'.trace_writer ≡ o
  same_trace o q p' at e = let same : q ≡ p' = cc (e) in rw (← same) at

  act-traced :
      (c : Call platform) (l : Ledger platform) (p p' : Profiler platform)
      → Tracks platform l p
      → act platform p c ≡ some p'
      → p'.trace_writer ≡ traced (writes l c) p.trace_writer
  unfolding act begin_step mark record_request_start record_prefill record_decode reset Calls.run
      Calls.act
  act-traced (begin m n) l p p' t e =
      same_trace (traced (writes l (begin m n)) p.trace_writer) (begin_step platform m n p) p' refl
        e
  act-traced (end m bm v) l p p' t e = end_step-traced m bm v l p p' e
  act-traced (label m text) l p p' t e =
      same_trace (traced (writes l (label m text)) p.trace_writer) (mark platform m text p) p' refl
        e
  act-traced (start m id) l p p' t e =
      same_trace (traced [] p.trace_writer) (record_request_start platform m id p) p'
        (traced_none p.trace_writer) e
  act-traced (first m id) l p p' t e =
      same_trace (traced [] p.trace_writer) (record_first_token platform m id p) p'
        (first-traced m id p ∙ traced_none p.trace_writer) e
  act-traced (finish m id n) l p p' t e =
      same_trace (traced (writes l (finish m id n)) p.trace_writer)
        (record_request_end platform m id n p) p' (end-traced m id n l p t) e
  act-traced (prefill m id n v) l p p' t e =
      same_trace (traced (writes l (prefill m id n v)) p.trace_writer)
        (record_prefill platform m id n v p) p' refl e
  act-traced (decode m id v) l p p' t e =
      same_trace (traced (writes l (decode m id v)) p.trace_writer)
        (record_decode platform m id v p) p' refl e
  act-traced clear l p p' t e =
      same_trace (traced [] p.trace_writer) (reset platform p) p' (traced_none p.trace_writer) e

  -- The calls run, and each leaves in the trace what it writes.
  run-traced :
      (cs : List (Call platform)) (l : Ledger platform) (p : Profiler platform)
      → Tracks platform l p
      → (p' : Profiler platform) × (run platform p cs ≡ some p')
        × (p'.trace_writer ≡ traced (writes_all l cs) p.trace_writer)
  unfolding run writes_all
  run-traced [] l p t = (p, refl, traced_none p.trace_writer)
  run-traced (c ∷ cs) l p t =
      let (q, acted, t') = act-Tracks platform c l p t in
      let (p', ran, rest) = run-traced cs (post platform l c) q t' in
      (
        p',
        rw (acted, run) ran,
        rest
            ∙ ap (traced (writes_all (post platform l c) cs)) (act-traced c l p q t acted)
            ∙ traced-traced p.trace_writer (writes l c) (writes_all (post platform l c) cs),
      )

  -- A profiler that traces, whose file could be opened, takes all calls, and the file that its
  -- trace leaves behind holds what the calls wrote, in their order: the begin and the end of each
  -- step, with the usage of the blocks if there are any, the marks, the prefills and decodes, and
  -- for each request that was open and ended the number of requests served.
  pub run-trace :
      (config : ProfilerConfig platform) (now : ℕ) (cs : List (Call platform))
      → 0 < config.histogram_bins
      → config.enable_tracing ≡ true
      → (p : Profiler platform) × (w : TraceWriter platform) × (run platform
            (new platform config true now)
            cs
          ≡ some p)
        × (p.trace_writer ≡ some w)
        × (close platform w
            ≡ some (
                "[\n" ∷ document platform now (events_of platform (writes_all (empty platform) cs))
                ++ "\n]\n" ∷ []))
  unfolding new
  run-trace config now cs bins on =
      let (p, ran, at) =
        run-traced cs (empty platform) (new platform config true now)
          (new-Tracks platform config true now bins) in
      let ws = writes_all (empty platform) cs in
      (
        p,
        Calls.run platform (create platform true now) ws,
        ran,
        at ∙ rw on,
        run-close platform now ws,
      )
