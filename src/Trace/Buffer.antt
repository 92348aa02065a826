-- ===== src/Trace/Buffer.antt =====
-- src/cacheflow/profiler/trace.cpp: the buffer of a writer, and a file that could not be opened.
use cache_flow.Base.{
  ℕ, ◌<◌, ◌≡◌, refl, sym, ap, ◌∙◌, List, [], ◌∷◌, ◌++◌, Option, none, some, true, false, leb,
  length, if◌then◌else◌, Bool-cases, inl, inr, arith,
}
use cache_flow.Platform.{Platform}
use cache_flow.Trace.{
  TraceEvent, TraceWriter, create, write_event, write_events, flush, stamp, flush_size, add_event,
  num_events, close,
}
use cache_flow.Trace.Calls.{Call, run, act, added, act_added, act_lem}

module _ (platform : Platform) where
  -- The file is not open.
  abbrev IsClosed : TraceWriter platform → Type 0
  IsClosed w = w.file ≡ none

  write_event_closed :
      (w : TraceWriter platform) (ev : TraceEvent platform)
      → IsClosed w
      → write_event platform w ev ≡ w
  unfolding write_event
  write_event_closed w ev c = cc

  write_events_closed :
      (w : TraceWriter platform) (evs : List (TraceEvent platform))
      → IsClosed w
      → write_events platform w evs ≡ w
  unfolding write_events
  write_events_closed w [] c = refl
  write_events_closed w (ev ∷ evs) c =
      ap (λ (v : TraceWriter platform). write_events platform v evs) (write_event_closed w ev c)
      ∙ write_events_closed w evs c

  written_nothing :
      (w : TraceWriter platform) (evs : List (TraceEvent platform))
      → IsClosed w
      → IsClosed (write_events platform w evs)
  written_nothing w evs c =
      ap (λ (v : TraceWriter platform). v.file) (write_events_closed w evs c) ∙ c

  -- What is kept after an event that comes to the events `evs`.
  abbrev kept_after : List (TraceEvent platform) → List (TraceEvent platform)
  kept_after evs = if leb flush_size (length evs) then [] else evs

  few_kept : (evs : List (TraceEvent platform)) → length (kept_after evs) < flush_size
  few_kept evs = ground arith

  add_event-events :
      (hash : ℕ) (ev : TraceEvent platform) (w : TraceWriter platform)
      → (add_event platform hash ev w).events ≡ kept_after (w.events ++ stamp platform hash ev ∷ [])
  unfolding add_event
  add_event-events hash ev w =
      elim (Bool-cases (leb flush_size (length (w.events ++ stamp platform hash ev ∷ [])))) [
        | inl full ↦ rw (full, add_event)
        | inr room ↦ rw (room, add_event)
      ]

  add_event-IsClosed :
      (hash : ℕ) (ev : TraceEvent platform) (w : TraceWriter platform)
      → IsClosed w
      → IsClosed (add_event platform hash ev w)
  unfolding add_event
  add_event-IsClosed hash ev w c =
      let evs = w.events ++ stamp platform hash ev ∷ [] in
      let w' : TraceWriter platform = record w { events = evs } in
      elim (Bool-cases (leb flush_size (length (w.events ++ stamp platform hash ev ∷ [])))) [
        | inl full ↦
            rw (full, add_event)
              (ap (λ (v : TraceWriter platform). v.file) (write_events_closed w' evs c) ∙ c)
        | inr room ↦ rw (room, add_event) c
      ]

  -- Two writers keep the same events, few enough, and the first one has no file.
  record Alike (w v : TraceWriter platform) : Type 0 where
    closed : IsClosed w
    same : w.events ≡ v.events
    few : length w.events < flush_size

  add_event-Alike :
      (hash : ℕ) (ev : TraceEvent platform) (w v : TraceWriter platform)
      → Alike w v
      → Alike (add_event platform hash ev w) (add_event platform hash ev v)
  add_event-Alike hash ev w v a = record {
    closed = add_event-IsClosed hash ev w a.closed;
    same =
        add_event-events hash ev w
        ∙ ap (λ (evs : List (TraceEvent platform)). kept_after (evs ++ stamp platform hash ev ∷ []))
            a.same
        ∙ sym (add_event-events hash ev v);
    few = rw (add_event-events hash ev w) (few_kept (w.events ++ stamp platform hash ev ∷ []));
  }

  act_added-Alike :
      (w v : TraceWriter platform) (o : Option (ℕ × TraceEvent platform))
      → Alike w v
      → Alike (act_added platform w o) (act_added platform v o)
  unfolding flush
  act_added-Alike w v none a = record {
    closed = written_nothing w w.events a.closed;
    same = refl;
    few = omega arith;
  }
  act_added-Alike w v (some (hash, ev)) a = add_event-Alike hash ev w v a

  run-Alike :
      (w v : TraceWriter platform) (cs : List (Call platform))
      → Alike w v
      → Alike (run platform w cs) (run platform v cs)
  unfolding run
  run-Alike w v [] a = a
  run-Alike w v (c ∷ cs) a =
      run-Alike (act platform w c) (act platform v c) cs
        (rw (act_lem platform w c, act_lem platform v c) (act_added-Alike w v (added platform c) a))

  -- A writer whose file could not be opened takes all calls: it keeps as many events at any time
  -- as one whose file is open, fewer than 1000, and it writes nothing.
  pub run-num_events :
      (start : ℕ) (cs : List (Call platform))
      → let w = run platform (create platform false start) cs in
        (num_events platform w ≡ num_events platform (run platform (create platform true start) cs))
        × (num_events platform w < 1000)
        × (close platform w ≡ none)
  unfolding num_events close flush create
  run-num_events start cs =
      let a =
        run-Alike (create platform false start) (create platform true start) cs
          (record { closed = refl; same = refl; few = omega arith }) in
      let w = run platform (create platform false start) cs in
      (ap length a.same, a.few, rw (written_nothing w w.events a.closed, close))
