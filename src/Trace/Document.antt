-- ===== src/Trace/Document.antt =====
-- src/cacheflow/profiler/trace.cpp: the file that a writer leaves behind.
use Prim.Native.String.{String}
use mathlib.Core.List.{append_assoc, append-nil}
use cache_flow.Base.{
  ℕ, ◌≡◌, refl, sym, ap, ◌∙◌, List, [], ◌∷◌, ◌++◌, Option, none, some, Bool, true, false, leb,
  length, if◌then◌else◌, Bool-cases, inl, inr,
}
use cache_flow.Platform.{Platform}
use cache_flow.Trace.{
  TraceEvent, TraceWriter, create, event_text, write_event, write_events, flush, stamp, flush_size,
  add_event, close,
}
use cache_flow.Trace.Calls.{Call, run, act, added, act_added, added_events, events_of, act_lem}

module _ (platform : Platform) where
  -- Events that follow another one.
  pub later_text : ℕ → List (TraceEvent platform) → List String
  later_text start [] = []
  later_text start (ev ∷ evs) = ",\n" ∷ event_text platform start ev ++ later_text start evs

  -- The events of a document, with a separator between any two of them.
  pub document : ℕ → List (TraceEvent platform) → List String
  document start [] = []
  document start (ev ∷ evs) = event_text platform start ev ++ later_text start evs

  abbrev is_nil : List (TraceEvent platform) → Bool
  is_nil [] = true
  is_nil (ev ∷ evs) = false

  later_text-append :
      (start : ℕ) (evs : List (TraceEvent platform)) (ev : TraceEvent platform)
      → later_text start (evs ++ ev ∷ [])
        ≡ later_text start evs ++ ",\n" ∷ event_text platform start ev
  unfolding later_text
  later_text-append start [] ev = ap (λ (t : List String). ",\n" ∷ t) (append-nil _)
  later_text-append start (e ∷ evs) ev =
      ap (λ (t : List String). ",\n" ∷ (event_text platform start e ++ t))
        (later_text-append start evs ev)
      ∙ ap (λ (t : List String). ",\n" ∷ t)
          (sym (
            append_assoc (event_text platform start e) (later_text start evs)
              (",\n" ∷ event_text platform start ev)))

  document-append :
      (start : ℕ) (evs : List (TraceEvent platform)) (ev : TraceEvent platform)
      → document start (evs ++ ev ∷ [])
        ≡ document start evs
          ++ (if is_nil evs then [] else ",\n" ∷ [])
          ++ event_text platform start ev
  unfolding document later_text
  document-append start [] ev = append-nil _
  document-append start (e ∷ evs) ev =
      ap (λ (t : List String). event_text platform start e ++ t) (later_text-append start evs ev)
      ∙ simp (append_assoc)

  -- The writer that has written the events `done`, and keeps the events `kept`.
  abbrev after : ℕ → (done kept : List (TraceEvent platform)) → TraceWriter platform
  after start done kept = record {
    file = some ("[\n" ∷ document start done);
    events = kept;
    start_time = start;
    first_event = is_nil done;
  }

  is_nil-append :
      (done : List (TraceEvent platform)) (ev : TraceEvent platform)
      → is_nil (done ++ ev ∷ []) ≡ false
  is_nil-append [] ev = refl
  is_nil-append (e ∷ done) ev = refl

  write_event-after :
      (start : ℕ) (done kept : List (TraceEvent platform)) (ev : TraceEvent platform)
      → write_event platform (after start done kept) ev ≡ after start (done ++ ev ∷ []) kept
  unfolding write_event
  write_event-after start done kept ev = rw (is_nil-append done ev, document-append start done ev)

  write_events-after :
      (start : ℕ) (done kept evs : List (TraceEvent platform))
      → write_events platform (after start done kept) evs ≡ after start (done ++ evs) kept
  unfolding write_events
  write_events-after start done kept [] = rw (append-nil done)
  write_events-after start done kept (ev ∷ evs) =
      ap (λ (w : TraceWriter platform). write_events platform w evs)
        (write_event-after start done kept ev)
      ∙ write_events-after start (done ++ ev ∷ []) kept evs
      ∙ ap (λ (d : List (TraceEvent platform)). after start d kept)
          (append_assoc done (ev ∷ []) evs)

  -- The writer has been given the events `evs`, of which it still keeps some.
  abbrev Given : ℕ → List (TraceEvent platform) → TraceWriter platform → Type 0
  Given start evs w =
      (done : List (TraceEvent platform)) × (kept : List (TraceEvent platform)) × (done ++ kept
        ≡ evs)
      × (w ≡ after start done kept)

  drained :
      (start : ℕ) (done kept : List (TraceEvent platform))
      → Given start
          (done ++ kept)
          (record (write_events platform (after start done kept) kept) { events = [] })
  drained start done kept =
      (done ++ kept, [], append-nil (done ++ kept), rw (write_events-after start done kept kept))

  add_event-Given :
      (start hash : ℕ) (done kept : List (TraceEvent platform)) (ev : TraceEvent platform)
      → Given start
          ((done ++ kept) ++ stamp platform hash ev ∷ [])
          (add_event platform hash ev (after start done kept))
  unfolding add_event
  add_event-Given start hash done kept ev =
      let evs = kept ++ stamp platform hash ev ∷ [] in
      let flat : done ++ evs ≡ (done ++ kept) ++ stamp platform hash ev ∷ [] =
        sym (append_assoc done kept (stamp platform hash ev ∷ [])) in
      elim (Bool-cases (leb flush_size (length (kept ++ stamp platform hash ev ∷ [])))) [
        | inl full ↦ rw (full, add_event) (rw (← flat) (drained start done evs))
        | inr room ↦ rw (room, add_event) (done, evs, flat, refl)
      ]

  act_added-Given :
      (start : ℕ) (evs : List (TraceEvent platform)) (w : TraceWriter platform)
      (o : Option (ℕ × TraceEvent platform))
      → Given start evs w
      → Given start (evs ++ added_events platform o) (act_added platform w o)
  unfolding flush added_events
  act_added-Given start evs w none (done, kept, same, e) =
      rw (e, append-nil evs, ← same) (drained start done kept)
  act_added-Given start evs w (some (hash, ev)) (done, kept, same, e) =
      rw (e, ← same) (add_event-Given start hash done kept ev)

  run-Given :
      (start : ℕ) (evs : List (TraceEvent platform)) (w : TraceWriter platform)
      (cs : List (Call platform))
      → Given start evs w
      → Given start (evs ++ events_of platform cs) (run platform w cs)
  unfolding run events_of
  run-Given start evs w [] g = rw (append-nil evs) g
  run-Given start evs w (c ∷ cs) g =
      rw (← append_assoc evs (added_events platform (added platform c)) (events_of platform cs)) (
        run-Given start (evs ++ added_events platform (added platform c)) (act platform w c) cs
          (rw (act_lem platform w c) (act_added-Given start evs w (added platform c) g)))

  close-Given :
      (start : ℕ) (evs : List (TraceEvent platform)) (w : TraceWriter platform)
      → Given start evs w
      → close platform w ≡ some ("[\n" ∷ document start evs ++ "\n]\n" ∷ [])
  unfolding close flush
  close-Given start evs w (done, kept, same, e) =
      rw (e, ← same, write_events-after start done kept kept, close)

  -- A writer whose file could be opened leaves behind, whatever calls it gets, a document with
  -- the events of the calls: all of them, once, in the order of the calls, and separated.
  pub run-close :
      (start : ℕ) (cs : List (Call platform))
      → close platform (run platform (create platform true start) cs)
        ≡ some ("[\n" ∷ document start (events_of platform cs) ++ "\n]\n" ∷ [])
  unfolding create document
  run-close start cs =
      close-Given start (events_of platform cs) (run platform (create platform true start) cs)
        (run-Given start [] (create platform true start) cs ([], [], refl, refl))
