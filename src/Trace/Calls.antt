-- ===== src/Trace/Calls.antt =====
-- src/cacheflow/profiler/trace.h: the calls that users of a writer make, and the events they add.
use Prim.Native.String.{String}
use mathlib.Core.List.{append_assoc, append-nil}
use cache_flow.Base.{ℕ, ◌≡◌, refl, sym, ap, ◌∙◌, List, [], ◌∷◌, ◌++◌, Option, none, some}
use cache_flow.Platform.{Platform}
use cache_flow.Trace.{
  Arg, EventPhase, TraceEvent, TraceWriter, TraceSpan, new_event, flush, stamp, add_event,
  add_counter, counter_event, open_span, add_arg, close_span,
}

module _ (platform : Platform) where
  -- A span is opened, given its arguments and closed; `hash` is that of the calling thread.
  pub data Call : Type 0 where
    add : (hash : ℕ) (ev : TraceEvent platform) → Call
    count : (hash : ℕ) (name series : String) (value : platform.Double) (now : ℕ) → Call
    span : (hash : ℕ) (name category : String) (args : List Arg) (start stop : ℕ) → Call
    drain : Call

  unfoldable pub add_args : List Arg → TraceSpan platform → TraceSpan platform
  add_args [] s = s
  add_args (a ∷ rest) s = add_args rest (add_arg platform a.key a.value s)

  unfoldable pub act : TraceWriter platform → Call → TraceWriter platform
  act w (add hash ev) = add_event platform hash ev w
  act w (count hash name series value now) = add_counter platform hash name series value now w
  act w (span hash name category args start stop) =
      let s = add_args args (open_span platform name category start) in
      elim (close_span platform hash stop s (some w)) [ none ↦ w | some w' ↦ w' ]
  act w drain = flush platform w

  unfoldable pub run : TraceWriter platform → List Call → TraceWriter platform
  run w [] = w
  run w (c ∷ cs) = run (act w c) cs

  -- The event of a span that has the arguments `args`.
  pub span_event : String → String → List Arg → ℕ → ℕ → TraceEvent platform
  span_event name category args start stop =
      record (new_event platform name category EventPhase.complete start) {
        duration = platform.elapsed stop start;
        args = args;
      }

  -- What a call adds: an event, by a thread, or nothing.
  unfoldable pub added : Call → Option (ℕ × TraceEvent platform)
  unfolding span_event
  added (add hash ev) = some (hash, ev)
  added (count hash name series value now) =
      some (hash, counter_event platform name series value now)
  added (span hash name category args start stop) =
      some (hash, span_event name category args start stop)
  added drain = none

  -- An event with the thread that it is written with.
  unfoldable pub added_events : Option (ℕ × TraceEvent platform) → List (TraceEvent platform)
  added_events none = []
  added_events (some (hash, ev)) = stamp platform hash ev ∷ []

  -- The events of the calls, in order.
  unfoldable pub events_of : List Call → List (TraceEvent platform)
  events_of [] = []
  events_of (c ∷ cs) = added_events (added c) ++ events_of cs

  abbrev pub act_added :
      TraceWriter platform → Option (ℕ × TraceEvent platform) → TraceWriter platform
  act_added w none = flush platform w
  act_added w (some (hash, ev)) = add_event platform hash ev w

  add_args_lem :
      (args : List Arg) (s : TraceSpan platform)
      → (add_args args s).event ≡ record (s.event) { args = s.event.args ++ args }
  unfolding add_args add_arg
  add_args_lem [] s =
      ap (λ (as' : List Arg). record (s.event) { args = as' }) (sym (append-nil s.event.args))
  add_args_lem (a ∷ rest) s =
      add_args_lem rest (add_arg platform a.key a.value s)
      ∙ ap (λ (as' : List Arg). record (s.event) { args = as' })
          (append_assoc s.event.args (a ∷ []) rest)

  -- A call is a flush, or adds its event.
  pub act_lem : (w : TraceWriter platform) (c : Call) → act w c ≡ act_added w (added c)
  unfolding act added add_counter close_span open_span
  act_lem w (add hash ev) = refl
  act_lem w (count hash name series value now) = refl
  act_lem w (span hash name category args start stop) =
      ap
        (λ (ev : TraceEvent platform).
          add_event platform hash (record ev { duration = platform.elapsed stop ev.timestamp }) w)
        (add_args_lem args (open_span platform name category start))
  act_lem w drain = refl
