-- ===== src/Trace.antt =====
-- src/cacheflow/profiler/trace.h and trace.cpp: the writer of Chrome traces and its spans.
--
-- What is written to a file is the list of the strings that `<<` is given, in order. A time is a
-- number of ticks of the clock, and what `Clock::now()` or the hash of the thread gives in a call
-- is an argument.
use Prim.Native.String.{String}
use cache_flow.Base.{
  ℕ, ◌%◌, ◌^◌, Bool, true, false, List, [], ◌∷◌, ◌++◌, Option, none, some, length, leb,
  if◌then◌else◌,
}
use cache_flow.Base.Int.{ℤ, pos, negsuc}
use cache_flow.Platform.{Platform}
pub mod Calls
pub mod Document
pub mod Buffer

pub data EventPhase : Type 0 where
  begin end complete instant counter : EventPhase

abbrev pub phase_char : EventPhase → String
phase_char EventPhase.begin = "B"
phase_char EventPhase.end = "E"
phase_char EventPhase.complete = "X"
phase_char EventPhase.instant = "i"
phase_char EventPhase.counter = "C"

pub record Arg : Type 0 where
  pub key : String
  pub value : String

abbrev pub is_zero : ℤ → Bool
is_zero (pos ℕ.zero) = true
is_zero (pos (ℕ.suc n)) = false
is_zero (negsuc n) = false

abbrev pub flush_size : ℕ
flush_size = 1000

module _ (platform : Platform) where
  open platform use {
    Double, nought, elapsed, int_to_string, double_to_string, elapsed_us, duration_us,
  }

  pub record TraceEvent : Type 0 where
    pub name : String
    pub category : String
    pub timestamp : ℕ
    pub duration : Double
    pub thread_id : ℤ
    pub process_id : ℤ
    pub phase : EventPhase
    pub args : List Arg

  -- The fields that the code does not set have the defaults of the struct.
  abbrev pub new_event : String → String → EventPhase → ℕ → TraceEvent
  new_event name category phase timestamp = record {
    name = name;
    category = category;
    timestamp = timestamp;
    duration = nought;
    thread_id = pos 0;
    process_id = pos 0;
    phase = phase;
    args = [];
  }

  -- The file is `none` if it is not open, and else what was written to it.
  pub record TraceWriter : Type 0 where
    pub file : Option (List String)
    pub events : List TraceEvent
    pub start_time : ℕ
    pub first_event : Bool

  -- The constructor; `opened` tells whether the file could be opened.
  unfoldable pub create : Bool → ℕ → TraceWriter
  create opened now = record {
    file = if opened then some ("[\n" ∷ []) else none;
    events = [];
    start_time = now;
    first_event = true;
  }

  unfoldable pub args_text : Bool → List Arg → List String
  args_text first [] = []
  args_text first (a ∷ rest) =
      (if first then [] else "," ∷ [])
      ++ "\"" ∷ a.key ∷ "\":\"" ∷ a.value ∷ "\"" ∷ args_text false rest

  abbrev pub args_member : List Arg → List String
  args_member [] = []
  args_member (a ∷ rest) = ",\"args\":{" ∷ args_text true (a ∷ rest) ++ "}" ∷ []

  unfoldable pub event_text : ℕ → TraceEvent → List String
  event_text start ev =
      "  {\"name\":\""
        ∷ ev.name
        ∷ "\",\"cat\":\""
        ∷ ev.category
        ∷ "\",\"ph\":\""
        ∷ phase_char ev.phase
        ∷ "\",\"ts\":"
        ∷ elapsed_us ev.timestamp start
        ∷ ",\"dur\":"
        ∷ duration_us ev.duration
        ∷ ",\"pid\":"
        ∷ int_to_string ev.process_id
        ∷ ",\"tid\":"
        ∷ int_to_string ev.thread_id
        ∷ args_member ev.args
      ++ "}" ∷ []

  unfoldable pub write_event : TraceWriter → TraceEvent → TraceWriter
  write_event w ev = elim w.file [
    | none ↦ w
    | some out ↦ record w {
      file = some (out ++ (if w.first_event then [] else ",\n" ∷ []) ++ event_text w.start_time ev);
      first_event = false;
    }
  ]

  unfoldable pub write_events : TraceWriter → List TraceEvent → TraceWriter
  write_events w [] = w
  write_events w (ev ∷ evs) = write_events (write_event w ev) evs

  -- `flush`; what is written is not held back by the model, so `file_.flush()` changes nothing.
  unfoldable pub flush : TraceWriter → TraceWriter
  flush w = record (write_events w w.events) { events = [] }

  -- An event without a thread gets the low 16 bits of the hash of the current one.
  unfoldable pub stamp : ℕ → TraceEvent → TraceEvent
  stamp hash ev = if is_zero ev.thread_id then record ev { thread_id = pos (hash % 2 ^ 16) } else ev

  unfoldable pub add_event : ℕ → TraceEvent → TraceWriter → TraceWriter
  unfolding stamp
  add_event hash ev w =
      let w' = record w { events = w.events ++ stamp hash ev ∷ [] } in
      if leb flush_size (length w'.events)
      then record (write_events w' w'.events) { events = [] }
      else w'

  unfoldable pub counter_event : String → String → Double → ℕ → TraceEvent
  counter_event name series value now = record (new_event name "counter" EventPhase.counter now) {
    args = record { key = series; value = double_to_string value } ∷ [];
  }

  unfoldable pub add_counter : ℕ → String → String → Double → ℕ → TraceWriter → TraceWriter
  unfolding counter_event add_event
  add_counter hash name series value now w = add_event hash (counter_event name series value now) w

  unfoldable pub num_events : TraceWriter → ℕ
  num_events w = length w.events

  -- The destructor: what the file holds at the end.
  unfoldable pub close : TraceWriter → Option (List String)
  unfolding flush
  close w = elim ((flush w).file) [ none ↦ none | some out ↦ some (out ++ "\n]\n" ∷ []) ]

  -- A span keeps an event. The writer, to which it points, is an argument of its end.
  pub record TraceSpan : Type 0 where
    pub event : TraceEvent

  unfoldable pub open_span : String → String → ℕ → TraceSpan
  open_span name category now = record { event = new_event name category EventPhase.complete now }

  unfoldable pub add_arg : String → String → TraceSpan → TraceSpan
  add_arg key value s = record {
    event = record (s.event) { args = s.event.args ++ record { key = key; value = value } ∷ [] };
  }

  unfoldable pub close_span : ℕ → ℕ → TraceSpan → Option TraceWriter → Option TraceWriter
  unfolding add_event
  close_span hash now s none = none
  close_span hash now s (some w) =
      some (add_event hash (record (s.event) { duration = elapsed now s.event.timestamp }) w)
