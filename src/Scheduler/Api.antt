-- ===== src/Scheduler/Api.antt =====
-- scheduler.cpp: the public methods.
use cache_flow.Base.{
  ℕ, ◌+◌, Bool, true, false, List, [], ◌∷◌, ◌++◌, Option, none, some, length, ◌==◌, ◌||◌, not,
  ◌>>=◌, if◌then◌else◌,
}
use cache_flow.Base.Int.{ℤ, ltbℤ}
use cache_flow.Base.Assoc.{lookup, insert, erase}
use cache_flow.Common.{SeqId, SchedulerConfig, SchedulePolicy}
use cache_flow.Request.{SequenceGroup, all_finished, all_seqs_finished, num_unfinished}
use cache_flow.BlockManager.{BlockManager}
use cache_flow.Scheduler.State.{
  minus_size, Ptr, Memory, write, SchedulerOutput, empty_output, Scheduler, Phase,
}
use cache_flow.Scheduler.Sequences.{abort_seqs, free_seqs}
use cache_flow.Scheduler.Phases.{schedule_decodes, schedule_prefills, try_swap_in}

unfoldable pub init : SchedulerConfig → BlockManager → Scheduler
init c bm = record {
  config = c;
  block_manager = bm;
  memory = λ p. record {
    request_id = 0;
    sequences = [];
    sampling = record { top_k = ℤ.pos 40; max_tokens = ℤ.pos 512; stream = false };
    arrival_time = 0;
    priority = ℤ.pos 0;
    first_token_time = none;
  };
  waiting = [];
  running = [];
  swapped = [];
  request_map = [];
}

-- `p` is where the caller made the group.
unfoldable pub add_request : Ptr → SequenceGroup → Scheduler → Scheduler
unfolding insert
add_request p g s = record s {
  memory = write s.memory p g;
  request_map = insert g.request_id p s.request_map;
  waiting = s.waiting ++ p ∷ [];
}

unfoldable pub abort_request : SeqId → Scheduler → Option Scheduler
unfolding lookup erase abort_seqs
abort_request rid s = elim (lookup rid s.request_map) [
  | none ↦ some s
  | some p ↦ elim (abort_seqs (s.memory p).sequences s.block_manager) [
    | none ↦ none
    | some (qs, bm) ↦ some (record s {
      memory = write s.memory p (record (s.memory p) { sequences = qs });
      block_manager = bm;
      request_map = erase rid s.request_map;
    })
  ]
]

-- A stable insertion: `p` goes in front of the first group that is not before it, where `before`
-- is the comparison that `std::stable_sort` is given.
unfoldable pub insert_stable : (Ptr → Ptr → Bool) → Ptr → List Ptr → List Ptr
insert_stable before p [] = p ∷ []
insert_stable before p (q ∷ qs) = if before q p then q ∷ insert_stable before p qs else p ∷ q ∷ qs

unfoldable pub stable_sort : (Ptr → Ptr → Bool) → List Ptr → List Ptr
unfolding insert_stable
stable_sort before [] = []
stable_sort before (p ∷ ps) = insert_stable before p (stable_sort before ps)

-- The comparisons of the two policies that sort.
abbrev pub shorter : Memory → Ptr → Ptr → Bool
shorter mem p q = ltbℤ (mem p).sampling.max_tokens (mem q).sampling.max_tokens

abbrev pub more_urgent : Memory → Ptr → Ptr → Bool
more_urgent mem p q = ltbℤ (mem q).priority (mem p).priority

unfoldable pub sort_by : SchedulePolicy → Memory → List Ptr → List Ptr
unfolding stable_sort
sort_by SchedulePolicy.fcfs mem ps = ps
sort_by SchedulePolicy.shortest_remaining mem ps = stable_sort (shorter mem) ps
sort_by SchedulePolicy.priority mem ps = stable_sort (more_urgent mem) ps

unfoldable pub sort_waiting_queue : Phase → Phase
unfolding sort_by
sort_waiting_queue ph = record ph {
  sched = record (ph.sched) {
    waiting = sort_by ph.sched.config.policy ph.sched.memory ph.sched.waiting;
  };
}

abbrev pub is_nil {ℓ} : {A : Type ℓ} → List A → Bool
is_nil [] = true
is_nil (x ∷ xs) = false

-- The three phases, each under its test.
unfoldable pub prefills_if_waiting : Phase → Option Phase
unfolding sort_waiting_queue schedule_prefills
prefills_if_waiting ph =
    if is_nil ph.sched.waiting then some ph else schedule_prefills (sort_waiting_queue ph)

unfoldable pub swap_in_if_budget : Phase → Option Phase
unfolding try_swap_in
swap_in_if_budget ph =
    if is_nil ph.sched.swapped || ph.budget_tokens == 0 || ph.budget_seqs == 0
    then some ph
    else try_swap_in ph

unfoldable pub start_phase : Scheduler → Phase
start_phase s = record {
  sched = s;
  output = empty_output;
  budget_tokens = s.config.max_num_batched_tokens;
  budget_seqs = s.config.max_num_seqs;
}

unfoldable pub run_phases : Phase → Option Phase
unfolding schedule_decodes prefills_if_waiting swap_in_if_budget
run_phases ph = do
  decoded ← schedule_decodes ph
  filled ← prefills_if_waiting decoded
  swap_in_if_budget filled

abbrev pub finish : Scheduler → Option Phase → Option (Scheduler × SchedulerOutput)
finish s none = none
finish s (some ph) = some (
  ph.sched,
  record (ph.output) {
    num_batched_tokens = minus_size s.config.max_num_batched_tokens ph.budget_tokens;
  },
)

unfoldable pub schedule : Scheduler → Option (Scheduler × SchedulerOutput)
unfolding start_phase run_phases
schedule s = finish s (run_phases (start_phase s))

-- `remove_finished`: the queue that is left, with the manager and the request map.
unfoldable pub remove_finished :
    Memory
    → List Ptr
    → BlockManager
    → List (SeqId × Ptr)
    → Option (List Ptr × BlockManager × List (SeqId × Ptr))
unfolding all_seqs_finished free_seqs erase
remove_finished mem [] bm m = some ([], bm, m)
remove_finished mem (p ∷ ps) bm m =
    let dropped : Option (List Ptr × BlockManager × List (SeqId × Ptr)) =
      elim (free_seqs (mem p).sequences bm) [
        | none ↦ none
        | some bm' ↦ remove_finished mem ps bm' (erase (mem p).request_id m)
      ] in
    let kept : Option (List Ptr × BlockManager × List (SeqId × Ptr)) =
      elim (remove_finished mem ps bm m) [
        | none ↦ none
        | some (qs, bm', m') ↦ some (p ∷ qs, bm', m')
      ] in
    if all_finished (mem p) then dropped else kept

-- The swapped queue is not looked at.
unfoldable pub free_finished_requests : Scheduler → Option Scheduler
unfolding remove_finished
free_finished_requests s = do
  (running', bm, m) ← remove_finished s.memory s.running s.block_manager s.request_map
  (waiting', bm', m') ← remove_finished s.memory s.waiting bm m
  some (record s { running = running'; waiting = waiting'; block_manager = bm'; request_map = m' })

abbrev pub num_waiting : Scheduler → ℕ
num_waiting s = length s.waiting

abbrev pub num_running : Scheduler → ℕ
num_running s = length s.running

abbrev pub num_swapped : Scheduler → ℕ
num_swapped s = length s.swapped

unfoldable pub num_total : Scheduler → ℕ
num_total s = num_waiting s + num_running s + num_swapped s

unfoldable pub has_pending : Scheduler → Bool
has_pending s = not (is_nil s.waiting) || not (is_nil s.running) || not (is_nil s.swapped)

-- `is_empty` and `num_seqs` of the output.
abbrev pub is_empty : SchedulerOutput → Bool
is_empty o = is_nil o.scheduled_groups

unfoldable pub num_seqs : Memory → List Ptr → ℕ
num_seqs mem [] = 0
num_seqs mem (p ∷ ps) = num_unfinished (mem p) + num_seqs mem ps
