-- ===== src/Scheduler/Phases.antt =====
-- scheduler.cpp: the phases of `schedule`, and `preempt`.
use cache_flow.Base.{
  ℕ, ◌-◌, Bool, true, false, List, [], ◌∷◌, ◌++◌, Option, none, some, ltb, ◌==◌, ◌||◌,
  if◌then◌else◌,
}
use cache_flow.Common.{PreemptionMode}
use cache_flow.Request.{
  SequenceData, SequenceGroup, num_blocks_needed, all_finished, all_seqs_finished, num_unfinished,
  count_unfinished, group_prompt_len, first_prompt_len,
}
use cache_flow.BlockManager.{can_allocate}
use cache_flow.Scheduler.State.{Ptr, Phase, Round, fault, stop, next, minus_size, put_group}
use cache_flow.Scheduler.Sequences.{
  can_append, grow_seqs, swap_out_seqs, recompute_seqs, admit_seqs, swap_in_seqs, swapped_blocks,
}

unfoldable pub estimate_tokens : SequenceGroup → Bool → ℕ
unfolding count_unfinished first_prompt_len
estimate_tokens g is_prefill = if is_prefill then group_prompt_len g else num_unfinished g

-- The last element, and the list without it.
unfoldable pub split_last : List Ptr → Option (List Ptr × Ptr)
split_last [] = none
split_last (p ∷ ps) = elim (split_last ps) [ none ↦ some ([], p) | some (qs, q) ↦ some (p ∷ qs, q) ]

unfoldable pub preempt_victim : PreemptionMode → List Ptr → Ptr → Phase → Option Phase
unfolding swap_out_seqs recompute_seqs
preempt_victim PreemptionMode.swap rest p ph =
    elim (swap_out_seqs (ph.sched.memory p).sequences ph.sched.block_manager
      ph.output.block_swaps_out) [
        | none ↦ none
        | some (qs, bm, ops) ↦ some (record ph {
          sched = record (put_group p qs bm ph.sched) {
            swapped = ph.sched.swapped ++ p ∷ [];
            running = rest;
          };
          output = record (ph.output) {
            block_swaps_out = ops;
            preempted_groups = ph.output.preempted_groups ++ p ∷ [];
          };
        })
      ]
preempt_victim PreemptionMode.recompute rest p ph =
    elim (recompute_seqs (ph.sched.memory p).sequences ph.sched.block_manager) [
      | none ↦ none
      | some (qs, bm) ↦ some (record ph {
        sched = record (put_group p qs bm ph.sched) {
          waiting = p ∷ ph.sched.waiting;
          running = rest;
        };
        output = record (ph.output) { preempted_groups = ph.output.preempted_groups ++ p ∷ [] };
      })
    ]

unfoldable pub preempt : Phase → Option Phase
unfolding split_last preempt_victim
preempt ph = elim (split_last ph.sched.running) [
  | none ↦ some ph
  | some (rest, p) ↦ preempt_victim ph.sched.config.preemption_mode rest p ph
]

-- How a loop goes on after a round.
abbrev pub continue : Round → (Phase → Option Phase) → Option Phase
continue fault k = none
continue (stop ph) k = some ph
continue (next ph) k = k ph

abbrev pub stop_after : Option Phase → Round
stop_after none = fault
stop_after (some ph) = stop ph

-- The allocation of the blocks that a group lacks, and its entry in the output.
unfoldable pub grow_group : Ptr → Phase → Round
unfolding estimate_tokens grow_seqs
grow_group p ph = elim (grow_seqs (ph.sched.memory p).sequences ph.sched.block_manager) [
  | none ↦ fault
  | some (qs, bm') ↦ next (record {
    sched = put_group p qs bm' ph.sched;
    output = record (ph.output) { scheduled_groups = ph.output.scheduled_groups ++ p ∷ [] };
    budget_tokens = minus_size ph.budget_tokens (estimate_tokens (ph.sched.memory p) false);
    budget_seqs = ph.budget_seqs - 1;
  })
]

unfoldable pub grow_or_preempt : Option Bool → Ptr → Phase → Round
unfolding grow_group preempt
grow_or_preempt none p ph = fault
grow_or_preempt (some true) p ph = grow_group p ph
grow_or_preempt (some false) p ph = stop_after (preempt ph)

-- One group of `schedule_decodes`.
unfoldable pub decode_round : Ptr → Phase → Round
unfolding estimate_tokens all_seqs_finished can_append grow_or_preempt preempt
decode_round p ph =
    let g = ph.sched.memory p in
    let bm = ph.sched.block_manager in
    if all_finished g
    then next ph
    else if ltb ph.budget_tokens (estimate_tokens g false) || ph.budget_seqs == 0
    then stop_after (preempt ph)
    else grow_or_preempt (can_append bm.config.block_size bm g.sequences) p ph

-- The loop of `schedule_decodes`, over the groups from the iterator to the end.
unfoldable pub decode_loop : List Ptr → Phase → Option Phase
unfolding decode_round
decode_loop [] ph = some ph
decode_loop (p ∷ ps) ph = continue (decode_round p ph) (decode_loop ps)

unfoldable pub schedule_decodes : Phase → Option Phase
unfolding decode_loop
schedule_decodes ph = decode_loop ph.sched.running ph

-- The admission of the group at the front of the queue, `rest` being the queue without it, with
-- `needed` blocks for each of its sequences.
unfoldable pub admit_group : ℕ → Ptr → List Ptr → Phase → Round
unfolding estimate_tokens admit_seqs
admit_group needed p rest ph =
    elim (admit_seqs needed (ph.sched.memory p).sequences ph.sched.block_manager) [
      | none ↦ fault
      | some (qs, bm') ↦ next (record {
        sched = record (put_group p qs bm' ph.sched) {
          running = ph.sched.running ++ p ∷ [];
          waiting = rest;
        };
        output = record (ph.output) { scheduled_groups = ph.output.scheduled_groups ++ p ∷ [] };
        budget_tokens = minus_size ph.budget_tokens (estimate_tokens (ph.sched.memory p) true);
        budget_seqs = ph.budget_seqs - 1;
      })
    ]

-- `grp->sequences[0]`.
unfoldable pub first_needed : ℕ → List SequenceData → Option ℕ
unfolding num_blocks_needed
first_needed size [] = none
first_needed size (q ∷ qs) = num_blocks_needed size q

unfoldable pub admit : Option ℕ → Ptr → List Ptr → Phase → Round
unfolding can_allocate admit_group
admit none p rest ph = fault
admit (some needed) p rest ph =
    if can_allocate needed ph.sched.block_manager then admit_group needed p rest ph else stop ph

unfoldable pub prefill_round : Ptr → List Ptr → Phase → Round
unfolding estimate_tokens first_needed admit
prefill_round p rest ph =
    if ph.budget_seqs == 0
    then stop ph
    else if ltb ph.budget_tokens (estimate_tokens (ph.sched.memory p) true)
    then stop ph
    else admit (first_needed ph.sched.block_manager.config.block_size (ph.sched.memory p).sequences)
        p rest ph

unfoldable pub prefill_loop : List Ptr → Phase → Option Phase
unfolding prefill_round
prefill_loop [] ph = some ph
prefill_loop (p ∷ ps) ph = continue (prefill_round p ps ph) (prefill_loop ps)

unfoldable pub schedule_prefills : Phase → Option Phase
unfolding prefill_loop
schedule_prefills ph = prefill_loop ph.sched.waiting ph

unfoldable pub swap_in_group : Ptr → List Ptr → Phase → Round
unfolding estimate_tokens swap_in_seqs
swap_in_group p rest ph =
    elim (swap_in_seqs (ph.sched.memory p).sequences ph.sched.block_manager
      ph.output.block_swaps_in) [
        | none ↦ fault
        | some (qs, bm', ops) ↦ next (record {
          sched = record (put_group p qs bm' ph.sched) {
            running = ph.sched.running ++ p ∷ [];
            swapped = rest;
          };
          output = record (ph.output) {
            block_swaps_in = ops;
            swapped_in_groups = ph.output.swapped_in_groups ++ p ∷ [];
          };
          budget_tokens = minus_size ph.budget_tokens (estimate_tokens (ph.sched.memory p) false);
          budget_seqs = ph.budget_seqs - 1;
        })
      ]

-- A round of `try_swap_in`, `rest` being the queue without the group.
unfoldable pub swap_in_round : Ptr → List Ptr → Phase → Round
unfolding estimate_tokens swapped_blocks can_allocate swap_in_group
swap_in_round p rest ph =
    if ph.budget_seqs == 0
    then stop ph
    else if ltb ph.budget_tokens (estimate_tokens (ph.sched.memory p) false)
    then stop ph
    else if can_allocate (swapped_blocks (ph.sched.memory p).sequences) ph.sched.block_manager
    then swap_in_group p rest ph
    else stop ph

unfoldable pub swap_in_loop : List Ptr → Phase → Option Phase
unfolding swap_in_round
swap_in_loop [] ph = some ph
swap_in_loop (p ∷ ps) ph = continue (swap_in_round p ps ph) (swap_in_loop ps)

unfoldable pub try_swap_in : Phase → Option Phase
unfolding swap_in_loop
try_swap_in ph = swap_in_loop ph.sched.swapped ph
