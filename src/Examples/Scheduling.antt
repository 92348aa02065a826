-- ===== src/Examples/Scheduling.antt =====
-- A scheduler with two requests in its waiting queue, on the block manager of Examples/Blocks.
use mathlib.Core.Option
use cache_flow.Base.{
  ℕ, ◌+◌, ◌≡◌, ◌≢◌, refl, List, [], ◌∷◌, ◌++◌, some, arith, length, All, true, false,
}
use cache_flow.Base.Int.{pos}
use cache_flow.Base.Count.{times}
use cache_flow.Common.{SchedulerConfig, SchedulePolicy, PreemptionMode, BlockId}
use cache_flow.Request.{SamplingParams, new_group, SequenceGroup}
use cache_flow.BlockManager.{BlockManager, can_allocate}
use cache_flow.BlockManager.Accounts.{Accounts}
use cache_flow.BlockManager.Init.{no_refs}
use cache_flow.Scheduler.State.{Ptr, Scheduler, SchedulerOutput}
use cache_flow.Scheduler.Sequences.{allocate_blocks}
use cache_flow.Scheduler.Api.{
  init, add_request, schedule, sort_by, abort_request, free_finished_requests,
}
use cache_flow.Scheduler.Good.{queued}
use cache_flow.Scheduler.Schedule.{Promises, Scheduled, schedule-Promises}
use cache_flow.Scheduler.Total.{schedule_recompute}
use cache_flow.Scheduler.Allocate.{IsValid, can_allocate-allocate_blocks}
use cache_flow.Scheduler.Sort.{IsSorted, ties, goes_first, sort_by-IsSorted}
use cache_flow.Scheduler.Requests.{
  Frees, free_finished_requests-Frees, Aborts, abort_request-Aborts,
}
use cache_flow.Examples.Blocks.{fresh, fresh-Accounts}

abbrev pub small_config : SchedulerConfig
small_config = record {
  max_num_seqs = 2;
  max_num_batched_tokens = 8;
  max_paddings = 8;
  policy = SchedulePolicy.priority;
  preemption_mode = PreemptionMode.recompute;
  swap_space_bytes = 0;
}

abbrev pub sampling : SamplingParams
sampling = record { top_k = pos 40; max_tokens = pos 4; stream = false }

-- The second request is the more urgent one.
abbrev pub first_group : SequenceGroup
first_group = new_group 7 (pos 5 ∷ pos 6 ∷ pos 7 ∷ []) sampling (pos 0) 1

abbrev pub second_group : SequenceGroup
second_group = new_group 8 (pos 9 ∷ []) sampling (pos 3) 2

abbrev pub two_waiting : Scheduler
two_waiting = add_request 1 second_group (add_request 0 first_group (init small_config fresh))

both_scheduled :
    Option.map {B = List Ptr × ℕ}
      (λ r. (r.1.scheduled_groups, r.1.num_batched_tokens))
      (schedule two_waiting)
    ≡ some (1 ∷ 0 ∷ [], 4)
unfolding add_request init cache_flow.BlockManager.init schedule new_group
both_scheduled = refl

schedule-Promises_example : Promises two_waiting (schedule two_waiting)
unfolding add_request init
schedule-Promises_example = schedule-Promises two_waiting (omega arith)

two_waiting_filled :
    (p : Ptr) → queued p two_waiting ≢ 0 → length (two_waiting.memory p).sequences ≢ 0
unfolding add_request init times new_group
two_waiting_filled p h e = ground arith

schedule_recompute_example :
    (s' : Scheduler) × (out : SchedulerOutput) × (schedule two_waiting ≡ some (s', out))
    × Scheduled two_waiting s' out
    × Accounts no_refs s'.block_manager
    × (s'.block_manager.config.block_size ≢ 0)
    × ((p : Ptr) → length (s'.memory p).sequences ≡ length (two_waiting.memory p).sequences)
unfolding add_request init cache_flow.BlockManager.init
schedule_recompute_example =
    schedule_recompute no_refs two_waiting fresh-Accounts refl (omega arith)
      (λ e. absurd (omega (arith, e))) two_waiting_filled

two_allowed : can_allocate 2 fresh ≡ true
unfolding cache_flow.BlockManager.init can_allocate
two_allowed = refl

can_allocate-allocate_blocks_example :
    (bm' : BlockManager) × (new : List BlockId) × (allocate_blocks 2 7 [] fresh
      ≡ some ([] ++ new, bm'))
    × (length new ≡ 2)
    × All IsValid new
    × (length bm'.gpu.free_list + 2 ≡ length fresh.gpu.free_list)
can_allocate-allocate_blocks_example =
    can_allocate-allocate_blocks no_refs 2 7 [] fresh fresh-Accounts two_allowed

sort_by-IsSorted_example :
    IsSorted
      (goes_first SchedulePolicy.priority two_waiting.memory)
      (sort_by SchedulePolicy.priority two_waiting.memory (0 ∷ 1 ∷ []))
    × ((x : Ptr)
        → times x (sort_by SchedulePolicy.priority two_waiting.memory (0 ∷ 1 ∷ []))
          ≡ times x (0 ∷ 1 ∷ []))
    × ((x : Ptr)
        → ties
            (goes_first SchedulePolicy.priority two_waiting.memory)
            x
            (sort_by SchedulePolicy.priority two_waiting.memory (0 ∷ 1 ∷ []))
          ≡ ties (goes_first SchedulePolicy.priority two_waiting.memory) x (0 ∷ 1 ∷ []))
sort_by-IsSorted_example = sort_by-IsSorted SchedulePolicy.priority two_waiting.memory (0 ∷ 1 ∷ [])

abbrev one_waiting : Scheduler
one_waiting = add_request 0 first_group (init small_config fresh)

free_finished_requests-Frees_example :
    Frees no_refs two_waiting (free_finished_requests two_waiting)
unfolding add_request init
free_finished_requests-Frees_example =
    free_finished_requests-Frees no_refs two_waiting fresh-Accounts

abort_request-Aborts_example : Aborts no_refs 8 two_waiting (abort_request 8 two_waiting)
unfolding add_request init
abort_request-Aborts_example = abort_request-Aborts no_refs 8 two_waiting fresh-Accounts
