-- ===== src/Scheduler/State.antt =====
-- scheduler.h: the state of the scheduler and of one call of `schedule`.
use cache_flow.Base.{ℕ, ◌+◌, ◌-◌, ◌%◌, ◌^◌, List, [], ◌==◌, if◌then◌else◌}
use cache_flow.Common.{BlockId, SeqId, SchedulerConfig}
use cache_flow.Request.{SequenceData, SequenceGroup}
use cache_flow.BlockManager.{BlockManager}

abbrev pub Ptr : Type 0
Ptr = ℕ

abbrev pub Memory : Type 0
Memory = Ptr → SequenceGroup

abbrev pub write : Memory → Ptr → SequenceGroup → Memory
write mem p g q = if p == q then g else mem q

pub record BlockOp : Type 0 where
  pub seq_id : SeqId
  pub src : BlockId
  pub dst : BlockId

-- `block_copies` is never written.
pub record SchedulerOutput : Type 0 where
  pub scheduled_groups : List Ptr
  pub preempted_groups : List Ptr
  pub swapped_in_groups : List Ptr
  pub num_batched_tokens : ℕ
  pub block_swaps_in : List BlockOp
  pub block_swaps_out : List BlockOp

abbrev pub empty_output : SchedulerOutput
empty_output = record {
  scheduled_groups = [];
  preempted_groups = [];
  swapped_in_groups = [];
  num_batched_tokens = 0;
  block_swaps_in = [];
  block_swaps_out = [];
}

pub record Scheduler : Type 0 where
  pub config : SchedulerConfig
  pub block_manager : BlockManager
  pub memory : Memory
  pub waiting : List Ptr
  pub running : List Ptr
  pub swapped : List Ptr
  pub request_map : List (SeqId × Ptr)

-- The state of a call of `schedule`: the output and the two budgets beside the scheduler.
pub record Phase : Type 0 where
  pub sched : Scheduler
  pub output : SchedulerOutput
  pub budget_tokens : ℕ
  pub budget_seqs : ℕ

-- A difference of two `size_t`.
abbrev pub minus_size : ℕ → ℕ → ℕ
minus_size a b = (a + 2 ^ 64 - b % 2 ^ 64) % 2 ^ 64

-- A round of a loop: undefined behaviour, the end of the loop, or the next round.
pub data Round : Type 0 where
  fault : Round
  stop : Phase → Round
  next : Phase → Round

-- The sequences of the group at `p` in place, with the manager that goes with them.
abbrev pub put_group : Ptr → List SequenceData → BlockManager → Scheduler → Scheduler
put_group p qs bm s = record s {
  memory = write s.memory p (record (s.memory p) { sequences = qs });
  block_manager = bm;
}
