-- ===== src/Scheduler/Sequences.antt =====
-- scheduler.cpp: the loops over the sequences of one group, and over the blocks of one sequence.
use cache_flow.Base.{
  ℕ, zero, suc, ◌+◌, ◌-◌, Bool, true, false, List, [], ◌∷◌, ◌++◌, Option, none, some, length, ltb,
  if◌then◌else◌,
}
use cache_flow.Common.{BlockId, SeqId, running, preempted, swapped, finished_abort, cpu, cuda}
use cache_flow.Request.{SequenceData, num_blocks_needed, seq_finished}
use cache_flow.BlockManager.{BlockManager, allocate_block, free_block, free_blocks, can_allocate}
use cache_flow.Scheduler.State.{BlockOp}

-- The loop of `abort_request` over the sequences of the group.
unfoldable pub abort_seqs :
    List SequenceData → BlockManager → Option (List SequenceData × BlockManager)
unfolding free_blocks
abort_seqs [] bm = some ([], bm)
abort_seqs (q ∷ qs) bm =
    let freed = if seq_finished q then some bm else free_blocks q.seq_id bm in
    elim freed [
      | none ↦ none
      | some bm' ↦ elim (abort_seqs qs bm') [
        | none ↦ none
        | some (qs', bm'') ↦
            some ((if seq_finished q then q else record q { status = finished_abort }) ∷ qs', bm'')
      ]
    ]

-- `n` rounds of `allocate_block` and `push_back`; an id that the manager could not give is pushed
-- as `INVALID_BLOCK`.
unfoldable pub allocate_blocks :
    ℕ → SeqId → List BlockId → BlockManager → Option (List BlockId × BlockManager)
unfolding allocate_block
allocate_blocks zero sid ids bm = some (ids, bm)
allocate_blocks (suc n) sid ids bm = elim (allocate_block sid cuda bm) [
  | none ↦ none
  | some (bm', id) ↦ allocate_blocks n sid (ids ++ id ∷ []) bm'
]

-- The loop that sets `can_append`: whether each sequence by itself finds its blocks.
unfoldable pub can_append : ℕ → BlockManager → List SequenceData → Option Bool
unfolding num_blocks_needed can_allocate
can_append size bm [] = some true
can_append size bm (q ∷ qs) =
    let have = length q.logical_blocks in
    let rest = can_append size bm qs in
    let tested : Option Bool = elim (num_blocks_needed size q) [
      | none ↦ none
      | some needed ↦
          if ltb have needed
          then if can_allocate (needed - have) bm then rest else some false
          else rest
    ] in
    if seq_finished q then rest else tested

-- The number of blocks that an unfinished sequence lacks.
unfoldable pub lacking_blocks : ℕ → SequenceData → Option ℕ
unfolding num_blocks_needed
lacking_blocks size q =
    let lacking : Option ℕ = elim (num_blocks_needed size q) [
      | none ↦ none
      | some needed ↦ some (needed - length q.logical_blocks)
    ] in
    if seq_finished q then some 0 else lacking

-- The loop that gives each unfinished sequence the blocks it lacks.
unfoldable pub grow_seqs :
    List SequenceData → BlockManager → Option (List SequenceData × BlockManager)
unfolding lacking_blocks allocate_blocks
grow_seqs [] bm = some ([], bm)
grow_seqs (q ∷ qs) bm = elim (lacking_blocks bm.config.block_size q) [
  | none ↦ none
  | some lacking ↦ elim (allocate_blocks lacking q.seq_id q.logical_blocks bm) [
    | none ↦ none
    | some (ids, bm') ↦ elim (grow_seqs qs bm') [
      | none ↦ none
      | some (qs', bm'') ↦ some (record q { logical_blocks = ids } ∷ qs', bm'')
    ]
  ]
]

-- The loop of `preempt` over the blocks of one sequence, in the mode SWAP.
unfoldable pub swap_out_blocks :
    SeqId
    → List BlockId
    → BlockManager
    → List BlockOp
    → Option (List BlockId × BlockManager × List BlockOp)
unfolding allocate_block free_block
swap_out_blocks sid [] bm ops = some ([], bm, ops)
swap_out_blocks sid (id ∷ ids) bm ops = elim (allocate_block sid cpu bm) [
  | none ↦ none
  | some (bm', cpu_id) ↦ elim (free_block id cuda bm') [
    | none ↦ none
    | some bm'' ↦
        elim (swap_out_blocks sid ids bm''
          (ops ++ record { seq_id = sid; src = id; dst = cpu_id } ∷ [])) [
            | none ↦ none
            | some (ids', bm3, ops') ↦ some (cpu_id ∷ ids', bm3, ops')
          ]
  ]
]

unfoldable pub swap_out_seqs :
    List SequenceData
    → BlockManager
    → List BlockOp
    → Option (List SequenceData × BlockManager × List BlockOp)
unfolding swap_out_blocks
swap_out_seqs [] bm ops = some ([], bm, ops)
swap_out_seqs (q ∷ qs) bm ops =
    let ids = if seq_finished q then [] else q.logical_blocks in
    elim (swap_out_blocks q.seq_id ids bm ops) [
      | none ↦ none
      | some (ids', bm', ops') ↦ elim (swap_out_seqs qs bm' ops') [
        | none ↦ none
        | some (qs', bm'', ops'') ↦ some (
          (if seq_finished q then q else record q { status = swapped; logical_blocks = ids' })
              ∷ qs',
          bm'',
          ops'',
        )
      ]
    ]

-- The loop of `preempt` in the mode RECOMPUTE.
unfoldable pub recompute_seqs :
    List SequenceData → BlockManager → Option (List SequenceData × BlockManager)
unfolding free_blocks
recompute_seqs [] bm = some ([], bm)
recompute_seqs (q ∷ qs) bm =
    let freed = if seq_finished q then some bm else free_blocks q.seq_id bm in
    elim freed [
      | none ↦ none
      | some bm' ↦ elim (recompute_seqs qs bm') [
        | none ↦ none
        | some (qs', bm'') ↦ some (
          (if seq_finished q
                then q
                else record q { status = preempted; logical_blocks = []; output_tokens = [] })
              ∷ qs',
          bm'',
        )
      ]
    ]

-- The loop of `schedule_prefills` over the sequences of a group: each gets `n` blocks, the number
-- that the first sequence needs.
unfoldable pub admit_seqs :
    ℕ → List SequenceData → BlockManager → Option (List SequenceData × BlockManager)
unfolding allocate_blocks
admit_seqs n [] bm = some ([], bm)
admit_seqs n (q ∷ qs) bm = elim (allocate_blocks n q.seq_id q.logical_blocks bm) [
  | none ↦ none
  | some (ids, bm') ↦ elim (admit_seqs n qs bm') [
    | none ↦ none
    | some (qs', bm'') ↦ some (record q { status = running; logical_blocks = ids } ∷ qs', bm'')
  ]
]

-- `total_blocks` of `try_swap_in`.
unfoldable pub swapped_blocks : List SequenceData → ℕ
swapped_blocks [] = 0
swapped_blocks (q ∷ qs) =
    (if seq_finished q then 0 else length q.logical_blocks) + swapped_blocks qs

-- The loop of `try_swap_in` over the blocks of one sequence.
unfoldable pub swap_in_blocks :
    SeqId
    → List BlockId
    → BlockManager
    → List BlockOp
    → Option (List BlockId × BlockManager × List BlockOp)
unfolding allocate_block
swap_in_blocks sid [] bm ops = some ([], bm, ops)
swap_in_blocks sid (id ∷ ids) bm ops = elim (allocate_block sid cuda bm) [
  | none ↦ none
  | some (bm', new_id) ↦
      elim (swap_in_blocks sid ids bm'
        (ops ++ record { seq_id = sid; src = id; dst = new_id } ∷ [])) [
          | none ↦ none
          | some (ids', bm'', ops') ↦ some (new_id ∷ ids', bm'', ops')
        ]
]

unfoldable pub swap_in_seqs :
    List SequenceData
    → BlockManager
    → List BlockOp
    → Option (List SequenceData × BlockManager × List BlockOp)
unfolding swap_in_blocks
swap_in_seqs [] bm ops = some ([], bm, ops)
swap_in_seqs (q ∷ qs) bm ops =
    let ids = if seq_finished q then [] else q.logical_blocks in
    elim (swap_in_blocks q.seq_id ids bm ops) [
      | none ↦ none
      | some (ids', bm', ops') ↦ elim (swap_in_seqs qs bm' ops') [
        | none ↦ none
        | some (qs', bm'', ops'') ↦ some (
          (if seq_finished q then q else record q { status = running; logical_blocks = ids' })
              ∷ qs',
          bm'',
          ops'',
        )
      ]
    ]

-- The loop of `free_finished_requests` over the sequences of a group.
unfoldable pub free_seqs : List SequenceData → BlockManager → Option BlockManager
unfolding free_blocks
free_seqs [] bm = some bm
free_seqs (q ∷ qs) bm = elim (free_blocks q.seq_id bm) [ none ↦ none | some bm' ↦ free_seqs qs bm' ]
