-- ===== src/Scheduler/Recompute.antt =====
-- In the mode RECOMPUTE `schedule` always returns, and keeps the books of the block manager.
use cache_flow.Base.{
  ℕ, suc, ◌≡◌, ◌≢◌, refl, List, [], ◌∷◌, Option, none, some, arith, length, Bool, ltb, ◌==◌, ◌||◌,
  inl, inr, ap, true, false,
}
use cache_flow.Base.Count.{times}
use cache_flow.Common.{PreemptionMode}
use cache_flow.Request.{SequenceData, all_seqs_finished}
use cache_flow.BlockManager.{can_allocate}
use cache_flow.BlockManager.Balance.{Refs}
use cache_flow.BlockManager.Accounts.{Accounts}
use cache_flow.Scheduler.State.{Ptr, Memory, Scheduler, Phase, Round, fault, stop, next, write}
use cache_flow.Scheduler.Sequences.{can_append, swapped_blocks}
use cache_flow.Scheduler.Phases.{
  estimate_tokens, preempt_victim, preempt, continue, stop_after, grow_group, grow_or_preempt,
  admit_group, first_needed, swap_in_group, decode_round, decode_loop, admit, prefill_round,
  prefill_loop, swap_in_round, swap_in_loop,
}
use cache_flow.Scheduler.Good.{queued, Good, Leaves, split_last-cases}
use cache_flow.Scheduler.Rounds.{
  if_rounds, Waits, Sleeps, decode_round-Good, prefill_round-Good, swap_in_round-Good,
}
use cache_flow.Scheduler.Books.{
  block_size-same, num_blocks_needed-runs, can_append-runs, grow_seqs-Rewrites, admit_seqs-Rewrites,
  recompute_seqs-Rewrites, swap_in_seqs-Swaps,
}

-- The books are kept, and no group has lost or gained a sequence.
pub record Sound (ext : Refs) (s : Scheduler) (ph : Phase) : Type 0 where
  pub accounts : Accounts ext ph.sched.block_manager
  pub mode : ph.sched.config.preemption_mode ≡ PreemptionMode.recompute
  pub sized : ph.sched.block_manager.config.block_size ≢ 0
  pub sizes : (p : Ptr) → length (ph.sched.memory p).sequences ≡ length (s.memory p).sequences

-- A round, and a loop, that does not run into undefined behaviour.
abbrev pub Ends : (Phase → Type 0) → Round → Type 0
Ends P fault = ⊥
Ends P (stop ph) = P ph
Ends P (next ph) = P ph

abbrev pub Runs : (Phase → Type 0) → Option Phase → Type 0
Runs P none = ⊥
Runs P (some ph) = P ph

put_group-sizes :
    (s : Scheduler) (mem : Memory) (p : Ptr) (qs : List SequenceData)
    → ((q : Ptr) → length (mem q).sequences ≡ length (s.memory q).sequences)
    → length qs ≡ length (mem p).sequences
    → (q : Ptr)
    → length (write mem p (record (mem p) { sequences = qs }) q).sequences
      ≡ length (s.memory q).sequences
put_group-sizes s mem p qs h e q = ground (arith, h q)

here : (p : Ptr) (ps : List Ptr) → times p (p ∷ ps) ≡ suc (times p ps)
unfolding times
here p ps = ground arith

module _ (ext : Refs) (s : Scheduler) where
  victim-Runs :
      (mode : PreemptionMode) (rest : List Ptr) (p : Ptr) (ph : Phase)
      → mode ≡ PreemptionMode.recompute
      → Sound ext s ph
      → Runs (Sound ext s) (preempt_victim mode rest p ph)
  unfolding preempt_victim
  victim-Runs PreemptionMode.swap rest p ph e v = absurd (cc e)
  victim-Runs PreemptionMode.recompute rest p ph e v =
      let m =
        recompute_seqs-Rewrites ext (ph.sched.memory p).sequences ph.sched.block_manager
          v.accounts in
      rw (m.runs, preempt_victim)
        (record {
          accounts = m.accounts;
          mode = v.mode;
          sized = block_size-same ph.sched.block_manager m.after m.same v.sized;
          sizes = put_group-sizes s ph.sched.memory p m.seqs v.sizes m.size;
        })

  preempt-Runs : (ph : Phase) → Sound ext s ph → Runs (Sound ext s) (preempt ph)
  unfolding preempt
  preempt-Runs ph v = elim (split_last-cases ph.sched.running) [
    | inl (_, n) ↦ rw (n, preempt) v
    | inr (rest, p, n, _) ↦
        rw (n, preempt) (victim-Runs ph.sched.config.preemption_mode rest p ph v.mode v)
  ]

  stop_after-Ends : (o : Option Phase) → Runs (Sound ext s) o → Ends (Sound ext s) (stop_after o)
  stop_after-Ends none r = r
  stop_after-Ends (some ph) r = r

  grow_group-Ends : (p : Ptr) (ph : Phase) → Sound ext s ph → Ends (Sound ext s) (grow_group p ph)
  unfolding grow_group
  grow_group-Ends p ph v =
      let m =
        grow_seqs-Rewrites ext (ph.sched.memory p).sequences ph.sched.block_manager v.sized
          v.accounts in
      rw (m.runs, grow_group)
        (record {
          accounts = m.accounts;
          mode = v.mode;
          sized = block_size-same ph.sched.block_manager m.after m.same v.sized;
          sizes = put_group-sizes s ph.sched.memory p m.seqs v.sizes m.size;
        })

  admit_group-Ends :
      (needed : ℕ) (p : Ptr) (rest : List Ptr) (ph : Phase)
      → Sound ext s ph
      → Ends (Sound ext s) (admit_group needed p rest ph)
  unfolding admit_group
  admit_group-Ends needed p rest ph v =
      let m =
        admit_seqs-Rewrites ext needed (ph.sched.memory p).sequences ph.sched.block_manager
          v.accounts in
      rw (m.runs, admit_group)
        (record {
          accounts = m.accounts;
          mode = v.mode;
          sized = block_size-same ph.sched.block_manager m.after m.same v.sized;
          sizes = put_group-sizes s ph.sched.memory p m.seqs v.sizes m.size;
        })

  swap_in_group-Ends :
      (p : Ptr) (rest : List Ptr) (ph : Phase)
      → Sound ext s ph
      → Ends (Sound ext s) (swap_in_group p rest ph)
  unfolding swap_in_group
  swap_in_group-Ends p rest ph v =
      let m =
        swap_in_seqs-Swaps ext (ph.sched.memory p).sequences ph.sched.block_manager
          ph.output.block_swaps_in v.accounts in
      rw (m.runs, swap_in_group)
        (record {
          accounts = m.accounts;
          mode = v.mode;
          sized = block_size-same ph.sched.block_manager m.after m.same v.sized;
          sizes = put_group-sizes s ph.sched.memory p m.items v.sizes m.size;
        })

  grow_or_preempt-Ends :
      (o : Option Bool) (b : Bool) (p : Ptr) (ph : Phase)
      → o ≡ some b
      → Sound ext s ph
      → Ends (Sound ext s) (grow_or_preempt o p ph)
  unfolding grow_or_preempt
  grow_or_preempt-Ends none b p ph e v = absurd (cc e)
  grow_or_preempt-Ends (some true) b p ph e v = grow_group-Ends p ph v
  grow_or_preempt-Ends (some false) b p ph e v = stop_after-Ends (preempt ph) (preempt-Runs ph v)

  decode_round-Ends :
      (p : Ptr) (ph : Phase) → Sound ext s ph → Ends (Sound ext s) (decode_round p ph)
  unfolding decode_round
  decode_round-Ends p ph v =
      let stops = stop_after-Ends (preempt ph) (preempt-Runs ph v) in
      let q = (ph.sched.memory p).sequences in
      let bm = ph.sched.block_manager in
      let tokens = estimate_tokens (ph.sched.memory p) false in
      if_rounds (Ends (Sound ext s)) (all_seqs_finished q) _ _ (λ _. v)
        (λ _.
          if_rounds (Ends (Sound ext s)) (ltb ph.budget_tokens tokens || ph.budget_seqs == 0) _ _
            (λ _. stops)
            (λ _.
              let (b, r) = can_append-runs bm.config.block_size bm q v.sized in
              grow_or_preempt-Ends (can_append bm.config.block_size bm q) b p ph r v))

  -- A loop runs whose rounds do, with what the rounds leave for the next one.
  continue-Runs :
      (Q : Phase → Type 0) (r : Round) (k : Phase → Option Phase)
      → Ends (Sound ext s) r
      → Leaves (Good s) Q r
      → ((ph : Phase) → Sound ext s ph → Q ph → Runs (Sound ext s) (k ph))
      → Runs (Sound ext s) (continue r k)
  continue-Runs Q fault k e l h = e
  continue-Runs Q (stop ph) k e l h = e
  continue-Runs Q (next ph) k e l h = h ph e l

  pub decode_loop-Runs :
      (ps : List Ptr) (ph : Phase)
      → Good s ph
      → Sound ext s ph
      → Runs (Sound ext s) (decode_loop ps ph)
  unfolding decode_loop
  decode_loop-Runs [] ph g v = v
  decode_loop-Runs (p ∷ ps) ph g v =
      continue-Runs (Good s) (decode_round p ph) _ (decode_round-Ends p ph v)
        (decode_round-Good s p ph g) (λ ph' v' g'. decode_loop-Runs ps ph' g' v')

  swap_in_round-Ends :
      (p : Ptr) (rest : List Ptr) (ph : Phase)
      → Sound ext s ph
      → Ends (Sound ext s) (swap_in_round p rest ph)
  unfolding swap_in_round
  swap_in_round-Ends p rest ph v =
      let P = Ends (Sound ext s) in
      if_rounds P (ph.budget_seqs == 0) _ _ (λ _. v)
        (λ b.
          if_rounds P (ltb ph.budget_tokens (estimate_tokens (ph.sched.memory p) false)) _ _
            (λ _. v)
            (λ _.
              if_rounds P
                (can_allocate (swapped_blocks (ph.sched.memory p).sequences) ph.sched.block_manager)
                _ _ (λ _. swap_in_group-Ends p rest ph v) (λ _. v)))

  pub swap_in_loop-Runs :
      (ps : List Ptr) (ph : Phase)
      → ph.sched.swapped ≡ ps
      → Good s ph
      → Sound ext s ph
      → Runs (Sound ext s) (swap_in_loop ps ph)
  unfolding swap_in_loop
  swap_in_loop-Runs [] ph w g v = v
  swap_in_loop-Runs (p ∷ ps) ph w g v =
      continue-Runs (Sleeps s ps) (swap_in_round p ps ph) _ (swap_in_round-Ends p ps ph v)
        (swap_in_round-Good s p ps ph w g) (λ ph' v' l. swap_in_loop-Runs ps ph' l.1 l.0 v')

  module _ (filled : (p : Ptr) → queued p s ≢ 0 → length (s.memory p).sequences ≢ 0) where
    has_first :
        (size : ℕ) (qs : List SequenceData)
        → size ≢ 0
        → length qs ≢ 0
        → (n : ℕ) × (first_needed size qs ≡ some n)
    unfolding first_needed
    has_first size [] z h = absurd (h refl)
    has_first size (q ∷ qs) z h = num_blocks_needed-runs size q z

    -- The group at the front of the queue has a sequence.
    front_filled :
        (p : Ptr) (rest : List Ptr) (ph : Phase)
        → ph.sched.waiting ≡ p ∷ rest
        → Good s ph
        → Sound ext s ph
        → length (ph.sched.memory p).sequences ≢ 0
    unfolding times
    front_filled p rest ph w g v e =
        filled p (λ z. absurd (omega (arith, g.queues p, z, ap (times p) w, here p rest)))
          (omega (arith, v.sizes p, e))

    admit-Ends :
        (o : Option ℕ) (n : ℕ) (p : Ptr) (rest : List Ptr) (ph : Phase)
        → o ≡ some n
        → Sound ext s ph
        → Ends (Sound ext s) (admit o p rest ph)
    unfolding admit
    admit-Ends none n p rest ph e v = absurd (cc e)
    admit-Ends (some needed) n p rest ph e v =
        if_rounds (Ends (Sound ext s)) (can_allocate needed ph.sched.block_manager) _ _
          (λ _. admit_group-Ends needed p rest ph v) (λ _. v)

    prefill_round-Ends :
        (p : Ptr) (rest : List Ptr) (ph : Phase)
        → ph.sched.waiting ≡ p ∷ rest
        → Good s ph
        → Sound ext s ph
        → Ends (Sound ext s) (prefill_round p rest ph)
    unfolding prefill_round
    prefill_round-Ends p rest ph w g v =
        let P = Ends (Sound ext s) in
        let (n, e) =
          has_first ph.sched.block_manager.config.block_size (ph.sched.memory p).sequences v.sized
            (front_filled p rest ph w g v) in
        if_rounds P (ph.budget_seqs == 0) _ _ (λ _. v)
          (λ _.
            if_rounds P (ltb ph.budget_tokens (estimate_tokens (ph.sched.memory p) true)) _ _
              (λ _. v) (λ _. admit-Ends _ n p rest ph e v))

    pub prefill_loop-Runs :
        (ps : List Ptr) (ph : Phase)
        → ph.sched.waiting ≡ ps
        → Good s ph
        → Sound ext s ph
        → Runs (Sound ext s) (prefill_loop ps ph)
    unfolding prefill_loop
    prefill_loop-Runs [] ph w g v = v
    prefill_loop-Runs (p ∷ ps) ph w g v =
        continue-Runs (Waits s ps) (prefill_round p ps ph) _ (prefill_round-Ends p ps ph w g v)
          (prefill_round-Good s p ps ph w g) (λ ph' v' l. prefill_loop-Runs ps ph' l.1 l.0 v')
