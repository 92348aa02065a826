-- ===== src/Scheduler/Rounds.antt =====
-- Each round of the three loops, and `preempt`, keep the queues and the budgets.
use cache_flow.Base.{
  ℕ, ◌≤◌, ◌≡◌, refl, List, [], ◌∷◌, ◌++◌, Option, none, some, arith, length-append, ltb, ◌==◌, ◌||◌,
  if◌then◌else◌, Option-cases, inl, inr, ap, Bool, true, false,
}
use cache_flow.Base.Count.{times}
use cache_flow.Common.{PreemptionMode}
use cache_flow.Request.{all_seqs_finished}
use cache_flow.BlockManager.{can_allocate}
use cache_flow.Scheduler.State.{Ptr, Scheduler, Phase, Round, fault, stop, next}
use cache_flow.Scheduler.Sequences.{
  can_append, grow_seqs, swap_out_seqs, recompute_seqs, admit_seqs, swap_in_seqs, swapped_blocks,
}
use cache_flow.Scheduler.Phases.{
  estimate_tokens, preempt_victim, preempt, continue, stop_after, grow_group, grow_or_preempt,
  admit_group, swap_in_group, decode_round, decode_loop, admit, prefill_round, prefill_loop,
  swap_in_round, swap_in_loop,
}
use cache_flow.Scheduler.Good.{
  Good, minus_size-Below, Leaves, Returns, split_last-cases, times-snoc,
}

preempt_victim-Good :
    (s : Scheduler) (mode : PreemptionMode) (rest : List Ptr) (p : Ptr) (ph : Phase)
    → ph.sched.running ≡ rest ++ p ∷ []
    → Good s ph
    → Returns (Good s) (preempt_victim mode rest p ph)
unfolding preempt_victim times
preempt_victim-Good s PreemptionMode.swap rest p ph e g =
    elim (Option-cases (
      swap_out_seqs (ph.sched.memory p).sequences ph.sched.block_manager
        ph.output.block_swaps_out)) [
          | inl n ↦ rw (n, preempt_victim) tt
          | inr ((qs, bm, ops), n) ↦
              rw (n, preempt_victim)
                (record {
                  config = g.config;
                  queues = λ q. omega (
                    arith,
                    g.queues q,
                    times-snoc q p rest,
                    times-snoc q p ph.sched.swapped,
                    ap (times q) e,
                  );
                  tokens = g.tokens;
                  seqs = g.seqs;
                })
        ]
preempt_victim-Good s PreemptionMode.recompute rest p ph e g =
    elim (Option-cases (recompute_seqs (ph.sched.memory p).sequences ph.sched.block_manager)) [
      | inl n ↦ rw (n, preempt_victim) tt
      | inr ((qs, bm), n) ↦
          rw (n, preempt_victim)
            (record {
              config = g.config;
              queues = λ q. omega (arith, g.queues q, times-snoc q p rest, ap (times q) e);
              tokens = g.tokens;
              seqs = g.seqs;
            })
    ]

pub preempt-Good : (s : Scheduler) (ph : Phase) → Good s ph → Returns (Good s) (preempt ph)
unfolding preempt
preempt-Good s ph g = elim (split_last-cases ph.sched.running) [
  | inl (_, n) ↦ rw (n, preempt) g
  | inr (rest, p, n, e) ↦
      rw (n, preempt) (preempt_victim-Good s ph.sched.config.preemption_mode rest p ph e g)
]

pub if_rounds :
    (P : Round → Type 0) (b : Bool) (x y : Round)
    → (b ≡ true → P x)
    → (b ≡ false → P y)
    → P (if b then x else y)
if_rounds P true x y h k = h refl
if_rounds P false x y h k = k refl

-- A loop keeps what its rounds keep.
pub continue-Returns :
    (P Q : Phase → Type 0) (r : Round) (k : Phase → Option Phase)
    → Leaves P Q r
    → ((ph : Phase) → Q ph → Returns P (k ph))
    → Returns P (continue r k)
continue-Returns P Q fault k l h = tt
continue-Returns P Q (stop ph) k l h = l
continue-Returns P Q (next ph) k l h = h ph l

or_false_left : (a b : Bool) → (a || b) ≡ false → a ≡ false
or_false_left true b h = cc
or_false_left false b h = refl

-- A cost that is not above the budget.
affordable : (budget cost : ℕ) → ltb budget cost ≡ false → cost ≤ budget
affordable budget cost h = ground arith

or_false : (a b : Bool) → (a || b) ≡ false → b ≡ false
or_false true b h = cc
or_false false b h = h

stop_after-Good :
    (s : Scheduler) (o : Option Phase)
    → Returns (Good s) o
    → Leaves (Good s) (Good s) (stop_after o)
stop_after-Good s none r = tt
stop_after-Good s (some ph) r = r

grow_group-Good :
    (s : Scheduler) (p : Ptr) (ph : Phase)
    → estimate_tokens (ph.sched.memory p) false ≤ ph.budget_tokens
    → (ph.budget_seqs == 0) ≡ false
    → Good s ph
    → Leaves (Good s) (Good s) (grow_group p ph)
unfolding grow_group
grow_group-Good s p ph rich b g =
    elim (Option-cases (grow_seqs (ph.sched.memory p).sequences ph.sched.block_manager)) [
      | inl n ↦ rw (n, grow_group) tt
      | inr ((qs, bm), n) ↦
          rw (n, grow_group)
            (record {
              config = g.config;
              queues = g.queues;
              tokens =
                  minus_size-Below ph.budget_tokens (estimate_tokens (ph.sched.memory p) false)
                    s.config.max_num_batched_tokens rich g.tokens;
              seqs = ground (arith, g.seqs, length-append ph.output.scheduled_groups (p ∷ []));
            })
    ]

grow_or_preempt-Good :
    (s : Scheduler) (o : Option Bool) (p : Ptr) (ph : Phase)
    → estimate_tokens (ph.sched.memory p) false ≤ ph.budget_tokens
    → (ph.budget_seqs == 0) ≡ false
    → Good s ph
    → Leaves (Good s) (Good s) (grow_or_preempt o p ph)
unfolding grow_or_preempt
grow_or_preempt-Good s none p ph rich b g = tt
grow_or_preempt-Good s (some true) p ph rich b g = grow_group-Good s p ph rich b g
grow_or_preempt-Good s (some false) p ph rich b g =
    stop_after-Good s (preempt ph) (preempt-Good s ph g)

pub decode_round-Good :
    (s : Scheduler) (p : Ptr) (ph : Phase)
    → Good s ph
    → Leaves (Good s) (Good s) (decode_round p ph)
unfolding decode_round
decode_round-Good s p ph g =
    let stops = stop_after-Good s (preempt ph) (preempt-Good s ph g) in
    let q = (ph.sched.memory p).sequences in
    let bm = ph.sched.block_manager in
    let tokens = estimate_tokens (ph.sched.memory p) false in
    if_rounds (Leaves (Good s) (Good s)) (all_seqs_finished q) _ _ (λ _. g)
      (λ _.
        if_rounds (Leaves (Good s) (Good s)) (ltb ph.budget_tokens tokens || ph.budget_seqs == 0) _
          _ (λ _. stops)
          (λ rich.
            grow_or_preempt-Good s (can_append bm.config.block_size bm q) p ph
              (affordable ph.budget_tokens tokens (or_false_left _ _ rich)) (or_false _ _ rich) g))

pub decode_loop-Good :
    (s : Scheduler) (ps : List Ptr) (ph : Phase) → Good s ph → Returns (Good s) (decode_loop ps ph)
unfolding decode_loop
decode_loop-Good s [] ph g = g
decode_loop-Good s (p ∷ ps) ph g =
    continue-Returns (Good s) (Good s) (decode_round p ph) _ (decode_round-Good s p ph g)
      (decode_loop-Good s ps)

-- The queue that a loop empties from the front.
abbrev pub Waits : Scheduler → List Ptr → Phase → Type 0
Waits s rest ph = Good s ph × (ph.sched.waiting ≡ rest)

abbrev pub Sleeps : Scheduler → List Ptr → Phase → Type 0
Sleeps s rest ph = Good s ph × (ph.sched.swapped ≡ rest)

admit_group-Good :
    (s : Scheduler) (needed : ℕ) (p : Ptr) (rest : List Ptr) (ph : Phase)
    → ph.sched.waiting ≡ p ∷ rest
    → estimate_tokens (ph.sched.memory p) true ≤ ph.budget_tokens
    → (ph.budget_seqs == 0) ≡ false
    → Good s ph
    → Leaves (Good s) (Waits s rest) (admit_group needed p rest ph)
unfolding admit_group times
admit_group-Good s needed p rest ph w rich b g =
    elim (Option-cases (admit_seqs needed (ph.sched.memory p).sequences ph.sched.block_manager)) [
      | inl n ↦ rw (n, admit_group) tt
      | inr ((qs, bm), n) ↦
          let kept : Good s _ = record {
            config = g.config;
            queues =
                λ q. omega (arith, g.queues q, times-snoc q p ph.sched.running, ap (times q) w);
            tokens =
                minus_size-Below ph.budget_tokens (estimate_tokens (ph.sched.memory p) true)
                  s.config.max_num_batched_tokens rich g.tokens;
            seqs = ground (arith, g.seqs, length-append ph.output.scheduled_groups (p ∷ []));
          } in
          rw (n, admit_group) (kept, refl)
    ]

admit-Good :
    (s : Scheduler) (needed : Option ℕ) (p : Ptr) (rest : List Ptr) (ph : Phase)
    → ph.sched.waiting ≡ p ∷ rest
    → estimate_tokens (ph.sched.memory p) true ≤ ph.budget_tokens
    → (ph.budget_seqs == 0) ≡ false
    → Good s ph
    → Leaves (Good s) (Waits s rest) (admit needed p rest ph)
unfolding admit
admit-Good s none p rest ph w rich b g = tt
admit-Good s (some needed) p rest ph w rich b g =
    if_rounds (Leaves (Good s) (Waits s rest)) (can_allocate needed ph.sched.block_manager) _ _
      (λ _. admit_group-Good s needed p rest ph w rich b g) (λ _. g)

pub prefill_round-Good :
    (s : Scheduler) (p : Ptr) (rest : List Ptr) (ph : Phase)
    → ph.sched.waiting ≡ p ∷ rest
    → Good s ph
    → Leaves (Good s) (Waits s rest) (prefill_round p rest ph)
unfolding prefill_round
prefill_round-Good s p rest ph w g =
    if_rounds (Leaves (Good s) (Waits s rest)) (ph.budget_seqs == 0) _ _ (λ _. g)
      (λ b.
        if_rounds (Leaves (Good s) (Waits s rest))
          (ltb ph.budget_tokens (estimate_tokens (ph.sched.memory p) true)) _ _ (λ _. g)
          (λ rich. admit-Good s _ p rest ph w (affordable _ _ rich) b g))

pub prefill_loop-Good :
    (s : Scheduler) (ps : List Ptr) (ph : Phase)
    → ph.sched.waiting ≡ ps
    → Good s ph
    → Returns (Good s) (prefill_loop ps ph)
unfolding prefill_loop
prefill_loop-Good s [] ph w g = g
prefill_loop-Good s (p ∷ ps) ph w g =
    continue-Returns (Good s) (Waits s ps) (prefill_round p ps ph) _
      (prefill_round-Good s p ps ph w g) (λ ph' h. prefill_loop-Good s ps ph' h.1 h.0)

swap_in_group-Good :
    (s : Scheduler) (p : Ptr) (rest : List Ptr) (ph : Phase)
    → ph.sched.swapped ≡ p ∷ rest
    → estimate_tokens (ph.sched.memory p) false ≤ ph.budget_tokens
    → (ph.budget_seqs == 0) ≡ false
    → Good s ph
    → Leaves (Good s) (Sleeps s rest) (swap_in_group p rest ph)
unfolding swap_in_group times
swap_in_group-Good s p rest ph w rich b g =
    elim (Option-cases (
      swap_in_seqs (ph.sched.memory p).sequences ph.sched.block_manager ph.output.block_swaps_in)) [
        | inl n ↦ rw (n, swap_in_group) tt
        | inr ((qs, bm, ops), n) ↦
            let kept : Good s _ = record {
              config = g.config;
              queues =
                  λ q. omega (arith, g.queues q, times-snoc q p ph.sched.running, ap (times q) w);
              tokens =
                  minus_size-Below ph.budget_tokens (estimate_tokens (ph.sched.memory p) false)
                    s.config.max_num_batched_tokens rich g.tokens;
              seqs = ground (arith, g.seqs, length-append ph.output.swapped_in_groups (p ∷ []));
            } in
            rw (n, swap_in_group) (kept, refl)
      ]

pub swap_in_round-Good :
    (s : Scheduler) (p : Ptr) (rest : List Ptr) (ph : Phase)
    → ph.sched.swapped ≡ p ∷ rest
    → Good s ph
    → Leaves (Good s) (Sleeps s rest) (swap_in_round p rest ph)
unfolding swap_in_round
swap_in_round-Good s p rest ph w g =
    let P = Leaves (Good s) (Sleeps s rest) in
    if_rounds P (ph.budget_seqs == 0) _ _ (λ _. g)
      (λ b.
        if_rounds P (ltb ph.budget_tokens (estimate_tokens (ph.sched.memory p) false)) _ _ (λ _. g)
          (λ rich.
            if_rounds P
              (can_allocate (swapped_blocks (ph.sched.memory p).sequences) ph.sched.block_manager) _
              _ (λ _. swap_in_group-Good s p rest ph w (affordable _ _ rich) b g) (λ _. g)))

pub swap_in_loop-Good :
    (s : Scheduler) (ps : List Ptr) (ph : Phase)
    → ph.sched.swapped ≡ ps
    → Good s ph
    → Returns (Good s) (swap_in_loop ps ph)
unfolding swap_in_loop
swap_in_loop-Good s [] ph w g = g
swap_in_loop-Good s (p ∷ ps) ph w g =
    continue-Returns (Good s) (Sleeps s ps) (swap_in_round p ps ph) _
      (swap_in_round-Good s p ps ph w g) (λ ph' h. swap_in_loop-Good s ps ph' h.1 h.0)
