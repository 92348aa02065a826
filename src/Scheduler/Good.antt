-- ===== src/Scheduler/Good.antt =====
-- What every step of `schedule` keeps: the queues hold the same groups, and the budgets are what
-- the scheduled groups left of the limits.
use cache_flow.Base.{
  ℕ, ◌+◌, ◌^◌, ◌<◌, ◌≤◌, ◌≡◌, refl, List, [], ◌∷◌, ◌++◌, Option, none, some, arith, length, ◌==◌,
  if◌then◌else◌, inl, inr, ◌⊎◌, ap,
}
use cache_flow.Base.Count.{times, times-append}
use cache_flow.Scheduler.State.{Ptr, Scheduler, Phase, Round, fault, stop, next, minus_size}
use cache_flow.Scheduler.Phases.{split_last}

-- How often a group is queued.
abbrev pub queued : Ptr → Scheduler → ℕ
queued p s = times p s.waiting + times p s.running + times p s.swapped

-- A budget of a limit that is a `size_t`: the differences that are formed of it do not wrap.
abbrev pub Below : ℕ → ℕ → Type 0
Below budget limit = (budget ≤ limit) × (limit < 2 ^ 64)

pub minus_size-Below :
    (budget cost limit : ℕ)
    → cost ≤ budget
    → Below budget limit
    → Below (minus_size budget cost) limit
minus_size-Below budget cost limit h b = (omega (arith, h, b.0, b.1), b.1)

pub record Good (s : Scheduler) (ph : Phase) : Type 0 where
  pub config : ph.sched.config ≡ s.config
  pub queues : (p : Ptr) → queued p ph.sched ≡ queued p s
  pub tokens : Below ph.budget_tokens s.config.max_num_batched_tokens
  pub seqs :
      length ph.output.scheduled_groups + length ph.output.swapped_in_groups + ph.budget_seqs
      ≡ s.config.max_num_seqs

-- What holds of the phase in which a round ends the loop, and in which it goes on.
abbrev pub Leaves : (Phase → Type 0) → (Phase → Type 0) → Round → Type 0
Leaves P Q fault = Unit
Leaves P Q (stop ph) = P ph
Leaves P Q (next ph) = Q ph

abbrev pub Returns : (Phase → Type 0) → Option Phase → Type 0
Returns P none = Unit
Returns P (some ph) = P ph

-- The last group of a queue that is not empty.
pub split_last-cases :
    (ps : List Ptr)
    → ((ps ≡ []) × (split_last ps ≡ none))
      ⊎ ((rest : List Ptr) × (p : Ptr) × (split_last ps ≡ some (rest, p)) × (ps ≡ rest ++ p ∷ []))
unfolding split_last
split_last-cases [] = inl (refl, refl)
split_last-cases (r ∷ ps) = elim (split_last-cases ps) [
  | inl (e, n) ↦ inr ([], r, rw (n, split_last), ap (◌∷◌ r) e)
  | inr (rest, p, n, e) ↦ inr (r ∷ rest, p, rw (n, split_last), ap (◌∷◌ r) e)
]

pub times-snoc :
    (q p : Ptr) (ps : List Ptr) → times q (ps ++ p ∷ []) ≡ times q ps + (if q == p then 1 else 0)
unfolding times
times-snoc q p ps = omega (arith, times-append q ps (p ∷ []))
