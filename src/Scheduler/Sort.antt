-- ===== src/Scheduler/Sort.antt =====
-- The stable sorts of the waiting queue.
use cache_flow.Base.{
  ◌+◌, ◌≡◌, refl, List, [], ◌∷◌, arith, Bool, true, false, ◌==◌, if◌then◌else◌, Bool-cases, inl,
  inr, All, ◌∙◌,
}
use cache_flow.Base.Int.{ltbℤ, ltbℤ-asym, ltbℤ-trans}
use cache_flow.Base.Count.{times}
use cache_flow.Common.{SchedulePolicy}
use cache_flow.Scheduler.State.{Ptr, Memory}
use cache_flow.Scheduler.Api.{insert_stable, stable_sort, shorter, more_urgent, sort_by}

-- The groups of a queue that stand neither before nor behind `x`, in their order.
pub ties : (Ptr → Ptr → Bool) → Ptr → List Ptr → List Ptr
ties before x [] = []
ties before x (p ∷ ps) =
    if before x p
    then ties before x ps
    else if before p x
    then ties before x ps
    else p ∷ ties before x ps

module _ (before : Ptr → Ptr → Bool) where
  times-insert_stable :
      (x p : Ptr) (ps : List Ptr)
      → times x (insert_stable before p ps) ≡ (if x == p then 1 else 0) + times x ps
  unfolding times insert_stable
  times-insert_stable x p [] = refl
  times-insert_stable x p (q ∷ qs) = elim (Bool-cases (before q p)) [
    | inl e ↦ rw e (omega (arith, times-insert_stable x p qs))
    | inr e ↦ rw e
  ]

  -- Sorting keeps every group, as often.
  pub times-stable_sort : (x : Ptr) (ps : List Ptr) → times x (stable_sort before ps) ≡ times x ps
  unfolding times stable_sort
  times-stable_sort x [] = refl
  times-stable_sort x (p ∷ ps) =
      omega (arith, times-insert_stable x p (stable_sort before ps), times-stable_sort x ps)

  -- Nothing stands behind a group that it should stand before.
  abbrev pub IsSorted : List Ptr → Type 0
  IsSorted [] = Unit
  IsSorted (p ∷ ps) = All (λ q. before q p ≡ false) ps × IsSorted ps

  module _ (asym : (p q : Ptr) → before p q ≡ true → before q p ≡ false)
      (trans : (p q r : Ptr) → before q p ≡ false → before r q ≡ false → before r p ≡ false) where
    All-insert :
        (P : Ptr → Type 0) (p : Ptr) (ps : List Ptr)
        → P p
        → All P ps
        → All P (insert_stable before p ps)
    unfolding insert_stable
    All-insert P p [] h k = (h, tt)
    All-insert P p (q ∷ qs) h k = elim (Bool-cases (before q p)) [
      | inl e ↦ rw e (k.0, All-insert P p qs h k.1)
      | inr e ↦ rw e (h, (k.0, k.1))
    ]

    All-later :
        (p q : Ptr) (qs : List Ptr)
        → before q p ≡ false
        → All (λ r. before r q ≡ false) qs
        → All (λ r. before r p ≡ false) qs
    All-later p q [] h k = tt
    All-later p q (r ∷ rs) h k = (trans p q r h k.0, All-later p q rs h k.1)

    insert-IsSorted : (p : Ptr) (ps : List Ptr) → IsSorted ps → IsSorted (insert_stable before p ps)
    unfolding insert_stable
    insert-IsSorted p [] k = (tt, tt)
    insert-IsSorted p (q ∷ qs) k = elim (Bool-cases (before q p)) [
      | inl e ↦ rw e (All-insert _ p qs (asym q p e) k.0, insert-IsSorted p qs k.1)
      | inr e ↦ rw e ((e, All-later p q qs e k.0), (k.0, k.1))
    ]

    pub stable_sort-IsSorted : (ps : List Ptr) → IsSorted (stable_sort before ps)
    unfolding stable_sort
    stable_sort-IsSorted [] = tt
    stable_sort-IsSorted (p ∷ ps) =
        insert-IsSorted p (stable_sort before ps) (stable_sort-IsSorted ps)

    -- `q` stands before what ties with a group that it stands before.
    no_tie : (x p q : Ptr) → before q p ≡ true → before x p ≡ false → before q x ≡ true
    no_tie x p q e h = elim (Bool-cases (before q x)) [
      | inl k ↦ k
      | inr k ↦ absurd (cc (e, trans p x q h k))
    ]

    ahead :
        (x p q : Ptr) (qs : List Ptr)
        → before q p ≡ true
        → (if before x q
            then ties before x (p ∷ qs)
            else if before q x
            then ties before x (p ∷ qs)
            else q ∷ ties before x (p ∷ qs))
          ≡ ties before x (p ∷ q ∷ qs)
    unfolding ties
    ahead x p q qs e = elim (Bool-cases (before x p)) [
      | inl h ↦ rw h
      | inr h ↦ rw (h, no_tie x p q e h, asym q x (no_tie x p q e h))
    ]

    pub insert-ties :
        (x p : Ptr) (ps : List Ptr)
        → ties before x (insert_stable before p ps) ≡ ties before x (p ∷ ps)
    unfolding insert_stable ties
    insert-ties x p [] = refl
    insert-ties x p (q ∷ qs) = elim (Bool-cases (before q p)) [
      | inl e ↦ rw (e, insert-ties x p qs) (ahead x p q qs e)
      | inr e ↦ rw e
    ]

    pub stable_sort-ties :
        (x : Ptr) (ps : List Ptr) → ties before x (stable_sort before ps) ≡ ties before x ps
    unfolding stable_sort ties
    stable_sort-ties x [] = refl
    stable_sort-ties x (p ∷ ps) =
        insert-ties x p (stable_sort before ps) ∙ rw (stable_sort-ties x ps)

module _ (before : Ptr → Ptr → Bool) (asym : (p q : Ptr) → before p q ≡ true → before q p ≡ false)
    (trans : (p q r : Ptr) → before q p ≡ false → before r q ≡ false → before r p ≡ false) where
  stable_sort_lem :
      (ps : List Ptr)
      → IsSorted before (stable_sort before ps)
        × ((x : Ptr) → times x (stable_sort before ps) ≡ times x ps)
        × ((x : Ptr) → ties before x (stable_sort before ps) ≡ ties before x ps)
  stable_sort_lem ps = (
    stable_sort-IsSorted before asym trans ps,
    λ x. times-stable_sort before x ps,
    λ x. stable_sort-ties before asym trans x ps,
  )

-- What each policy puts first: nothing, the smaller limit of tokens, the larger priority.
abbrev pub goes_first : SchedulePolicy → Memory → Ptr → Ptr → Bool
goes_first SchedulePolicy.fcfs mem p q = false
goes_first SchedulePolicy.shortest_remaining mem p q =
    ltbℤ (mem p).sampling.max_tokens (mem q).sampling.max_tokens
goes_first SchedulePolicy.priority mem p q = ltbℤ (mem q).priority (mem p).priority

no_order : (ps : List Ptr) → IsSorted (λ p q. false) ps
no_order [] = tt
no_order (p ∷ ps) = (all_false ps, no_order ps)
  where
    all_false : (qs : List Ptr) → All (λ q. false ≡ false) qs
    all_false [] = tt
    all_false (q ∷ qs) = (refl, all_false qs)

-- Under each policy the waiting queue is sorted by what the policy puts first, keeps every group
-- as often, and keeps the order of the groups that tie.
pub sort_by-IsSorted :
    (policy : SchedulePolicy) (mem : Memory) (ps : List Ptr)
    → IsSorted (goes_first policy mem) (sort_by policy mem ps)
      × ((x : Ptr) → times x (sort_by policy mem ps) ≡ times x ps)
      × ((x : Ptr)
          → ties (goes_first policy mem) x (sort_by policy mem ps)
            ≡ ties (goes_first policy mem) x ps)
unfolding sort_by
sort_by-IsSorted SchedulePolicy.fcfs mem ps = (no_order ps, λ x. refl, λ x. refl)
sort_by-IsSorted SchedulePolicy.shortest_remaining mem ps =
    stable_sort_lem (shorter mem)
      (λ p q. ltbℤ-asym (mem p).sampling.max_tokens (mem q).sampling.max_tokens)
      (λ p q r.
        ltbℤ-trans (mem p).sampling.max_tokens (mem q).sampling.max_tokens
          (mem r).sampling.max_tokens)
      ps
sort_by-IsSorted SchedulePolicy.priority mem ps =
    stable_sort_lem (more_urgent mem) (λ p q. ltbℤ-asym (mem q).priority (mem p).priority)
      (λ p q r h k. ltbℤ-trans (mem r).priority (mem q).priority (mem p).priority k h) ps
