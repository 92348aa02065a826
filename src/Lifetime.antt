-- ===== src/Lifetime.antt =====
-- The parts together: the scheduler, its block manager and the token updates of the batch manager,
-- in any order of calls.
use cache_flow.Base.{
  ℕ, ◌<◌, ◌^◌, Bool, true, false, if◌then◌else◌, [], ◌∷◌, All, ==-eq, ◌≡◌, ◌≢◌, refl, List, Option,
  none, some, arith, length, ◌==◌, Bool-cases, inl, inr, ap, sym, subst, ◌∙◌,
}
use cache_flow.Base.Count.{times}
use cache_flow.Common.{TokenId, SeqId, PreemptionMode}
use cache_flow.Request.{SequenceGroup, SamplingParams, new_group}
use cache_flow.Base.Int.{ℤ}
use cache_flow.BlockManager
use cache_flow.BlockManager.Accounts.{Accounts}
use cache_flow.BlockManager.Init.{no_refs}
use cache_flow.Scheduler.State.{Ptr, Scheduler, SchedulerOutput}
use cache_flow.Scheduler.Api.{add_request, abort_request, schedule, free_finished_requests}
use cache_flow.Scheduler.Books.{block_size-same}
use cache_flow.Scheduler.Good.{queued, times-snoc}
use cache_flow.Scheduler.Total.{schedule_recompute}
use cache_flow.Scheduler.Requests.{
  unfinished-times, free_finished_requests-Frees, abort_request-Aborts,
}
use cache_flow.BatchManager.{update_after_decode}
use cache_flow.BatchManager.Update.{update_after_decode-sizes}

-- The scheduler after a call of `schedule`.
abbrev pub state_of : Option (Scheduler × SchedulerOutput) → Option Scheduler
state_of none = none
state_of (some r) = some (r.0)

-- Whether the groups still exist: the queues own them, and `free_finished_requests` deletes those
-- that it takes out.
unfoldable pub exist : List Ptr → Scheduler → Bool
exist [] s = true
exist (p ∷ ps) s = if queued p s == 0 then false else exist ps s

-- The token updates; a group that was deleted must not be used.
unfoldable pub decode : ℕ → List Ptr → List TokenId → Scheduler → Option Scheduler
unfolding update_after_decode exist
decode now ps toks s =
    if exist ps s
    then some (record s { memory = update_after_decode now ps toks s.memory })
    else none

-- One call, and the state it leaves: `none` is undefined behaviour. `p` is where the new group is
-- made. The caller decodes an output before it frees groups of it.
pub data Step (s : Scheduler) : Option Scheduler → Type 0 where
  adds :
      (p : Ptr) (rid : SeqId) (prompt : List TokenId) (sp : SamplingParams) (priority : ℤ) (now : ℕ)
      → Step s (some (add_request p (new_group rid prompt sp priority now) s))
  aborts : (rid : SeqId) → Step s (abort_request rid s)
  schedules : Step s (state_of (schedule s))
  decodes :
      (now : ℕ) (ps : List Ptr) (toks : List TokenId)
      → All (λ (p : Ptr). queued p s ≢ 0) ps
      → Step s (decode now ps toks s)
  frees : Step s (free_finished_requests s)

pub data Reaches (start : Scheduler) : Option Scheduler → Type 0 where
  here : Reaches start (some start)
  after :
      (s : Scheduler) (o : Option Scheduler) → Reaches start (some s) → Step s o → Reaches start o

-- The books are kept, the mode is RECOMPUTE, the limit of tokens is a `size_t`, blocks have a size,
-- and every queued group has a sequence.
pub record IsReady (s : Scheduler) : Type 0 where
  pub accounts : Accounts no_refs s.block_manager
  pub mode : s.config.preemption_mode ≡ PreemptionMode.recompute
  pub limit : s.config.max_num_batched_tokens < 2 ^ 64
  pub sized : s.block_manager.config.block_size ≢ 0
  pub filled : (p : Ptr) → queued p s ≢ 0 → length (s.memory p).sequences ≢ 0

abbrev pub IsSafe : Option Scheduler → Type 0
IsSafe none = ⊥
IsSafe (some s) = IsReady s

add_request-IsReady :
    (s : Scheduler) (p : Ptr) (g : SequenceGroup)
    → length g.sequences ≢ 0
    → IsReady s
    → IsReady (add_request p g s)
unfolding add_request
add_request-IsReady s p g h v = record {
  accounts = v.accounts;
  mode = v.mode;
  limit = v.limit;
  sized = v.sized;
  filled = λ q k. elim (Bool-cases (p == q)) [
    | inl e ↦ rw e h
    | inr e ↦ rw e (v.filled q (λ z. k (ground (arith, times-snoc q p s.waiting))))
  ];
}

queued-exist :
    (s : Scheduler) (ps : List Ptr) → All (λ (p : Ptr). queued p s ≢ 0) ps → exist ps s ≡ true
unfolding exist
queued-exist s [] h = refl
queued-exist s (p ∷ ps) h = elim (Bool-cases (queued p s == 0)) [
  | inl e ↦ absurd (h.0 (==-eq (queued p s) 0 e))
  | inr e ↦ rw (e, exist) (queued-exist s ps h.1)
]

Step-IsSafe : (s : Scheduler) (o : Option Scheduler) → IsReady s → Step s o → IsSafe o
unfolding decode new_group
Step-IsSafe s o v (adds p rid prompt sp priority now) =
    add_request-IsReady s p (new_group rid prompt sp priority now) (λ e. absurd (omega (arith, e)))
      v
Step-IsSafe s o v (aborts rid) =
    let r = abort_request-Aborts no_refs rid s v.accounts in
    subst IsSafe (sym r.runs) (record {
      accounts = r.accounts;
      mode = ap (λ c. c.preemption_mode) r.config ∙ v.mode;
      limit = omega (arith, ap (λ c. c.max_num_batched_tokens) r.config, v.limit);
      sized = block_size-same s.block_manager r.after.block_manager r.same v.sized;
      filled = λ p k e.
          v.filled p
            (λ z. k (
              omega
                (arith, ap (times p) r.waiting, ap (times p) r.running, ap (times p) r.swapped, z)))
            (sym (r.sizes p) ∙ e);
    })
Step-IsSafe s o v schedules =
    let (s', out, r, d, a, z, sizes) =
      schedule_recompute no_refs s v.accounts v.mode v.limit v.sized v.filled in
    subst (λ x. IsSafe (state_of x)) (sym r)
      (record {
        accounts = a;
        mode = ap (λ c. c.preemption_mode) d.config ∙ v.mode;
        limit = omega (arith, ap (λ c. c.max_num_batched_tokens) d.config, v.limit);
        sized = z;
        filled = λ p k e. v.filled p (λ z. k (d.queues p ∙ z)) (sym (sizes p) ∙ e);
      })
Step-IsSafe s o v (decodes now ps toks alive) = rw (queued-exist s ps alive) (record {
  accounts = v.accounts;
  mode = v.mode;
  limit = v.limit;
  sized = v.sized;
  filled = λ p k e. v.filled p k (sym (update_after_decode-sizes now ps toks s.memory p) ∙ e);
})
Step-IsSafe s o v frees =
    let r = free_finished_requests-Frees no_refs s v.accounts in
    subst IsSafe (sym r.runs) (record {
      accounts = r.accounts;
      mode = ap (λ c. c.preemption_mode) r.config ∙ v.mode;
      limit = omega (arith, ap (λ c. c.max_num_batched_tokens) r.config, v.limit);
      sized = block_size-same s.block_manager r.after.block_manager r.same v.sized;
      filled = λ p k e.
          v.filled p
            (λ z. k (
              omega (
                arith,
                ap (times p) r.waiting,
                ap (times p) r.running,
                ap (times p) r.swapped,
                unfinished-times s.memory p s.waiting,
                unfinished-times s.memory p s.running,
                z,
              )))
            (ap (λ m. length (m p).sequences) (sym r.memory) ∙ e);
    })

pub Reaches-IsSafe :
    (start : Scheduler) (o : Option Scheduler) → IsReady start → Reaches start o → IsSafe o
Reaches-IsSafe start o v here = v
Reaches-IsSafe start o v (after s _ r st) = Step-IsSafe s o (Reaches-IsSafe start (some s) v r) st
