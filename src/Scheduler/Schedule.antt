-- ===== src/Scheduler/Schedule.antt =====
-- A call of `schedule` as a whole.
use cache_flow.Base.{
  ◌+◌, ◌^◌, ◌<◌, ◌≤◌, ◌≡◌, refl, List, Option, none, some, arith, length, ◌==◌, ◌||◌, ◌>>=◌,
  Bool-cases, inl, inr,
}
use cache_flow.Common.{SchedulePolicy}
use cache_flow.Base.Count.{times}
use cache_flow.Scheduler.State.{Ptr, Memory, Scheduler, SchedulerOutput, Phase}
use cache_flow.Scheduler.Phases.{schedule_decodes, schedule_prefills, try_swap_in}
use cache_flow.Scheduler.Api.{
  is_nil, sort_by, sort_waiting_queue, prefills_if_waiting, swap_in_if_budget, start_phase,
  run_phases, finish, schedule, shorter, more_urgent,
}
use cache_flow.Scheduler.Good.{queued, Good, Returns}
use cache_flow.Scheduler.Rounds.{decode_loop-Good, prefill_loop-Good, swap_in_loop-Good}
use cache_flow.Scheduler.Sort.{times-stable_sort}

pub times-sort_by :
    (x : Ptr) (policy : SchedulePolicy) (mem : Memory) (ps : List Ptr)
    → times x (sort_by policy mem ps) ≡ times x ps
unfolding sort_by
times-sort_by x SchedulePolicy.fcfs mem ps = refl
times-sort_by x SchedulePolicy.shortest_remaining mem ps = times-stable_sort (shorter mem) x ps
times-sort_by x SchedulePolicy.priority mem ps = times-stable_sort (more_urgent mem) x ps

pub start_phase-Good :
    (s : Scheduler) → s.config.max_num_batched_tokens < 2 ^ 64 → Good s (start_phase s)
unfolding start_phase
start_phase-Good s limit = record {
  config = refl;
  queues = λ p. refl;
  tokens = (omega arith, limit);
  seqs = omega arith;
}

pub schedule_decodes-Good :
    (s : Scheduler) (ph : Phase) → Good s ph → Returns (Good s) (schedule_decodes ph)
unfolding schedule_decodes
schedule_decodes-Good s ph g = decode_loop-Good s ph.sched.running ph g

pub prefills-Good :
    (s : Scheduler) (ph : Phase) → Good s ph → Returns (Good s) (prefills_if_waiting ph)
unfolding prefills_if_waiting sort_waiting_queue schedule_prefills
prefills-Good s ph g = elim (Bool-cases (is_nil ph.sched.waiting)) [
  | inl e ↦ rw (e, prefills_if_waiting) g
  | inr e ↦
      rw (e, prefills_if_waiting)
        (prefill_loop-Good s _ _ refl (record {
          config = g.config;
          queues = λ p. omega (
            arith,
            g.queues p,
            times-sort_by p ph.sched.config.policy ph.sched.memory ph.sched.waiting,
          );
          tokens = g.tokens;
          seqs = g.seqs;
        }))
]

pub swap_in-Good :
    (s : Scheduler) (ph : Phase) → Good s ph → Returns (Good s) (swap_in_if_budget ph)
unfolding swap_in_if_budget try_swap_in
swap_in-Good s ph g =
    elim (Bool-cases (is_nil ph.sched.swapped || ph.budget_tokens == 0 || ph.budget_seqs == 0)) [
      | inl e ↦ rw (e, swap_in_if_budget) g
      | inr e ↦ rw (e, swap_in_if_budget) (swap_in_loop-Good s _ ph refl g)
    ]

-- What a call of `schedule` that returns promises.
pub record Scheduled (s s' : Scheduler) (out : SchedulerOutput) : Type 0 where
  pub config : s'.config ≡ s.config
  pub queues : (p : Ptr) → queued p s' ≡ queued p s
  pub tokens : out.num_batched_tokens ≤ s.config.max_num_batched_tokens
  pub seqs : length out.scheduled_groups + length out.swapped_in_groups ≤ s.config.max_num_seqs

abbrev pub Promises : Scheduler → Option (Scheduler × SchedulerOutput) → Type 0
Promises s none = Unit
Promises s (some (s', out)) = Scheduled s s' out

pub bind-Returns :
    (P Q : Phase → Type 0) (o : Option Phase) (k : Phase → Option Phase)
    → Returns P o
    → ((ph : Phase) → P ph → Returns Q (k ph))
    → Returns Q (o >>= k)
bind-Returns P Q none k r h = tt
bind-Returns P Q (some ph) k r h = h ph r

pub run_phases-Good : (s : Scheduler) (ph : Phase) → Good s ph → Returns (Good s) (run_phases ph)
unfolding run_phases
run_phases-Good s ph g =
    bind-Returns (Good s) (Good s) (schedule_decodes ph) _ (schedule_decodes-Good s ph g)
      (λ decoded h.
        bind-Returns (Good s) (Good s) (prefills_if_waiting decoded) _ (prefills-Good s decoded h)
          (λ filled k. swap_in-Good s filled k))

pub finish-Promises :
    (s : Scheduler) (o : Option Phase) → Returns (Good s) o → Promises s (finish s o)
finish-Promises s none r = tt
finish-Promises s (some ph) r = record {
  config = r.config;
  queues = r.queues;
  tokens = omega (arith, r.tokens.0, r.tokens.1);
  seqs = omega (arith, r.seqs);
}

-- If the limit of tokens is a `size_t`, a call of `schedule` that returns keeps every group in the
-- queues, as often as it was there, reports no more batched tokens than the limit, in arithmetic
-- that wraps around as that of the code does, and schedules or swaps in no more groups than the
-- limit.
pub schedule-Promises :
    (s : Scheduler) → s.config.max_num_batched_tokens < 2 ^ 64 → Promises s (schedule s)
unfolding schedule
schedule-Promises s limit = finish-Promises s _ (run_phases-Good s _ (start_phase-Good s limit))
