-- ===== src/Scheduler/Total.antt =====
-- `schedule` in the mode RECOMPUTE, from its first line to its last.
use cache_flow.Base.{
  ◌^◌, ◌<◌, ◌≡◌, ◌≢◌, refl, Option, none, some, arith, length, ◌==◌, ◌||◌, Bool-cases, inl, inr,
  ◌>>=◌,
}
use cache_flow.Common.{PreemptionMode}
use cache_flow.BlockManager.Balance.{Refs}
use cache_flow.BlockManager.Accounts.{Accounts}
use cache_flow.Scheduler.State.{Ptr, Scheduler, SchedulerOutput, Phase}
use cache_flow.Scheduler.Phases.{schedule_decodes, schedule_prefills, try_swap_in}
use cache_flow.Scheduler.Api.{
  is_nil, sort_waiting_queue, prefills_if_waiting, swap_in_if_budget, start_phase, run_phases,
  finish, schedule,
}
use cache_flow.Scheduler.Good.{queued, Good, Returns}
use cache_flow.Scheduler.Schedule.{
  Scheduled, start_phase-Good, schedule_decodes-Good, prefills-Good, run_phases-Good, times-sort_by,
}
use cache_flow.Scheduler.Recompute.{
  Sound, Runs, decode_loop-Runs, prefill_loop-Runs, swap_in_loop-Runs,
}

module _ (ext : Refs) (s : Scheduler) (a : Accounts ext s.block_manager)
    (mode : s.config.preemption_mode ≡ PreemptionMode.recompute)
    (limit : s.config.max_num_batched_tokens < 2 ^ 64)
    (sized : s.block_manager.config.block_size ≢ 0)
    (filled : (p : Ptr) → queued p s ≢ 0 → length (s.memory p).sequences ≢ 0) where
  start_phase-Sound : Sound ext s (start_phase s)
  unfolding start_phase
  start_phase-Sound = record { accounts = a; mode = mode; sized = sized; sizes = λ p. refl }

  decodes-Runs :
      (ph : Phase) → Good s ph → Sound ext s ph → Runs (Sound ext s) (schedule_decodes ph)
  unfolding schedule_decodes
  decodes-Runs ph g v = decode_loop-Runs ext s ph.sched.running ph g v

  prefills-Runs :
      (ph : Phase) → Good s ph → Sound ext s ph → Runs (Sound ext s) (prefills_if_waiting ph)
  unfolding prefills_if_waiting sort_waiting_queue schedule_prefills
  prefills-Runs ph g v = elim (Bool-cases (is_nil ph.sched.waiting)) [
    | inl e ↦ rw (e, prefills_if_waiting) v
    | inr e ↦
        rw (e, prefills_if_waiting)
          (prefill_loop-Runs ext s filled _ _ refl
            (record {
              config = g.config;
              queues = λ p. omega (
                arith,
                g.queues p,
                times-sort_by p ph.sched.config.policy ph.sched.memory ph.sched.waiting,
              );
              tokens = g.tokens;
              seqs = g.seqs;
            })
            (record { accounts = v.accounts; mode = v.mode; sized = v.sized; sizes = v.sizes }))
  ]

  swap_in-Runs :
      (ph : Phase) → Good s ph → Sound ext s ph → Runs (Sound ext s) (swap_in_if_budget ph)
  unfolding swap_in_if_budget try_swap_in
  swap_in-Runs ph g v =
      elim (Bool-cases (is_nil ph.sched.swapped || ph.budget_tokens == 0 || ph.budget_seqs == 0)) [
        | inl e ↦ rw (e, swap_in_if_budget) v
        | inr e ↦ rw (e, swap_in_if_budget) (swap_in_loop-Runs ext s _ ph refl g v)
      ]

  bind-Runs :
      (o : Option Phase) (k : Phase → Option Phase)
      → Returns (Good s) o
      → Runs (Sound ext s) o
      → ((ph : Phase) → Good s ph → Sound ext s ph → Runs (Sound ext s) (k ph))
      → Runs (Sound ext s) (o >>= k)
  bind-Runs none k g r h = r
  bind-Runs (some ph) k g r h = h ph g r

  run_phases-Runs : (ph : Phase) → Good s ph → Sound ext s ph → Runs (Sound ext s) (run_phases ph)
  unfolding run_phases
  run_phases-Runs ph g v =
      bind-Runs (schedule_decodes ph) _ (schedule_decodes-Good s ph g) (decodes-Runs ph g v)
        (λ decoded g' v'.
          bind-Runs (prefills_if_waiting decoded) _ (prefills-Good s decoded g')
            (prefills-Runs decoded g' v') (λ filled g'' v''. swap_in-Runs filled g'' v''))

  finished :
      (o : Option Phase)
      → Returns (Good s) o
      → Runs (Sound ext s) o
      → (s' : Scheduler) × (out : SchedulerOutput) × (finish s o ≡ some (s', out))
        × Scheduled s s' out
        × Accounts ext s'.block_manager
        × (s'.block_manager.config.block_size ≢ 0)
        × ((p : Ptr) → length (s'.memory p).sequences ≡ length (s.memory p).sequences)
  finished none g r = absurd r
  finished (some ph) g r = (
    ph.sched,
    _,
    refl,
    record {
      config = g.config;
      queues = g.queues;
      tokens = omega (arith, g.tokens.0, g.tokens.1);
      seqs = omega (arith, g.seqs);
    },
    r.accounts,
    r.sized,
    r.sizes,
  )

  -- In the mode RECOMPUTE, if the books of the block manager are kept, blocks have a size, the
  -- limit of tokens is a `size_t`, and every queued group has a sequence, `schedule` returns: no
  -- block id is out of range and nothing is divided by zero. The queues, the limits, the books, the
  -- size of blocks and the number of sequences of every group are kept.
  pub schedule_recompute :
      (s' : Scheduler) × (out : SchedulerOutput) × (schedule s ≡ some (s', out))
      × Scheduled s s' out
      × Accounts ext s'.block_manager
      × (s'.block_manager.config.block_size ≢ 0)
      × ((p : Ptr) → length (s'.memory p).sequences ≡ length (s.memory p).sequences)
  unfolding schedule
  schedule_recompute =
      let g = start_phase-Good s limit in
      finished _ (run_phases-Good s _ g) (run_phases-Runs _ g start_phase-Sound)
