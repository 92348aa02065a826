-- ===== src/Scheduler/Requests.antt =====
-- `add_request`, `abort_request` and `free_finished_requests` on a scheduler whose books are kept.
use cache_flow.Base.{
  suc, ◌≤◌, ◌≡◌, refl, List, [], ◌∷◌, Option, none, some, arith, length, true, if◌then◌else◌, ◌==◌,
  Bool-cases, Option-cases, inl, inr, ◌∙◌, ap, subst, ==-eq, ==_refl,
}
use cache_flow.Base.Assoc.{lookup, erase, lookup-erase}
use cache_flow.Base.Count.{times}
use cache_flow.Common.{SeqId, finished_abort}
use cache_flow.Request.{SequenceData, seq_finished, all_finished, all_seqs_finished}
use cache_flow.BlockManager.{BlockManager}
use cache_flow.BlockManager.Balance.{Refs}
use cache_flow.BlockManager.Accounts.{Accounts, IsSame, IsSame-refl, IsSame-trans}
use cache_flow.Scheduler.State.{Ptr, Memory, Scheduler, write}
use cache_flow.Scheduler.Sequences.{abort_seqs}
use cache_flow.Scheduler.Api.{abort_request, remove_finished, free_finished_requests}
use cache_flow.Scheduler.Books.{free_unless, free_seqs-Keeps}

-- The groups of a queue that have a sequence to run.
pub unfinished : Memory → List Ptr → List Ptr
unfinished mem [] = []
unfinished mem (p ∷ ps) =
    let rest = unfinished mem ps in if all_finished (mem p) then rest else p ∷ rest

pub unfinished-times :
    (mem : Memory) (x : Ptr) (ps : List Ptr) → times x (unfinished mem ps) ≤ times x ps
unfolding times unfinished
unfinished-times mem x [] = omega arith
unfinished-times mem x (p ∷ ps) = ground (arith, unfinished-times mem x ps)

-- What `remove_finished` comes to.
record Removes (ext : Refs) (left : List Ptr) (bm : BlockManager)
    (result : Option (List Ptr × BlockManager × List (SeqId × Ptr))) : Type 0 where
  after : BlockManager
  left_map : List (SeqId × Ptr)
  runs : result ≡ some (left, after, left_map)
  accounts : Accounts ext after
  same : IsSame bm after

module _ (ext : Refs) (mem : Memory) where
  remove_finished-Removes :
      (ps : List Ptr) (bm : BlockManager) (m : List (SeqId × Ptr))
      → Accounts ext bm
      → Removes ext (unfinished mem ps) bm (remove_finished mem ps bm m)
  unfolding remove_finished unfinished
  remove_finished-Removes [] bm m a = record {
    after = bm;
    left_map = m;
    runs = refl;
    accounts = a;
    same = IsSame-refl bm;
  }
  remove_finished-Removes (p ∷ ps) bm m a = elim (Bool-cases (all_finished (mem p))) [
    | inl e ↦
        let k = free_seqs-Keeps ext (mem p).sequences bm a in
        let rest = remove_finished-Removes ps k.after (erase (mem p).request_id m) k.accounts in
        record {
          after = rest.after;
          left_map = rest.left_map;
          runs = rw (e, k.runs, remove_finished) (rest.runs);
          accounts = rest.accounts;
          same = IsSame-trans bm k.after rest.after k.same rest.same;
        }
    | inr e ↦
        let rest = remove_finished-Removes ps bm m a in
        record {
          after = rest.after;
          left_map = rest.left_map;
          runs = rw (e, rest.runs, remove_finished);
          accounts = rest.accounts;
          same = rest.same;
        }
  ]

-- A call that returns, and what is left of the queues and the books.
pub record Frees (ext : Refs) (s : Scheduler) (result : Option Scheduler) : Type 0 where
  pub after : Scheduler
  pub runs : result ≡ some after
  pub running : after.running ≡ unfinished s.memory s.running
  pub waiting : after.waiting ≡ unfinished s.memory s.waiting
  pub swapped : after.swapped ≡ s.swapped
  pub memory : after.memory ≡ s.memory
  pub config : after.config ≡ s.config
  pub same : IsSame s.block_manager after.block_manager
  pub accounts : Accounts ext after.block_manager

-- `free_finished_requests` returns if the books are kept: it takes out of the running and the
-- waiting queue the groups whose sequences are all finished, and no other, and keeps the books.
pub free_finished_requests-Frees :
    (ext : Refs) (s : Scheduler)
    → Accounts ext s.block_manager
    → Frees ext s (free_finished_requests s)
unfolding free_finished_requests
free_finished_requests-Frees ext s a =
    let r = remove_finished-Removes ext s.memory s.running s.block_manager s.request_map a in
    let w = remove_finished-Removes ext s.memory s.waiting r.after r.left_map r.accounts in
    record {
      after = record s {
        running = unfinished s.memory s.running;
        waiting = unfinished s.memory s.waiting;
        block_manager = w.after;
        request_map = w.left_map;
      };
      runs = rw (r.runs, free_finished_requests) (rw (w.runs));
      running = refl;
      waiting = refl;
      swapped = refl;
      memory = refl;
      config = refl;
      same = IsSame-trans s.block_manager r.after w.after r.same w.same;
      accounts = w.accounts;
    }

-- The sequences of an aborted group.
pub aborted : List SequenceData → List SequenceData
aborted [] = []
aborted (q ∷ qs) = (if seq_finished q then q else record q { status = finished_abort }) ∷ aborted qs

aborted-length : (qs : List SequenceData) → length (aborted qs) ≡ length qs
unfolding aborted
aborted-length [] = refl
aborted-length (q ∷ qs) = ap suc (aborted-length qs)

aborted-finished : (qs : List SequenceData) → all_seqs_finished (aborted qs) ≡ true
unfolding aborted all_seqs_finished
aborted-finished [] = refl
aborted-finished (q ∷ qs) = elim (Bool-cases (seq_finished q)) [
  | inl e ↦ rw (e, aborted) (rw e (aborted-finished qs))
  | inr e ↦ rw (e, aborted) (aborted-finished qs)
]

abort_seqs-aborted :
    (ext : Refs) (qs : List SequenceData) (bm : BlockManager)
    → Accounts ext bm
    → (bm' : BlockManager) × (abort_seqs qs bm ≡ some (aborted qs, bm'))
      × Accounts ext bm'
      × IsSame bm bm'
unfolding abort_seqs aborted
abort_seqs-aborted ext [] bm a = (bm, refl, a, IsSame-refl bm)
abort_seqs-aborted ext (q ∷ qs) bm a =
    let m = free_unless ext (seq_finished q) q.seq_id bm a in
    let (bm', r, a', same) = abort_seqs-aborted ext qs m.after m.accounts in
    (bm', rw (m.runs, abort_seqs) (rw r), a', IsSame-trans bm m.after bm' m.same same)

-- The group at `p` aborted, and no other.
abbrev pub abort_at : Ptr → Memory → Memory
abort_at p mem = write mem p (record (mem p) { sequences = aborted (mem p).sequences })

-- A call of `abort_request` that returns: the queues are as they were.
pub record Aborts (ext : Refs) (rid : SeqId) (s : Scheduler) (result : Option Scheduler)
    : Type 0 where
  pub after : Scheduler
  pub runs : result ≡ some after
  pub running : after.running ≡ s.running
  pub waiting : after.waiting ≡ s.waiting
  pub swapped : after.swapped ≡ s.swapped
  pub config : after.config ≡ s.config
  pub same : IsSame s.block_manager after.block_manager
  pub accounts : Accounts ext after.block_manager
  pub sizes : (p : Ptr) → length (after.memory p).sequences ≡ length (s.memory p).sequences
  pub finished :
      (p : Ptr) → lookup rid s.request_map ≡ some p → all_finished (after.memory p) ≡ true
  pub unknown : lookup rid after.request_map ≡ none

aborts_at : (mem : Memory) (p : Ptr) → all_finished (abort_at p mem p) ≡ true
aborts_at mem p = rw (==_refl p) (aborted-finished (mem p).sequences)

write-sizes :
    (mem : Memory) (p q : Ptr) → length (abort_at p mem q).sequences ≡ length (mem q).sequences
write-sizes mem p q = elim (Bool-cases (p == q)) [
  | inl e ↦
      rw e (aborted-length (mem p).sequences ∙ ap (λ r. length (mem r).sequences) (==-eq p q e))
  | inr e ↦ rw e
]

-- `abort_request` returns if the books are kept: the group of the id, if there is one, has all
-- its sequences finished, its id is unknown from then on, and the queues and the books are kept.
pub abort_request-Aborts :
    (ext : Refs) (rid : SeqId) (s : Scheduler)
    → Accounts ext s.block_manager
    → Aborts ext rid s (abort_request rid s)
unfolding abort_request
abort_request-Aborts ext rid s a = elim (Option-cases (lookup rid s.request_map)) [
  | inl e ↦ record {
    after = s;
    runs = rw (e, abort_request);
    running = refl;
    waiting = refl;
    swapped = refl;
    config = refl;
    same = IsSame-refl s.block_manager;
    accounts = a;
    sizes = λ p. refl;
    finished = λ p h. absurd (cc (e, h));
    unknown = e;
  }
  | inr (p, e) ↦
      let (bm', r, a', same) = abort_seqs-aborted ext (s.memory p).sequences s.block_manager a in
      record {
        after = record s {
          memory = abort_at p s.memory;
          block_manager = bm';
          request_map = erase rid s.request_map;
        };
        runs = rw (e, abort_request) (rw r);
        running = refl;
        waiting = refl;
        swapped = refl;
        config = refl;
        same = same;
        accounts = a';
        sizes = write-sizes s.memory p;
        finished = λ q h.
            subst (λ (r : Ptr). all_finished (abort_at p s.memory r) ≡ true) (cc (e, h))
              (aborts_at s.memory p);
        unknown = lookup-erase rid rid s.request_map ∙ ground arith;
      }
]
