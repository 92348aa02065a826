-- ===== src/Scheduler/Books.antt =====
-- The loops over sequences run on a manager whose books are kept, and keep them. Those that
-- `preempt` makes in the mode SWAP are not among them.
use cache_flow.Base.{
  ℕ, suc, ◌+◌, ◌/◌, ◌-◌, ◌==◌, ==-eq, Bool-cases, ltb, sym, ◌∙◌, ◌≢◌, ◌≡◌, refl, List, [], ◌∷◌,
  ◌++◌, Option, some, length, inl, inr, ap, Bool, true, false, if◌then◌else◌,
}
use cache_flow.Base.Int.{pos}
use cache_flow.Common.{BlockId, SeqId, cuda, invalid_block, running, preempted}
use cache_flow.Request.{SequenceData, total_len, seq_finished, num_blocks_needed}
use cache_flow.BlockManager.{BlockManager, can_allocate, allocate_block, free_blocks}
use cache_flow.BlockManager.Balance.{Refs}
use cache_flow.BlockManager.Accounts.{Accounts, IsSame, IsSame-refl, IsSame-trans}
use cache_flow.BlockManager.Claim.{allocate_block-Allocation}
use cache_flow.BlockManager.Release.{Keeps, free_blocks-Keeps}
use cache_flow.Scheduler.State.{BlockOp}
use cache_flow.Scheduler.Sequences.{
  can_append, lacking_blocks, grow_seqs, admit_seqs, swap_in_blocks, swap_in_seqs, recompute_seqs,
  free_seqs,
}
use cache_flow.Scheduler.Allocate.{allocate_blocks-AllocatesAll}

-- A loop that runs, keeps the books, and returns as many sequences as it was given.
pub record Rewrites (ext : Refs) (qs : List SequenceData) (bm : BlockManager)
    (result : Option (List SequenceData × BlockManager)) : Type 0 where
  pub after : BlockManager
  pub seqs : List SequenceData
  pub runs : result ≡ some (seqs, after)
  pub accounts : Accounts ext after
  pub same : IsSame bm after
  pub size : length seqs ≡ length qs

pub block_size-same :
    (bm bm' : BlockManager) → IsSame bm bm' → bm.config.block_size ≢ 0 → bm'.config.block_size ≢ 0
block_size-same bm bm' s z e = z (sym (ap (λ c. c.block_size) s.config) ∙ e)

-- With blocks of some size there is no division by zero.
pub num_blocks_needed-runs :
    (size : ℕ) (q : SequenceData) → size ≢ 0 → (n : ℕ) × (num_blocks_needed size q ≡ some n)
unfolding num_blocks_needed
num_blocks_needed-runs size q z = elim (Bool-cases (size == 0)) [
  | inl e ↦ absurd (z (==-eq size 0 e))
  | inr e ↦ ((total_len q + size - 1) / size, rw (e, num_blocks_needed) refl)
]

lacking_blocks-runs :
    (size : ℕ) (q : SequenceData) → size ≢ 0 → (n : ℕ) × (lacking_blocks size q ≡ some n)
unfolding lacking_blocks
lacking_blocks-runs size q z =
    let (n, r) = num_blocks_needed-runs size q z in
    elim (Bool-cases (seq_finished q)) [
      | inl e ↦ (0, rw (e, lacking_blocks) refl)
      | inr e ↦ (n - length q.logical_blocks, rw (e, lacking_blocks) (rw r refl))
    ]

pub can_append-runs :
    (size : ℕ) (bm : BlockManager) (qs : List SequenceData)
    → size ≢ 0
    → (b : Bool) × (can_append size bm qs ≡ some b)
unfolding can_append
can_append-runs size bm [] z = (true, refl)
can_append-runs size bm (q ∷ qs) z =
    let (b, rest) = can_append-runs size bm qs z in
    let (n, r) = num_blocks_needed-runs size q z in
    elim (Bool-cases (seq_finished q)) [
      | inl e ↦ (b, rw (e, can_append) rest)
      | inr e ↦ elim (Bool-cases (ltb (length q.logical_blocks) n)) [
        | inl lacks ↦ elim (Bool-cases (can_allocate (n - length q.logical_blocks) bm)) [
          | inl c ↦ (b, rw (e, can_append) (rw r (rw lacks (rw c rest))))
          | inr c ↦ (false, rw (e, can_append) (rw r (rw lacks (rw c refl))))
        ]
        | inr has ↦ (b, rw (e, can_append) (rw r (rw has rest)))
      ]
    ]

module _ (ext : Refs) where
  no_change : (bm : BlockManager) → Accounts ext bm → Rewrites ext [] bm (some ([], bm))
  no_change bm a = record {
    after = bm;
    seqs = [];
    runs = refl;
    accounts = a;
    same = IsSame-refl bm;
    size = refl;
  }

  pub grow_seqs-Rewrites :
      (qs : List SequenceData) (bm : BlockManager)
      → bm.config.block_size ≢ 0
      → Accounts ext bm
      → Rewrites ext qs bm (grow_seqs qs bm)
  unfolding grow_seqs
  grow_seqs-Rewrites [] bm z a = no_change bm a
  grow_seqs-Rewrites (q ∷ qs) bm z a =
      let (lacking, known) = lacking_blocks-runs bm.config.block_size q z in
      let m = allocate_blocks-AllocatesAll ext lacking q.seq_id q.logical_blocks bm a in
      let rest = grow_seqs-Rewrites qs m.after (block_size-same bm m.after m.same z) m.accounts in
      record {
        after = rest.after;
        seqs = record q { logical_blocks = q.logical_blocks ++ m.new } ∷ rest.seqs;
        runs = rw (known, m.runs, grow_seqs) (rw (rest.runs));
        accounts = rest.accounts;
        same = IsSame-trans bm m.after rest.after m.same rest.same;
        size = ap suc rest.size;
      }

  pub admit_seqs-Rewrites :
      (n : ℕ) (qs : List SequenceData) (bm : BlockManager)
      → Accounts ext bm
      → Rewrites ext qs bm (admit_seqs n qs bm)
  unfolding admit_seqs
  admit_seqs-Rewrites n [] bm a = no_change bm a
  admit_seqs-Rewrites n (q ∷ qs) bm a =
      let m = allocate_blocks-AllocatesAll ext n q.seq_id q.logical_blocks bm a in
      let rest = admit_seqs-Rewrites n qs m.after m.accounts in
      record {
        after = rest.after;
        seqs =
            record q { status = running; logical_blocks = q.logical_blocks ++ m.new } ∷ rest.seqs;
        runs = rw (m.runs, admit_seqs) (rw (rest.runs));
        accounts = rest.accounts;
        same = IsSame-trans bm m.after rest.after m.same rest.same;
        size = ap suc rest.size;
      }

  -- Freeing the blocks of a sequence, unless it is finished.
  pub free_unless :
      (b : Bool) (sid : SeqId) (bm : BlockManager)
      → Accounts ext bm
      → Keeps ext bm (if b then some bm else free_blocks sid bm)
  free_unless true sid bm a = record {
    after = bm;
    runs = refl;
    accounts = a;
    same = IsSame-refl bm;
  }
  free_unless false sid bm a = free_blocks-Keeps ext bm a sid

  pub recompute_seqs-Rewrites :
      (qs : List SequenceData) (bm : BlockManager)
      → Accounts ext bm
      → Rewrites ext qs bm (recompute_seqs qs bm)
  unfolding recompute_seqs
  recompute_seqs-Rewrites [] bm a = no_change bm a
  recompute_seqs-Rewrites (q ∷ qs) bm a =
      let m = free_unless (seq_finished q) q.seq_id bm a in
      let rest = recompute_seqs-Rewrites qs m.after m.accounts in
      record {
        after = rest.after;
        seqs =
            (if seq_finished q
              then q
              else record q { status = preempted; logical_blocks = []; output_tokens = [] })
            ∷ rest.seqs;
        runs = rw (m.runs, recompute_seqs) (rw (rest.runs));
        accounts = rest.accounts;
        same = IsSame-trans bm m.after rest.after m.same rest.same;
        size = ap suc rest.size;
      }

  pub free_seqs-Keeps :
      (qs : List SequenceData) (bm : BlockManager)
      → Accounts ext bm
      → Keeps ext bm (free_seqs qs bm)
  unfolding free_seqs
  free_seqs-Keeps [] bm a = record { after = bm; runs = refl; accounts = a; same = IsSame-refl bm }
  free_seqs-Keeps (q ∷ qs) bm a =
      let m = free_blocks-Keeps ext bm a q.seq_id in
      let rest = free_seqs-Keeps qs m.after m.accounts in
      record {
        after = rest.after;
        runs = rw (m.runs, free_seqs) rest.runs;
        accounts = rest.accounts;
        same = IsSame-trans bm m.after rest.after m.same rest.same;
      }

-- The same of a loop that logs swaps.
pub record Swaps (ext : Refs) (n : ℕ) {A : Type 0} (bm : BlockManager)
    (result : Option (List A × BlockManager × List BlockOp)) : Type 0 where
  pub after : BlockManager
  pub items : List A
  pub ops : List BlockOp
  pub runs : result ≡ some (items, after, ops)
  pub accounts : Accounts ext after
  pub same : IsSame bm after
  pub size : length items ≡ n

module _ (ext : Refs) where
  -- A sequence that is swapped in gets a new block for each of its blocks, or `INVALID_BLOCK`.
  take_block :
      (sid : SeqId) (bm : BlockManager)
      → Accounts ext bm
      → (bm' : BlockManager) × (id : BlockId) × (allocate_block sid cuda bm ≡ some (bm', id))
        × Accounts ext bm'
        × IsSame bm bm'
  take_block sid bm a = elim (allocate_block-Allocation ext sid cuda bm a) [
    | inl (_, r) ↦ (bm, invalid_block, r, a, IsSame-refl bm)
    | inr c ↦ (c.after, pos c.index, c.runs, c.accounts, c.same)
  ]

  swap_in_blocks-Swaps :
      (sid : SeqId) (ids : List BlockId) (bm : BlockManager) (ops : List BlockOp)
      → Accounts ext bm
      → Swaps ext (length ids) bm (swap_in_blocks sid ids bm ops)
  unfolding swap_in_blocks
  swap_in_blocks-Swaps sid [] bm ops a = record {
    after = bm;
    items = [];
    ops = ops;
    runs = refl;
    accounts = a;
    same = IsSame-refl bm;
    size = refl;
  }
  swap_in_blocks-Swaps sid (id ∷ ids) bm ops a =
      let (bm', new_id, r, a', s) = take_block sid bm a in
      let rest =
        swap_in_blocks-Swaps sid ids bm'
          (ops ++ record { seq_id = sid; src = id; dst = new_id } ∷ []) a' in
      record {
        after = rest.after;
        items = new_id ∷ rest.items;
        ops = rest.ops;
        runs = rw (r, swap_in_blocks) (rw (rest.runs));
        accounts = rest.accounts;
        same = IsSame-trans bm bm' rest.after s rest.same;
        size = ap suc rest.size;
      }

  pub swap_in_seqs-Swaps :
      (qs : List SequenceData) (bm : BlockManager) (ops : List BlockOp)
      → Accounts ext bm
      → Swaps ext (length qs) bm (swap_in_seqs qs bm ops)
  unfolding swap_in_seqs
  swap_in_seqs-Swaps [] bm ops a = record {
    after = bm;
    items = [];
    ops = ops;
    runs = refl;
    accounts = a;
    same = IsSame-refl bm;
    size = refl;
  }
  swap_in_seqs-Swaps (q ∷ qs) bm ops a =
      let ids : List BlockId = if seq_finished q then [] else q.logical_blocks in
      let m = swap_in_blocks-Swaps q.seq_id ids bm ops a in
      let rest = swap_in_seqs-Swaps qs m.after m.ops m.accounts in
      record {
        after = rest.after;
        items =
            (if seq_finished q then q else record q { status = running; logical_blocks = m.items })
            ∷ rest.items;
        ops = rest.ops;
        runs = rw (m.runs, swap_in_seqs) (rw (rest.runs));
        accounts = rest.accounts;
        same = IsSame-trans bm m.after rest.after m.same rest.same;
        size = ap suc rest.size;
      }
