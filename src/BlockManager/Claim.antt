-- ===== src/BlockManager/Claim.antt =====
-- `allocate_block` and `copy_on_write` keep the books.
use cache_flow.Base.{
  ℕ, ◌+◌, ◌≡◌, refl, List, [], ◌∷◌, Option, some, arith, Option-cases, List-cases, inl, inr, sym,
  ap, subst, ◌∙◌, ◌⊎◌, false,
}
use cache_flow.Base.Int.{pos, negsuc, ◌==ℤ◌, ==ℤ_refl}
use cache_flow.Base.Assoc.{lookup, IsMap, insert-IsMap}
use cache_flow.Common.{BlockId, SeqId, DeviceType, cpu, cuda, invalid_block, is_invalid}
use cache_flow.BlockManager.{
  PhysicalBlock, Arena, BlockManager, Owned, block_at, arena_for, set_arena, claim_block,
  reset_block, copy_fields, add_owned, claim, allocate_block,
}
use cache_flow.BlockManager.Refs.{count_map, count_map-add_owned, block_at-store}
use cache_flow.BlockManager.Balance.{
  Refs, at_device, more, set_arena-IsBalanced, claim_block-IsArena, free_block_at,
}
use cache_flow.BlockManager.Accounts.{
  Accounts, held, IsSame, IsSame-trans, set_arena-IsSame, IsBalanced-ext, set_map-IsBalanced,
}
use cache_flow.BlockManager.Release.{length-store}

pub add_owned-IsMap :
    (sid : SeqId) (o : Owned) (m : List (SeqId × List Owned)) → IsMap m → IsMap (add_owned sid o m)
unfolding add_owned
add_owned-IsMap sid o m u = elim (Option-cases (lookup sid m)) [
  | inl e ↦ rw (e, add_owned) (insert-IsMap sid _ m u)
  | inr (os, e) ↦ rw (e, add_owned) (insert-IsMap sid _ m u)
]

-- A reference of a sequence is one of all references.
pub more-add_owned :
    (ext : Refs) (m : List (SeqId × List Owned)) (d : DeviceType) (id : BlockId) (sid : SeqId)
    (e : DeviceType) (i : BlockId)
    → at_device d (more id) (λ e' i'. count_map e' i' m + ext e' i') e i
      ≡ count_map e i (add_owned sid (d, id) m) + ext e i
more-add_owned ext m cpu id sid cpu i = rw count_map-add_owned (ground arith)
more-add_owned ext m cpu id sid cuda i = rw count_map-add_owned (ground arith)
more-add_owned ext m cuda id sid cpu i = rw count_map-add_owned (ground arith)
more-add_owned ext m cuda id sid cuda i = rw count_map-add_owned (ground arith)

-- A call that gives a sequence a block of the free list, with its first reference.
pub record Allocates (ext : Refs) (sid : SeqId) (d : DeviceType)
    (write : PhysicalBlock → PhysicalBlock) (bm : BlockManager)
    (result : Option (BlockManager × BlockId)) : Type 0 where
  pub after : BlockManager
  pub index : ℕ
  pub old : PhysicalBlock
  pub runs : result ≡ some (after, pos index)
  pub accounts : Accounts ext after
  pub fresh : held ext bm d (pos index) ≡ 0
  pub was : block_at (arena_for d bm).blocks (pos index) ≡ some old
  pub block : block_at (arena_for d after).blocks (pos index) ≡ some (write old)
  pub others :
      (i : BlockId)
      → (i ==ℤ pos index) ≡ false
      → block_at (arena_for d after).blocks i ≡ block_at (arena_for d bm).blocks i
  pub map : after.seq_block_map ≡ add_owned sid (d, pos index) bm.seq_block_map
  pub shorter : (arena_for d bm).free_list ≡ pos index ∷ (arena_for d after).free_list
  pub same : IsSame bm after

-- The writes that `claim` is used with.
pub record IsClaim (write : PhysicalBlock → PhysicalBlock) : Type 0 where
  pub id : (b : PhysicalBlock) → (write b).block_id ≡ b.block_id
  pub device : (b : PhysicalBlock) → (write b).device ≡ b.device
  pub one : (b : PhysicalBlock) → (write b).ref_count ≡ pos 1

pub reset-IsClaim : IsClaim (reset_block (pos 1))
reset-IsClaim = record { id = λ b. refl; device = λ b. refl; one = λ b. refl }

pub copy-IsClaim : (src : PhysicalBlock) → IsClaim (copy_fields src)
copy-IsClaim src = record { id = λ b. refl; device = λ b. refl; one = λ b. refl }

pub claimed-arena :
    (d : DeviceType) (a : Arena) (bm : BlockManager) (m : List (SeqId × List Owned))
    → arena_for d (record (set_arena d a bm) { seq_block_map = m }) ≡ a
claimed-arena cpu a bm m = refl
claimed-arena cuda a bm m = refl

module _ (ext : Refs) (sid : SeqId) (d : DeviceType) (bm : BlockManager) (a : Accounts ext bm)
    (write : PhysicalBlock → PhysicalBlock) (w : IsClaim write) where
  claim_there :
      (n : ℕ) (rest : List BlockId) (b : PhysicalBlock)
      → (arena_for d bm).free_list ≡ pos n ∷ rest
      → block_at (arena_for d bm).blocks (pos n) ≡ some b
      → held ext bm d (pos n) ≡ 0
      → Allocates ext sid d write bm (claim sid d (pos n) rest write bm)
  unfolding claim
  claim_there n rest b popped e zero =
      let old = arena_for d bm in
      let arena = claim_block (pos n) write b rest old in
      let m = add_owned sid (d, pos n) bm.seq_block_map in
      let at = claimed-arena d arena bm m in
      record {
        after = record (set_arena d arena bm) { seq_block_map = m };
        index = n;
        old = b;
        runs = rw (e, claim);
        accounts = record {
          map = add_owned-IsMap sid (d, pos n) bm.seq_block_map a.map;
          balanced = IsBalanced-ext _ _ _ (more-add_owned ext bm.seq_block_map d (pos n) sid) (
              set_map-IsBalanced _ (set_arena d arena bm) m (
                set_arena-IsBalanced d (more (pos n)) (held ext bm) arena bm a.balanced (
                  claim_block-IsArena d _ _ (a.balanced d) (pos n) b e rest write popped (w.id b)
                    (w.device b) (w.one b))));
        };
        fresh = zero;
        was = e;
        block =
            ap (λ (q : Arena). block_at q.blocks (pos n)) at
            ∙ block_at-store old.blocks (pos n) (pos n) (write b) b e
            ∙ rw (==ℤ_refl (pos n));
        others = λ i ne.
            ap (λ (q : Arena). block_at q.blocks i) at
            ∙ block_at-store old.blocks i (pos n) (write b) b e
            ∙ rw ne;
        map = refl;
        shorter = popped ∙ ap (λ (q : Arena). pos n ∷ q.free_list) (sym at);
        same =
            IsSame-trans bm (set_arena d arena bm) _
              (set_arena-IsSame d arena bm (length-store old.blocks (pos n) (write b)))
              (record { config = refl; model_config = refl; gpu_total = refl; cpu_total = refl });
      }

  pub claim-Allocates :
      (id : BlockId) (rest : List BlockId)
      → (arena_for d bm).free_list ≡ id ∷ rest
      → (is_invalid id ≡ false) × Allocates ext sid d write bm (claim sid d id rest write bm)
  unfolding block_at
  claim-Allocates (negsuc n) rest popped =
      let (b, e, zero) =
        free_block_at d (held ext bm d) (arena_for d bm) (negsuc n) rest (a.balanced d) popped in
      absurd (cc e)
  claim-Allocates (pos n) rest popped =
      let (b, e, zero) =
        free_block_at d (held ext bm d) (arena_for d bm) (pos n) rest (a.balanced d) popped in
      (refl, claim_there n rest b popped e zero)

-- A block of the free list is given out, or the call reports that the list is empty and
-- changes nothing.
abbrev pub Allocation :
    Refs
    → SeqId
    → DeviceType
    → (PhysicalBlock → PhysicalBlock)
    → BlockManager
    → Option (BlockManager × BlockId)
    → Type 0
Allocation ext sid d write bm result =
    (((arena_for d bm).free_list ≡ []) × (result ≡ some (bm, invalid_block)))
    ⊎ Allocates ext sid d write bm result

pub set_arena_same :
    (d : DeviceType) (bm : BlockManager)
    → (arena_for d bm).free_list ≡ []
    → set_arena d (record (arena_for d bm) { free_list = [] }) bm ≡ bm
set_arena_same cpu bm h = ground arith
set_arena_same cuda bm h = ground arith

module _ (ext : Refs) (sid : SeqId) (d : DeviceType) (bm : BlockManager) (a : Accounts ext bm) where
  -- With the books kept, `allocate_block` either fails, only because the free list of the device
  -- is empty, and changes nothing, or gives a block of the manager that nobody held, reset and with
  -- one reference, which the sequence now owns; the books are kept.
  pub allocate_block-Allocation :
      Allocation ext sid d (reset_block (pos 1)) bm (allocate_block sid d bm)
  unfolding allocate_block
  allocate_block-Allocation = elim (List-cases (arena_for d bm).free_list) [
    | inl e ↦ inl (e, rw (e, allocate_block) (rw (set_arena_same d bm e)))
    | inr (id, rest, e) ↦
        let (valid, c) =
          claim-Allocates ext sid d bm a (reset_block (pos 1)) reset-IsClaim id rest e in
        inr (rw (e, valid, allocate_block) c)
  ]

  pub allocate_block-Accounts :
      (bm' : BlockManager) (id : BlockId)
      → allocate_block sid d bm ≡ some (bm', id)
      → Accounts ext bm'
  allocate_block-Accounts bm' id e = elim allocate_block-Allocation [
    | inl (_, r) ↦ let same : bm ≡ bm' = cc r in subst (Accounts ext) same a
    | inr c ↦ let same : c.after ≡ bm' = cc (c.runs) in subst (Accounts ext) same c.accounts
  ]
