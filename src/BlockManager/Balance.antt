-- ===== src/BlockManager/Balance.antt =====
-- The accounting of references: a block's count, its place in the free list and the references
-- that are held agree.
use cache_flow.Base.{
  ℕ, zero, suc, ◌-◌, ◌≡◌, List, ◌∷◌, Option, none, some, arith, if◌then◌else◌, Bool-cases, inl, inr,
  Option-cases, sym, ap, subst, false,
}
use cache_flow.Base.Int.{pos, ◌==ℤ◌, ==ℤ-eq, ==ℤ_refl, predℤ, succℤ}
use cache_flow.Common.{BlockId, DeviceType, cpu, cuda, same_device}
use cache_flow.BlockManager.{
  PhysicalBlock, Arena, BlockManager, block_at, store, arena_for, set_arena, claim_block,
  release_block, unref_block, set_refs, push_free, reset_block,
}
use cache_flow.BlockManager.Refs.{count, block_at-store}

-- A block without references is in the free list once, another is not in it.
abbrev pub times_free : ℕ → ℕ
times_free zero = 1
times_free (suc r) = 0

-- What `m`, the block of an id, `c`, how often the free list names it, and `r`, the references
-- that are held to it, have to do with one another. An id that has no block is free nowhere
-- and held by nobody.
abbrev pub Cell : DeviceType → BlockId → Option PhysicalBlock → ℕ → ℕ → Type 0
Cell d id none c r = (c ≡ 0) × (r ≡ 0)
Cell d id (some b) c r =
    (b.block_id ≡ id) × (b.device ≡ d) × (b.ref_count ≡ pos r) × (c ≡ times_free r)

abbrev pub IsArena : DeviceType → (BlockId → ℕ) → Arena → Type 0
IsArena d r a = (id : BlockId) → Cell d id (block_at a.blocks id) (count id a.free_list) (r id)

abbrev pub Refs : Type 0
Refs = DeviceType → BlockId → ℕ

abbrev pub IsBalanced : Refs → BlockManager → Type 0
IsBalanced refs bm = (d : DeviceType) → IsArena d (refs d) (arena_for d bm)

-- One reference more, and one less, to the block `id`.
abbrev pub more : BlockId → (BlockId → ℕ) → BlockId → ℕ
more id r i = if i ==ℤ id then suc (r i) else r i

abbrev pub less : BlockId → (BlockId → ℕ) → BlockId → ℕ
less id r i = if i ==ℤ id then r i - 1 else r i

abbrev pub at_device : DeviceType → ((BlockId → ℕ) → BlockId → ℕ) → Refs → Refs
at_device d f refs d' = if same_device d d' then f (refs d') else refs d'

pub set_arena-IsBalanced :
    (d : DeviceType) (f : (BlockId → ℕ) → BlockId → ℕ) (refs : Refs) (a : Arena) (bm : BlockManager)
    → IsBalanced refs bm
    → IsArena d (f (refs d)) a
    → IsBalanced (at_device d f refs) (set_arena d a bm)
set_arena-IsBalanced cpu f refs a bm v w cpu = w
set_arena-IsBalanced cpu f refs a bm v w cuda = v cuda
set_arena-IsBalanced cuda f refs a bm v w cpu = v cpu
set_arena-IsBalanced cuda f refs a bm v w cuda = w

-- A write to one block that keeps its cell, and every other id's entries.
written-IsArena :
    (d : DeviceType) (r r' : BlockId → ℕ) (a : Arena) (id : BlockId) (b b' : PhysicalBlock)
    (fl : List BlockId)
    → IsArena d r a
    → block_at a.blocks id ≡ some b
    → Cell d id (some b') (count id fl) (r' id)
    → ((i : BlockId) → (i ==ℤ id) ≡ false → (count i fl ≡ count i a.free_list) × (r' i ≡ r i))
    → IsArena d r' (record { blocks = store a.blocks id b'; free_list = fl })
written-IsArena d r r' a id b b' fl v here c others i =
    rw (block_at-store a.blocks i id b' b here) (elim (Bool-cases (i ==ℤ id)) [
      | inl e ↦ rw e (subst (λ j. Cell d j (some b') (count j fl) (r' j)) (sym (==ℤ-eq i id e)) c)
      | inr e ↦ rw (e, (others i e).0, (others i e).1) (v i)
    ])

module _ (d : DeviceType) (r : BlockId → ℕ) (a : Arena) (v : IsArena d r a) (id : BlockId)
    (b : PhysicalBlock) (here : block_at a.blocks id ≡ some b) where
  -- The cell of the block that is written.
  cell : Cell d id (some b) (count id a.free_list) (r id)
  cell = subst (λ m. Cell d id m (count id a.free_list) (r id)) here (v id)

  release_case :
      (k : ℕ)
      → b.ref_count ≡ pos (suc k)
      → r id ≡ suc k
      → IsArena d (less id r) (release_block id b a)
  unfolding release_block push_free count
  release_case zero e held =
      rw (e, release_block)
        (written-IsArena d r (less id r) a id b (reset_block (pos 0) b) (id ∷ a.free_list) v here
          (ground (arith, cell, ==ℤ_refl id)) (λ i e'. ground arith))
  release_case (suc k) e held =
      rw (e, release_block)
        (written-IsArena d r (less id r) a id b (record b { ref_count = pos (suc k) }) a.free_list v
          here (ground (arith, cell, ==ℤ_refl id)) (λ i e'. ground arith))

  -- `free_block` takes one reference to a block away.
  pub release_block-IsArena : (k : ℕ) → r id ≡ suc k → IsArena d (less id r) (release_block id b a)
  release_block-IsArena k held = release_case k (ground (arith, cell)) held

  unref_case :
      (k : ℕ)
      → b.ref_count ≡ pos (suc k)
      → r id ≡ suc k
      → IsArena d (less id r) (unref_block id b a)
  unfolding unref_block push_free count
  unref_case zero e held =
      rw (e, unref_block)
        (written-IsArena d r (less id r) a id b (record b { ref_count = pos 0 }) (id ∷ a.free_list)
          v here (ground (arith, cell, ==ℤ_refl id)) (λ i e'. ground arith))
  unref_case (suc k) e held =
      rw (e, unref_block)
        (written-IsArena d r (less id r) a id b (record b { ref_count = pos (suc k) }) a.free_list v
          here (ground (arith, cell, ==ℤ_refl id)) (λ i e'. ground arith))

  pub unref_block-IsArena : (k : ℕ) → r id ≡ suc k → IsArena d (less id r) (unref_block id b a)
  unref_block-IsArena k held = unref_case k (ground (arith, cell)) held

  -- `increment_ref`, of a block that is in use.
  pub succ_refs-IsArena :
      (k : ℕ) → r id ≡ suc k → IsArena d (more id r) (set_refs id b (succℤ b.ref_count) a)
  unfolding set_refs
  succ_refs-IsArena k held =
      written-IsArena d r (more id r) a id b (record b { ref_count = succℤ b.ref_count })
        a.free_list v here (ground (arith, cell, ==ℤ_refl id)) (λ i e'. ground arith)

  -- `src.ref_count--` of `copy_on_write`, of a block with another reference.
  pub pred_refs-IsArena :
      (k : ℕ) → r id ≡ suc (suc k) → IsArena d (less id r) (set_refs id b (predℤ b.ref_count) a)
  unfolding set_refs
  pred_refs-IsArena k held =
      written-IsArena d r (less id r) a id b (record b { ref_count = predℤ b.ref_count })
        a.free_list v here (ground (arith, cell, ==ℤ_refl id)) (λ i e'. ground arith)

  -- A popped block had no reference, and its first one makes it a block in use.
  pub claim_block-IsArena :
      (rest : List BlockId) (write : PhysicalBlock → PhysicalBlock)
      → a.free_list ≡ id ∷ rest
      → (write b).block_id ≡ b.block_id
      → (write b).device ≡ b.device
      → (write b).ref_count ≡ pos 1
      → IsArena d (more id r) (claim_block id write b rest a)
  unfolding claim_block count
  claim_block-IsArena rest write popped same_id same_dev one =
      written-IsArena d r (more id r) a id b (write b) rest v here
        (ground (arith, cell, ==ℤ_refl id, ap (count id) popped))
        (λ i e'. ground (arith, ap (count i) popped))

-- The block that a reference is held to is there.
pub held_block :
    (d : DeviceType) (r : BlockId → ℕ) (a : Arena) (id : BlockId) (k : ℕ)
    → IsArena d r a
    → r id ≡ suc k
    → (b : PhysicalBlock) × (block_at a.blocks id ≡ some b) × (b.ref_count ≡ pos (suc k))
held_block d r a id k v held = elim (Option-cases (block_at a.blocks id)) [
  | inl e ↦ absurd (ground (arith, subst (λ m. Cell d id m (count id a.free_list) (r id)) e (v id)))
  | inr (b, e) ↦
      let c : Cell d id (some b) (count id a.free_list) (r id) =
        subst (λ m. Cell d id m (count id a.free_list) (r id)) e (v id) in
      (b, e, ground (arith, c))
]

-- So is every block that the free list names, and it has no reference.
pub free_block_at :
    (d : DeviceType) (r : BlockId → ℕ) (a : Arena) (id : BlockId) (rest : List BlockId)
    → IsArena d r a
    → a.free_list ≡ id ∷ rest
    → (b : PhysicalBlock) × (block_at a.blocks id ≡ some b) × (r id ≡ 0)
unfolding count
free_block_at d r a id rest v popped = elim (Option-cases (block_at a.blocks id)) [
  | inl e ↦ absurd (
      ground (
        arith,
        ==ℤ_refl id,
        ap (count id) popped,
        subst (λ m. Cell d id m (count id a.free_list) (r id)) e (v id),
      ))
  | inr (b, e) ↦
      let c : Cell d id (some b) (count id a.free_list) (r id) =
        subst (λ m. Cell d id m (count id a.free_list) (r id)) e (v id) in
      (b, e, ground (arith, c, ==ℤ_refl id, ap (count id) popped))
]
