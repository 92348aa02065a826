-- ===== src/BlockManager/Release.antt =====
-- `free_block`, `free_blocks`, `increment_ref` and `decrement_ref` keep the books.
use cache_flow.Base.{
  ℕ, suc, ◌+◌, ◌≡◌, refl, List, [], ◌∷◌, Option, some, arith, length, length-set, Bool-cases,
  Option-cases, inl, inr, sym, ap, subst, ◌∙◌,
}
use cache_flow.Base.Int.{pos, negsuc, ==ℤ_refl, ==ℤ-eq, predℤ, succℤ, is_nonpos}
use cache_flow.Base.Assoc.{lookup, erase, IsMap, erase-IsMap}
use cache_flow.Common.{BlockId, SeqId, DeviceType, cpu, cuda}
use cache_flow.BlockManager.{
  PhysicalBlock, Arena, BlockManager, Owned, store, arena_for, set_arena, release_block,
  unref_block, set_refs, free_block, free_owned, free_blocks, increment_ref, decrement_ref,
}
use cache_flow.BlockManager.Refs.{count_map, count_owned, count_map-erase, count_found}
use cache_flow.BlockManager.Balance.{
  Refs, IsBalanced, at_device, more, less, set_arena-IsBalanced, release_block-IsArena,
  unref_block-IsArena, succ_refs-IsArena, held_block,
}
use cache_flow.BlockManager.Accounts.{
  Accounts, held, IsSame, IsSame-refl, IsSame-trans, set_arena-IsSame, map-set_arena,
  IsBalanced-ext, set_map-IsBalanced,
}

pub length-store :
    (bs : List PhysicalBlock) (id : BlockId) (b : PhysicalBlock)
    → length (store bs id b) ≡ length bs
unfolding store
length-store bs (pos n) b = length-set bs n b
length-store bs (negsuc n) b = refl

length-release_block :
    (id : BlockId) (b : PhysicalBlock) (a : Arena)
    → length (release_block id b a).blocks ≡ length a.blocks
unfolding release_block
length-release_block id b a = elim (Bool-cases (is_nonpos (predℤ b.ref_count))) [
  | inl e ↦ rw (e, release_block) (length-store a.blocks id _)
  | inr e ↦ rw (e, release_block) (length-store a.blocks id _)
]

length-unref_block :
    (id : BlockId) (b : PhysicalBlock) (a : Arena)
    → length (unref_block id b a).blocks ≡ length a.blocks
unfolding unref_block set_refs
length-unref_block id b a = elim (Bool-cases (is_nonpos (predℤ b.ref_count))) [
  | inl e ↦ rw (e, unref_block) (length-store a.blocks id _)
  | inr e ↦ rw (e, unref_block) (length-store a.blocks id _)
]

-- What an operation returns that runs, keeps the owner map and the sizes, and moves the books
-- by `f` on the device `d`.
pub record Moves (d : DeviceType) (f : (BlockId → ℕ) → BlockId → ℕ) (refs : Refs)
    (bm : BlockManager) (result : Option BlockManager) : Type 0 where
  pub after : BlockManager
  pub runs : result ≡ some after
  pub balanced : IsBalanced (at_device d f refs) after
  pub map : after.seq_block_map ≡ bm.seq_block_map
  pub same : IsSame bm after

module _ (d : DeviceType) (id : BlockId) (refs : Refs) (bm : BlockManager) (v : IsBalanced refs bm)
    (k : ℕ) (h : refs d id ≡ suc k) where
  pub free_block-Moves : Moves d (less id) refs bm (free_block id d bm)
  unfolding free_block
  free_block-Moves =
      let (b, e, _) = held_block d (refs d) (arena_for d bm) id k (v d) h in
      record {
        after = set_arena d (release_block id b (arena_for d bm)) bm;
        runs = rw (e, free_block);
        balanced =
            set_arena-IsBalanced d (less id) refs _ bm v
              (release_block-IsArena d (refs d) _ (v d) id b e k h);
        map = map-set_arena d _ bm;
        same = set_arena-IsSame d _ bm (length-release_block id b (arena_for d bm));
      }

  pub decrement_ref-Moves : Moves d (less id) refs bm (decrement_ref id d bm)
  unfolding decrement_ref
  decrement_ref-Moves =
      let (b, e, _) = held_block d (refs d) (arena_for d bm) id k (v d) h in
      record {
        after = set_arena d (unref_block id b (arena_for d bm)) bm;
        runs = rw (e, decrement_ref);
        balanced =
            set_arena-IsBalanced d (less id) refs _ bm v
              (unref_block-IsArena d (refs d) _ (v d) id b e k h);
        map = map-set_arena d _ bm;
        same = set_arena-IsSame d _ bm (length-unref_block id b (arena_for d bm));
      }

  pub increment_ref-Moves : Moves d (more id) refs bm (increment_ref id d bm)
  unfolding increment_ref set_refs
  increment_ref-Moves =
      let (b, e, _) = held_block d (refs d) (arena_for d bm) id k (v d) h in
      record {
        after = set_arena d (set_refs id b (succℤ b.ref_count) (arena_for d bm)) bm;
        runs = rw (e, increment_ref);
        balanced =
            set_arena-IsBalanced d (more id) refs _ bm v
              (succ_refs-IsArena d (refs d) _ (v d) id b e k h);
        map = map-set_arena d _ bm;
        same = set_arena-IsSame d _ bm (length-store (arena_for d bm).blocks id _);
      }

-- The books after a loop over owned blocks has freed each of them once.
pub record FreesAll (rest : Refs) (bm : BlockManager) (result : Option BlockManager) : Type 0 where
  pub after : BlockManager
  pub runs : result ≡ some after
  pub balanced : IsBalanced rest after
  pub map : after.seq_block_map ≡ bm.seq_block_map
  pub same : IsSame bm after

abbrev with_owned : List Owned → Refs → Refs
with_owned os rest d i = count_owned d i os + rest d i

with_owned-less :
    (d : DeviceType) (id : BlockId) (os : List Owned) (rest : Refs) (e : DeviceType) (i : BlockId)
    → at_device d (less id) (with_owned ((d, id) ∷ os) rest) e i ≡ with_owned os rest e i
unfolding count_owned
with_owned-less cpu id os rest cpu i = ground arith
with_owned-less cpu id os rest cuda i = ground arith
with_owned-less cuda id os rest cpu i = ground arith
with_owned-less cuda id os rest cuda i = ground arith

with_owned_head :
    (d : DeviceType) (id : BlockId) (os : List Owned) (rest : Refs)
    → with_owned ((d, id) ∷ os) rest d id ≡ suc (with_owned os rest d id)
unfolding count_owned
with_owned_head cpu id os rest = ground (arith, ==ℤ_refl id)
with_owned_head cuda id os rest = ground (arith, ==ℤ_refl id)

pub free_owned-FreesAll :
    (os : List Owned) (rest : Refs) (bm : BlockManager)
    → IsBalanced (with_owned os rest) bm
    → FreesAll rest bm (free_owned os bm)
unfolding free_owned count_owned
free_owned-FreesAll [] rest bm v = record {
  after = bm;
  runs = refl;
  balanced = IsBalanced-ext _ rest bm (λ d i. omega arith) v;
  map = refl;
  same = IsSame-refl bm;
}
free_owned-FreesAll ((d, id) ∷ os) rest bm v =
    let m =
      free_block-Moves d id (with_owned ((d, id) ∷ os) rest) bm v _
        (with_owned_head d id os rest) in
    let f =
      free_owned-FreesAll os rest m.after
        (IsBalanced-ext _ _ _ (with_owned-less d id os rest) m.balanced) in
    record {
      after = f.after;
      runs = rw (m.runs, free_owned) f.runs;
      balanced = f.balanced;
      map = f.map ∙ m.map;
      same = IsSame-trans bm m.after f.after m.same f.same;
    }

-- A caller's reference is one of all references.
more-held :
    (ext : Refs) (bm : BlockManager) (d : DeviceType) (id : BlockId) (e : DeviceType) (i : BlockId)
    → at_device d (more id) (held ext bm) e i
      ≡ count_map e i bm.seq_block_map + at_device d (more id) ext e i
more-held ext bm cpu id cpu i = ground arith
more-held ext bm cpu id cuda i = refl
more-held ext bm cuda id cpu i = refl
more-held ext bm cuda id cuda i = ground arith

pub less-held :
    (ext : Refs) (bm : BlockManager) (d : DeviceType) (id : BlockId) (k : ℕ)
    → ext d id ≡ suc k
    → (e : DeviceType) (i : BlockId)
    → at_device d (less id) (held ext bm) e i
      ≡ count_map e i bm.seq_block_map + at_device d (less id) ext e i
less-held ext bm cpu id k h cpu i = ground (arith, ==ℤ-eq i id)
less-held ext bm cpu id k h cuda i = refl
less-held ext bm cuda id k h cpu i = refl
less-held ext bm cuda id k h cuda i = ground (arith, ==ℤ-eq i id)

-- What a call returns that runs, keeps the sizes, and leaves books with `ext`.
pub record Keeps (ext : Refs) (bm : BlockManager) (result : Option BlockManager) : Type 0 where
  pub after : BlockManager
  pub runs : result ≡ some after
  pub accounts : Accounts ext after
  pub same : IsSame bm after

-- The books of the manager that such a call returned.
pub Keeps-Accounts :
    (ext : Refs) (bm bm' : BlockManager) (result : Option BlockManager)
    → Keeps ext bm result
    → result ≡ some bm'
    → Accounts ext bm'
Keeps-Accounts ext bm bm' result k e =
    let same : k.after ≡ bm' = cc (k.runs) in subst (Accounts ext) same k.accounts

module _ (ext : Refs) (bm : BlockManager) (a : Accounts ext bm) where
  -- A step on the books of all references, seen as a step on those of the callers.
  Moves-Keeps :
      (d : DeviceType) (f : (BlockId → ℕ) → BlockId → ℕ) {result : Option BlockManager}
      → ((e : DeviceType) (i : BlockId)
          → at_device d f (held ext bm) e i
            ≡ count_map e i bm.seq_block_map + at_device d f ext e i)
      → Moves d f (held ext bm) bm result
      → Keeps (at_device d f ext) bm result
  Moves-Keeps d f h m = record {
    after = m.after;
    runs = m.runs;
    accounts = record {
      map = subst IsMap (sym m.map) a.map;
      balanced =
          IsBalanced-ext _ _ _
            (λ e i. h e i ∙ ap (λ q. count_map e i q + at_device d f ext e i) (sym m.map))
            m.balanced;
    };
    same = m.same;
  }

  free_found :
      (sid : SeqId) (os : List Owned)
      → lookup sid bm.seq_block_map ≡ some os
      → Keeps ext bm (free_blocks sid bm)
  unfolding free_blocks
  free_found sid os e =
      let m = bm.seq_block_map in
      let rest : Refs = λ d i. count_map d i (erase sid m) + ext d i in
      let f = free_owned-FreesAll os rest bm (
        IsBalanced-ext (held ext bm) (with_owned os rest) bm
          (λ d i. omega (arith, count_map-erase d i sid m a.map, ap (count_found d i) e))
          a.balanced) in
      record {
        after = record (f.after) { seq_block_map = erase sid f.after.seq_block_map };
        runs = rw (e, free_blocks) (rw f.runs);
        accounts = record {
          map = erase-IsMap sid _ (subst IsMap (sym f.map) a.map);
          balanced =
              IsBalanced-ext rest _ _
                (λ d i. ap (λ q. count_map d i (erase sid q) + ext d i) (sym f.map))
                (set_map-IsBalanced rest f.after (erase sid f.after.seq_block_map) f.balanced);
        };
        same =
            IsSame-trans bm f.after _ f.same
              (record { config = refl; model_config = refl; gpu_total = refl; cpu_total = refl });
      }

  -- With the books kept, freeing a sequence runs, whatever it owns, and the books are kept with the
  -- same references of callers.
  pub free_blocks-Keeps : (sid : SeqId) → Keeps ext bm (free_blocks sid bm)
  unfolding free_blocks
  free_blocks-Keeps sid = elim (Option-cases (lookup sid bm.seq_block_map)) [
    | inl e ↦ record { after = bm; runs = rw (e, free_blocks); accounts = a; same = IsSame-refl bm }
    | inr (os, e) ↦ free_found sid os e
  ]

  -- With the books kept, a caller that holds a reference gives it back: the call runs, the books
  -- are kept with one reference of callers fewer.
  pub decrement_ref-Keeps :
      (d : DeviceType) (id : BlockId) (k : ℕ)
      → ext d id ≡ suc k
      → Keeps (at_device d (less id) ext) bm (decrement_ref id d bm)
  decrement_ref-Keeps d id k h = Moves-Keeps d (less id) (less-held ext bm d id k h) (
      decrement_ref-Moves d id (held ext bm) bm a.balanced (count_map d id bm.seq_block_map + k)
        (omega arith))

  -- With the books kept, `free_block` of a block to which a caller holds a reference runs, and the
  -- books are kept with one reference of callers fewer.
  pub free_block-Keeps :
      (d : DeviceType) (id : BlockId) (k : ℕ)
      → ext d id ≡ suc k
      → Keeps (at_device d (less id) ext) bm (free_block id d bm)
  free_block-Keeps d id k h = Moves-Keeps d (less id) (less-held ext bm d id k h) (
      free_block-Moves d id (held ext bm) bm a.balanced (count_map d id bm.seq_block_map + k)
        (omega arith))

  -- With the books kept, `increment_ref` of a block in use runs, and the books are kept with one
  -- reference of callers more.
  pub increment_ref-Keeps :
      (d : DeviceType) (id : BlockId) (k : ℕ)
      → held ext bm d id ≡ suc k
      → Keeps (at_device d (more id) ext) bm (increment_ref id d bm)
  increment_ref-Keeps d id k h =
      Moves-Keeps d (more id) (more-held ext bm d id)
        (increment_ref-Moves d id (held ext bm) bm a.balanced k h)
