-- ===== src/BlockManager/Copy.antt =====
-- `copy_on_write` hands a caller's reference over to a sequence.
use cache_flow.Base.{
  ℕ, zero, suc, ◌+◌, ◌≤◌, ◌≡◌, refl, List, [], ◌∷◌, Option, some, arith, if◌then◌else◌, Bool-cases,
  List-cases, inl, inr, sym, ap, subst, ◌∙◌, ◌⊎◌, false, true,
}
use cache_flow.Base.Int.{pos, ◌==ℤ◌, ==ℤ_refl, ==ℤ-eq, ==ℤ_comm, predℤ}
use cache_flow.Base.Assoc.{IsMap}
use cache_flow.Common.{BlockId, SeqId, DeviceType, cpu, cuda, invalid_block, is_invalid}
use cache_flow.BlockManager.{
  PhysicalBlock, Arena, BlockManager, Owned, block_at, arena_for, set_arena, set_refs, copy_fields,
  add_owned, claim, drop_after, cow_fresh, copy_on_write,
}
use cache_flow.BlockManager.Refs.{count_map, is_owned, count_map-add_owned, block_at-store}
use cache_flow.BlockManager.Balance.{
  Refs, at_device, less, set_arena-IsBalanced, pred_refs-IsArena, held_block,
}
use cache_flow.BlockManager.Accounts.{
  Accounts, held, IsSame, IsSame-trans, set_arena-IsSame, map-set_arena, IsBalanced-ext,
  set_map-IsBalanced,
}
use cache_flow.BlockManager.Release.{length-store, less-held}
use cache_flow.BlockManager.Claim.{
  Allocates, copy-IsClaim, claim-Allocates, set_arena_same, add_owned-IsMap,
}

-- The new sequence owns a block with the content of the source, the caller's reference to the
-- source is used up, and the block is the source itself exactly if that was the last reference.
pub record Copies (ext : Refs) (d : DeviceType) (src : BlockId) (sid : SeqId) (bm : BlockManager)
    (result : Option (BlockManager × BlockId)) : Type 0 where
  pub after : BlockManager
  pub id : BlockId
  pub old : PhysicalBlock
  pub new : PhysicalBlock
  pub runs : result ≡ some (after, id)
  pub accounts : Accounts (at_device d (less src) ext) after
  pub source : block_at (arena_for d bm).blocks src ≡ some old
  pub copy : block_at (arena_for d after).blocks id ≡ some new
  pub content : (new.ref_count ≡ pos 1) × (new.num_filled ≡ old.num_filled) × (new.hash ≡ old.hash)
  pub in_place : (id ==ℤ src) ≡ (if old.ref_count ==ℤ pos 1 then true else false)
  pub map : after.seq_block_map ≡ add_owned sid (d, id) bm.seq_block_map
  pub same : IsSame bm after

set_map_arena :
    (d : DeviceType) (bm : BlockManager) (m : List (SeqId × List Owned))
    → arena_for d (record bm { seq_block_map = m }) ≡ arena_for d bm
set_map_arena cpu bm m = refl
set_map_arena cuda bm m = refl

is_owned_ne : (d e : DeviceType) (i j : BlockId) → (i ==ℤ j) ≡ false → is_owned e i (d, j) ≡ 0
is_owned_ne cpu cpu i j h = rw h
is_owned_ne cpu cuda i j h = refl
is_owned_ne cuda cpu i j h = refl
is_owned_ne cuda cuda i j h = rw h

arena_for-set_arena_self :
    (d : DeviceType) (a : Arena) (bm : BlockManager) → arena_for d (set_arena d a bm) ≡ a
arena_for-set_arena_self cpu a bm = refl
arena_for-set_arena_self cuda a bm = refl

-- A reference of a caller becomes one of a sequence.
handed :
    (ext : Refs) (m : List (SeqId × List Owned)) (d : DeviceType) (id : BlockId) (sid : SeqId)
    (k : ℕ)
    → ext d id ≡ suc k
    → (e : DeviceType) (i : BlockId)
    → count_map e i m + ext e i
      ≡ count_map e i (add_owned sid (d, id) m) + at_device d (less id) ext e i
handed ext m cpu id sid k h cpu i = rw count_map-add_owned (ground (arith, ==ℤ-eq i id))
handed ext m cpu id sid k h cuda i = rw count_map-add_owned (ground arith)
handed ext m cuda id sid k h cpu i = rw count_map-add_owned (ground arith)
handed ext m cuda id sid k h cuda i = rw count_map-add_owned (ground (arith, ==ℤ-eq i id))

module _ (ext : Refs) (d : DeviceType) (src : BlockId) (sid : SeqId) (bm : BlockManager)
    (a : Accounts ext bm) (k : ℕ) (taken : ext d src ≡ suc k) (old : PhysicalBlock)
    (there : block_at (arena_for d bm).blocks src ≡ some old)
    (counted : old.ref_count ≡ pos (held ext bm d src)) where
  last_reference : held ext bm d src ≡ 1 → Copies ext d src sid bm (copy_on_write src sid d bm)
  unfolding copy_on_write
  last_reference one =
      let m = add_owned sid (d, src) bm.seq_block_map in
      let last : (old.ref_count ==ℤ pos 1) ≡ true = ground (arith, counted, one) in
      record {
        after = record bm { seq_block_map = m };
        id = src;
        old = old;
        new = old;
        runs = rw (there, copy_on_write) (rw last);
        accounts = record {
          map = add_owned-IsMap sid (d, src) bm.seq_block_map a.map;
          balanced =
              set_map-IsBalanced _ bm m
                (IsBalanced-ext _ _ bm (handed ext bm.seq_block_map d src sid k taken) a.balanced);
        };
        source = there;
        copy = ap (λ (q : Arena). block_at q.blocks src) (set_map_arena d bm m) ∙ there;
        content = (ground (arith, counted, one), refl, refl);
        in_place = rw (last) (==ℤ_refl src);
        map = refl;
        same = record { config = refl; model_config = refl; gpu_total = refl; cpu_total = refl };
      }

  module _ (j : ℕ) (shared : held ext bm d src ≡ suc (suc j))
      (result : Option (BlockManager × BlockId))
      (c : Allocates ext sid d (copy_fields old) bm result) where
    apart : (src ==ℤ pos c.index) ≡ false
    apart = elim (Bool-cases (src ==ℤ pos c.index)) [
      | inl e ↦ absurd (ground (arith, ap (held ext bm d) (==ℤ-eq src (pos c.index) e), c.fresh))
      | inr e ↦ e
    ]

    still_shared : held ext c.after d src ≡ suc (suc j)
    still_shared = omega (
      arith,
      ap (count_map d src) c.map,
      count_map-add_owned d src sid (d, pos c.index) bm.seq_block_map,
      is_owned_ne d d src (pos c.index) apart,
    )

    source_after : block_at (arena_for d c.after).blocks src ≡ some old
    source_after = c.others src apart ∙ there

    dropped : Copies ext d src sid bm (drop_after src d (some (c.after, pos c.index)))
    unfolding drop_after
    dropped =
        let arena = set_refs src old (predℤ old.ref_count) (arena_for d c.after) in
        record {
          after = set_arena d arena c.after;
          id = pos c.index;
          old = old;
          new = copy_fields old c.old;
          runs = rw (source_after, drop_after);
          accounts = record {
            map = subst IsMap (sym (map-set_arena d arena c.after)) c.accounts.map;
            balanced =
                IsBalanced-ext _ _ _
                  (λ e i.
                    less-held ext c.after d src k taken e i
                    ∙ ap (λ q. count_map e i q + at_device d (less src) ext e i)
                        (sym (map-set_arena d arena c.after)))
                  (set_arena-IsBalanced d (less src) (held ext c.after) arena c.after
                    c.accounts.balanced
                    (pred_refs-IsArena d _ _ (c.accounts.balanced d) src old source_after j
                      still_shared));
          };
          source = there;
          copy =
              ap (λ (q : Arena). block_at q.blocks (pos c.index))
                (arena_for-set_arena_self d arena c.after)
              ∙ block_at-store (arena_for d c.after).blocks (pos c.index) src _ old source_after
              ∙ rw (==ℤ_comm (pos c.index) src, apart) c.block;
          content = (refl, refl, refl);
          in_place = ==ℤ_comm (pos c.index) src ∙ apart ∙ ground (arith, counted, shared);
          map = map-set_arena d arena c.after ∙ c.map;
          same =
              IsSame-trans bm c.after _ c.same (
                set_arena-IsSame d arena c.after (length-store (arena_for d c.after).blocks src _));
        }

  not_last : (j : ℕ) → held ext bm d src ≡ suc (suc j) → (old.ref_count ==ℤ pos 1) ≡ false
  not_last j shared = ground (arith, counted, shared)

  -- What `copy_on_write` comes to where the source has other references.
  no_block :
      (old.ref_count ==ℤ pos 1) ≡ false
      → (arena_for d bm).free_list ≡ []
      → copy_on_write src sid d bm ≡ some (bm, invalid_block)
  unfolding copy_on_write
  no_block many e =
      rw (there, copy_on_write) (rw many (rw (e, cow_fresh) (rw (set_arena_same d bm e))))

  one_block :
      (old.ref_count ==ℤ pos 1) ≡ false
      → (id : BlockId) (rest : List BlockId) → (arena_for d bm).free_list ≡ id ∷ rest
      → is_invalid id ≡ false
      → copy_on_write src sid d bm ≡ drop_after src d (claim sid d id rest (copy_fields old) bm)
  unfolding copy_on_write
  one_block many id rest e valid =
      rw (there, copy_on_write) (rw many (rw (e, cow_fresh) (rw valid)))

  shared_source :
      (j : ℕ)
      → held ext bm d src ≡ suc (suc j)
      → (((arena_for d bm).free_list ≡ [])
          × (copy_on_write src sid d bm ≡ some (bm, invalid_block)))
        ⊎ Copies ext d src sid bm (copy_on_write src sid d bm)
  shared_source j shared = elim (List-cases (arena_for d bm).free_list) [
    | inl e ↦ inl (e, no_block (not_last j shared) e)
    | inr (id, rest, e) ↦
        let (valid, c) =
          claim-Allocates ext sid d bm a (copy_fields old) (copy-IsClaim old) id rest e in
        inr (rw (one_block (not_last j shared) id rest e valid) (rw c.runs (dropped j shared _ c)))
  ]

module _ (ext : Refs) (d : DeviceType) (src : BlockId) (sid : SeqId) (bm : BlockManager)
    (a : Accounts ext bm) (k : ℕ) (taken : ext d src ≡ suc k) where
  -- A caller that holds a reference to a block may hand it over to a sequence: the sequence
  -- comes to own the block itself if that was its last reference, and otherwise a fresh block
  -- with the same content. The call fails, and changes nothing, only if the block has another
  -- reference and the free list of the device is empty.
  pub copy_on_write-Copies :
      ((2 ≤ held ext bm d src)
        × ((arena_for d bm).free_list ≡ [])
        × (copy_on_write src sid d bm ≡ some (bm, invalid_block)))
      ⊎ Copies ext d src sid bm (copy_on_write src sid d bm)
  copy_on_write-Copies =
      let (old, there, counted) =
        held_block d (held ext bm d) (arena_for d bm) src (count_map d src bm.seq_block_map + k)
          (a.balanced d) (omega arith) in
      by_references (held ext bm d src) refl old there counted
    where
      by_references :
          (n : ℕ)
          → held ext bm d src ≡ n
          → (old : PhysicalBlock) → block_at (arena_for d bm).blocks src ≡ some old
          → old.ref_count ≡ pos (suc (count_map d src bm.seq_block_map + k))
          → ((2 ≤ held ext bm d src)
              × ((arena_for d bm).free_list ≡ [])
              × (copy_on_write src sid d bm ≡ some (bm, invalid_block)))
            ⊎ Copies ext d src sid bm (copy_on_write src sid d bm)
      by_references zero e old there counted = absurd (omega arith)
      by_references (suc zero) e old there counted =
          inr
            (last_reference ext d src sid bm a k taken old there (counted ∙ ap pos (omega arith)) e)
      by_references (suc (suc j)) e old there counted =
          elim (shared_source ext d src sid bm a k taken old there (counted ∙ ap pos (omega arith))
            j e) [ inl (none_free, r) ↦ inl (omega arith, none_free, r) | inr c ↦ inr c ]
