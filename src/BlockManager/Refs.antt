-- ===== src/BlockManager/Refs.antt =====
-- Blocks read after a write, and how often a list or the owner map names a block.
use cache_flow.Base.{
  ℕ, ap, ◌+◌, ◌≡◌, refl, List, [], ◌∷◌, ◌++◌, Option, none, some, arith, get_elem?-set_self,
  get_elem?-set_ne, if◌then◌else◌, ◌&&◌, Bool-cases, inl, inr, ◌==◌, Option-cases,
}
use cache_flow.Base.Int.{pos, negsuc, ◌==ℤ◌}
use cache_flow.Base.Assoc.{lookup, insert, erase, IsMap, erase_absent}
use cache_flow.Common.{BlockId, SeqId, DeviceType, same_device}
use cache_flow.BlockManager.{PhysicalBlock, Owned, block_at, store, add_owned}

pub block_at-store :
    (bs : List PhysicalBlock) (i j : BlockId) (b c : PhysicalBlock)
    → block_at bs j ≡ some c
    → block_at (store bs j b) i ≡ (if i ==ℤ j then some b else block_at bs i)
unfolding block_at store
block_at-store bs (pos i) (pos j) b c h =
    ground (arith, get_elem?-set_self bs j b c h, get_elem?-set_ne bs j i b)
block_at-store bs (negsuc i) (pos j) b c h = refl
block_at-store bs i (negsuc j) b c h = cc

-- How often a free list names a block.
unfoldable pub count : BlockId → List BlockId → ℕ
count i [] = 0
count i (j ∷ js) = (if i ==ℤ j then 1 else 0) + count i js

abbrev pub is_owned : DeviceType → BlockId → Owned → ℕ
is_owned d i o = if same_device d o.0 && (i ==ℤ o.1) then 1 else 0

-- How often a list of owned blocks, and the owner map, name the block `i` of the device `d`.
unfoldable pub count_owned : DeviceType → BlockId → List Owned → ℕ
count_owned d i [] = 0
count_owned d i (o ∷ os) = is_owned d i o + count_owned d i os

unfoldable pub count_map : DeviceType → BlockId → List (SeqId × List Owned) → ℕ
count_map d i [] = 0
count_map d i ((sid, os) ∷ m) = count_owned d i os + count_map d i m

count_owned-append :
    (d : DeviceType) (i : BlockId) (xs ys : List Owned)
    → count_owned d i (xs ++ ys) ≡ count_owned d i xs + count_owned d i ys
unfolding count_owned
count_owned-append d i [] ys = omega arith
count_owned-append d i (x ∷ xs) ys = omega (arith, count_owned-append d i xs ys)

-- The blocks that a lookup finds.
abbrev pub count_found : DeviceType → BlockId → Option (List Owned) → ℕ
count_found d i none = 0
count_found d i (some os) = count_owned d i os

count_map-insert :
    (d : DeviceType) (i : BlockId) (sid : SeqId) (os : List Owned) (m : List (SeqId × List Owned))
    → count_map d i (insert sid os m) + count_found d i (lookup sid m)
      ≡ count_map d i m + count_owned d i os
unfolding count_map insert lookup
count_map-insert d i sid os [] = omega arith
count_map-insert d i sid os ((j, ps) ∷ m) = elim (Bool-cases (j == sid)) [
  | inl e ↦ rw e (omega arith)
  | inr e ↦ rw e (omega (arith, count_map-insert d i sid os m))
]

pub count_map-add_owned :
    (d : DeviceType) (i : BlockId) (sid : SeqId) (o : Owned) (m : List (SeqId × List Owned))
    → count_map d i (add_owned sid o m) ≡ count_map d i m + is_owned d i o
unfolding add_owned count_owned
count_map-add_owned d i sid o m = elim (Option-cases (lookup sid m)) [
  | inl e ↦
      rw (e, add_owned) (omega (arith, count_map-insert d i sid (o ∷ []) m, ap (count_found d i) e))
  | inr (os, e) ↦
      rw (e, add_owned)
        (omega (
          arith,
          count_map-insert d i sid (os ++ o ∷ []) m,
          count_owned-append d i os (o ∷ []),
          ap (count_found d i) e,
        ))
]

pub count_map-erase :
    (d : DeviceType) (i : BlockId) (sid : SeqId) (m : List (SeqId × List Owned))
    → IsMap m
    → count_map d i m ≡ count_map d i (erase sid m) + count_found d i (lookup sid m)
unfolding count_map erase lookup
count_map-erase d i sid [] u = omega arith
count_map-erase d i sid ((j, os) ∷ m) u = elim (Bool-cases (j == sid)) [
  | inl e ↦ rw e (ground (arith, erase_absent sid m))
  | inr e ↦ rw e (omega (arith, count_map-erase d i sid m u.1))
]
