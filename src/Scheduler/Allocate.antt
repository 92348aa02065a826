-- ===== src/Scheduler/Allocate.antt =====
-- The loop of `allocate_block` and `push_back`: it always ends, and the blocks that `can_allocate`
-- promised are all given.
use mathlib.Core.List.{append_assoc, append-nil}
use cache_flow.Base.{
  ℕ, zero, suc, ◌+◌, ◌≤◌, ◌≡◌, refl, List, [], ◌∷◌, ◌++◌, Option, some, arith, length, All, inl,
  inr, ◌∙◌, ap, true, false, leb→le,
}
use cache_flow.Base.Int.{pos}
use cache_flow.Common.{BlockId, SeqId, cuda, invalid_block, is_invalid}
use cache_flow.BlockManager.{BlockManager, can_allocate}
use cache_flow.BlockManager.Balance.{Refs}
use cache_flow.BlockManager.Accounts.{Accounts, IsSame, IsSame-refl, IsSame-trans}
use cache_flow.BlockManager.Claim.{allocate_block-Allocation}
use cache_flow.Scheduler.Sequences.{allocate_blocks}

abbrev pub IsValid : BlockId → Type 0
IsValid id = is_invalid id ≡ false

pub record AllocatesAll (ext : Refs) (n : ℕ) (ids : List BlockId) (bm : BlockManager)
    (result : Option (List BlockId × BlockManager)) : Type 0 where
  pub after : BlockManager
  pub new : List BlockId
  pub runs : result ≡ some (ids ++ new, after)
  pub size : length new ≡ n
  pub accounts : Accounts ext after
  pub same : IsSame bm after
  pub valid : n ≤ length bm.gpu.free_list → All IsValid new
  pub fewer : n ≤ length bm.gpu.free_list → length after.gpu.free_list + n ≡ length bm.gpu.free_list

module _ (ext : Refs) where
  pub allocate_blocks-AllocatesAll :
      (n : ℕ) (sid : SeqId) (ids : List BlockId) (bm : BlockManager)
      → Accounts ext bm
      → AllocatesAll ext n ids bm (allocate_blocks n sid ids bm)
  unfolding allocate_blocks
  allocate_blocks-AllocatesAll zero sid ids bm a = record {
    after = bm;
    new = [];
    runs = rw append-nil;
    size = refl;
    accounts = a;
    same = IsSame-refl bm;
    valid = λ h. tt;
    fewer = λ h. omega arith;
  }
  allocate_blocks-AllocatesAll (suc n) sid ids bm a =
      elim (allocate_block-Allocation ext sid cuda bm a) [
        | inl (none_free, r) ↦
            let rest = allocate_blocks-AllocatesAll n sid (ids ++ invalid_block ∷ []) bm a in
            record {
              after = rest.after;
              new = invalid_block ∷ rest.new;
              runs = rw (r, allocate_blocks) (rest.runs ∙ rw append_assoc);
              size = omega (arith, rest.size);
              accounts = rest.accounts;
              same = rest.same;
              valid = λ h. absurd (omega (arith, ap length none_free));
              fewer = λ h. absurd (omega (arith, ap length none_free));
            }
        | inr c ↦
            let rest =
              allocate_blocks-AllocatesAll n sid (ids ++ pos c.index ∷ []) c.after c.accounts in
            record {
              after = rest.after;
              new = pos c.index ∷ rest.new;
              runs = rw (c.runs, allocate_blocks) (rest.runs ∙ rw append_assoc);
              size = omega (arith, rest.size);
              accounts = rest.accounts;
              same = IsSame-trans bm c.after rest.after c.same rest.same;
              valid = λ h. (refl, rest.valid (omega (arith, ap length c.shorter)));
              fewer = λ h.
                  omega
                    (arith, ap length c.shorter, rest.fewer (omega (arith, ap length c.shorter)));
            }
      ]

  -- After `can_allocate(n)` the next `n` allocations on the GPU all give a block, and take `n`
  -- blocks off the free list.
  pub can_allocate-allocate_blocks :
      (n : ℕ) (sid : SeqId) (ids : List BlockId) (bm : BlockManager)
      → Accounts ext bm
      → can_allocate n bm ≡ true
      → (bm' : BlockManager) × (new : List BlockId) × (allocate_blocks n sid ids bm
          ≡ some (ids ++ new, bm'))
        × (length new ≡ n)
        × All IsValid new
        × (length bm'.gpu.free_list + n ≡ length bm.gpu.free_list)
  unfolding can_allocate
  can_allocate-allocate_blocks n sid ids bm a can =
      let r = allocate_blocks-AllocatesAll n sid ids bm a in
      let enough = leb→le n (length bm.gpu.free_list) can in
      (r.after, r.new, r.runs, r.size, r.valid enough, r.fewer enough)
