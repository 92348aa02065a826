-- ===== src/BlockManager/Fragmentation.antt =====
-- `compute_fragmentation`: the counts of blocks, and the fractions as their two terms.
use cache_flow.Base.{
  ℕ, zero, suc, ◌+◌, ◌-◌, ◌*◌, ◌≤◌, ◌<◌, ◌≡◌, ◌≢◌, refl, List, [], ◌∷◌, Option, none, some, arith,
  length, Bool, not, max, ltb, ◌==◌, if◌then◌else◌, Bool-cases, Option-cases, inl, inr, ◌∙◌, ap,
  sym, get_elem?, get_elem?-lt, subst,
}
use cache_flow.Base.Int.{pos, negsuc, ==ℤ_refl, is_nonpos}
use cache_flow.Common.{BlockId, DeviceType}
use cache_flow.BlockManager.{PhysicalBlock, BlockManager, arena_for, block_at}
use cache_flow.BlockManager.Refs.{count}
use cache_flow.BlockManager.Balance.{Refs, Cell, IsArena}
use cache_flow.BlockManager.Accounts.{Accounts, held}

-- `internal_fragmentation` is 1 - `total_filled` / `max_capacity`, and `external_fragmentation`
-- 1 - `largest_free_run` / `free_blocks`, each 0 where the divisor is 0.
pub record FragmentationStats : Type 0 where
  pub total_blocks : ℕ
  pub used_blocks : ℕ
  pub free_blocks : ℕ
  pub total_filled : ℕ
  pub max_capacity : ℕ
  pub largest_free_run : ℕ

abbrev pub is_used : PhysicalBlock → Bool
is_used b = not (is_nonpos b.ref_count)

unfoldable pub sum_filled : List PhysicalBlock → ℕ
sum_filled [] = 0
sum_filled (b ∷ bs) = (if is_used b then b.num_filled else 0) + sum_filled bs

-- The loop over the ids from `i` on, one for each block.
unfoldable pub free_run : List BlockId → ℕ → List PhysicalBlock → ℕ → ℕ → ℕ
unfolding count
free_run free_list i [] max_run cur_run = max_run
free_run free_list i (b ∷ bs) max_run cur_run =
    let is_free = not (count (pos i) free_list == 0) in
    free_run free_list (suc i) bs (if is_free then max max_run (suc cur_run) else max_run)
      (if is_free then suc cur_run else 0)

unfoldable pub compute_fragmentation : DeviceType → BlockManager → FragmentationStats
unfolding sum_filled free_run
compute_fragmentation d bm =
    let a = arena_for d bm in
    record {
      total_blocks = length a.blocks;
      used_blocks = length a.blocks - length a.free_list;
      free_blocks = length a.free_list;
      total_filled = sum_filled a.blocks;
      max_capacity = (length a.blocks - length a.free_list) * bm.config.block_size;
      largest_free_run = free_run a.free_list 0 a.blocks 0 0;
    }

-- The blocks with a reference.
pub count_used : List PhysicalBlock → ℕ
count_used [] = 0
count_used (b ∷ bs) = (if is_used b then 1 else 0) + count_used bs

-- How often the free list names the ids from `k` on, one for each block.
sum_counts : List BlockId → ℕ → List PhysicalBlock → ℕ
sum_counts fl k [] = 0
sum_counts fl k (b ∷ bs) = count (pos k) fl + sum_counts fl (suc k) bs

sum_counts-cons :
    (m : ℕ) (fl : List BlockId) (k : ℕ) (bs : List PhysicalBlock)
    → sum_counts (pos m ∷ fl) k bs
      ≡ (if ltb m k then 0 else if ltb m (k + length bs) then 1 else 0) + sum_counts fl k bs
unfolding sum_counts count
sum_counts-cons m fl k [] = ground arith
sum_counts-cons m fl k (b ∷ bs) = ground (arith, sum_counts-cons m fl (suc k) bs)

sum_counts-nil : (k : ℕ) (bs : List PhysicalBlock) → sum_counts [] k bs ≡ 0
unfolding sum_counts count
sum_counts-nil k [] = refl
sum_counts-nil k (b ∷ bs) = omega (arith, sum_counts-nil (suc k) bs)

named_once :
    (x : BlockId) (m : ℕ) (fl : List BlockId) (bs : List PhysicalBlock)
    → x ≡ pos m
    → m < length bs
    → sum_counts (x ∷ fl) 0 bs ≡ suc (sum_counts fl 0 bs)
named_once x m fl bs e inside =
    ap (λ y. sum_counts (y ∷ fl) 0 bs) e ∙ sum_counts-cons m fl 0 bs ∙ ground arith

-- A free list that names only ids of blocks is as long as they are named.
length-free_list :
    (fl : List BlockId) (bs : List PhysicalBlock)
    → ((id : BlockId) → count id fl ≢ 0 → (i : ℕ) × (id ≡ pos i) × (i < length bs))
    → length fl ≡ sum_counts fl 0 bs
unfolding count
length-free_list [] bs h = sym (sum_counts-nil 0 bs)
length-free_list (x ∷ fl) bs h =
    let named : count x (x ∷ fl) ≢ 0 = rw (==ℤ_refl x) (λ z. absurd (omega (arith, z))) in
    let (m, e, inside) = h x named in
    let rest = length-free_list fl bs (λ id n. h id (λ z. n (omega (arith, z)))) in
    omega (arith, rest, named_once x m fl bs e inside)

-- A cell is free, once, or used.
kinds_agree :
    (d : DeviceType) (id : BlockId) (b : PhysicalBlock) (c r : ℕ)
    → Cell d id (some b) c r
    → c + (if is_used b then 1 else 0) ≡ 1
kinds_agree d id b c zero (_, _, refs, free) = rw (refs, free)
kinds_agree d id b c (suc r) (_, _, refs, free) = rw (refs, free)

free_or_used :
    (fl : List BlockId) (k : ℕ) (bs : List PhysicalBlock)
    → ((i : ℕ) (b : PhysicalBlock)
        → get_elem? bs i ≡ some b
        → count (pos (k + i)) fl + (if is_used b then 1 else 0) ≡ 1)
    → sum_counts fl k bs + count_used bs ≡ length bs
unfolding sum_counts count_used
free_or_used fl k [] h = refl
free_or_used fl k (b ∷ bs) h =
    let here : count (pos k) fl + (if is_used b then 1 else 0) ≡ 1 =
      subst (λ (i : ℕ). count (pos i) fl + (if is_used b then 1 else 0) ≡ 1) (omega arith)
        (h 0 b refl) in
    let rest = free_or_used fl (suc k) bs (λ i c e.
      subst (λ (j : ℕ). count (pos j) fl + (if is_used c then 1 else 0) ≡ 1) (omega arith)
        (h (suc i) c e)) in
    omega (arith, here, rest)

free_run-le :
    (fl : List BlockId) (i : ℕ) (bs : List PhysicalBlock) (most cur n : ℕ)
    → most ≤ n
    → cur + sum_counts fl i bs ≤ n
    → free_run fl i bs most cur ≤ n
unfolding free_run sum_counts
free_run-le fl i [] most cur n h k = h
free_run-le fl i (b ∷ bs) most cur n h k = elim (Bool-cases (count (pos i) fl == 0)) [
  | inl e ↦ rw (e, free_run) (free_run-le fl (suc i) bs most 0 n h (omega (arith, k)))
  | inr e ↦
      let some_free : 1 ≤ count (pos i) fl = ground arith in
      rw (e, free_run)
        (free_run-le fl (suc i) bs (max most (suc cur)) (suc cur) n (omega (arith, h, k, some_free))
          (omega (arith, k, some_free)))
]

module _ (ext : Refs) (d : DeviceType) (bm : BlockManager) (a : Accounts ext bm) where
  cells : IsArena d (held ext bm d) (arena_for d bm)
  cells = a.balanced d

  read_block :
      (n : ℕ) (m : Option PhysicalBlock)
      → get_elem? (arena_for d bm).blocks n ≡ m
      → Cell d (pos n) m (count (pos n) (arena_for d bm).free_list) (held ext bm d (pos n))
  unfolding block_at
  read_block n m e =
      subst
        (λ (o : Option PhysicalBlock).
          Cell d (pos n) o (count (pos n) (arena_for d bm).free_list) (held ext bm d (pos n)))
        e (cells (pos n))

  one_kind :
      (i : ℕ) (b : PhysicalBlock)
      → get_elem? (arena_for d bm).blocks i ≡ some b
      → count (pos (0 + i)) (arena_for d bm).free_list + (if is_used b then 1 else 0) ≡ 1
  one_kind i b e =
      subst (λ (j : ℕ). count (pos j) (arena_for d bm).free_list + (if is_used b then 1 else 0) ≡ 1)
        (omega arith) (kinds_agree d (pos i) b _ _ (read_block i (some b) e))

  named_blocks :
      (id : BlockId)
      → count id (arena_for d bm).free_list ≢ 0
      → (i : ℕ) × (id ≡ pos i) × (i < length (arena_for d bm).blocks)
  unfolding block_at
  named_blocks (negsuc n) h = absurd (h ((cells (negsuc n)).0))
  named_blocks (pos n) h = elim (Option-cases (get_elem? (arena_for d bm).blocks n)) [
    | inl e ↦ absurd (h ((read_block n none e).0))
    | inr (b, e) ↦ (n, refl, get_elem?-lt (arena_for d bm).blocks n b e)
  ]

  -- With the books kept, the used blocks of `compute_fragmentation` are the blocks with a
  -- reference, its free and used blocks are all the blocks, and its longest run of free blocks is
  -- no longer than there are free blocks.
  pub compute_fragmentation-counts :
      ((compute_fragmentation d bm).used_blocks ≡ count_used (arena_for d bm).blocks)
      × ((compute_fragmentation d bm).free_blocks + (compute_fragmentation d bm).used_blocks
          ≡ (compute_fragmentation d bm).total_blocks)
      × ((compute_fragmentation d bm).largest_free_run ≤ (compute_fragmentation d bm).free_blocks)
  unfolding compute_fragmentation block_at
  compute_fragmentation-counts =
      let fl = (arena_for d bm).free_list in
      let bs = (arena_for d bm).blocks in
      let size = length-free_list fl bs named_blocks in
      let all = free_or_used fl 0 bs one_kind in
      (
        omega (arith, size, all),
        omega (arith, size, all),
        free_run-le fl 0 bs 0 0 (length fl) (omega arith) (omega (arith, size)),
      )
