-- ===== src/BlockManager/Init.antt =====
-- The constructor: every block is free, and the books are empty.
use cache_flow.Base.{
  ℕ, zero, suc, ◌+◌, ◌-◌, ◌^◌, ◌≤◌, ◌≡◌, refl, List, [], ◌∷◌, ◌++◌, none, some, arith,
  if◌then◌else◌, length, length-append, get_elem?, leb, ltb, ◌==◌, ◌&&◌, ◌∙◌, subst, Bool-cases,
  inl, inr,
}
use cache_flow.Base.Int.{pos, negsuc, to_int32_small}
use cache_flow.Common.{DeviceType, cpu, cuda, CacheConfig, ModelConfig}
use cache_flow.BlockManager.{
  PhysicalBlock, Arena, blank_block, arena_for, block_at, init_loop, init_blocks, init,
}
use cache_flow.BlockManager.Refs.{count, count_map}
use cache_flow.BlockManager.Balance.{Refs, IsArena}
use cache_flow.BlockManager.Accounts.{Accounts}

-- No caller holds a reference.
abbrev pub no_refs : Refs
no_refs d id = 0

abbrev made : DeviceType → ℕ → PhysicalBlock
made d n = record blank_block { block_id = pos n; device = d }

get_elem?-snoc {ℓ} :
    {A : Type ℓ} (xs : List A) (x : A) (n : ℕ)
    → get_elem? (xs ++ x ∷ []) n ≡ (if n == length xs then some x else get_elem? xs n)
get_elem?-snoc [] x zero = ground arith
get_elem?-snoc [] x (suc n) = ground arith
get_elem?-snoc (y ∷ xs) x zero = ground arith
get_elem?-snoc (y ∷ xs) x (suc n) = ground (arith, get_elem?-snoc xs x n)

-- After `i` rounds of `total` the first `i` blocks are made, and the last `i` ids are free.
record Made (d : DeviceType) (total i : ℕ) (a : Arena) : Type 0 where
  size : length a.blocks ≡ i
  block : (n : ℕ) → get_elem? a.blocks n ≡ (if ltb n i then some (made d n) else none)
  free : (n : ℕ) → count (pos n) a.free_list ≡ (if leb total (n + i) && ltb n total then 1 else 0)
  free_negative : (n : ℕ) → count (negsuc n) a.free_list ≡ 0

init_loop-Made :
    (rounds i total : ℕ) (d : DeviceType) (a : Arena)
    → i + rounds ≡ total
    → total ≤ 2 ^ 31
    → Made d total i a
    → Made d total total (init_loop rounds i total d a)
unfolding init_loop count
init_loop-Made zero i total d a e bound m = subst (λ k. Made d total k a) (omega arith) m
init_loop-Made (suc rounds) i total d a e bound m =
    rw (to_int32_small i (omega arith), to_int32_small (total - 1 - i) (omega arith))
      (init_loop-Made rounds (suc i) total d _ (omega arith) bound (record {
        size = omega (arith, length-append a.blocks (made d i ∷ []), m.size);
        block = λ n. get_elem?-snoc a.blocks (made d i) n ∙ ground (arith, m.block n, m.size);
        free = λ n. ground (arith, m.free n);
        free_negative = λ n. omega (arith, m.free_negative n);
      }))

init_blocks-Made :
    (total : ℕ) (d : DeviceType) → total ≤ 2 ^ 31 → Made d total total (init_blocks total d)
unfolding init_blocks count
init_blocks-Made total d bound = init_loop-Made total 0 total d _ (omega arith) bound (record {
  size = refl;
  block = λ n. ground arith;
  free = λ n. ground arith;
  free_negative = λ n. refl;
})

Made-IsArena :
    (total : ℕ) (d : DeviceType) (a : Arena) → Made d total total a → IsArena d (λ id. 0) a
unfolding block_at
Made-IsArena total d a m (negsuc n) = (m.free_negative n, refl)
Made-IsArena total d a m (pos n) = elim (Bool-cases (ltb n total)) [
  | inl e ↦ rw (m.block n) (rw e (refl, refl, refl, ground (arith, m.free n)))
  | inr e ↦ rw (m.block n) (rw e (ground (arith, m.free n), refl))
]

-- A new manager has every block on its free list and no reference to any, if a device has at
-- most 2^31 blocks, so that every index is a block id.
pub init-Accounts :
    (c : CacheConfig) (m : ModelConfig)
    → c.num_gpu_blocks ≤ 2 ^ 31
    → c.num_cpu_blocks ≤ 2 ^ 31
    → Accounts no_refs (init c m)
unfolding init count_map
init-Accounts c m h k = record { map = tt; balanced = both }
  where
    both : (d : DeviceType) → IsArena d (λ id. 0 + 0) (arena_for d (init c m))
    both cpu = Made-IsArena c.num_cpu_blocks cpu _ (init_blocks-Made c.num_cpu_blocks cpu k)
    both cuda = Made-IsArena c.num_gpu_blocks cuda _ (init_blocks-Made c.num_gpu_blocks cuda h)
