-- ===== src/Examples/Cached.antt =====
-- A prefix cache of blocks of two tokens, into which a prompt of five tokens is inserted.
use cache_flow.Base.{◌≡◌, refl, List, [], ◌∷◌, Option, none, some}
use cache_flow.Base.Int.{pos}
use cache_flow.Common.{TokenId}
use cache_flow.BlockManager
use cache_flow.PrefixCache.{PrefixCache, init, insert, lookup, release, evict_lru}
use cache_flow.PrefixCache.Lookup.{LooksUp, lookup-LooksUp}
use cache_flow.Base.{arith}
use cache_flow.BlockManager.Accounts.{Accounts}
use cache_flow.Base.{◌≤◌, ◌+◌, min, length}
use cache_flow.Common.{cuda, BlockId}
use cache_flow.PrefixCache.{Candidate, collect_eviction_candidates}
use cache_flow.PrefixCache.Evict.{
  named, times_candidate, dropped, take, IsOldestFirst, evict_lru-Evicts,
}
use cache_flow.Examples.Blocks.{caller_ref, shared, shared-Accounts, one_block}

abbrev prompt : List TokenId
prompt = pos 5 ∷ pos 6 ∷ pos 7 ∷ pos 8 ∷ pos 9 ∷ []

abbrev cache_of : Option (PrefixCache × BlockManager.BlockManager) → PrefixCache
cache_of none = init 2
cache_of (some r) = r.0

abbrev one_cached : PrefixCache
one_cached = cache_of (insert prompt (pos 0 ∷ []) (init 2) one_block)

lookup-LooksUp_example : LooksUp prompt one_cached (lookup prompt one_cached)
lookup-LooksUp_example = lookup-LooksUp prompt one_cached

found_block : (lookup prompt one_cached).1 ≡ pos 0 ∷ []
unfolding BlockManager.init BlockManager.allocate_block BlockManager.increment_ref init insert
    lookup
found_block = refl

found_tokens : (lookup prompt one_cached).2 ≡ 2
unfolding BlockManager.init BlockManager.allocate_block BlockManager.increment_ref init insert
    lookup
found_tokens = refl

abbrev manager_of : Option (PrefixCache × BlockManager.BlockManager) → BlockManager.BlockManager
manager_of none = one_block
manager_of (some r) = r.1

abbrev inserted : BlockManager.BlockManager
inserted = manager_of (insert prompt (pos 0 ∷ []) (init 2) one_block)

-- The cache gives the block up: the reference of the insertion is released, and eviction takes
-- the reference of the cache. The trie still names the block.
abbrev evicted : PrefixCache
evicted = cache_of (evict_lru 1 (release prompt one_cached) inserted)

counted_out : evicted.stats.cached_blocks ≡ 0
unfolding BlockManager.init BlockManager.allocate_block BlockManager.increment_ref init insert
    release evict_lru
counted_out = refl

still_found : (lookup prompt evicted).1 ≡ pos 0 ∷ []
unfolding BlockManager.init BlockManager.allocate_block BlockManager.increment_ref init insert
    release evict_lru lookup
still_found = refl

abbrev released : PrefixCache
released = release prompt one_cached

released_candidates :
    (id : BlockId) → named id (collect_eviction_candidates released.root) ≤ caller_ref cuda id
unfolding BlockManager.init BlockManager.allocate_block BlockManager.increment_ref init insert
    release collect_eviction_candidates named
released_candidates id = ground arith

evict_lru-Evicts_example :
    (c' : PrefixCache) × (bm' : BlockManager.BlockManager) × (order : List Candidate) × (evict_lru 1
        released shared
      ≡ some (c', bm'))
    × IsOldestFirst order
    × ((a : Candidate)
        → times_candidate a order ≡ times_candidate a (collect_eviction_candidates released.root))
    × Accounts (dropped (take 1 order) caller_ref) bm'
    × (c'.stats.evictions
        ≡ released.stats.evictions + min 1 (length (collect_eviction_candidates released.root)))
evict_lru-Evicts_example =
    evict_lru-Evicts caller_ref 1 released shared shared-Accounts released_candidates
