-- ===== src/PrefixCache.antt =====
-- src/cacheflow/kv_cache/prefix_cache.h and prefix_cache.cpp: the trie of cached prompt prefixes.
--
-- `block_size` is positive, as `% block_size` wants. The block manager that the cache points to is
-- passed in and out of the methods that call it; `none` is its undefined behaviour.
pub mod View
pub mod Lookup
pub mod Insert
pub mod Books
pub mod Evict
use cache_flow.Base.{
  ℕ, zero, suc, ◌+◌, ◌-◌, ◌%◌, ◌^◌, Bool, true, false, not, List, [], ◌∷◌, ◌++◌, Option, none, some,
  if◌then◌else◌, ltb, ◌==◌, ◌&&◌,
}
use cache_flow.Base.Int.{ℤ, pos, predℤ, is_nonpos, ltbℤ, ◌==ℤ◌}
use cache_flow.Common.{TokenId, BlockId, invalid_block, is_invalid, cuda}
use cache_flow.BlockManager.{BlockManager, increment_ref, decrement_ref}

-- The fields of a node beside its children.
pub record NodeData : Type 0 where
  pub block_id : BlockId
  pub tokens_in_block : ℕ
  pub last_access : ℕ
  pub ref_count : ℤ

mutual
  pub data PrefixTrieNode : Type 0 where
    node : NodeData → Children → PrefixTrieNode

  pub data Children : Type 0 where
    leaf : Children
    child : TokenId → PrefixTrieNode → Children → Children

abbrev pub new_data : NodeData
new_data = record {
  block_id = invalid_block;
  tokens_in_block = 0;
  last_access = 0;
  ref_count = pos 0;
}

abbrev pub new_node : PrefixTrieNode
new_node = node new_data leaf

abbrev pub data_of : PrefixTrieNode → NodeData
data_of (node d cs) = d

abbrev pub set_data : NodeData → PrefixTrieNode → PrefixTrieNode
set_data d (node _ cs) = node d cs

unfoldable pub find_child : TokenId → Children → Option PrefixTrieNode
find_child t leaf = none
find_child t (child u n cs) = if u ==ℤ t then some n else find_child t cs

-- `children[t] = n`.
unfoldable pub put_child : TokenId → PrefixTrieNode → Children → Children
put_child t n leaf = child t n leaf
put_child t n (child u m cs) = if u ==ℤ t then child u n cs else child u m (put_child t n cs)

pub record Stats : Type 0 where
  pub lookups : ℕ
  pub hits : ℕ
  pub misses : ℕ
  pub insertions : ℕ
  pub evictions : ℕ
  pub cached_blocks : ℕ

pub record PrefixCache : Type 0 where
  pub block_size : ℕ
  pub root : PrefixTrieNode
  pub stats : Stats
  pub access_clock : ℕ

abbrev pub no_stats : Stats
no_stats = record {
  lookups = 0;
  hits = 0;
  misses = 0;
  insertions = 0;
  evictions = 0;
  cached_blocks = 0;
}

unfoldable pub init : ℕ → PrefixCache
init block_size = record {
  block_size = block_size;
  root = new_node;
  stats = no_stats;
  access_clock = 0;
}

-- `(i + 1) % block_size == 0`: the token at `i` is the last of a block.
abbrev pub ends_block : ℕ → ℕ → Bool
ends_block size i = suc i % size == 0

-- What the loop of `lookup` leaves: the node with the accesses noted, the clock, the blocks found
-- and the number of tokens matched, if any block was.
pub record Found : Type 0 where
  pub node' : PrefixTrieNode
  pub clock : ℕ
  pub blocks : List BlockId
  pub matched : ℕ

-- A node that the walk has reached with the token at `i`.
abbrev pub hits_block : ℕ → ℕ → PrefixTrieNode → Bool
hits_block size i n = ends_block size i && not (is_invalid (data_of n).block_id)

abbrev pub touch : ℕ → PrefixTrieNode → PrefixTrieNode
touch clock n = set_data (record (data_of n) { last_access = clock }) n

unfoldable pub lookup_from : ℕ → ℕ → List TokenId → PrefixTrieNode → ℕ → ℕ → Found
unfolding find_child put_child
lookup_from size i [] n clock matched = record {
  node' = n;
  clock = clock;
  blocks = [];
  matched = matched;
}
lookup_from size i (t ∷ ts) (node d cs) clock matched = elim (find_child t cs) [
  | none ↦ record { node' = node d cs; clock = clock; blocks = []; matched = matched }
  | some n ↦
      let hit = hits_block size i n in
      let rest =
        lookup_from size (suc i) ts (if hit then touch (suc clock) n else n)
          (if hit then suc clock else clock) (if hit then suc i else matched) in
      record rest {
        node' = node d (put_child t rest.node' cs);
        blocks = if hit then (data_of n).block_id ∷ rest.blocks else rest.blocks;
      }
]

abbrev pub is_nil {ℓ} : {A : Type ℓ} → List A → Bool
is_nil [] = true
is_nil (x ∷ xs) = false

-- The new cache, `cached_blocks` and `matched_tokens`.
unfoldable pub lookup : List TokenId → PrefixCache → PrefixCache × List BlockId × ℕ
unfolding lookup_from
lookup prefix c =
    let f = lookup_from c.block_size 0 prefix c.root c.access_clock 0 in
    (
      record c {
        root = f.node';
        access_clock = f.clock;
        stats = record (c.stats) {
          lookups = suc c.stats.lookups;
          hits = if is_nil f.blocks then c.stats.hits else suc c.stats.hits;
          misses = if is_nil f.blocks then suc c.stats.misses else c.stats.misses;
        };
      },
      f.blocks,
      f.matched,
    )

-- What the loop of `insert` leaves.
pub record Inserted : Type 0 where
  pub node' : PrefixTrieNode
  pub clock : ℕ
  pub added : ℕ
  pub manager : BlockManager

-- The node of the last token of a block, and the manager: a node without a block gets `b`.
unfoldable pub fill_node : ℕ → BlockId → PrefixTrieNode → BlockManager → Option BlockManager
unfolding increment_ref
fill_node size b n bm = if is_invalid (data_of n).block_id then increment_ref b cuda bm else some bm

abbrev pub filled : ℕ → BlockId → ℕ → PrefixTrieNode → PrefixTrieNode
filled size b clock n =
    if is_invalid (data_of n).block_id
    then set_data
        (record { block_id = b; tokens_in_block = size; last_access = clock; ref_count = pos 1 }) n
    else touch clock n

abbrev pub child_or_new : TokenId → Children → PrefixTrieNode
child_or_new t cs = elim (find_child t cs) [ none ↦ new_node | some n ↦ n ]

abbrev pub under : TokenId → NodeData → Children → ℕ → Option Inserted → Option Inserted
under t d cs added none = none
under t d cs added (some r) =
    some (record r { node' = node d (put_child t r.node' cs); added = added + r.added })

-- The loop ends when the tokens or the blocks run out; `blocks` are those from `block_idx` on.
unfoldable pub insert_from :
    ℕ → ℕ → List TokenId → List BlockId → PrefixTrieNode → ℕ → BlockManager → Option Inserted
unfolding find_child put_child fill_node
insert_from size i [] blocks n clock bm =
    some (record { node' = n; clock = clock; added = 0; manager = bm })
insert_from size i (t ∷ ts) [] n clock bm =
    some (record { node' = n; clock = clock; added = 0; manager = bm })
insert_from size i (t ∷ ts) (b ∷ bs) (node d cs) clock bm =
    let n = child_or_new t cs in
    let inside : Option Inserted =
      under t d cs 0 (insert_from size (suc i) ts (b ∷ bs) n clock bm) in
    let at_end : Option Inserted = elim (fill_node size b n bm) [
      | none ↦ none
      | some bm' ↦
          under t d cs (if is_invalid (data_of n).block_id then 1 else 0)
            (insert_from size (suc i) ts bs (filled size b (suc clock) n) (suc clock) bm')
    ] in
    if ends_block size i then at_end else inside

-- The cache and the manager after the loop.
abbrev pub put_result : PrefixCache → Option Inserted → Option (PrefixCache × BlockManager)
put_result c none = none
put_result c (some r) = some (
  record c {
    root = r.node';
    access_clock = r.clock;
    stats = record (c.stats) {
      insertions = c.stats.insertions + r.added;
      cached_blocks = c.stats.cached_blocks + r.added;
    };
  },
  r.manager,
)

unfoldable pub insert :
    List TokenId → List BlockId → PrefixCache → BlockManager → Option (PrefixCache × BlockManager)
unfolding insert_from
insert tokens blocks c bm =
    put_result c (insert_from c.block_size 0 tokens blocks c.root c.access_clock bm)

unfoldable pub release_from : ℕ → ℕ → List TokenId → PrefixTrieNode → PrefixTrieNode
unfolding find_child put_child
release_from size i [] n = n
release_from size i (t ∷ ts) (node d cs) = elim (find_child t cs) [
  | none ↦ node d cs
  | some n ↦
      let n' =
        if hits_block size i n
        then set_data (record (data_of n) { ref_count = predℤ (data_of n).ref_count }) n
        else n in
      node d (put_child t (release_from size (suc i) ts n') cs)
]

unfoldable pub release : List TokenId → PrefixCache → PrefixCache
unfolding release_from
release prefix c = record c { root = release_from c.block_size 0 prefix c.root }

abbrev pub Candidate : Type 0
Candidate = ℕ × BlockId

abbrev pub candidate_of : NodeData → List Candidate
candidate_of d =
    if not (is_invalid d.block_id) && is_nonpos d.ref_count
    then (d.last_access, d.block_id) ∷ []
    else []

unfoldable mutual
  pub collect_eviction_candidates : PrefixTrieNode → List Candidate
  collect_eviction_candidates (node d cs) = candidate_of d ++ collect_children cs

  pub collect_children : Children → List Candidate
  collect_children leaf = []
  collect_children (child t n cs) = collect_eviction_candidates n ++ collect_children cs

-- `<` on pairs.
abbrev pub earlier : Candidate → Candidate → Bool
earlier a b = if ltb a.0 b.0 then true else if a.0 == b.0 then ltbℤ a.1 b.1 else false

unfoldable pub insert_sorted : Candidate → List Candidate → List Candidate
insert_sorted c [] = c ∷ []
insert_sorted c (e ∷ es) = if earlier e c then e ∷ insert_sorted c es else c ∷ e ∷ es

-- `std::sort`; equal pairs cannot be told apart.
unfoldable pub sort : List Candidate → List Candidate
unfolding insert_sorted
sort [] = []
sort (c ∷ cs) = insert_sorted c (sort cs)

-- The loop of `evict_lru` with `n` blocks still to free; `cached_blocks` is a `size_t`.
unfoldable pub evict_loop :
    ℕ → List Candidate → Stats → BlockManager → Option (Stats × BlockManager)
unfolding decrement_ref
evict_loop n [] st bm = some (st, bm)
evict_loop zero (c ∷ cs) st bm = some (st, bm)
evict_loop (suc n) (c ∷ cs) st bm = elim (decrement_ref c.1 cuda bm) [
  | none ↦ none
  | some bm' ↦
      evict_loop n cs
        (record st {
          evictions = suc st.evictions;
          cached_blocks = (st.cached_blocks + 2 ^ 64 - 1) % 2 ^ 64;
        })
        bm'
]

-- The trie is left as it is.
unfoldable pub evict_lru : ℕ → PrefixCache → BlockManager → Option (PrefixCache × BlockManager)
unfolding collect_eviction_candidates sort evict_loop
evict_lru n c bm = elim (evict_loop n (sort (collect_eviction_candidates c.root)) c.stats bm) [
  | none ↦ none
  | some (st, bm') ↦ some (record c { stats = st }, bm')
]

unfoldable pub reset_stats : PrefixCache → PrefixCache
reset_stats c = record c { stats = no_stats }

abbrev pub num_cached_blocks : PrefixCache → ℕ
num_cached_blocks c = c.stats.cached_blocks

abbrev pub num_cached_prefixes : PrefixCache → ℕ
num_cached_prefixes c = c.stats.insertions
