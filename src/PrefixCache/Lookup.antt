-- ===== src/PrefixCache/Lookup.antt =====
-- What `lookup` finds, in terms of the view alone.
use cache_flow.Base.{
  ℕ, suc, ◌+◌, ◌≡◌, refl, List, [], ◌∷◌, some, arith, Bool, false, not, if◌then◌else◌, ◌&&◌,
  Bool-cases, Option-cases, inl, inr, ◌∙◌, ap, sym,
}
use cache_flow.Common.{TokenId, BlockId, invalid_block, is_invalid}
use cache_flow.PrefixCache.{
  PrefixCache, PrefixTrieNode, NodeData, Children, node, data_of, find_child, touch, ends_block,
  hits_block, Found, lookup_from, lookup,
}
use cache_flow.PrefixCache.View.{view, via, view-find_child, view-set_data, lookup_from-view}

-- A cache as its users see it.
abbrev pub Blocks : Type 0
Blocks = List TokenId → BlockId

-- The cache below the token `t`.
abbrev pub below : TokenId → Blocks → Blocks
below t f q = f (t ∷ q)

abbrev pub is_cached : ℕ → ℕ → BlockId → Bool
is_cached size i b = ends_block size i && not (is_invalid b)

-- The blocks that are cached at the ends of the blocks of a prompt, in its order.
pub cached : ℕ → ℕ → List TokenId → Blocks → List BlockId
cached size i [] f = []
cached size i (t ∷ ts) f =
    let rest = cached size (suc i) ts (below t f) in
    if is_cached size i (f (t ∷ [])) then f (t ∷ []) ∷ rest else rest

-- The tokens up to the last such block.
pub covered : ℕ → ℕ → List TokenId → Blocks → ℕ → ℕ
covered size i [] f m = m
covered size i (t ∷ ts) f m =
    covered size (suc i) ts (below t f) (if is_cached size i (f (t ∷ [])) then suc i else m)

cached_ext :
    (size i : ℕ) (ts : List TokenId) (f g : Blocks)
    → ((q : List TokenId) → f q ≡ g q)
    → cached size i ts f ≡ cached size i ts g
unfolding cached
cached_ext size i [] f g h = refl
cached_ext size i (t ∷ ts) f g h =
    let rest = cached_ext size (suc i) ts (below t f) (below t g) (λ q. h (t ∷ q)) in
    rw (h (t ∷ []), rest)

covered_ext :
    (size i : ℕ) (ts : List TokenId) (f g : Blocks) (m : ℕ)
    → ((q : List TokenId) → f q ≡ g q)
    → covered size i ts f m ≡ covered size i ts g m
unfolding covered
covered_ext size i [] f g m h = refl
covered_ext size i (t ∷ ts) f g m h =
    rw (h (t ∷ [])) (covered_ext size (suc i) ts (below t f) (below t g) _ (λ q. h (t ∷ q)))

is_cached_none : (size i : ℕ) → is_cached size i invalid_block ≡ false
is_cached_none size i = elim (Bool-cases (ends_block size i)) [ inl e ↦ rw e | inr e ↦ rw e ]

-- Nothing is found where nothing is cached.
cached_none :
    (size i : ℕ) (ts : List TokenId) (f : Blocks)
    → ((q : List TokenId) → f q ≡ invalid_block)
    → cached size i ts f ≡ []
unfolding cached
cached_none size i [] f h = refl
cached_none size i (t ∷ ts) f h =
    rw (h (t ∷ []), is_cached_none size i)
      (cached_none size (suc i) ts (below t f) (λ q. h (t ∷ q)))

covered_none :
    (size i : ℕ) (ts : List TokenId) (f : Blocks) (m : ℕ)
    → ((q : List TokenId) → f q ≡ invalid_block)
    → covered size i ts f m ≡ m
unfolding covered
covered_none size i [] f m h = refl
covered_none size i (t ∷ ts) f m h =
    rw (h (t ∷ []), is_cached_none size i)
      (covered_none size (suc i) ts (below t f) m (λ q. h (t ∷ q)))

abbrev view_of : PrefixTrieNode → Blocks
view_of n q = view q n

-- What the walk of `lookup` returns.
record Finds (size i : ℕ) (ts : List TokenId) (n : PrefixTrieNode) (m : ℕ) (r : Found)
    : Type 0 where
  blocks : r.blocks ≡ cached size i ts (view_of n)
  matched : r.matched ≡ covered size i ts (view_of n) m

-- The walk below a child, seen from its parent, after the child was perhaps touched.
go_down :
    (size i m : ℕ) (t : TokenId) (ts : List TokenId) (d : NodeData) (cs : Children)
    (n n' : PrefixTrieNode) (r : Found)
    → find_child t cs ≡ some n
    → ((q : List TokenId) → view q n' ≡ view q n)
    → Finds size (suc i) ts n' m r
    → (r.blocks ≡ cached size (suc i) ts (below t (view_of (node d cs))))
      × (r.matched ≡ covered size (suc i) ts (below t (view_of (node d cs))) m)
go_down size i m t ts d cs n n' r e h f =
    let same : (q : List TokenId) → view q n' ≡ view (t ∷ q) (node d cs) =
      λ q. h q ∙ sym (view-find_child d t cs q ∙ ap (via q) e) in
    (
      f.blocks ∙ cached_ext size (suc i) ts (view_of n') (below t (view_of (node d cs))) same,
      f.matched ∙ covered_ext size (suc i) ts (view_of n') (below t (view_of (node d cs))) m same,
    )

lookup_from-Finds :
    (size i : ℕ) (ts : List TokenId) (n : PrefixTrieNode) (clock m : ℕ)
    → Finds size i ts n m (lookup_from size i ts n clock m)
unfolding lookup_from cached covered view
lookup_from-Finds size i [] n clock m = record { blocks = refl; matched = refl }
lookup_from-Finds size i (t ∷ ts) (node d cs) clock m = elim (Option-cases (find_child t cs)) [
  | inl e ↦
      let gone : (q : List TokenId) → view (t ∷ q) (node d cs) ≡ invalid_block =
        λ q. view-find_child d t cs q ∙ ap (via q) e in
      rw (e, lookup_from)
        (record {
          blocks = sym (
              rw (gone [], is_cached_none size i)
                (cached_none size (suc i) ts (below t (view_of (node d cs))) gone));
          matched = sym (
              rw (gone [], is_cached_none size i)
                (covered_none size (suc i) ts (below t (view_of (node d cs))) m gone));
        })
  | inr (n, e) ↦
      let own : view (t ∷ []) (node d cs) ≡ (data_of n).block_id =
        view-find_child d t cs [] ∙ ap (via []) e in
      rw (e, lookup_from)
        (elim (Bool-cases (hits_block size i n)) [
          | inl h ↦
              let (b, k) =
                go_down size i (suc i) t ts d cs n (touch (suc clock) n) _ e
                  (view-set_data _ n refl)
                  (lookup_from-Finds size (suc i) ts (touch (suc clock) n) (suc clock) (suc i)) in
              rw h (record {
                blocks = rw (own, h) (ap (◌∷◌ (data_of n).block_id) b);
                matched = rw (own, h) k;
              })
          | inr h ↦
              let (b, k) =
                go_down size i m t ts d cs n n _ e (λ q. refl)
                  (lookup_from-Finds size (suc i) ts n clock m) in
              rw h (record { blocks = rw (own, h) b; matched = rw (own, h) k })
        ])
]

-- The view of a whole cache.
abbrev pub view_cache : PrefixCache → Blocks
view_cache c q = view q c.root

pub record LooksUp (prefix : List TokenId) (c : PrefixCache)
    (result : PrefixCache × List BlockId × ℕ) : Type 0 where
  pub found : result.1 ≡ cached c.block_size 0 prefix (view_cache c)
  pub matched : result.2 ≡ covered c.block_size 0 prefix (view_cache c) 0
  pub kept : (q : List TokenId) → view_cache (result.0) q ≡ view_cache c q
  pub counted : result.0.stats.hits + result.0.stats.misses ≡ suc (c.stats.hits + c.stats.misses)
  pub lookups : result.0.stats.lookups ≡ suc c.stats.lookups

-- `lookup` returns the blocks that are cached at the block ends of the prompt, in its order, and
-- the number of tokens up to the last one. It counts a hit or a miss, and changes no path's block.
pub lookup-LooksUp : (prefix : List TokenId) (c : PrefixCache) → LooksUp prefix c (lookup prefix c)
unfolding lookup view
lookup-LooksUp prefix c =
    let f = lookup_from-Finds c.block_size 0 prefix c.root c.access_clock 0 in
    record {
      found = f.blocks;
      matched = f.matched;
      kept = lookup_from-view c.block_size 0 prefix c.root c.access_clock 0;
      counted = ground arith;
      lookups = refl;
    }
