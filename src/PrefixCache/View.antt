-- ===== src/PrefixCache/View.antt =====
-- The trie seen as a function: the block that is cached for a path of tokens, if there is one.
use cache_flow.Base.{
  ℕ, suc, ◌≡◌, refl, List, [], ◌∷◌, Option, none, some, Bool, false, if◌then◌else◌, Bool-cases,
  Option-cases, inl, inr, ◌∙◌, ap, sym,
}
use cache_flow.Base.Int.{◌==ℤ◌, ==ℤ-eq}
use cache_flow.Common.{TokenId, BlockId, invalid_block}
use cache_flow.PrefixCache.{
  PrefixTrieNode, NodeData, Children, node, leaf, child, data_of, set_data, find_child, put_child,
  touch, hits_block, lookup_from, release_from,
}

-- The block at the end of a path from a node.
unfoldable pub view : List TokenId → PrefixTrieNode → BlockId
view [] n = (data_of n).block_id
view (t ∷ ts) (node d cs) = elim (find_child t cs) [ none ↦ invalid_block | some n ↦ view ts n ]

pub find_child-put_child :
    (t u : TokenId) (n : PrefixTrieNode) (cs : Children)
    → find_child u (put_child t n cs) ≡ (if t ==ℤ u then some n else find_child u cs)
unfolding find_child put_child
find_child-put_child t u n leaf = refl
find_child-put_child t u n (child v m cs) = elim (Bool-cases (v ==ℤ t)) [
  | inl e ↦
      let same : (v ==ℤ u) ≡ (t ==ℤ u) = ap (λ x. x ==ℤ u) (==ℤ-eq v t e) in
      elim (Bool-cases (t ==ℤ u)) [
        | inl h ↦ rw (e, put_child) (rw (same, h, find_child))
        | inr h ↦ rw (e, put_child) (rw (same, h, find_child))
      ]
  | inr e ↦ elim (Bool-cases (t ==ℤ u)) [
    | inl h ↦
        let apart : (v ==ℤ u) ≡ false = ap (λ x. v ==ℤ x) (sym (==ℤ-eq t u h)) ∙ e in
        rw (e, put_child) (rw (apart, h, find_child) (find_child-put_child t u n cs ∙ rw h))
    | inr h ↦
        let rest : find_child u (put_child t n cs) ≡ find_child u cs =
          find_child-put_child t u n cs ∙ rw h in
        rw (e, put_child) (rw h (ap (λ o. if v ==ℤ u then some m else o) rest))
  ]
]

-- A node with other data but the same block has the same view.
pub view-set_data :
    (d : NodeData) (n : PrefixTrieNode)
    → d.block_id ≡ (data_of n).block_id
    → (q : List TokenId) → view q (set_data d n) ≡ view q n
unfolding view
view-set_data d (node e cs) h [] = h
view-set_data d (node e cs) h (t ∷ ts) = refl

abbrev pub via : List TokenId → Option PrefixTrieNode → BlockId
via q none = invalid_block
via q (some n) = view q n

pub view-find_child :
    (d : NodeData) (u : TokenId) (cs : Children) (q : List TokenId)
    → view (u ∷ q) (node d cs) ≡ via q (find_child u cs)
unfolding view
view-find_child d u cs q = elim (Option-cases (find_child u cs)) [
  | inl e ↦ rw (e, view)
  | inr (n, e) ↦ rw (e, view)
]

-- The view after the child of `t` was replaced.
pub view-put_child :
    (d : NodeData) (t u : TokenId) (n : PrefixTrieNode) (cs : Children) (q : List TokenId)
    → view (u ∷ q) (node d (put_child t n cs))
      ≡ (if t ==ℤ u then view q n else via q (find_child u cs))
view-put_child d t u n cs q =
    view-find_child d u (put_child t n cs) q
    ∙ ap (via q) (find_child-put_child t u n cs)
    ∙ elim (Bool-cases (t ==ℤ u)) [ inl e ↦ rw e | inr e ↦ rw e ]

-- A view that is kept at the child of `t` is kept.
pub view-put_same :
    (d : NodeData) (t : TokenId) (m n : PrefixTrieNode) (cs : Children)
    → find_child t cs ≡ some m
    → ((q : List TokenId) → view q n ≡ view q m)
    → (q : List TokenId) → view q (node d (put_child t n cs)) ≡ view q (node d cs)
unfolding view
view-put_same d t m n cs e h [] = refl
view-put_same d t m n cs e h (u ∷ us) = view-put_child d t u n cs us ∙ elim (Bool-cases (t ==ℤ u)) [
  | inl k ↦ rw k (
      h us
      ∙ ap (via us) (sym e ∙ ap (λ x. find_child x cs) (==ℤ-eq t u k))
      ∙ sym (view-find_child d u cs us))
  | inr k ↦ rw k (sym (view-find_child d u cs us))
]

abbrev hit_touch : Bool → ℕ → PrefixTrieNode → PrefixTrieNode
hit_touch hit clock n = if hit then touch clock n else n

-- `lookup` changes no path's block.
pub lookup_from-view :
    (size i : ℕ) (ts : List TokenId) (n : PrefixTrieNode) (clock matched : ℕ) (q : List TokenId)
    → view q (lookup_from size i ts n clock matched).node' ≡ view q n
unfolding lookup_from
lookup_from-view size i [] n clock matched q = refl
lookup_from-view size i (t ∷ ts) (node d cs) clock matched q =
    elim (Option-cases (find_child t cs)) [
      | inl e ↦ rw (e, lookup_from)
      | inr (n, e) ↦
          rw (e, lookup_from)
            (elim (Bool-cases (hits_block size i n)) [
              | inl h ↦ rw h (
                  view-put_same d t n _ cs e
                    (λ r. lookup_from-view size (suc i) ts _ _ _ r ∙ view-set_data _ n refl r) q)
              | inr h ↦
                  rw h
                    (view-put_same d t n _ cs e (λ r. lookup_from-view size (suc i) ts n _ _ r) q)
            ])
    ]

-- `release` changes no path's block.
pub release_from-view :
    (size i : ℕ) (ts : List TokenId) (n : PrefixTrieNode) (q : List TokenId)
    → view q (release_from size i ts n) ≡ view q n
unfolding release_from
release_from-view size i [] n q = refl
release_from-view size i (t ∷ ts) (node d cs) q = elim (Option-cases (find_child t cs)) [
  | inl e ↦ rw (e, release_from)
  | inr (n, e) ↦
      rw (e, release_from)
        (elim (Bool-cases (hits_block size i n)) [
          | inl h ↦ rw h (
              view-put_same d t n _ cs e
                (λ r. release_from-view size (suc i) ts _ r ∙ view-set_data _ n refl r) q)
          | inr h ↦ rw h (view-put_same d t n _ cs e (release_from-view size (suc i) ts n) q)
        ])
]
