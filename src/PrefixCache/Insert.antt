-- ===== src/PrefixCache/Insert.antt =====
-- What `insert` leaves, in terms of the view alone.
use cache_flow.Base.{
  ℕ, suc, ◌≡◌, refl, List, [], ◌∷◌, Option, none, some, Bool, true, false, if◌then◌else◌, ◌&&◌,
  Bool-cases, Option-cases, inl, inr, ◌∙◌, ap,
}
use cache_flow.Base.Int.{◌==ℤ◌, ==ℤ-eq}
use cache_flow.Common.{TokenId, BlockId, invalid_block, is_invalid}
use cache_flow.PrefixCache.{insert, put_result}
use cache_flow.BlockManager.{BlockManager}
use cache_flow.PrefixCache.{
  PrefixCache, PrefixTrieNode, NodeData, Children, node, find_child, put_child, new_node,
  ends_block, Inserted, fill_node, filled, child_or_new, under, insert_from,
}
use cache_flow.PrefixCache.View.{view, via, view-find_child, view-put_child}
use cache_flow.PrefixCache.Lookup.{Blocks, view_cache}

-- The block that `insert` has for a path: the `k`-th block for the first `k` blocks of tokens.
pub offered : ℕ → ℕ → List TokenId → List BlockId → List TokenId → Option BlockId
offered size i [] bs q = none
offered size i (t ∷ ts) [] q = none
offered size i (t ∷ ts) (b ∷ bs) [] = none
offered size i (t ∷ ts) (b ∷ bs) (u ∷ []) = if (t ==ℤ u) && ends_block size i then some b else none
offered size i (t ∷ ts) (b ∷ bs) (u ∷ v ∷ vs) =
    let rest = offered size (suc i) ts (if ends_block size i then bs else b ∷ bs) (v ∷ vs) in
    if t ==ℤ u then rest else none

-- A path that has a block keeps it.
abbrev pub keep : Option BlockId → BlockId → BlockId
keep none b = b
keep (some o) b = if is_invalid b then o else b

abbrev Merges : Blocks → Option Inserted → Type 0
Merges f none = Unit
Merges f (some r) = (q : List TokenId) → view q r.node' ≡ f q

pub no_blocks : (q : List TokenId) → view q new_node ≡ invalid_block
unfolding view find_child
no_blocks [] = refl
no_blocks (t ∷ ts) = refl

view-child_or_new :
    (t : TokenId) (cs : Children) (q : List TokenId)
    → view q (child_or_new t cs) ≡ via q (find_child t cs)
view-child_or_new t cs q = elim (Option-cases (find_child t cs)) [
  | inl e ↦ rw (e, child_or_new) (no_blocks q)
  | inr (n, e) ↦ rw (e, child_or_new)
]

-- Under the token `t` the new view, and the old one elsewhere.
abbrev replaced : TokenId → NodeData → Children → Blocks → Blocks
replaced t d cs f [] = d.block_id
replaced t d cs f (u ∷ us) = if t ==ℤ u then f us else via us (find_child u cs)

replaced_child :
    (t : TokenId) (d : NodeData) (cs : Children) (f : Blocks) (n : PrefixTrieNode)
    → ((q : List TokenId) → view q n ≡ f q)
    → (q : List TokenId) → view q (node d (put_child t n cs)) ≡ replaced t d cs f q
unfolding view
replaced_child t d cs f n h [] = refl
replaced_child t d cs f n h (u ∷ us) =
    view-put_child d t u n cs us
    ∙ elim (Bool-cases (t ==ℤ u)) [ inl e ↦ rw e (h us) | inr e ↦ rw e ]

under-Merges :
    (t : TokenId) (d : NodeData) (cs : Children) (added : ℕ) (f : Blocks) (o : Option Inserted)
    → Merges f o
    → Merges (replaced t d cs f) (under t d cs added o)
unfolding view
under-Merges t d cs added f none h = tt
under-Merges t d cs added f (some r) h = replaced_child t d cs f r.node' h

Merges-ext :
    (f g : Blocks) (o : Option Inserted)
    → ((q : List TokenId) → f q ≡ g q)
    → Merges f o
    → Merges g o
Merges-ext f g none h k = tt
Merges-ext f g (some r) h k = λ q. k q ∙ h q

view-filled :
    (size : ℕ) (b : BlockId) (clock : ℕ) (n : PrefixTrieNode) (t : TokenId) (q : List TokenId)
    → view (t ∷ q) (filled size b clock n) ≡ view (t ∷ q) n
unfolding view
view-filled size b clock (node d cs) t q = elim (Bool-cases (is_invalid d.block_id)) [
  | inl e ↦ rw e
  | inr e ↦ rw e
]

filled_block :
    (size : ℕ) (b : BlockId) (clock : ℕ) (n : PrefixTrieNode)
    → view [] (filled size b clock n) ≡ keep (some b) (view [] n)
unfolding view
filled_block size b clock (node d cs) = elim (Bool-cases (is_invalid d.block_id)) [
  | inl e ↦ rw e
  | inr e ↦ rw e
]

abbrev merged : ℕ → ℕ → List TokenId → List BlockId → PrefixTrieNode → Blocks
merged size i ts bs n q = keep (offered size i ts bs q) (view q n)

offered-nil : (size i : ℕ) (ts : List TokenId) (bs : List BlockId) → offered size i ts bs [] ≡ none
unfolding offered
offered-nil size i [] bs = refl
offered-nil size i (t ∷ ts) [] = refl
offered-nil size i (t ∷ ts) (b ∷ bs) = refl

-- One token further: the child of `t` has the view of `n`, which is that of the old child but for
-- the block that it may have got.
module _ (size i : ℕ) (t : TokenId) (ts : List TokenId) (b : BlockId) (bs : List BlockId)
    (d : NodeData) (cs : Children) (n : PrefixTrieNode) (hit : Bool)
    (ends : ends_block size i ≡ hit)
    (own : view [] n ≡ keep (if hit then some b else none) (via [] (find_child t cs)))
    (deep : (v : TokenId) (vs : List TokenId)
      → view (v ∷ vs) n ≡ via (v ∷ vs) (find_child t cs)) where
  same_child : (u : TokenId) → (t ==ℤ u) ≡ true → find_child t cs ≡ find_child u cs
  same_child u k = ap (λ x. find_child x cs) (==ℤ-eq t u k)

  further :
      (q : List TokenId)
      → replaced t d cs (merged size (suc i) ts (if hit then bs else b ∷ bs) n) q
        ≡ merged size i (t ∷ ts) (b ∷ bs) (node d cs) q
  unfolding view offered
  further [] = refl
  further (u ∷ []) = elim (Bool-cases (t ==ℤ u)) [
    | inl k ↦
        rw (k, ends, view-find_child d u cs [])
          (ap (λ o. keep o (view [] n)) (offered-nil size (suc i) ts (if hit then bs else b ∷ bs))
            ∙ own
            ∙ ap (λ x. keep (if hit then some b else none) (via [] x)) (same_child u k))
    | inr k ↦ rw (k, view-find_child d u cs [])
  ]
  further (u ∷ v ∷ vs) = elim (Bool-cases (t ==ℤ u)) [
    | inl k ↦
        rw (k, ends, view-find_child d u cs (v ∷ vs))
          (ap (keep (offered size (suc i) ts (if hit then bs else b ∷ bs) (v ∷ vs)))
            (deep v vs ∙ ap (via (v ∷ vs)) (same_child u k)))
    | inr k ↦ rw (k, view-find_child d u cs (v ∷ vs))
  ]

after_fill :
    (f : Blocks) (o : Option BlockManager) (k : BlockManager → Option Inserted)
    → ((bm : BlockManager) → Merges f (k bm))
    → Merges f (elim o [ none ↦ none | some bm ↦ k bm ])
after_fill f none k h = tt
after_fill f (some bm) k h = h bm

insert_from-Merges :
    (size i : ℕ) (ts : List TokenId) (bs : List BlockId) (n : PrefixTrieNode) (clock : ℕ)
    (bm : BlockManager)
    → Merges (merged size i ts bs n) (insert_from size i ts bs n clock bm)
unfolding insert_from offered
insert_from-Merges size i [] bs n clock bm = λ q. refl
insert_from-Merges size i (t ∷ ts) [] n clock bm = λ q. refl
insert_from-Merges size i (t ∷ ts) (b ∷ bs) (node d cs) clock bm =
    let n = child_or_new t cs in
    elim (Bool-cases (ends_block size i)) [
      | inl e ↦
          let n' = filled size b (suc clock) n in
          rw (e, insert_from)
            (after_fill _ (fill_node size b n bm) _ (λ bm'.
              Merges-ext _ (merged size i (t ∷ ts) (b ∷ bs) (node d cs)) _
                (further size i t ts b bs d cs n' true e
                  (filled_block size b (suc clock) n
                    ∙ ap (keep (some b)) (view-child_or_new t cs []))
                  (λ v vs. view-filled size b (suc clock) n v vs ∙ view-child_or_new t cs (v ∷ vs)))
                (under-Merges t d cs _ _ _
                  (insert_from-Merges size (suc i) ts bs n' (suc clock) bm'))))
      | inr e ↦
          rw (e, insert_from)
            (Merges-ext _ (merged size i (t ∷ ts) (b ∷ bs) (node d cs)) _
              (further size i t ts b bs d cs n false e (view-child_or_new t cs [])
                (λ v vs. view-child_or_new t cs (v ∷ vs)))
              (under-Merges t d cs 0 _ _ (insert_from-Merges size (suc i) ts (b ∷ bs) n clock bm)))
    ]

-- A call of `insert` that returns.
abbrev pub Inserts :
    List TokenId → List BlockId → PrefixCache → Option (PrefixCache × BlockManager) → Type 0
Inserts tokens blocks c none = Unit
Inserts tokens blocks c (some (c', bm)) =
    (q : List TokenId)
    → view_cache c' q ≡ keep (offered c.block_size 0 tokens blocks q) (view_cache c q)

Merges-Inserts :
    (tokens : List TokenId) (blocks : List BlockId) (c : PrefixCache) (o : Option Inserted)
    → Merges (merged c.block_size 0 tokens blocks c.root) o
    → Inserts tokens blocks c (put_result c o)
unfolding view
Merges-Inserts tokens blocks c none h = tt
Merges-Inserts tokens blocks c (some r) h = h

pub insert-Inserts :
    (tokens : List TokenId) (blocks : List BlockId) (c : PrefixCache) (bm : BlockManager)
    → Inserts tokens blocks c (insert tokens blocks c bm)
unfolding insert
insert-Inserts tokens blocks c bm =
    Merges-Inserts tokens blocks c _
      (insert_from-Merges c.block_size 0 tokens blocks c.root c.access_clock bm)
