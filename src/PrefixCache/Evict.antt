-- ===== src/PrefixCache/Evict.antt =====
-- Eviction: which blocks `evict_lru` gives up, and in which order.
use cache_flow.Base.{◌%◌, ◌^◌}
use cache_flow.Base.{
  ◌==◌, ◌&&◌, ℕ, zero, suc, ◌+◌, ◌-◌, ◌≤◌, ◌≡◌, refl, List, [], ◌∷◌, Option, some, arith, length,
  true, false, min, if◌then◌else◌, Bool-cases, inl, inr, ◌∙◌, ap, All,
}
use cache_flow.Base.Int.{◌==ℤ◌, ==ℤ_refl}
use cache_flow.Common.{BlockId, cuda}
use cache_flow.BlockManager.{BlockManager}
use cache_flow.BlockManager.Balance.{Refs, at_device, less}
use cache_flow.BlockManager.Accounts.{Accounts}
use cache_flow.BlockManager.Release.{decrement_ref-Keeps}
use cache_flow.PrefixCache.{
  PrefixCache, Stats, Candidate, earlier, insert_sorted, sort, evict_loop, evict_lru,
  collect_eviction_candidates,
}

-- How often the candidates name a block.
unfoldable pub named : BlockId → List Candidate → ℕ
named id [] = 0
named id (c ∷ cs) = (if id ==ℤ c.1 then 1 else 0) + named id cs

-- How often a candidate, with its last access, is in a list.
unfoldable pub times_candidate : Candidate → List Candidate → ℕ
times_candidate a [] = 0
times_candidate a (c ∷ cs) = (if (a.0 == c.0) && (a.1 ==ℤ c.1) then 1 else 0) + times_candidate a cs

-- The references of callers without those that the candidates stand for.
unfoldable pub dropped : List Candidate → Refs → Refs
dropped [] ext = ext
dropped (c ∷ cs) ext = dropped cs (at_device cuda (less c.1) ext)

abbrev pub take : ℕ → List Candidate → List Candidate
take zero cs = []
take (suc n) [] = []
take (suc n) (c ∷ cs) = c ∷ take n cs

-- The access at the head is not later than any other.
abbrev pub IsOldestFirst : List Candidate → Type 0
IsOldestFirst [] = Unit
IsOldestFirst (c ∷ cs) = All (λ (e : Candidate). c.0 ≤ e.0) cs × IsOldestFirst cs

named-insert_sorted :
    (id : BlockId) (c : Candidate) (cs : List Candidate)
    → named id (insert_sorted c cs) ≡ (if id ==ℤ c.1 then 1 else 0) + named id cs
unfolding named insert_sorted
named-insert_sorted id c [] = refl
named-insert_sorted id c (e ∷ es) = elim (Bool-cases (earlier e c)) [
  | inl h ↦ rw (h, insert_sorted) (omega (arith, named-insert_sorted id c es))
  | inr h ↦ rw (h, insert_sorted)
]

named-sort : (id : BlockId) (cs : List Candidate) → named id (sort cs) ≡ named id cs
unfolding named sort
named-sort id [] = refl
named-sort id (c ∷ cs) = omega (arith, named-insert_sorted id c (sort cs), named-sort id cs)

times_candidate-insert_sorted :
    (a c : Candidate) (cs : List Candidate)
    → times_candidate a (insert_sorted c cs)
      ≡ (if (a.0 == c.0) && (a.1 ==ℤ c.1) then 1 else 0) + times_candidate a cs
unfolding times_candidate insert_sorted
times_candidate-insert_sorted a c [] = refl
times_candidate-insert_sorted a c (e ∷ es) = elim (Bool-cases (earlier e c)) [
  | inl h ↦ rw (h, insert_sorted) (omega (arith, times_candidate-insert_sorted a c es))
  | inr h ↦ rw (h, insert_sorted)
]

times_candidate-sort :
    (a : Candidate) (cs : List Candidate) → times_candidate a (sort cs) ≡ times_candidate a cs
unfolding times_candidate sort
times_candidate-sort a [] = refl
times_candidate-sort a (c ∷ cs) =
    omega (arith, times_candidate-insert_sorted a c (sort cs), times_candidate-sort a cs)

length-insert_sorted :
    (c : Candidate) (cs : List Candidate) → length (insert_sorted c cs) ≡ suc (length cs)
unfolding insert_sorted
length-insert_sorted c [] = refl
length-insert_sorted c (e ∷ es) = elim (Bool-cases (earlier e c)) [
  | inl h ↦ rw (h, insert_sorted) (ap suc (length-insert_sorted c es))
  | inr h ↦ rw (h, insert_sorted)
]

length-sort : (cs : List Candidate) → length (sort cs) ≡ length cs
unfolding sort
length-sort [] = refl
length-sort (c ∷ cs) = length-insert_sorted c (sort cs) ∙ ap suc (length-sort cs)

earlier-le : (c e : Candidate) → earlier e c ≡ true → e.0 ≤ c.0
earlier-le c e h = ground arith

later-le : (c e : Candidate) → earlier e c ≡ false → c.0 ≤ e.0
later-le c e h = ground arith

All-insert_sorted :
    (n : ℕ) (c : Candidate) (cs : List Candidate)
    → n ≤ c.0
    → All (λ (e : Candidate). n ≤ e.0) cs
    → All (λ (e : Candidate). n ≤ e.0) (insert_sorted c cs)
unfolding insert_sorted
All-insert_sorted n c [] h k = (h, tt)
All-insert_sorted n c (e ∷ es) h k = elim (Bool-cases (earlier e c)) [
  | inl g ↦ rw (g, insert_sorted) (k.0, All-insert_sorted n c es h k.1)
  | inr g ↦ rw (g, insert_sorted) (h, (k.0, k.1))
]

All-le :
    (m n : ℕ) (cs : List Candidate)
    → m ≤ n
    → All (λ (e : Candidate). n ≤ e.0) cs
    → All (λ (e : Candidate). m ≤ e.0) cs
All-le m n [] h k = tt
All-le m n (c ∷ cs) h k = (omega (arith, h, k.0), All-le m n cs h k.1)

insert_sorted-IsOldestFirst :
    (c : Candidate) (cs : List Candidate) → IsOldestFirst cs → IsOldestFirst (insert_sorted c cs)
unfolding insert_sorted
insert_sorted-IsOldestFirst c [] k = (tt, tt)
insert_sorted-IsOldestFirst c (e ∷ es) k = elim (Bool-cases (earlier e c)) [
  | inl g ↦
      rw (g, insert_sorted)
        (All-insert_sorted e.0 c es (earlier-le c e g) k.0, insert_sorted-IsOldestFirst c es k.1)
  | inr g ↦
      rw (g, insert_sorted) ((later-le c e g, All-le c.0 e.0 es (later-le c e g) k.0), (k.0, k.1))
]

sort-IsOldestFirst : (cs : List Candidate) → IsOldestFirst (sort cs)
unfolding sort
sort-IsOldestFirst [] = tt
sort-IsOldestFirst (c ∷ cs) = insert_sorted-IsOldestFirst c (sort cs) (sort-IsOldestFirst cs)

one_less :
    (ext : Refs) (c : Candidate) (cs : List Candidate)
    → ((id : BlockId) → named id (c ∷ cs) ≤ ext cuda id)
    → (id : BlockId) → named id cs ≤ at_device cuda (less c.1) ext cuda id
unfolding named
one_less ext c cs h id = ground (arith, h id)

-- The loop after `n` evictions at most.
record Evicts (ext : Refs) (n : ℕ) (cs : List Candidate) (st : Stats)
    (o : Option (Stats × BlockManager)) : Type 0 where
  stats : Stats
  after : BlockManager
  runs : o ≡ some (stats, after)
  accounts : Accounts (dropped (take n cs) ext) after
  evictions : stats.evictions ≡ st.evictions + min n (length cs)

evict_loop-Evicts :
    (ext : Refs) (n : ℕ) (cs : List Candidate) (st : Stats) (bm : BlockManager)
    → Accounts ext bm
    → ((id : BlockId) → named id cs ≤ ext cuda id)
    → Evicts ext n cs st (evict_loop n cs st bm)
unfolding evict_loop dropped named
evict_loop-Evicts ext zero [] st bm a h = record {
  stats = st;
  after = bm;
  runs = refl;
  accounts = a;
  evictions = omega arith;
}
evict_loop-Evicts ext (suc n) [] st bm a h = record {
  stats = st;
  after = bm;
  runs = refl;
  accounts = a;
  evictions = omega arith;
}
evict_loop-Evicts ext zero (c ∷ cs) st bm a h = record {
  stats = st;
  after = bm;
  runs = refl;
  accounts = a;
  evictions = omega arith;
}
evict_loop-Evicts ext (suc n) (c ∷ cs) st bm a h =
    let positive : 1 ≤ ext cuda c.1 =
      omega (arith, h c.1, ap {B = ℕ} (λ b. if b then 1 else 0) (==ℤ_refl c.1)) in
    let k = decrement_ref-Keeps ext bm a cuda c.1 (ext cuda c.1 - 1) (omega (arith, positive)) in
    let st' : Stats = record st {
      evictions = suc st.evictions;
      cached_blocks = (st.cached_blocks + 2 ^ 64 - 1) % 2 ^ 64;
    } in
    let rest =
      evict_loop-Evicts (at_device cuda (less c.1) ext) n cs st' k.after k.accounts
        (one_less ext c cs h) in
    record {
      stats = rest.stats;
      after = rest.after;
      runs = rw (k.runs, evict_loop) rest.runs;
      accounts = rest.accounts;
      evictions = omega (arith, rest.evictions);
    }

-- If the books are kept and the callers hold a reference for every candidate, `evict_lru` returns.
-- There is an order of the candidates, each with its own last access and as often as it is there,
-- by the last access, the oldest first, so that a reference is given back for each of the first `n`,
-- or of all if they are fewer, and as many evictions are counted.
pub evict_lru-Evicts :
    (ext : Refs) (n : ℕ) (c : PrefixCache) (bm : BlockManager)
    → Accounts ext bm
    → ((id : BlockId) → named id (collect_eviction_candidates c.root) ≤ ext cuda id)
    → (c' : PrefixCache) × (bm' : BlockManager) × (order : List Candidate) × (evict_lru n c bm
        ≡ some (c', bm'))
      × IsOldestFirst order
      × ((a : Candidate)
          → times_candidate a order ≡ times_candidate a (collect_eviction_candidates c.root))
      × Accounts (dropped (take n order) ext) bm'
      × (c'.stats.evictions
          ≡ c.stats.evictions + min n (length (collect_eviction_candidates c.root)))
unfolding evict_lru
evict_lru-Evicts ext n c bm a h =
    let cs = collect_eviction_candidates c.root in
    let e =
      evict_loop-Evicts ext n (sort cs) c.stats bm a
        (λ id. omega (arith, h id, named-sort id cs)) in
    (
      record c { stats = e.stats },
      e.after,
      sort cs,
      rw (e.runs, evict_lru),
      sort-IsOldestFirst cs,
      λ a. times_candidate-sort a cs,
      e.accounts,
      omega (arith, e.evictions, length-sort cs),
    )
