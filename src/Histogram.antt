-- ===== src/Histogram.antt =====
-- src/cacheflow/profiler/metrics.h: the histogram of latencies.
--
-- A latency is a float. What the code computes from it is an argument: whether it lies below or
-- above the range, or the index that the division by the width of a bin gives. The target of a
-- percentile, the share of the total that a float product gives, is an argument too.
use cache_flow.Base.{
  ℕ, zero, suc, ◌+◌, ◌-◌, ◌≤◌, ◌<◌, ◌≡◌, ◌≢◌, refl, List, [], ◌∷◌, Option, none, some, arith,
  length, get_elem?, set, leb, if◌then◌else◌, Bool-cases, Option-cases, length-set, inl, inr, ◌∙◌,
  ap, get_elem?-some,
}

pub data Reading : Type 0 where
  below above : Reading
  within : ℕ → Reading

pub record Histogram : Type 0 where
  pub bins : List ℕ
  pub underflow : ℕ
  pub overflow : ℕ
  pub total : ℕ

-- `++bins_[i]`; `none` is an index out of range, which a histogram without bins has.
unfoldable pub count_in : ℕ → Histogram → Option Histogram
count_in i h = elim (get_elem? h.bins i) [
  | none ↦ none
  | some n ↦ some (record h { bins = set h.bins i (suc n); total = suc h.total })
]

unfoldable pub record_value : Reading → Histogram → Option Histogram
unfolding count_in
record_value Reading.below h = some (record h { underflow = suc h.underflow })
record_value Reading.above h = some (record h { overflow = suc h.overflow })
record_value (Reading.within i) h =
    count_in (if leb (length h.bins) i then length h.bins - 1 else i) h

-- The loop of `percentile` from the bin `i` on: the bin whose middle is returned, or `none`, for
-- which `max_val_` is returned.
unfoldable pub find_bin : ℕ → ℕ → ℕ → List ℕ → Option ℕ
find_bin target i cum [] = none
find_bin target i cum (n ∷ ns) =
    let later = find_bin target (suc i) (cum + n) ns in
    if leb target (cum + n) then some i else later

unfoldable pub percentile : ℕ → Histogram → Option ℕ
unfolding find_bin
percentile target h = find_bin target 0 0 h.bins

unfoldable pub sum : List ℕ → ℕ
sum [] = 0
sum (n ∷ ns) = n + sum ns

-- The sum of the first `i` bins.
pub sum_before : ℕ → List ℕ → ℕ
sum_before zero ns = 0
sum_before (suc i) [] = 0
sum_before (suc i) (n ∷ ns) = n + sum_before i ns

abbrev pub IsSummed : Histogram → Type 0
IsSummed h = sum h.bins ≡ h.total

sum-set : (ns : List ℕ) (i n : ℕ) → get_elem? ns i ≡ some n → sum (set ns i (suc n)) ≡ suc (sum ns)
unfolding sum
sum-set [] i n e = absurd (cc e)
sum-set (m ∷ ns) zero n e = let same : m ≡ n = cc e in omega (arith, same)
sum-set (m ∷ ns) (suc i) n e = omega (arith, sum-set ns i n e)

length-count_in :
    (i : ℕ) (h h' : Histogram) → count_in i h ≡ some h' → length h'.bins ≡ length h.bins
unfolding count_in
length-count_in i h h' e = elim (Option-cases (get_elem? h.bins i)) [
  | inl past ↦ absurd (cc (past, e))
  | inr (n, at) ↦
      let counted : record h { bins = set h.bins i (suc n); total = suc h.total } ≡ h' =
        cc (at, e) in
      rw (← counted) (length-set h.bins i (suc n))
]

-- A reading adds no bin.
pub length-record_value :
    (r : Reading) (h h' : Histogram) → record_value r h ≡ some h' → length h'.bins ≡ length h.bins
unfolding record_value
length-record_value Reading.below h h' e = cc
length-record_value Reading.above h h' e = cc
length-record_value (Reading.within i) h h' e =
    length-count_in (if leb (length h.bins) i then length h.bins - 1 else i) h h' e

count_in-IsSummed :
    (i : ℕ) (h : Histogram)
    → i < length h.bins
    → IsSummed h
    → (h' : Histogram) × (count_in i h ≡ some h')
      × IsSummed h'
      × (h'.underflow + h'.overflow + h'.total ≡ suc (h.underflow + h.overflow + h.total))
unfolding count_in
count_in-IsSummed i h inside v =
    let (n, e) = get_elem?-some h.bins i inside in
    (
      record h { bins = set h.bins i (suc n); total = suc h.total },
      rw (e, count_in),
      sum-set h.bins i n e ∙ ap suc v,
      omega arith,
    )

-- Every reading is counted once, in a histogram that has a bin: the call returns, the bins sum up
-- to the total if they did, and underflow, overflow and total together grow by one.
pub record_value-IsSummed :
    (r : Reading) (h : Histogram)
    → 0 < length h.bins
    → IsSummed h
    → (h' : Histogram) × (record_value r h ≡ some h')
      × IsSummed h'
      × (h'.underflow + h'.overflow + h'.total ≡ suc (h.underflow + h.overflow + h.total))
unfolding record_value
record_value-IsSummed Reading.below h z v = (_, refl, v, omega arith)
record_value-IsSummed Reading.above h z v = (_, refl, v, omega arith)
record_value-IsSummed (Reading.within i) h z v =
    count_in-IsSummed (if leb (length h.bins) i then length h.bins - 1 else i) h (ground arith) v

has_bin : (ns : List ℕ) → sum ns ≢ 0 → 0 < length ns
unfolding sum
has_bin [] h = absurd (h refl)
has_bin (n ∷ ns) h = omega arith

-- The bin that `percentile` stops at is the first at which the sum reaches the target.
abbrev pub IsFirst : ℕ → ℕ → List ℕ → ℕ → Type 0
IsFirst target cum ns j =
    (j < length ns)
    × (target ≤ cum + sum_before (suc j) ns)
    × ((k : ℕ) → k < j → cum + sum_before (suc k) ns < target)

next_bin :
    (target cum n : ℕ) (ns : List ℕ) (j : ℕ)
    → cum + n < target
    → IsFirst target (cum + n) ns j
    → IsFirst target cum (n ∷ ns) (suc j)
unfolding sum_before
next_bin target cum n ns j short (inside, reached, before) =
    (omega (arith, inside), omega (arith, reached), earlier_bins)
  where
    earlier_bins : (k : ℕ) → k < suc j → cum + (n + sum_before k ns) < target
    earlier_bins zero l = omega (arith, short)
    earlier_bins (suc k) l = omega (arith, before k (omega (arith, l)))

find_bin-IsFirst :
    (target i cum : ℕ) (ns : List ℕ)
    → target ≤ cum + sum ns
    → 0 < length ns
    → (j : ℕ) × (find_bin target i cum ns ≡ some (i + j)) × IsFirst target cum ns j
unfolding find_bin sum sum_before
find_bin-IsFirst target i cum [] h z = absurd (omega (arith, z))
find_bin-IsFirst target i cum (n ∷ ns) h z = elim (Bool-cases (leb target (cum + n))) [
  | inl e ↦
      let reached : target ≤ cum + n = ground arith in
      (
        0,
        rw e (ap some (omega arith)),
        (omega arith, omega (arith, reached), λ k l. absurd (omega (arith, l))),
      )
  | inr e ↦
      let short : cum + n < target = ground arith in
      let (j, r, first) =
        find_bin-IsFirst target (suc i) (cum + n) ns (omega (arith, h))
          (has_bin ns (λ z. absurd (omega (arith, z, h, short)))) in
      (suc j, rw e (r ∙ ap some (omega arith)), next_bin target cum n ns j short first)
]

-- With a bin, and with bins that sum up to the total, a target within the total is found: the bin
-- returned is the first at which the sum of the bins reaches the target.
pub percentile-IsFirst :
    (target : ℕ) (h : Histogram)
    → 0 < length h.bins
    → IsSummed h
    → target ≤ h.total
    → (j : ℕ) × (percentile target h ≡ some j) × IsFirst target 0 h.bins j
unfolding percentile
percentile-IsFirst target h z v t =
    let (j, r, first) = find_bin-IsFirst target 0 0 h.bins (omega (arith, v, t)) z in
    (j, r ∙ ap some (omega arith), first)
