-- ===== src/Metrics/Latency.antt =====
-- src/cacheflow/profiler/metrics.h: the histogram with its range, and the values that it returns.
use cache_flow.Base.{
  ℕ, zero, suc, ◌==◌, if◌then◌else◌, List, [], ◌∷◌, Option, none, some, length, ◌≡◌, refl, ap,
}
use cache_flow.Platform.{Platform}
use cache_flow.Histogram.{Histogram, Reading, record_value}
use cache_flow.Histogram

abbrev pub replicate : ℕ → ℕ → List ℕ
replicate zero n = []
replicate (suc k) n = n ∷ replicate k n

-- `std::fill(bins_.begin(), bins_.end(), 0)`.
abbrev pub fill : List ℕ → List ℕ
fill [] = []
fill (n ∷ ns) = 0 ∷ fill ns

pub length-replicate : (k : ℕ) → length (replicate k 0) ≡ k
length-replicate zero = refl
length-replicate (suc k) = ap suc (length-replicate k)

pub length-fill : (ns : List ℕ) → length (fill ns) ≡ length ns
length-fill [] = refl
length-fill (n ∷ ns) = ap suc (length-fill ns)

module _ (platform : Platform) where
  open platform use {Double, nought, half, count, to_size, plus, minus, times, over, less, at_most}

  pub record LatencyHistogram : Type 0 where
    pub min_val : Double
    pub max_val : Double
    pub bin_width : Double
    pub histogram : Histogram

  unfoldable pub create : Double → Double → ℕ → LatencyHistogram
  create min_val max_val num_bins = record {
    min_val = min_val;
    max_val = max_val;
    bin_width = over (minus max_val min_val) (count num_bins);
    histogram = record { bins = replicate num_bins 0; underflow = 0; overflow = 0; total = 0 };
  }

  unfoldable pub reading : Double → LatencyHistogram → Reading
  reading v h =
      if less v h.min_val
      then Reading.below
      else if at_most h.max_val v
      then Reading.above
      else Reading.within (to_size (over (minus v h.min_val) h.bin_width))

  unfoldable pub record_latency : Double → LatencyHistogram → Option LatencyHistogram
  record_latency v h = elim (record_value (reading v h) h.histogram) [
    | none ↦ none
    | some counted ↦ some (record h { histogram = counted })
  ]

  unfoldable pub percentile : Double → LatencyHistogram → Double
  percentile p h =
      if h.histogram.total == 0
      then nought
      else elim (Histogram.percentile
          (to_size (over (times p (count h.histogram.total)) (count 100))) h.histogram) [
            | none ↦ h.max_val
            | some i ↦ plus h.min_val (times (plus (count i) half) h.bin_width)
          ]

  unfoldable pub reset : LatencyHistogram → LatencyHistogram
  reset h = record h {
    histogram = record { bins = fill h.histogram.bins; underflow = 0; overflow = 0; total = 0 };
  }
