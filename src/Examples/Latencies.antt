-- ===== src/Examples/Latencies.antt =====
-- A histogram of three bins with four readings.
use cache_flow.Base.{ℕ, suc, ◌+◌, ◌≡◌, refl, [], ◌∷◌, some, arith}
use cache_flow.Histogram.{
  Reading, Histogram, record_value, percentile, IsSummed, IsFirst, sum, record_value-IsSummed,
  percentile-IsFirst,
}

abbrev readings : Histogram
readings = record { bins = 2 ∷ 0 ∷ 2 ∷ []; underflow = 1; overflow = 0; total = 4 }

record_value-IsSummed_example :
    (h' : Histogram) × (record_value (Reading.within 5) readings ≡ some h')
    × IsSummed h'
    × (h'.underflow + h'.overflow + h'.total
        ≡ suc (readings.underflow + readings.overflow + readings.total))
unfolding sum
record_value-IsSummed_example = record_value-IsSummed (Reading.within 5) readings (omega arith) refl

-- Three of four readings are reached in the last bin.
percentile-IsFirst_example :
    (j : ℕ) × (percentile 3 readings ≡ some j) × IsFirst 3 0 readings.bins j
unfolding sum
percentile-IsFirst_example = percentile-IsFirst 3 readings (omega arith) refl (omega arith)
