-- ===== src/Histogram/Tests.antt =====
-- Values in the histogram of include/LatencyHistogram.hpp.
use mini_hft.Base.{◌-◌, ◌*◌, ◌≤◌, ◌<◌, ◌≡◌, refl, [], ◌∷◌, arith}
use mini_hft.Histogram.{index_of, lowest_equivalent, highest_equivalent, shift_of, bucket_count}
use mini_hft.Histogram.Buckets.{index_of_bounds}
use mini_hft.Histogram.Counts.{Summary, record_all, record_all-Summary}

index_of_1000 : index_of 1000 ≡ 317
unfolding index_of shift_of
index_of_1000 = refl

highest_of_317 : highest_equivalent 317 ≡ 1007
unfolding highest_equivalent lowest_equivalent
highest_of_317 = refl

index_of_bounds_example :
    (index_of 1000 < bucket_count)
    × (lowest_equivalent (index_of 1000) ≤ 1000)
    × (1000 ≤ highest_equivalent (index_of 1000))
    × (64 * (highest_equivalent (index_of 1000) - 1000) ≤ 1000)
    × (1000 < 128
        → (lowest_equivalent (index_of 1000) ≡ 1000) × (highest_equivalent (index_of 1000) ≡ 1000))
index_of_bounds_example = index_of_bounds 1000 (omega arith)

record_all-Summary_example : Summary (1000 ∷ 5 ∷ []) (record_all (1000 ∷ 5 ∷ []))
record_all-Summary_example = record_all-Summary (1000 ∷ 5 ∷ []) (omega arith)
