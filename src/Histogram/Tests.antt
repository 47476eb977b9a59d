-- ===== src/Histogram/Tests.antt =====
-- Runs of `LatencyHistogram` of include/utils/perf/latency_tracker.hpp, and its theorem at one sample.
use hft_system.Prelude.{ℕ, ◌+◌, ◌^◌, ◌<◌, ◌≤◌, ◌≡◌, ◌≢◌, refl, arith, ◌⊎◌, get_or, suc}
use hft_system.Histogram.{
  empty_histogram, record_sample, bucket_of, highest_bit, record_sample-bucket,
}

abbrev nine : ℕ
nine = 9

abbrev bucket : ℕ
bucket = 3

bucket_of_nine : bucket_of 9 ≡ 3
unfolding bucket_of highest_bit
bucket_of_nine = refl

record_sample-bucket_example :
    ((nine < 2 ^ suc bucket)
      × (((nine ≡ 0) × (bucket ≡ 0)) ⊎ (2 ^ bucket ≤ nine))
      × (get_or (record_sample empty_histogram 9).buckets 3 0
          ≡ get_or empty_histogram.buckets 3 0 + 1))
    ⊎ ((bucket_of 9 ≢ 3)
        × (get_or (record_sample empty_histogram 9).buckets 3 0
            ≡ get_or empty_histogram.buckets 3 0))
unfolding bucket_of highest_bit
record_sample-bucket_example =
    record_sample-bucket empty_histogram 9 3 refl (omega arith) (omega arith)
