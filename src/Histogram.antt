-- ===== src/Histogram.antt =====
-- `LatencyHistogram` of include/utils/perf/latency_tracker.hpp: 64 buckets, one for each highest bit
-- of a number of cycles. Its report is output and not modelled.
mod Tests
use hft_system.Prelude.{
  ℕ, zero, suc, ◌+◌, ◌*◌, ◌%◌, ◌^◌, ◌≤◌, ◌<◌, ◌≡◌, refl, arith, ◌⊎◌, inl, inr, List, length, get_or,
  set, replicate, length-set, get_or-set_self, get_or-set_ne, leb, if◌then◌else◌, dec_le,
  ℕ_discrete, ◌-◌, ◌≢◌, ◌∙◌,
}

pub record LatencyHistogram : Type 0 where
  pub buckets : List ℕ
  pub total_samples : ℕ

abbrev pub empty_histogram : LatencyHistogram
empty_histogram = record { buckets = replicate 64 0; total_samples = 0 }

-- The highest bit of `cycles` among the bits 0 to `b`; 0 if there is none.
highest_bit : ℕ → ℕ → ℕ
highest_bit cycles zero = 0
highest_bit cycles (suc b) =
    let rest = highest_bit cycles b in if leb (2 ^ suc b) cycles then suc b else rest

-- `(cycles == 0) ? 0 : (63 - __builtin_clzll(cycles))`
pub bucket_of : ℕ → ℕ
unfolding highest_bit
bucket_of cycles = highest_bit cycles 63

pub record_sample : LatencyHistogram → ℕ → LatencyHistogram
record_sample h cycles = record {
  buckets = set h.buckets (bucket_of cycles) ((get_or h.buckets (bucket_of cycles) 0 + 1) % 2 ^ 64);
  total_samples = (h.total_samples + 1) % 2 ^ 64;
}

-- `reset`
pub reset : LatencyHistogram → LatencyHistogram
reset h = record { buckets = replicate 64 0; total_samples = 0 }

highest_bit_bounds :
    (cycles b : ℕ)
    → cycles < 2 ^ suc b
    → (highest_bit cycles b ≤ b)
      × (cycles < 2 ^ suc (highest_bit cycles b))
      × (((cycles ≡ 0) × (highest_bit cycles b ≡ 0)) ⊎ (2 ^ highest_bit cycles b ≤ cycles))
unfolding highest_bit
highest_bit_bounds cycles zero h = grind arith
highest_bit_bounds cycles (suc b) h = elim (dec_le (2 ^ suc b) cycles) [
  | yes le ↦ ground arith
  | no gt ↦ let (a, c, d) = highest_bit_bounds cycles b (omega arith) in ground arith
]

-- In a histogram of 64 buckets where the bucket of the sample is below its largest count,
-- recording a sample of 64 bits adds 1 to the bucket whose power of two it reaches and whose
-- double it stays below (a sample of 0 goes to bucket 0), and leaves the others.
pub record_sample-bucket :
    (h : LatencyHistogram) (cycles b : ℕ)
    → length h.buckets ≡ 64
    → cycles < 2 ^ 64
    → get_or h.buckets (bucket_of cycles) 0 < 2 ^ 64 - 1
    → ((cycles < 2 ^ suc b)
        × (((cycles ≡ 0) × (b ≡ 0)) ⊎ (2 ^ b ≤ cycles))
        × (get_or (record_sample h cycles).buckets b 0 ≡ get_or h.buckets b 0 + 1))
      ⊎ ((bucket_of cycles ≢ b)
          × (get_or (record_sample h cycles).buckets b 0 ≡ get_or h.buckets b 0))
unfolding record_sample bucket_of
record_sample-bucket h cycles b len small room =
    let (a, c, d) = highest_bit_bounds cycles 63 small in
    elim (ℕ_discrete (highest_bit cycles 63) b) [
      | yes e ↦ inl (
        rw (← e) c,
        rw (← e) d,
        rw (← e)
            (get_or-set_self h.buckets (highest_bit cycles 63) _ 0 (omega arith) ∙ omega arith),
      )
      | no ne ↦ inr (ne, get_or-set_ne h.buckets (highest_bit cycles 63) b _ 0 ne)
    ]
