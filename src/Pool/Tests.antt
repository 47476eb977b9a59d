-- ===== src/Pool/Tests.antt =====
-- Runs of `MemPool` of include/utils/containers/memory_pool.hpp, and its theorems at a pool of two
-- blocks.
use hft_system.Prelude.{ℕ, ◌+◌, ◌<◌, ◌≤◌, ◌≡◌, refl, ◌⊎◌, true, false, none, some, length, set}
use hft_system.Pool.{MemPool, make_pool, free_at, find_free, allocate, deallocate}
use hft_system.Pool.Count.{count_free, IsReady, allocate-count_free, deallocate-count_free}

abbrev two : MemPool ℕ
two = make_pool 2 0

abbrev half : MemPool ℕ
half = record {
  blocks = set two.blocks 0 (record { object = 7; is_free = false });
  next_free_index = 1;
}

first : allocate two 7 ≡ some (0, half)
unfolding allocate find_free
first = refl

-- One block is free, and yet the process ends.
second : allocate half 8 ≡ none
unfolding allocate find_free
second = refl

allocate-count_free_example :
    ((count_free two.blocks ≡ 1) × (allocate two 7 ≡ none))
    ⊎ ((p' : MemPool ℕ) × (allocate two 7 ≡ some (0, p'))
        × (p'.blocks ≡ set two.blocks 0 (record { object = 7; is_free = false }))
        × (count_free p'.blocks + 1 ≡ count_free two.blocks)
        × IsReady p')
allocate-count_free_example = allocate-count_free two 7 refl

deallocate-count_free_example :
    ((p' : MemPool ℕ) × (0 < length half.blocks)
      × (free_at half.blocks 0 ≡ false)
      × (deallocate 0 half 0 ≡ some p')
      × (free_at p'.blocks 0 ≡ true)
      × (count_free p'.blocks ≡ count_free half.blocks + 1)
      × IsReady p')
    ⊎ (((free_at half.blocks 0 ≡ true) ⊎ (length half.blocks ≤ 0)) × (deallocate 0 half 0 ≡ none))
deallocate-count_free_example = deallocate-count_free 0 half 0 refl
