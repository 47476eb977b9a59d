-- ===== src/OrderBook/AskAdd/Branches.antt =====
-- The branches of a new or changed quote of the asks, in `addUpdate` of
-- include/market_data/order_book/order_book.h.
use hft_system.Prelude.{ℕ, ◌+◌, ◌^◌, ◌≤◌, ◌<◌, ◌≡◌, ◌≢◌, arith, inl, inr, ◌⊎◌}
use hft_system.Prelude.Int.{
  ℤ, pos, abs, ◌-ℤ◌, ◌+ℤ◌, ◌≤ℤ◌, ◌<ℤ◌, to_int32, parts_split, -ℤ_parts, +ℤ_parts,
}
use hft_system.OrderBook.{
  BookSide, level, write, slot_of, add_ask, add_ask_single, best_price, worst_price, add_first,
  add_inside, add_best, add_worst,
}
use hft_system.OrderBook.Slots.{dist}
use hft_system.OrderBook.Window.Reach.{Reaches}

-- The price is so near both ends that the casts to `int` keep the distances.
abbrev pub IsNear : BookSide → ℤ → Type 0
IsNear s price = (abs (price -ℤ best_price s) < 2 ^ 31) × (abs (price -ℤ worst_price s) < 2 ^ 31)

abbrev pub far_below : BookSide → ℤ → ℕ
far_below s price = dist price (best_price s)

abbrev pub far_above : BookSide → ℤ → ℕ
far_above s price = dist (worst_price s) price

-- What the code takes: at most 64 ticks outside the quoted prices, and, unless there is one level
-- only, without an index that leaves the array.
abbrev pub AskTakes : BookSide → ℤ → Type 0
AskTakes s price =
    (s.num ≡ 0)
    ⊎ ((far_below s price ≤ 64)
        × (far_above s price ≤ 64)
        × ((s.best ≡ s.worst)
            ⊎ ((far_below s price ≤ s.best) × (s.worst + far_above s price < 256))))

-- The array is not wrapped, or the price fits into one window with those quoted.
abbrev pub AskFits : BookSide → ℤ → Type 0
AskFits s price =
    (s.num ≡ 0)
    ⊎ (IsNear s price × ((s.best ≤ s.worst) ⊎ Reaches (best_price s) (worst_price s) price))

module _ (s : BookSide) (price quantity : ℤ) where
  abbrev pub index : ℕ
  index = slot_of s price

  pub add_ask_empty : s.num ≡ 0 → add_ask s price quantity ≡ add_first s price quantity
  unfolding add_ask
  add_ask_empty e = ground arith

  pub add_ask_one :
      1 ≤ s.num → s.best ≡ s.worst → add_ask s price quantity ≡ add_ask_single s price quantity
  unfolding add_ask
  add_ask_one h e = ground arith

  pub add_ask_inside :
      1 ≤ s.num
      → s.best ≢ s.worst
      → best_price s ≤ℤ price
      → price ≤ℤ worst_price s
      → add_ask s price quantity ≡ add_inside s price quantity
  unfolding add_ask
  add_ask_inside h n a b = ground arith

  -- Below the best price, at the distance `d`.
  module _ (h : 1 ≤ s.num) (ne : s.best ≢ s.worst) (lt : price <ℤ best_price s)
      (le : best_price s ≤ℤ worst_price s) (d : ℕ)
      (e : to_int32 (best_price s -ℤ price) ≡ pos d) where
    pub add_ask_best : d ≤ 64 → d ≤ s.best → add_ask s price quantity ≡ add_best s price quantity
    unfolding add_ask
    add_ask_best a b =
        ground (arith, -ℤ_parts (pos s.best) (pos d), parts_split (pos s.best -ℤ pos d))

    pub add_ask_not_best : (64 < d) ⊎ (s.best < d) → add_ask s price quantity ≡ s
    unfolding add_ask
    add_ask_not_best (inl a) = ground arith
    add_ask_not_best (inr a) =
        ground (arith, -ℤ_parts (pos s.best) (pos d), parts_split (pos s.best -ℤ pos d))

  -- Above the worst price, at the distance `d`.
  module _ (h : 1 ≤ s.num) (ne : s.best ≢ s.worst) (lt : worst_price s <ℤ price)
      (le : best_price s ≤ℤ worst_price s) (d : ℕ)
      (e : to_int32 (price -ℤ worst_price s) ≡ pos d) where
    pub add_ask_worst :
        d ≤ 64 → s.worst + d < 256 → add_ask s price quantity ≡ add_worst s price quantity
    unfolding add_ask
    add_ask_worst a b =
        ground (arith, +ℤ_parts (pos s.worst) (pos d), parts_split (pos s.worst +ℤ pos d))

    pub add_ask_not_worst : (64 < d) ⊎ (256 ≤ s.worst + d) → add_ask s price quantity ≡ s
    unfolding add_ask
    add_ask_not_worst (inl a) = ground arith
    add_ask_not_worst (inr a) =
        ground (arith, +ℤ_parts (pos s.worst) (pos d), parts_split (pos s.worst +ℤ pos d))

  -- The only level, at the distance `d`.
  module _ (d : ℕ) (e : to_int32 (pos (abs (price -ℤ best_price s))) ≡ pos d) where
    pub add_ask_single_far : 64 < d → add_ask_single s price quantity ≡ s
    unfolding add_ask_single
    add_ask_single_far h = ground arith

    pub add_ask_single_above :
        d ≤ 64
        → best_price s <ℤ price
        → s.best ≢ index
        → (level (write s.levels index price quantity) s.best).price ≡ best_price s
        → add_ask_single s price quantity ≡ add_worst s price quantity
    unfolding add_ask_single
    add_ask_single_above h lt ne same = ground arith

    pub add_ask_single_below :
        d ≤ 64
        → price <ℤ best_price s
        → s.worst ≢ index
        → (level (write s.levels index price quantity) s.worst).price ≡ best_price s
        → add_ask_single s price quantity ≡ add_best s price quantity
    unfolding add_ask_single
    add_ask_single_below h lt ne same = ground arith

    pub add_ask_single_same :
        d ≤ 64
        → best_price s ≡ price
        → s.best ≡ index
        → s.worst ≡ index
        → (level (write s.levels index price quantity) index).price ≡ price
        → add_ask_single s price quantity
          ≡ record s { levels = write s.levels index price quantity }
    unfolding add_ask_single
    add_ask_single_same h eq b c same = ground arith
