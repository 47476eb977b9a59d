-- ===== src/OrderBook/Window/RemoveLow.antt =====
-- Clearing the lowest level of a sound array (include/market_data/order_book/order_book.h).
use hft_system.Prelude.{ℕ, ◌-◌, ◌≤◌, ◌<◌, ◌≢◌, arith, List, subst, dec_lt}
use hft_system.OrderBook.{PriceLevel, clear, scan_up}
use hft_system.OrderBook.Slots.{dist}
use hft_system.OrderBook.Window.{Active, IsWindow}
use hft_system.OrderBook.Window.Scan.{Found, above, scan_up-Found}
use hft_system.OrderBook.Window.Remove.{
  low_round, low_shrunk, price_of, Active-clear, Active-clear_ne, other, IsWindow-clear, ends-ne,
}

module _ {ls : List PriceLevel} {lo hi num : ℕ} (w : IsWindow ls lo hi num) where
  -- The lowest level: the loop upwards finds the next lowest.
  module _ (two : 2 ≤ num) (old : ℕ) where
    next_low : Found (above lo) (clear ls lo) 1 (scan_up (clear ls lo) lo old 1 255)
    next_low =
        let (i, i_in, a) = other w lo w.lo_in w.lo_active two in
        let (ne, b) = Active-clear w lo w.lo_in w.lo_active i a in
        let (first, small, at) =
          low_round lo (price_of w lo) (price_of w hi) i (price_of w i) w.lo_in (w.placed i i_in b)
            ne in
        scan_up-Found (clear ls lo) lo old (dist (price_of w lo) (price_of w i)) first small
          (subst (λ k. Active (clear ls lo) k) at a)

    -- No level left comes before the round of the loop's result.
    low_first :
        (i : ℕ)
        → i < 256
        → Active ls i
        → lo ≢ i
        → next_low.round ≤ dist (price_of w lo) (price_of w i)
    low_first i i_in a ne =
        let (first, small, at) =
          low_round lo (price_of w lo) (price_of w hi) i (price_of w i) w.lo_in (w.placed i i_in a)
            ne in
        elim (dec_lt (dist (price_of w lo) (price_of w i)) next_low.round) [
          | yes lt ↦ absurd (
              next_low.first (dist (price_of w lo) (price_of w i)) first lt (
                subst (λ k. Active (clear ls lo) k) at
                  (Active-clear_ne w lo w.lo_in w.lo_active i ne a)))
          | no ge ↦ omega arith
        ]

    pub low-IsWindow : IsWindow (clear ls lo) (scan_up (clear ls lo) lo old 1 255) hi (num - 1)
    low-IsWindow =
        let (ne, a) = Active-clear w lo w.lo_in w.lo_active r next_low.active in
        let spot = w.placed r r_in a in
        IsWindow-clear w lo w.lo_in w.lo_active r hi r_in w.hi_in next_low.active
          (Active-clear_ne w lo w.lo_in w.lo_active hi (ends-ne w two) w.hi_active)
          (λ i i_in b ne'.
            low_shrunk lo (price_of w lo) (price_of w hi) r i (price_of w r) (price_of w i) w.lo_in
              spot (w.placed i i_in b)
              (omega (
                arith,
                low_first i i_in b ne',
                low_first r r_in a ne,
                spot.slot,
                spot.near,
                next_low.there,
                (w.placed i i_in b).near,
                w.lo_in,
              )))
      where
        r : ℕ
        r = scan_up (clear ls lo) lo old 1 255

        r_in : r < 256
        r_in = omega (arith, next_low.there)
