-- ===== src/OrderBook/Window/RemoveHigh.antt =====
-- Clearing the highest level of a sound array (include/market_data/order_book/order_book.h).
use hft_system.Prelude.{ℕ, ◌-◌, ◌≤◌, ◌<◌, ◌≢◌, arith, List, sym, subst, dec_lt}
use hft_system.OrderBook.{PriceLevel, clear, scan_down}
use hft_system.OrderBook.Slots.{dist}
use hft_system.OrderBook.Window.{Active, IsWindow}
use hft_system.OrderBook.Window.Scan.{Found, below, scan_down-Found}
use hft_system.OrderBook.Window.Remove.{
  high_round, high_shrunk, price_of, Active-clear, Active-clear_ne, other, IsWindow-clear, ends-ne,
}

module _ {ls : List PriceLevel} {lo hi num : ℕ} (w : IsWindow ls lo hi num) where
  -- The highest level: the loop downwards finds the next highest.
  module _ (two : 2 ≤ num) (old : ℕ) where
    next_high : Found (below hi) (clear ls hi) 1 (scan_down (clear ls hi) hi old 1 255)
    next_high =
        let (i, i_in, a) = other w hi w.hi_in w.hi_active two in
        let (ne, b) = Active-clear w hi w.hi_in w.hi_active i a in
        let (first, small, at) =
          high_round lo (price_of w lo) (price_of w hi) hi i (price_of w i) w.lo_in w.hi_in i_in
            (w.placed hi w.hi_in w.hi_active) (w.placed i i_in b) ne in
        scan_down-Found (clear ls hi) hi old (dist (price_of w i) (price_of w hi)) first small
          (subst (λ k. Active (clear ls hi) k) at a)

    -- No level left comes before the round of the loop's result.
    high_first :
        (i : ℕ)
        → i < 256
        → Active ls i
        → hi ≢ i
        → next_high.round ≤ dist (price_of w i) (price_of w hi)
    high_first i i_in a ne =
        let (first, small, at) =
          high_round lo (price_of w lo) (price_of w hi) hi i (price_of w i) w.lo_in w.hi_in i_in
            (w.placed hi w.hi_in w.hi_active) (w.placed i i_in a) ne in
        elim (dec_lt (dist (price_of w i) (price_of w hi)) next_high.round) [
          | yes lt ↦ absurd (
              next_high.first (dist (price_of w i) (price_of w hi)) first lt (
                subst (λ k. Active (clear ls hi) k) at
                  (Active-clear_ne w hi w.hi_in w.hi_active i ne a)))
          | no ge ↦ omega arith
        ]

    pub high-IsWindow : IsWindow (clear ls hi) lo (scan_down (clear ls hi) hi old 1 255) (num - 1)
    high-IsWindow =
        let (ne, a) = Active-clear w hi w.hi_in w.hi_active r next_high.active in
        let spot = w.placed r r_in a in
        let (first, small, at) =
          high_round lo (price_of w lo) (price_of w hi) hi r (price_of w r) w.lo_in w.hi_in r_in
            (w.placed hi w.hi_in w.hi_active) spot ne in
        IsWindow-clear w hi w.hi_in w.hi_active lo r w.lo_in r_in
          (Active-clear_ne w hi w.hi_in w.hi_active lo (λ e. ends-ne w two (sym e)) w.lo_active)
          next_high.active
          (λ i i_in b ne'.
            high_shrunk lo (price_of w lo) (price_of w hi) i (price_of w r) (price_of w i)
              (w.placed i i_in b) spot.below
              (omega (
                arith,
                high_first i i_in b ne',
                high_first r r_in a ne,
                at,
                small,
                next_high.there,
              )))
      where
        r : ℕ
        r = scan_down (clear ls hi) hi old 1 255

        r_in : r < 256
        r_in = omega (arith, next_high.there)
