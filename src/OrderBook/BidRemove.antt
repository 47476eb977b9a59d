-- ===== src/OrderBook/BidRemove.antt =====
-- A removal from the bids, in `addUpdate` of include/market_data/order_book/order_book.h.
use hft_system.Prelude.{
  ℕ, ◌-◌, ◌≤◌, ◌<◌, ◌≡◌, ◌≢◌, arith, true, false, inl, inr, ◌⊎◌, Bool-cases, ℕ_discrete, sym, subst,
  ◌↔◌,
}
use hft_system.Prelude.Int.{ℤ}
use hft_system.OrderBook.{
  BookSide, level, clear, cleared, slot_of, scan_up, scan_down, remove_bid, best_price, worst_price,
}
use hft_system.OrderBook.Slots.{slot_of-lt}
use hft_system.OrderBook.Window.{IsWindow, Active}
use hft_system.OrderBook.Window.Write.{count_active-pos}
use hft_system.OrderBook.Window.Remove.{last-IsBare, middle-IsWindow}
use hft_system.OrderBook.Window.RemoveLow.{low-IsWindow}
use hft_system.OrderBook.Window.RemoveHigh.{high-IsWindow}
use hft_system.OrderBook.Window.{Quotes}
use hft_system.OrderBook.Window.Quotes.{IsHome, Erased, absent-Quotes, present-Quotes, bare-Quotes}
use hft_system.OrderBook.Window.Reach.{Reaches, bid-IsSlot, reach-IsHome}
use hft_system.OrderBook.Sound.{IsSoundBid, bare, window}

remove_bid_none : (s : BookSide) (price : ℤ) → s.num ≡ 0 → remove_bid s price ≡ s
unfolding remove_bid
remove_bid_none s price e = ground arith

module _ (s : BookSide) (price : ℤ) where
  abbrev index : ℕ
  index = slot_of s price

  remove_bid_idle : (level s.levels index).is_active ≡ false → remove_bid s price ≡ s
  unfolding remove_bid
  remove_bid_idle e = ground arith

  module _ (busy : (level s.levels index).is_active ≡ true) where
    remove_bid_last :
        s.num ≡ 1 → remove_bid s price ≡ record (cleared s index) { best = 0; worst = 0 }
    unfolding remove_bid
    remove_bid_last e = ground arith

    remove_bid_best :
        2 ≤ s.num
        → index ≡ s.best
        → remove_bid s price
          ≡ record (cleared s index) { best = scan_down (clear s.levels index) index s.best 1 255 }
    unfolding remove_bid
    remove_bid_best h e = ground arith

    remove_bid_worst :
        2 ≤ s.num
        → index ≢ s.best
        → index ≡ s.worst
        → remove_bid s price
          ≡ record (cleared s index) { worst = scan_up (clear s.levels index) index s.worst 1 255 }
    unfolding remove_bid
    remove_bid_worst h n e = ground arith

    remove_bid_middle :
        2 ≤ s.num → index ≢ s.best → index ≢ s.worst → remove_bid s price ≡ cleared s index
    unfolding remove_bid
    remove_bid_middle h n m = ground arith

remove_bid_levels :
    (s : BookSide) (price : ℤ)
    → 1 ≤ s.num
    → Active s.levels (slot_of s price)
    → (remove_bid s price).levels ≡ clear s.levels (slot_of s price)
unfolding remove_bid
remove_bid_levels s price h busy = ground arith

module _ (s : BookSide) (price : ℤ) (w : IsWindow s.levels s.worst s.best s.num) where
  window-remove_bid : IsSoundBid (remove_bid s price)
  window-remove_bid = elim (Bool-cases (level s.levels j).is_active) [
    | inr idle ↦ rw (remove_bid_idle s price idle) (window w)
    | inl busy ↦ elim (ℕ_discrete s.num 1) [
      | yes one ↦
          rw (remove_bid_last s price busy one) (bare (last-IsBare w j j_in busy one) (omega arith))
      | no more ↦ elim (ℕ_discrete j s.best) [
        | yes high ↦ rw (remove_bid_best s price busy (two more) high) (
            window (
              subst
                (λ k.
                  IsWindow (clear s.levels k) s.worst (scan_down (clear s.levels k) k s.best 1 255)
                    (s.num - 1))
                (sym high) (high-IsWindow w (two more) s.best)))
        | no nh ↦ elim (ℕ_discrete j s.worst) [
          | yes low ↦ rw (remove_bid_worst s price busy (two more) nh low) (
              window (
                subst
                  (λ k.
                    IsWindow (clear s.levels k) (scan_up (clear s.levels k) k s.worst 1 255) s.best
                      (s.num - 1))
                  (sym low) (low-IsWindow w (two more) s.worst)))
          | no nl ↦
              rw (remove_bid_middle s price busy (two more) nh nl)
                (window (middle-IsWindow w j j_in busy nl nh))
        ]
      ]
    ]
  ]
    where
      j : ℕ
      j = slot_of s price

      j_in : j < 256
      j_in = slot_of-lt s price

      two : s.num ≢ 1 → 2 ≤ s.num
      two ne = omega (arith, w.counted, count_active-pos s.levels s.worst w.lo_active)

  -- In reach, the removal takes away the price and nothing else.
  window-remove_bid-Quotes :
      Reaches (worst_price s) (best_price s) price
      → (p q : ℤ) → Quotes (remove_bid s price).levels p q ↔ Erased s.levels price p q
  window-remove_bid-Quotes h p q = elim (Bool-cases (level s.levels j).is_active) [
    | inr idle ↦ rw (remove_bid_idle s price idle) (absent-Quotes s.levels j price home idle p q)
    | inl busy ↦
        rw
          (remove_bid_levels s price
            (omega (arith, w.counted, count_active-pos s.levels s.worst w.lo_active)) busy)
          (present-Quotes s.levels w.size j j_in price home busy p q)
  ]
    where
      j : ℕ
      j = slot_of s price

      j_in : j < 256
      j_in = slot_of-lt s price

      home : IsHome s.levels j price
      home = reach-IsHome w j price (bid-IsSlot s w price) h

-- A removal keeps the bids sound, whatever its price.
pub remove_bid-IsSoundBid :
    (s : BookSide) (price : ℤ) → IsSoundBid s → IsSoundBid (remove_bid s price)
remove_bid-IsSoundBid s price (bare b e) = rw (remove_bid_none s price e) (bare b e)
remove_bid-IsSoundBid s price (window w) = window-remove_bid s price w

-- A removal from the sound bids leaves what they quoted but for the price of the update, if that
-- price is less than 256 above the lowest and less than 256 below the highest one quoted, or if
-- there is none.
pub remove_bid-Quotes :
    (s : BookSide) (price : ℤ)
    → IsSoundBid s
    → (s.num ≡ 0) ⊎ Reaches (worst_price s) (best_price s) price
    → (p q : ℤ) → Quotes (remove_bid s price).levels p q ↔ Erased s.levels price p q
remove_bid-Quotes s price (bare b e) h p q =
    rw (remove_bid_none s price e) (bare-Quotes s.levels b price p q)
remove_bid-Quotes s price (window w) (inr h) p q = window-remove_bid-Quotes s price w h p q
remove_bid-Quotes s price (window w) (inl e) p q =
    absurd (omega (arith, w.counted, count_active-pos s.levels s.worst w.lo_active))
