-- ===== src/OrderBook/BidAdd/Ends.antt =====
-- A quote between, below or above two or more bids, in `addUpdate` of
-- include/market_data/order_book/order_book.h.
use hft_system.Prelude.{ℕ, ◌+◌, ◌-◌, ◌%◌, ◌≤◌, ◌≡◌, ◌≢◌, refl, arith, inl, inr, dec_le, dec_lt}
use hft_system.Prelude.Int.{ℤ, pos, ◌-ℤ◌, ◌≤ℤ◌, ◌<ℤ◌, to_int32}
use hft_system.OrderBook.{BookSide, slot_of, add_bid, worst_price, best_price}
use hft_system.OrderBook.Slots.{dist, dist-zero}
use hft_system.OrderBook.Window.{IsPlaced}
use hft_system.OrderBook.Window.Insert.{
  inside-IsWindow, low-IsWindow as insert_low, high-IsWindow as insert_high,
}
use hft_system.OrderBook.Window.Reach.{reach-IsHome}
use hft_system.OrderBook.Sound.{window}
use hft_system.OrderBook.Slots.{step_up, step_down}
use hft_system.OrderBook.BidAdd.Branches.{
  far_below, far_above, add_bid_inside, add_bid_worst, add_bid_not_worst, add_bid_best,
  add_bid_not_best,
}
use hft_system.OrderBook.BidAdd.Case.{Outcome, taken, refused, IsCase}

module _ (s : BookSide) (price quantity : ℤ) (c : IsCase s price) where
  open c use {w, near, one, j_in, at, top, takes_near, takes_room, in_reach, low_reach, high_reach}

  abbrev j : ℕ
  j = slot_of s price

  pub inside-Outcome :
      s.worst ≢ s.best
      → worst_price s ≤ℤ price
      → price ≤ℤ best_price s
      → Outcome s price quantity (add_bid s price quantity)
  inside-Outcome ne a b = rw (add_bid_inside s price quantity one ne a b) (
      taken j
        (inr (
          omega (arith, none_below),
          omega (arith, none_above),
          inr (omega (arith, none_below), omega (arith, none_above, w.hi_in)),
        ))
        (window (inside-IsWindow w j price quantity j_in here _ (ground arith))) w.size j_in
        (reach-IsHome w j price at (in_reach a b)) refl)
    where
      none_below : far_below s price ≡ 0
      none_below = dist-zero price (worst_price s) a

      none_above : far_above s price ≡ 0
      none_above = dist-zero (best_price s) price b

      here : IsPlaced s.worst (worst_price s) (best_price s) j price
      here = omega (arith, at.up, in_reach a b)

  -- A price below the worst one.
  module _ (ne : s.worst ≢ s.best) (lt : price <ℤ worst_price s) where
    down : to_int32 (worst_price s -ℤ price) ≡ pos (far_below s price)
    down = step_down price (worst_price s) (omega arith) near.0

    none_above : far_above s price ≡ 0
    none_above = dist-zero (best_price s) price (omega (arith, top.above))

    worst_slot : far_below s price ≤ 64 → j ≡ (s.worst + 256 - dist price (worst_price s)) % 256
    worst_slot small = omega (arith, at.down)

    pub below-Outcome : Outcome s price quantity (add_bid s price quantity)
    below-Outcome = elim (dec_le (far_below s price) 64) [
      | no far ↦
          rw (add_bid_not_worst s price quantity one ne lt top.above _ down (inl (omega arith)))
            (refused (λ t. omega (arith, takes_near t)) refl (window w))
      | yes small ↦ elim (dec_le (far_below s price) s.worst) [
        | no out ↦
            rw (add_bid_not_worst s price quantity one ne lt top.above _ down (inr (omega arith)))
              (refused (λ t. omega (arith, takes_room ne t)) refl (window w))
        | yes ok ↦ rw (add_bid_worst s price quantity one ne lt top.above _ down small ok) (
            taken j
              (inr (small, omega (arith, none_above), inr (ok, omega (arith, none_above, w.hi_in))))
              (window (insert_low w j price quantity lt (low_reach lt ok).1 (worst_slot small)))
              w.size j_in (reach-IsHome w j price at (low_reach lt ok)) refl)
      ]
    ]

  -- A price above the best one.
  module _ (ne : s.worst ≢ s.best) (lt : best_price s <ℤ price) where
    up : to_int32 (price -ℤ best_price s) ≡ pos (far_above s price)
    up = step_up (best_price s) price (omega arith) near.1

    none_below : far_below s price ≡ 0
    none_below = dist-zero price (worst_price s) (omega (arith, top.above))

    pub above-Outcome : Outcome s price quantity (add_bid s price quantity)
    above-Outcome = elim (dec_le (far_above s price) 64) [
      | no far ↦
          rw (add_bid_not_best s price quantity one ne lt top.above _ up (inl (omega arith)))
            (refused (λ t. omega (arith, takes_near t)) refl (window w))
      | yes small ↦ elim (dec_lt (s.best + far_above s price) 256) [
        | no out ↦
            rw (add_bid_not_best s price quantity one ne lt top.above _ up (inr (omega arith)))
              (refused (λ t. omega (arith, takes_room ne t)) refl (window w))
        | yes ok ↦ rw (add_bid_best s price quantity one ne lt top.above _ up small ok) (
            taken j (inr (omega (arith, none_below), small, inr (omega (arith, none_below), ok)))
              (window (
                insert_high w j price quantity lt (high_reach lt ok).0
                  (at.up (omega (arith, top.above)) (omega (arith, high_reach lt ok)))))
              w.size j_in (reach-IsHome w j price at (high_reach lt ok)) refl)
      ]
    ]
