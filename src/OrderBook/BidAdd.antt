-- ===== src/OrderBook/BidAdd.antt =====
-- A new or changed quote of the bids, in `addUpdate` of
-- include/market_data/order_book/order_book.h.
pub mod Branches
pub mod Case
pub mod Ends
pub mod Single
use hft_system.Prelude.{
  length, ltb, ℕ, zero, suc, ◌+◌, ◌-◌, ◌%◌, ◌^◌, ◌≤◌, ◌<◌, ◌≡◌, ◌≢◌, refl, arith, Bool, true, false,
  ◌==◌, inl, inr, ◌⊎◌, Bool-cases, ℕ_discrete, if◌then◌else◌, not, ◌&&◌, ◌||◌, sym, ◌∙◌, ap, subst,
  ◌↔◌, dec_le, dec_lt,
}
use hft_system.Prelude.Int.{
  ℤ, pos, pos_part, neg_part, abs, ◌-ℤ◌, ◌+ℤ◌, ◌≤ℤ◌, ◌<ℤ◌, ℤ_cases, dec_lt_ℤ, ltb_ℤ, leb_ℤ, eqb_ℤ,
  to_int32, parts_split, -ℤ_parts, +ℤ_parts,
}
use hft_system.OrderBook.{
  BookSide, PriceLevel, level, clear, cleared, write, slot_of, scan_up, scan_down, remove_bid,
  add_bid, add_bid_single, worst_price, best_price, add_first, add_inside, add_worst, add_best,
}
use hft_system.OrderBook.Slots.{
  dist, dist-zero, dist-pos, slot_of-lt, slot_above, slot_below, to_int32_small,
}
use hft_system.OrderBook.Window.{IsWindow, IsBare, Active, IsPlaced, count_active}
use hft_system.OrderBook.Window.Write.{IsBare-write, count_active-pos}
use hft_system.OrderBook.Window.Insert.{
  inside-IsWindow, low-IsWindow as insert_low, high-IsWindow as insert_high,
}
use hft_system.OrderBook.Window.Remove.{last-IsBare, middle-IsWindow, ends-ne}
use hft_system.OrderBook.Window.RemoveLow.{low-IsWindow}
use hft_system.OrderBook.Window.RemoveHigh.{high-IsWindow}
use hft_system.OrderBook.Window.{Quotes}
use hft_system.OrderBook.Window.Quotes.{
  IsHome, Inserted, write-Quotes, Erased, absent-Quotes, present-Quotes, bare-Quotes,
}
use hft_system.OrderBook.Window.Reach.{IsSlot, Reaches, bid-IsSlot, reach-IsHome}
use hft_system.OrderBook.Sound.{IsSoundBid, bare, window}
use hft_system.OrderBook.Window.Write.{
  active_level, weight, weight_active, level-set_self, level-set_ne,
}
use hft_system.OrderBook.Window.Insert.{inside-home}
use hft_system.OrderBook.Slots.{step_up, step_down}
use hft_system.OrderBook.BidAdd.Branches.{
  IsNear, BidTakes, BidFits, far_below, far_above, add_bid_empty, add_bid_one, add_bid_inside,
  add_bid_worst, add_bid_not_worst, add_bid_best, add_bid_not_best, add_bid_single_far,
  add_bid_single_above, add_bid_single_below, add_bid_single_same,
}
use hft_system.OrderBook.BidAdd.Case.{Outcome, taken, refused, IsCase, IsCase-intro}
use hft_system.OrderBook.BidAdd.Ends.{inside-Outcome, below-Outcome, above-Outcome}
use hft_system.OrderBook.BidAdd.Single.{single-Outcome}

module _ (s : BookSide) (price quantity : ℤ) (c : IsCase s price) where
  open c use {one}

  window-Outcome : Outcome s price quantity (add_bid s price quantity)
  window-Outcome = elim (ℕ_discrete s.worst s.best) [
    | yes eq ↦ rw (add_bid_one s price quantity one eq) (single-Outcome s price quantity c eq)
    | no ne ↦ elim (dec_lt_ℤ price (worst_price s)) [
      | yes lt ↦ below-Outcome s price quantity c ne lt
      | no ge ↦ elim (dec_lt_ℤ (best_price s) price) [
        | yes lt ↦ above-Outcome s price quantity c ne lt
        | no le ↦ inside-Outcome s price quantity c ne (omega arith) (omega arith)
      ]
    ]
  ]

-- Every branch of a new or changed quote.
outcome :
    (s : BookSide) (price quantity : ℤ)
    → IsSoundBid s
    → BidFits s price
    → Outcome s price quantity (add_bid s price quantity)
outcome s price quantity (bare b e) h = rw (add_bid_empty s price quantity e) (
    taken (abs price % 256) (inl e)
      (window (rw e (IsBare-write (abs price % 256) price quantity b (omega arith)))) b.size
      (omega arith) (λ i i_in a. cc (a, b.inactive i)) refl)
outcome s price quantity (window w) (inl e) =
    absurd (omega (arith, w.counted, count_active-pos s.levels s.worst w.lo_active))
outcome s price quantity (window w) (inr (near, room)) =
    window-Outcome s price quantity (IsCase-intro s price w near room)

-- The bids stay sound, if the price is less than 2 ^ 31 from both ends and either the array is not
-- wrapped or the price fits into one window with those quoted.
pub add_bid-IsSoundBid :
    (s : BookSide) (price quantity : ℤ)
    → IsSoundBid s
    → BidFits s price
    → IsSoundBid (add_bid s price quantity)
add_bid-IsSoundBid s price quantity v h = elim (outcome s price quantity v h) [
  | taken j t sound size j_in home e ↦ sound
  | refused t e sound ↦ sound
]

-- If the price is less than 2 ^ 31 from both ends and either the array is not wrapped or the price
-- fits into one window with those quoted, an added bid is either taken, and the sound bids quote
-- it beside what they quoted at other prices, or it lies out of the limits of the code, and
-- nothing changes.
pub add_bid-Quotes :
    (s : BookSide) (price quantity : ℤ)
    → IsSoundBid s
    → BidFits s price
    → (BidTakes s price
        × ((p q : ℤ)
            → Quotes (add_bid s price quantity).levels p q ↔ Inserted s.levels price quantity p q))
      ⊎ ((¬ BidTakes s price) × (add_bid s price quantity ≡ s))
add_bid-Quotes s price quantity v h = elim (outcome s price quantity v h) [
  | taken j t sound size j_in home e ↦
      inl (t, λ p q. rw e (write-Quotes s.levels size j j_in price quantity home p q))
  | refused t e sound ↦ inr (t, e)
]
