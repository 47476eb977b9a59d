-- ===== src/OrderBook/Best.antt =====
-- The accessors of include/market_data/order_book/order_book.h on a sound book: the best ask is the
-- lowest, the best bid the highest price quoted.
use hft_system.Prelude.{◌<◌, arith, refl, subst}
use hft_system.Prelude.Int.{ℤ, ◌≤ℤ◌}
use hft_system.OrderBook.{
  OrderBook, level, best_price, get_best_ask_raw, get_best_ask_qty_raw, get_best_bid_raw,
  get_best_bid_qty_raw, get_num_of_asks, get_num_of_bids,
}
use hft_system.OrderBook.Window.{Quotes}
use hft_system.OrderBook.Sound.{IsSoundAsk, IsSoundBid, IsSound}

-- In a sound book with asks, the best ask is quoted at its quantity, and no ask is lower.
pub best_ask_lowest :
    (ob : OrderBook)
    → IsSound ob
    → 0 < get_num_of_asks ob
    → Quotes ob.asks.levels (get_best_ask_raw ob) (get_best_ask_qty_raw ob)
      × ((p q : ℤ) → Quotes ob.asks.levels p q → get_best_ask_raw ob ≤ℤ p)
unfolding get_num_of_asks get_best_ask_raw get_best_ask_qty_raw
best_ask_lowest ob v h = go v.asks
  where
    go :
        IsSoundAsk ob.asks
        → Quotes ob.asks.levels (best_price ob.asks) (level ob.asks.levels ob.asks.best).quantity
          × ((p q : ℤ) → Quotes ob.asks.levels p q → best_price ob.asks ≤ℤ p)
    go (IsSoundAsk.bare b e) = absurd (omega arith)
    go (IsSoundAsk.window w) = (
      (ob.asks.best, w.lo_in, w.lo_active, refl, refl),
      λ p q (i, i_in, a, e, f). subst (λ r. best_price ob.asks ≤ℤ r) e (w.placed i i_in a).above,
    )

-- In a sound book with bids, the best bid is quoted at its quantity, and no bid is higher.
pub best_bid_highest :
    (ob : OrderBook)
    → IsSound ob
    → 0 < get_num_of_bids ob
    → Quotes ob.bids.levels (get_best_bid_raw ob) (get_best_bid_qty_raw ob)
      × ((p q : ℤ) → Quotes ob.bids.levels p q → p ≤ℤ get_best_bid_raw ob)
unfolding get_num_of_bids get_best_bid_raw get_best_bid_qty_raw
best_bid_highest ob v h = go v.bids
  where
    go :
        IsSoundBid ob.bids
        → Quotes ob.bids.levels (best_price ob.bids) (level ob.bids.levels ob.bids.best).quantity
          × ((p q : ℤ) → Quotes ob.bids.levels p q → p ≤ℤ best_price ob.bids)
    go (IsSoundBid.bare b e) = absurd (omega arith)
    go (IsSoundBid.window w) = (
      (ob.bids.best, w.hi_in, w.hi_active, refl, refl),
      λ p q (i, i_in, a, e, f). subst (λ r. r ≤ℤ best_price ob.bids) e (w.placed i i_in a).below,
    )
