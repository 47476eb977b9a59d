-- ===== src/OrderBook/Sound.antt =====
-- When a side of the book of include/market_data/order_book/order_book.h is sound: it is empty, or
-- its best and its worst index are the ends of its window of prices.
use hft_system.Prelude.{◌≡◌}
use hft_system.OrderBook.{BookSide, OrderBook}
use hft_system.OrderBook.Window.{IsWindow, IsBare}

pub data IsSoundAsk (s : BookSide) : Type 0 where
  bare : IsBare s.levels → s.num ≡ 0 → IsSoundAsk s
  window : IsWindow s.levels s.best s.worst s.num → IsSoundAsk s

pub data IsSoundBid (s : BookSide) : Type 0 where
  bare : IsBare s.levels → s.num ≡ 0 → IsSoundBid s
  window : IsWindow s.levels s.worst s.best s.num → IsSoundBid s

pub record IsSound (ob : OrderBook) : Type 0 where
  pub bids : IsSoundBid ob.bids
  pub asks : IsSoundAsk ob.asks
