-- ===== src/OrderBook/Tests.antt =====
-- Runs of the order book of include/market_data/order_book/order_book.h, after
-- tests/market_data/order_book_test.cpp, and its theorems at concrete books.
use hft_system.Prelude.{ℕ, ◌≤◌, ◌≡◌, refl, arith, List, [], ◌∷◌, true, false, ◌⊎◌, ◌↔◌}
use hft_system.Prelude.Int.{ℤ, pos, ◌+ℤ◌, ◌-ℤ◌, ◌≤ℤ◌, tdiv, tmod, wrap, to_int32}
use hft_system.Market.{Side, buy, sell, MarketUpdate, market_update}
use hft_system.OrderBook.{
  OrderBook, empty_book, circular, slot_of, scan_up, scan_down, remove_ask, remove_bid,
  add_ask_single, add_bid_single, add_ask, add_bid, update_ask, update_bid, add_update, add_updates,
  best_price, is_sell, get_num_of_asks, get_num_of_bids, get_best_ask_raw, get_best_ask_qty_raw,
  get_best_bid_raw, get_best_bid_qty_raw,
}
use hft_system.OrderBook.Window.{Quotes}
use hft_system.OrderBook.Window.Quotes.{Inserted, Erased}
use hft_system.OrderBook.Sound.{IsSoundAsk, IsSoundBid}
use hft_system.OrderBook.AskRemove.{remove_ask-IsSoundAsk, remove_ask-Quotes}
use hft_system.OrderBook.BidRemove.{remove_bid-IsSoundBid, remove_bid-Quotes}
use hft_system.OrderBook.AskAdd.{add_ask-IsSoundAsk, add_ask-Quotes}
use hft_system.OrderBook.AskAdd.Branches.{AskTakes}
use hft_system.OrderBook.BidAdd.{add_bid-IsSoundBid, add_bid-Quotes}
use hft_system.OrderBook.BidAdd.Branches.{BidTakes}
use hft_system.OrderBook.Best.{best_ask_lowest, best_bid_highest}
use hft_system.OrderBook.Band.{InBand, Change, ask_fits, ask_within, bid_fits, bid_within}
use hft_system.OrderBook.Stream.{IsKept, add_update-IsKept, add_updates-IsKept}
use hft_system.OrderBook.Alias.{remove_ask_aliased}

abbrev quote : Side → ℕ → ℕ → MarketUpdate
quote side price quantity = market_update 0 side (pos price) (pos quantity) (pos 0) (pos 0) (pos 0)

two_asks_then_remove :
    best_price
      (add_update
        (add_update (add_update empty_book (quote sell 100 5)) (quote sell 98 7))
        (quote sell 98 0)).asks
    ≡ pos 100
unfolding add_update update_ask add_ask add_ask_single remove_ask slot_of circular scan_up scan_down
    ◌+ℤ◌ ◌-ℤ◌ tdiv tmod wrap to_int32 market_update
two_asks_then_remove = refl

-- Two levels on each side.
abbrev day : List MarketUpdate
day = quote sell 100 5 ∷ quote buy 95 4 ∷ quote sell 98 7 ∷ quote buy 97 2 ∷ []

abbrev book : OrderBook
book = add_updates empty_book day

book_counts : (get_num_of_asks book ≡ 2) × (get_num_of_bids book ≡ 2)
unfolding add_updates add_update update_ask update_bid add_ask add_ask_single add_bid add_bid_single
    slot_of circular ◌+ℤ◌ ◌-ℤ◌ tdiv tmod wrap to_int32 market_update get_num_of_asks get_num_of_bids
book_counts = (refl, refl)

in_band : (n : ℕ) → 50 ≤ n → n ≤ 305 → InBand (pos 50) (pos n)
unfolding ◌+ℤ◌
in_band n h k = omega arith

add_updates-IsKept_example : IsKept (pos 50) book
unfolding market_update ◌+ℤ◌
add_updates-IsKept_example = add_updates-IsKept (pos 50) day (omega arith)

kept : IsKept (pos 50) book
unfolding market_update ◌+ℤ◌
kept = add_updates-IsKept (pos 50) day (omega arith)

add_update-IsKept_example :
    IsKept (pos 50) (add_update book (quote buy 99 1))
    × (((is_sell buy ≡ true)
          × Change book.asks.levels (add_update book (quote buy 99 1)).asks.levels (quote buy 99 1)
          × ((add_update book (quote buy 99 1)).bids ≡ book.bids))
        ⊎ ((is_sell buy ≡ false)
            × Change book.bids.levels
                (add_update book (quote buy 99 1)).bids.levels
                (quote buy 99 1)
            × ((add_update book (quote buy 99 1)).asks ≡ book.asks)))
unfolding market_update
add_update-IsKept_example =
    add_update-IsKept (pos 50) book (quote buy 99 1) kept (in_band 99 (omega arith) (omega arith))

remove_ask-IsSoundAsk_example : IsSoundAsk (remove_ask book.asks (pos 98))
remove_ask-IsSoundAsk_example = remove_ask-IsSoundAsk book.asks (pos 98) kept.sound.asks

remove_bid-IsSoundBid_example : IsSoundBid (remove_bid book.bids (pos 97))
remove_bid-IsSoundBid_example = remove_bid-IsSoundBid book.bids (pos 97) kept.sound.bids

remove_ask-Quotes_example :
    Quotes (remove_ask book.asks (pos 98)).levels (pos 100) (pos 5)
    ↔ Erased book.asks.levels (pos 98) (pos 100) (pos 5)
remove_ask-Quotes_example =
    remove_ask-Quotes book.asks (pos 98) kept.sound.asks
      (ask_within (pos 50) book.asks (pos 98) kept.asks_in (in_band 98 (omega arith) (omega arith))
        kept.sound.asks)
      (pos 100) (pos 5)

remove_bid-Quotes_example :
    Quotes (remove_bid book.bids (pos 97)).levels (pos 95) (pos 4)
    ↔ Erased book.bids.levels (pos 97) (pos 95) (pos 4)
remove_bid-Quotes_example =
    remove_bid-Quotes book.bids (pos 97) kept.sound.bids
      (bid_within (pos 50) book.bids (pos 97) kept.bids_in (in_band 97 (omega arith) (omega arith))
        kept.sound.bids)
      (pos 95) (pos 4)

add_ask-IsSoundAsk_example : IsSoundAsk (add_ask book.asks (pos 99) (pos 3))
add_ask-IsSoundAsk_example = add_ask-IsSoundAsk book.asks (pos 99) (pos 3) kept.sound.asks (
    ask_fits (pos 50) book.asks (pos 99) kept.asks_in (in_band 99 (omega arith) (omega arith))
      kept.sound.asks)

add_bid-IsSoundBid_example : IsSoundBid (add_bid book.bids (pos 96) (pos 3))
add_bid-IsSoundBid_example = add_bid-IsSoundBid book.bids (pos 96) (pos 3) kept.sound.bids (
    bid_fits (pos 50) book.bids (pos 96) kept.bids_in (in_band 96 (omega arith) (omega arith))
      kept.sound.bids)

add_ask-Quotes_example :
    (AskTakes book.asks (pos 99)
      × ((p q : ℤ)
          → Quotes (add_ask book.asks (pos 99) (pos 3)).levels p q
            ↔ Inserted book.asks.levels (pos 99) (pos 3) p q))
    ⊎ ((¬ AskTakes book.asks (pos 99)) × (add_ask book.asks (pos 99) (pos 3) ≡ book.asks))
add_ask-Quotes_example = add_ask-Quotes book.asks (pos 99) (pos 3) kept.sound.asks (
    ask_fits (pos 50) book.asks (pos 99) kept.asks_in (in_band 99 (omega arith) (omega arith))
      kept.sound.asks)

add_bid-Quotes_example :
    (BidTakes book.bids (pos 96)
      × ((p q : ℤ)
          → Quotes (add_bid book.bids (pos 96) (pos 3)).levels p q
            ↔ Inserted book.bids.levels (pos 96) (pos 3) p q))
    ⊎ ((¬ BidTakes book.bids (pos 96)) × (add_bid book.bids (pos 96) (pos 3) ≡ book.bids))
add_bid-Quotes_example = add_bid-Quotes book.bids (pos 96) (pos 3) kept.sound.bids (
    bid_fits (pos 50) book.bids (pos 96) kept.bids_in (in_band 96 (omega arith) (omega arith))
      kept.sound.bids)

best_ask_lowest_example :
    Quotes book.asks.levels (get_best_ask_raw book) (get_best_ask_qty_raw book)
    × ((p q : ℤ) → Quotes book.asks.levels p q → get_best_ask_raw book ≤ℤ p)
best_ask_lowest_example = best_ask_lowest book kept.sound (omega (arith, book_counts))

best_bid_highest_example :
    Quotes book.bids.levels (get_best_bid_raw book) (get_best_bid_qty_raw book)
    × ((p q : ℤ) → Quotes book.bids.levels p q → p ≤ℤ get_best_bid_raw book)
best_bid_highest_example = best_bid_highest book kept.sound (omega (arith, book_counts))

remove_ask_aliased_example :
    (¬ Quotes book.asks.levels (get_best_ask_raw book +ℤ pos 256) (pos 1))
    × (¬ Quotes
        (remove_ask book.asks (get_best_ask_raw book +ℤ pos 256)).levels
        (get_best_ask_raw book)
        (pos 1))
remove_ask_aliased_example =
    remove_ask_aliased book.asks (get_best_ask_raw book) (get_best_ask_qty_raw book) kept.sound.asks
      best_ask_quoted (pos 1)
  where
    best_ask_quoted : Quotes book.asks.levels (get_best_ask_raw book) (get_best_ask_qty_raw book)
    best_ask_quoted = (best_ask_lowest book kept.sound (omega (arith, book_counts))).0
