-- ===== src/OrderBook/Stream.antt =====
-- A stream of updates through `addUpdate` of include/market_data/order_book/order_book.h: while all
-- prices stay in one band of 256 ticks the book is sound, and it quotes what the updates say.
use hft_system.Prelude.{
  zero, suc, ℕ, ◌≡◌, arith, refl, ap, List, [], ◌∷◌, inl, inr, ◌⊎◌, Bool, true, false, Bool-cases,
  length-replicate, replicate,
}
use hft_system.Prelude.Int.{ℤ}
use hft_system.Market.{MarketUpdate}
use hft_system.OrderBook.{
  OrderBook, level, empty_level, empty_book, update_ask, update_bid, is_sell, add_update,
  add_updates,
}
use hft_system.OrderBook.Window.{IsBare}
use hft_system.OrderBook.Sound.{IsSoundAsk, IsSoundBid, IsSound}
use hft_system.OrderBook.Window.Write.{count_active-replicate}
use hft_system.OrderBook.Band.{
  InBand, Banded, Change, Change-Banded, update_ask_lem, update_bid_lem,
}

-- A sound book all of whose prices lie in the band.
pub record IsKept (base : ℤ) (ob : OrderBook) : Type 0 where
  pub sound : IsSound ob
  pub asks_in : Banded base ob.asks.levels
  pub bids_in : Banded base ob.bids.levels

sell_lem :
    (ob : OrderBook) (u : MarketUpdate)
    → is_sell u.side ≡ true
    → ((add_update ob u).asks ≡ update_ask ob.asks u) × ((add_update ob u).bids ≡ ob.bids)
unfolding add_update
sell_lem ob u e = ground arith

buy_lem :
    (ob : OrderBook) (u : MarketUpdate)
    → is_sell u.side ≡ false
    → ((add_update ob u).bids ≡ update_bid ob.bids u) × ((add_update ob u).asks ≡ ob.asks)
unfolding add_update
buy_lem ob u e = ground arith

level-replicate : (n i : ℕ) → level (replicate n empty_level) i ≡ empty_level
level-replicate zero i = refl
level-replicate (suc n) zero = refl
level-replicate (suc n) (suc i) = level-replicate n i

IsBare-start : IsBare (replicate 256 empty_level)
IsBare-start = record {
  size = length-replicate 256 empty_level;
  inactive = λ i. ap (λ l. l.is_active) (level-replicate 256 i);
  counted = count_active-replicate 256;
}

IsKept-empty_book : (base : ℤ) → IsKept base empty_book
IsKept-empty_book base = record {
  sound = record {
    bids = IsSoundBid.bare IsBare-start refl;
    asks = IsSoundAsk.bare IsBare-start refl;
  };
  asks_in = none_in;
  bids_in = none_in;
}
  where
    differ : {b : Bool} → b ≡ true → b ≡ false → ⊥
    differ x y = cc

    none_in : Banded base (replicate 256 empty_level)
    none_in p q (i, i_in, a, e, f) = absurd (differ a (IsBare-start.inactive i))

-- An update in the band keeps a sound book sound and in the band. It changes the quotes of its own
-- side only: its price is erased if its quantity is 0, and else is given the quantity or refused.
pub add_update-IsKept :
    (base : ℤ) (ob : OrderBook) (u : MarketUpdate)
    → IsKept base ob
    → InBand base u.price
    → IsKept base (add_update ob u)
      × (((is_sell u.side ≡ true)
            × Change ob.asks.levels (add_update ob u).asks.levels u
            × ((add_update ob u).bids ≡ ob.bids))
          ⊎ ((is_sell u.side ≡ false)
              × Change ob.bids.levels (add_update ob u).bids.levels u
              × ((add_update ob u).asks ≡ ob.asks)))
add_update-IsKept base ob u k here = elim (Bool-cases (is_sell u.side)) [
  | inl e ↦
      let (mine, others) = sell_lem ob u e in
      let (v, c) = update_ask_lem base ob.asks u k.asks_in here k.sound.asks in
      (
        record {
          sound = record { bids = rw others k.sound.bids; asks = rw mine v };
          asks_in = rw mine (Change-Banded base ob.asks.levels _ u k.asks_in here c);
          bids_in = rw others k.bids_in;
        },
        inl (e, rw mine c, others),
      )
  | inr e ↦
      let (mine, others) = buy_lem ob u e in
      let (v, c) = update_bid_lem base ob.bids u k.bids_in here k.sound.bids in
      (
        record {
          sound = record { asks = rw others k.sound.asks; bids = rw mine v };
          bids_in = rw mine (Change-Banded base ob.bids.levels _ u k.bids_in here c);
          asks_in = rw others k.asks_in;
        },
        inr (e, rw mine c, others),
      )
]

-- Every update of the stream has its price in the band.
abbrev pub AllInBand : ℤ → List MarketUpdate → Type 0
AllInBand base [] = Unit {0}
AllInBand base (u ∷ us) = InBand base u.price × AllInBand base us

run-IsKept :
    (base : ℤ) (us : List MarketUpdate) (ob : OrderBook)
    → AllInBand base us
    → IsKept base ob
    → IsKept base (add_updates ob us)
unfolding add_updates
run-IsKept base [] ob h k = k
run-IsKept base (u ∷ us) ob h k =
    run-IsKept base us (add_update ob u) h.1 (add_update-IsKept base ob u k h.0).0

-- From the empty book on, any stream of updates whose prices lie in one band of 256 ticks leaves
-- the book sound (every active level in the slot of its price, in one window of prices less than
-- 256 apart with the best and worst index at its ends, and the counts exact) and in the band.
pub add_updates-IsKept :
    (base : ℤ) (us : List MarketUpdate)
    → AllInBand base us
    → IsKept base (add_updates empty_book us)
add_updates-IsKept base us h = run-IsKept base us empty_book h (IsKept-empty_book base)
