-- ===== src/Strategy.antt =====
-- The strategies of src/strategies/mean_reversion and src/strategies/trend_following, and
-- `StrategyManager` of include/strategies/strategy_manager.hpp. The strategies stand in a store, and
-- a registered pointer is an index into it; the book that a strategy refers to is an index into the
-- books of the order book manager. `int64_t` products are exact.
mod Tests
pub mod Bounds
pub mod Dispatch
use hft_system.Prelude.{
  ℕ, zero, suc, ◌+◌, ◌%◌, ◌^◌, ◌==◌, leb, if◌then◌else◌, ◌||◌, Bool, true, false, List, [], ◌∷◌,
  ◌++◌, get_or, set, Option, none, some,
}
use hft_system.Prelude.Int.{
  ℤ, pos, negsuc, sub_ℕ, ◌+ℤ◌, ◌-ℤ◌, ◌*ℤ◌, tdiv, quot_trunc, leb_ℤ, eqb_ℤ, clamp, to_int32,
  to_int64,
}
use hft_system.Market.{Side, buy, sell, invalid, MarketUpdate}
use hft_system.Queue.{LfQueue, push}
use hft_system.OrderBook.{
  OrderBook, empty_book, get_best_ask_raw, get_best_ask_qty_raw, get_best_bid_raw,
  get_best_bid_qty_raw,
}
use hft_system.OrderBook.Mid.{get_mid_raw}

-- `static_cast<int32_t>(std::clamp(x, -1000, 1000))`
pub signal_of : ℤ → ℤ
signal_of x = to_int32 (clamp x (negsuc 999) (pos 1000))

-- `MidPriceReversion::onMarketData`
pub mid_price_reversion : OrderBook → MarketUpdate → ℤ
unfolding signal_of
mid_price_reversion ob u =
    let spread = get_best_ask_raw ob -ℤ get_best_bid_raw ob in
    let deviation = u.price -ℤ get_mid_raw ob in
    if leb_ℤ spread (pos 0)
    then pos 0
    else signal_of (quot_trunc (deviation *ℤ pos 1000) (pos 3 *ℤ spread))

-- `microPrice`
pub micro_price : OrderBook → ℤ
micro_price ob = to_int64 (
    quot_trunc
      (get_best_ask_raw ob *ℤ get_best_bid_qty_raw ob
        +ℤ get_best_bid_raw ob *ℤ get_best_ask_qty_raw ob)
      (get_best_bid_qty_raw ob +ℤ get_best_ask_qty_raw ob))

-- `OrderBookImbalance::onMarketData`
pub order_book_imbalance : OrderBook → ℤ
unfolding signal_of micro_price
order_book_imbalance ob =
    let spread = get_best_ask_raw ob -ℤ get_best_bid_raw ob in
    if eqb_ℤ (get_best_bid_qty_raw ob +ℤ get_best_ask_qty_raw ob) (pos 0)
    then pos 0
    else if leb_ℤ spread (pos 0)
    then pos 0
    else signal_of (quot_trunc ((micro_price ob -ℤ get_mid_raw ob) *ℤ pos 1000) (pos 3 *ℤ spread))

abbrev pub momentum_window : ℕ
momentum_window = 20

-- `MicroMomentum`
pub record MicroMomentum : Type 0 where
  pub agg_bids : ℕ
  pub agg_asks : ℕ
  pub window_count : ℕ

abbrev pub fresh_momentum : MicroMomentum
fresh_momentum = record { agg_bids = 0; agg_asks = 0; window_count = 0 }

-- The three counters after an update, before the window may close.
abbrev pub count_update : MicroMomentum → Side → MicroMomentum
count_update m buy = record m {
  agg_bids = (m.agg_bids + 1) % 2 ^ 32;
  window_count = (m.window_count + 1) % 2 ^ 32;
}
count_update m sell = record m {
  agg_asks = (m.agg_asks + 1) % 2 ^ 32;
  window_count = (m.window_count + 1) % 2 ^ 32;
}
count_update m invalid = record m {
  agg_asks = (m.agg_asks + 1) % 2 ^ 32;
  window_count = (m.window_count + 1) % 2 ^ 32;
}

-- `MicroMomentum::onMarketData`
pub micro_momentum : MicroMomentum → MarketUpdate → MicroMomentum × ℤ
unfolding signal_of
micro_momentum m u =
    let c = count_update m u.side in
    (
      if leb momentum_window c.window_count then fresh_momentum else c,
      signal_of (tdiv ((pos c.agg_bids -ℤ pos c.agg_asks) *ℤ pos 1000) momentum_window),
    )

-- `Strategy`, with its three implementations.
pub data Strategy : Type 0 where
  reversion : ℕ → Strategy
  imbalance : ℕ → Strategy
  momentum : MicroMomentum → Strategy

-- The virtual call `strat->onMarketData(marketUpdate)`.
pub on_market_data : List OrderBook → MarketUpdate → Strategy → Strategy × ℤ
unfolding mid_price_reversion order_book_imbalance micro_momentum
on_market_data books u (reversion b) =
    (reversion b, mid_price_reversion (get_or books b empty_book) u)
on_market_data books u (imbalance b) =
    (imbalance b, order_book_imbalance (get_or books b empty_book))
on_market_data books u (momentum m) = let (m', signal) = micro_momentum m u in (momentum m', signal)

-- `StrategyManager`, with the store of the strategies it points to.
pub record StrategyManager : Type 0 where
  pub store : List Strategy
  pub per_instrument : List (ℕ × List ℕ)
  pub global_strategies : List ℕ
  pub signals : LfQueue ℤ

pub strategies_of : List (ℕ × List ℕ) → ℕ → List ℕ
strategies_of [] id = []
strategies_of ((j, ss) ∷ rest) id = if j == id then ss else strategies_of rest id

-- `per_instrument_[instrument_id].push_back(strat)`
add_strategy : List (ℕ × List ℕ) → ℕ → ℕ → List (ℕ × List ℕ)
add_strategy [] id strat = (id, strat ∷ []) ∷ []
add_strategy ((j, ss) ∷ rest) id strat =
    if j == id then (j, ss ++ (strat ∷ [])) ∷ rest else (j, ss) ∷ add_strategy rest id strat

pub register_strategy : StrategyManager → ℕ → ℕ → StrategyManager
unfolding add_strategy
register_strategy sm id strat = record sm {
  per_instrument = add_strategy sm.per_instrument id strat;
}

pub register_global : StrategyManager → ℕ → StrategyManager
register_global sm strat = record sm { global_strategies = sm.global_strategies ++ (strat ∷ []) }

-- The body of both loops, for one strategy.
pub run_strategy : List OrderBook → MarketUpdate → StrategyManager → ℕ → StrategyManager
unfolding on_market_data
run_strategy books u sm strat =
    let (after, signal) =
      on_market_data books u (get_or sm.store strat (momentum fresh_momentum)) in
    record sm { store = set sm.store strat after; signals = push sm.signals signal }

pub run_strategies : List OrderBook → MarketUpdate → StrategyManager → List ℕ → StrategyManager
run_strategies books u sm [] = sm
run_strategies books u sm (strat ∷ rest) =
    run_strategies books u (run_strategy books u sm strat) rest

-- `StrategyManager::onMarketData`
pub dispatch : List OrderBook → MarketUpdate → StrategyManager → StrategyManager
unfolding strategies_of
dispatch books u sm =
    run_strategies books u
      (run_strategies books u sm (strategies_of sm.per_instrument u.instrument_id))
      sm.global_strategies
