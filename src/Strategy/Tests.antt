-- ===== src/Strategy/Tests.antt =====
-- Runs of the strategies of src/strategies, and their theorems at concrete states.
use hft_system.Prelude.{◌+◌, ◌*◌, ◌<◌, ◌≡◌, refl, arith, [], ◌∷◌, length, ◌⊎◌}
use hft_system.Prelude.Int.{pos, sub_ℕ, ◌-ℤ◌, ◌*ℤ◌, tdiv, clamp, to_int32, wrap}
use hft_system.Market.{buy, MarketUpdate, market_update}
use hft_system.Queue.{make}
use hft_system.OrderBook.{empty_book}
use hft_system.Strategy.{
  MicroMomentum, fresh_momentum, micro_momentum, signal_of, momentum, imbalance, StrategyManager,
  strategies_of, dispatch,
}
use hft_system.Strategy.Bounds.{IsOpen, Counted, micro_momentum-IsOpen}
use hft_system.Strategy.Dispatch.{Signalled, dispatch-Signalled}

abbrev bid : MarketUpdate
bid = market_update 7 buy (pos 100) (pos 1) (pos 0) (pos 0) (pos 0)

-- Eleven bids and eight asks so far.
abbrev nearly : MicroMomentum
nearly = record { agg_bids = 11; agg_asks = 8; window_count = 19 }

closes : micro_momentum nearly bid ≡ (fresh_momentum, pos 200)
unfolding micro_momentum signal_of clamp to_int32 wrap tdiv ◌-ℤ◌ ◌*ℤ◌ market_update
closes = refl

abbrev manager : StrategyManager
manager = record {
  store = momentum nearly ∷ imbalance 0 ∷ [];
  per_instrument = (7, 0 ∷ []) ∷ [];
  global_strategies = 1 ∷ 0 ∷ [];
  signals = make 8 (pos 0);
}

micro_momentum-IsOpen_example :
    (c : MicroMomentum) × Counted nearly bid.side c
    × ((micro_momentum nearly bid).1 ≡ sub_ℕ (50 * c.agg_bids) (50 * c.agg_asks))
    × (((c.window_count ≡ 20) × ((micro_momentum nearly bid).0 ≡ fresh_momentum))
        ⊎ ((c.window_count < 20) × ((micro_momentum nearly bid).0 ≡ c)))
    × IsOpen (micro_momentum nearly bid).0
micro_momentum-IsOpen_example =
    micro_momentum-IsOpen nearly bid (record { counted = refl; below = omega arith })

dispatch-Signalled_example : Signalled manager (dispatch (empty_book ∷ []) bid manager) (
    length (strategies_of manager.per_instrument bid.instrument_id)
    + length manager.global_strategies)
dispatch-Signalled_example = dispatch-Signalled (empty_book ∷ []) bid manager
