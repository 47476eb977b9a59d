-- ===== src/Models/Tests.antt =====
-- The models of src/pcm_model/pcm_model.cpp and
-- src/risk_management/risk_model.cpp over whole numbers.
use hft_system.Prelude.{ℕ, ◌≤◌, ◌≡◌, ◌⊎◌, [], ◌∷◌, false}
use hft_system.Prelude.Int.{ℤ, pos, pos_part}
use hft_system.Prelude.DoubleExample.{exact}
use hft_system.Market.{buy, sell, MarketUpdate, market_update}
use hft_system.OrderBook.{empty_book}
use hft_system.Strategy.{momentum, fresh_momentum, on_market_data}
use hft_system.Models.{TradeIntent, RiskLimits, generate_trade_intent}
use hft_system.Models.Intent.{intent_of, generate_trade_intent-on_market_data}

abbrev bid : MarketUpdate
bid = market_update 7 buy (pos 100) (pos 1) (pos 0) (pos 0) (pos 0)

abbrev n : ℕ → ℤ
n k = pos k

generate_trade_intent-on_market_data_example :
    let signal = (on_market_data (empty_book ∷ []) bid (momentum fresh_momentum)).1 in
    ((1 ≤ pos_part signal)
      × (generate_trade_intent exact (n 2) (n 1000) empty_book signal
          ≡ intent_of exact (n 2) (n 1000) empty_book signal buy))
    ⊎ ((pos_part signal ≡ 0)
        × (generate_trade_intent exact (n 2) (n 1000) empty_book signal
            ≡ intent_of exact (n 2) (n 1000) empty_book signal sell))
generate_trade_intent-on_market_data_example =
    generate_trade_intent-on_market_data exact (n 2) (n 1000) empty_book (empty_book ∷ []) bid
      (momentum fresh_momentum)

abbrev limits : RiskLimits ℤ
limits = record {
  max_position_per_instrument = n 10;
  max_notional_per_instrument = n 500;
  max_trade_size = n 5;
}

abbrev intent : TradeIntent ℤ
intent = record { price = n 100; side = buy; size = n 3 }

abbrev gt : ℤ → ℤ → Type 0
gt a b = exact.gt a b ≡ false
