-- ===== src/Models/Intent.antt =====
-- The intents of src/pcm_model/pcm_model.cpp for the signals of src/strategies, and when the checks of
-- src/risk_management/risk_model.cpp pass.
use hft_system.Prelude.{
  ◌≤◌, ◌≡◌, refl, arith, ◌↔◌, ◌⊎◌, inl, inr, List, if◌then◌else◌, false, min, Bool-cases,
}
use hft_system.Prelude.Int.{ℤ, pos, abs, ltb_ℤ, pos_part, negsuc, parts_split}
use hft_system.Prelude.Double.{Double}
use hft_system.Market.{Side, buy, sell, MarketUpdate}
use hft_system.OrderBook.{OrderBook}
use hft_system.OrderBook.Mid.{get_mid_raw}
use hft_system.Strategy.{Strategy, on_market_data}
use hft_system.Strategy.Bounds.{InRange, on_market_data-InRange}
use hft_system.Models.{TradeIntent, RiskLimits, ok, generate_trade_intent, pre_trade_check, whole}

min-abs : (x : ℤ) → InRange x → min (abs x) 1000 ≡ abs x
min-abs (pos n) h = omega arith
min-abs (negsuc n) h = omega arith

module _ {D : Type 0} (d : Double D) where
  -- The intent of a signal whose strength is not cut.
  abbrev pub intent_of : D → D → OrderBook → ℤ → Side → TradeIntent D
  intent_of capital_fraction available_capital ob signal side =
      let mid_price = d.scaled (get_mid_raw ob) ob.price_exp in
      record {
        price = mid_price;
        side = side;
        size =
            if d.gt mid_price (whole d 0)
            then d.div
                (d.mul available_capital
                  (d.mul (d.div (whole d (abs signal)) (whole d 1000)) capital_fraction))
                mid_price
            else whole d 0;
      }

  intent_lem :
      (capital_fraction available_capital : D) (ob : OrderBook) (x : ℤ)
      → InRange x
      → ((1 ≤ pos_part x)
          × (generate_trade_intent d capital_fraction available_capital ob x
              ≡ intent_of capital_fraction available_capital ob x buy))
        ⊎ ((pos_part x ≡ 0)
            × (generate_trade_intent d capital_fraction available_capital ob x
                ≡ intent_of capital_fraction available_capital ob x sell))
  unfolding generate_trade_intent
  intent_lem capital_fraction available_capital ob x h = elim (Bool-cases (ltb_ℤ (pos 0) x)) [
    | inl e ↦ inl (ground (arith, parts_split x), rw (min-abs x h, e) refl)
    | inr e ↦ inr (ground (arith, parts_split x), rw (min-abs x h, e) refl)
  ]

  -- For the signal of any strategy the intent is a buy if the signal is positive and else a sell,
  -- at the mid price, and its size is computed from the whole strength of the signal, without a
  -- cut.
  pub generate_trade_intent-on_market_data :
      (capital_fraction available_capital : D) (ob : OrderBook) (books : List OrderBook)
      (u : MarketUpdate) (s : Strategy)
      → let signal = (on_market_data books u s).1 in
        ((1 ≤ pos_part signal)
          × (generate_trade_intent d capital_fraction available_capital ob signal
              ≡ intent_of capital_fraction available_capital ob signal buy))
        ⊎ ((pos_part signal ≡ 0)
            × (generate_trade_intent d capital_fraction available_capital ob signal
                ≡ intent_of capital_fraction available_capital ob signal sell))
  generate_trade_intent-on_market_data capital_fraction available_capital ob books u s =
      intent_lem capital_fraction available_capital ob (on_market_data books u s).1
        (on_market_data-InRange books u s)

  -- An intent passes exactly if the new position, the notional against its limit and against the
  -- capital, and the size are none of them over their limits.
  pub pre_trade_check_iff :
      (limits : RiskLimits D) (position : D) (intent : TradeIntent D) (available_capital : D)
      → (pre_trade_check d limits position intent available_capital ≡ ok) ↔ (
          (d.gt (d.abs (d.add position intent.size)) limits.max_position_per_instrument ≡ false)
          × (d.gt (d.abs (d.mul intent.size intent.price)) limits.max_notional_per_instrument
              ≡ false)
          × (d.gt (d.abs (d.mul intent.size intent.price)) available_capital ≡ false)
          × (d.gt (d.abs intent.size) limits.max_trade_size ≡ false))
  unfolding pre_trade_check
  pre_trade_check_iff limits position intent available_capital = ground arith
