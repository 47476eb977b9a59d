-- ===== src/Models.antt =====
-- The models behind the signals: `PCModel` of src/pcm_model/pcm_model.cpp, `TransactionCostModel` of
-- src/tcm_model/tcm.cpp and the checks of src/risk_management/risk_model.cpp. Floating point is a
-- parameter; decimal literals of the source are quotients of whole numbers or parameters.
mod Tests
pub mod Intent
use hft_system.Prelude.{ℕ, suc, ◌+◌, if◌then◌else◌, leb, Bool, true, false, Option, none, some, min}
use hft_system.Prelude.Int.{ℤ, pos, ltb_ℤ, abs}
use hft_system.Prelude.Double.{Double}
use hft_system.Market.{Side, buy, sell}
use hft_system.Queue.{LfQueue, get_next_to_read, update_read_index}
use hft_system.OrderBook.{OrderBook}
use hft_system.OrderBook.Mid.{get_mid_raw}

-- `TradeIntent`
pub record TradeIntent (D : Type 0) : Type 0 where
  pub price : D
  pub side : Side
  pub size : D

-- `TransactionCostModel`: the fees are stored in an `int`.
pub record TransactionCostModel (D : Type 0) : Type 0 where
  pub exchange_fees : ℤ
  pub latency : D

-- `RiskLimits`, as far as the checks read it.
pub record RiskLimits (D : Type 0) : Type 0 where
  pub max_position_per_instrument : D
  pub max_notional_per_instrument : D
  pub max_trade_size : D

-- What the checks return: the values of `RiskStatus`, and the `rejected` of the code, which the header
-- lacks. No check gives `var_limit_exceeded`.
pub data RiskResult : Type 0 where
  ok position_limit_exceeded notional_limit_exceeded capital_limit_exceeded : RiskResult
  var_limit_exceeded rejected : RiskResult

module _ {D : Type 0} (d : Double D) where
  abbrev pub whole : ℕ → D
  whole n = d.of_int (pos n)

  -- `PCModel::generatetradeIntent`; `capital_fraction` is its constant.
  pub generate_trade_intent : D → D → OrderBook → ℤ → TradeIntent D
  generate_trade_intent capital_fraction available_capital ob signal =
      let strength = d.div (whole (min (abs signal) 1000)) (whole 1000) in
      let mid_price = d.scaled (get_mid_raw ob) ob.price_exp in
      let notional = d.mul available_capital (d.mul strength capital_fraction) in
      record {
        price = mid_price;
        side = if ltb_ℤ (pos 0) signal then buy else sell;
        size = if d.gt mid_price (whole 0) then d.div notional mid_price else whole 0;
      }

  -- One turn of the loop of `PCModel::run`: the intent is dropped.
  pub take_signal : ℤ → LfQueue ℤ → Option (LfQueue ℤ)
  take_signal blank q = elim (get_next_to_read blank q) [
    | none ↦ some q
    | some signal ↦ update_read_index q
  ]

  -- `TransactionCostModel::TransactionCostModel`
  pub make_cost_model : D → D → TransactionCostModel D
  make_cost_model exchange_fees latency = record {
    exchange_fees = d.trunc exchange_fees;
    latency = latency;
  }

  pub estimate_slippage_cost : TransactionCostModel D → D → D → D → D → D → D
  estimate_slippage_cost m trade_volume volatility spread top_book_depth aggressiveness =
      let vol_component = d.mul volatility (d.sqrt m.latency) in
      let liquidity_component = d.mul (d.div trade_volume top_book_depth) spread in
      d.mul (d.mul (d.add vol_component liquidity_component) aggressiveness) trade_volume

  pub estimate_market_impact_cost : D → D → D → D → D → D → D
  estimate_market_impact_cost trade_size adv volatility price i alpha =
      let impact = d.mul (d.mul (d.mul i (d.pow (d.div trade_size adv) alpha)) volatility) price in
      if d.le adv (whole 0) then whole 0 else d.mul impact trade_size

  pub calculate_spread_cost : D → D → D
  calculate_spread_cost spread trade_volume = d.mul (d.div spread (whole 2)) trade_volume

  -- `computeTotalCost`
  pub compute_total_cost : TransactionCostModel D → D → D → D → D → D → D → D → D → D → D → D
  unfolding estimate_slippage_cost estimate_market_impact_cost calculate_spread_cost
  compute_total_cost m trade_volume spread volatility top_book_depth price aggressiveness trade_size
        adv i alpha =
      let spread_cost = calculate_spread_cost spread trade_volume in
      let commission_fees =
        d.mul (d.mul price trade_volume) (d.div (d.of_int m.exchange_fees) (whole 100)) in
      let slippage_cost =
        estimate_slippage_cost m trade_volume volatility spread top_book_depth aggressiveness in
      let market_impact_cost =
        estimate_market_impact_cost trade_size adv volatility price i alpha in
      d.add (d.add (d.add commission_fees spread_cost) market_impact_cost) slippage_cost

  -- `preTradeCheck`; `position` is the position in the instrument.
  pub pre_trade_check : RiskLimits D → D → TradeIntent D → D → RiskResult
  pre_trade_check limits position intent available_capital =
      let notional = d.abs (d.mul intent.size intent.price) in
      if d.gt (d.abs (d.add position intent.size)) limits.max_position_per_instrument
      then rejected
      else if d.gt notional limits.max_notional_per_instrument
      then notional_limit_exceeded
      else if d.gt notional available_capital
      then capital_limit_exceeded
      else if d.gt (d.abs intent.size) limits.max_trade_size
      then position_limit_exceeded
      else ok
