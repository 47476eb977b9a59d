-- ===== src/Market.antt =====
-- The market data types: `Side` of include/market_data/order_book/market_order.h and
-- `MarketUpdate` of include/market_data/order_book/market_update.h.
use hft_system.Prelude.{ℕ}
use hft_system.Prelude.Int.{ℤ}

-- `enum Side`
pub data Side : Type 0 where
  buy sell invalid : Side

-- `struct MarketUpdate`: raw integers of the exchange with their decimal exponents; a quantity of 0
-- removes the level.
pub record MarketUpdate : Type 0 where
  pub instrument_id : ℕ
  pub side : Side
  pub price : ℤ
  pub quantity : ℤ
  pub price_exp : ℤ
  pub qty_exp : ℤ
  pub timestamp : ℤ
  pub recv_tsc : ℕ

-- The constructor that sets all but the receive stamp, which starts at 0.
unfoldable pub market_update : ℕ → Side → ℤ → ℤ → ℤ → ℤ → ℤ → MarketUpdate
market_update instrument_id side price quantity price_exp qty_exp timestamp = record {
  instrument_id = instrument_id;
  side = side;
  price = price;
  quantity = quantity;
  price_exp = price_exp;
  qty_exp = qty_exp;
  timestamp = timestamp;
  recv_tsc = 0;
}
