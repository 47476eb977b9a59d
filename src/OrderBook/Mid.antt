-- ===== src/OrderBook/Mid.antt =====
-- `getMidRaw` of include/market_data/order_book/order_book.h: the mean price of the best levels,
-- weighted by their quantities.
use hft_system.Prelude.{ℕ, zero, suc, ◌+◌, ◌-◌, ◌%◌, List, true, false, if◌then◌else◌}
use hft_system.Prelude.Int.{ℤ, pos, ◌+ℤ◌, ◌*ℤ◌, quot_trunc, eqb_ℤ, to_int64}
use hft_system.OrderBook.{OrderBook, PriceLevel, level, lob_depth}

abbrev pub mid_price_n : ℕ
mid_price_n = 5

-- `bidsSum` and `bidsVol`, or those of the asks.
pub record Sums : Type 0 where
  pub sum : ℤ
  pub vol : ℤ

abbrev pub add_level : Sums → PriceLevel → Sums
add_level a l = record { sum = a.sum +ℤ l.price *ℤ l.quantity; vol = a.vol +ℤ l.quantity }

-- The next slot of the bid loop and of the ask loop.
abbrev pub slot_below : ℕ → ℕ
slot_below idx = (idx + lob_depth - 1) % lob_depth

abbrev pub slot_above : ℕ → ℕ
slot_above idx = (idx + 1) % lob_depth

-- Either loop with at most `steps` rounds and `missing` levels left.
pub sum_levels : (ℕ → ℕ) → List PriceLevel → ℕ → ℕ → ℕ → Sums → Sums
sum_levels next levels zero missing idx a = a
sum_levels next levels (suc steps) zero idx a = a
sum_levels next levels (suc steps) (suc missing) idx a = elim (level levels idx).is_active [
  | true ↦ sum_levels next levels steps missing (next idx) (add_level a (level levels idx))
  | false ↦ sum_levels next levels steps (suc missing) (next idx) a
]

abbrev no_levels : Sums
no_levels = record { sum = pos 0; vol = pos 0 }

pub get_mid_raw : OrderBook → ℤ
unfolding sum_levels
get_mid_raw ob =
    let bids = sum_levels slot_below ob.bids.levels lob_depth mid_price_n ob.bids.best no_levels in
    let asks = sum_levels slot_above ob.asks.levels lob_depth mid_price_n ob.asks.best no_levels in
    if eqb_ℤ (bids.vol +ℤ asks.vol) (pos 0)
    then pos 0
    else to_int64 (quot_trunc (bids.sum +ℤ asks.sum) (bids.vol +ℤ asks.vol))
