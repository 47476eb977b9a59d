-- ===== src/Strategy/Bounds.antt =====
-- The range of the signals of src/strategies, and the window of
-- src/strategies/trend_following/micro_momentum.cpp.
use hft_system.Prelude.{
  ℕ, ◌+◌, ◌*◌, ◌≤◌, ◌<◌, ◌≡◌, ◌≢◌, refl, arith, sym, ◌⊎◌, inl, inr, List, Bool-cases, dec_lt, subst,
}
use hft_system.Prelude.Int.{
  ℤ, pos, negsuc, sub_ℕ, ◌≤ℤ◌, ◌-ℤ◌, ◌*ℤ◌, tdiv, clamp, to_int32, wrap, leb_ℤ, eqb_ℤ, ◌+ℤ◌,
}
use hft_system.Market.{Side, buy, sell, invalid, MarketUpdate}
use hft_system.OrderBook.{
  OrderBook, get_best_ask_raw, get_best_ask_qty_raw, get_best_bid_raw, get_best_bid_qty_raw,
}
use hft_system.Strategy.{
  signal_of, mid_price_reversion, order_book_imbalance, MicroMomentum, fresh_momentum, count_update,
  momentum_window, micro_momentum, Strategy, reversion, imbalance, momentum, on_market_data,
}

-- The range that include/strategies/strategy.h gives for a signal.
abbrev pub InRange : ℤ → Type 0
InRange x = (negsuc 999 ≤ℤ x) × (x ≤ℤ pos 1000)

signal_of-InRange : (x : ℤ) → InRange (signal_of x)
unfolding signal_of clamp to_int32 wrap
signal_of-InRange x = ground arith

micro_momentum-InRange : (m : MicroMomentum) (u : MarketUpdate) → InRange (micro_momentum m u).1
unfolding micro_momentum
micro_momentum-InRange m u = signal_of-InRange _

mid_price_reversion-InRange :
    (ob : OrderBook) (u : MarketUpdate) → InRange (mid_price_reversion ob u)
unfolding mid_price_reversion
mid_price_reversion-InRange ob u =
    elim (Bool-cases (leb_ℤ (get_best_ask_raw ob -ℤ get_best_bid_raw ob) (pos 0))) [
      | inl e ↦ rw e (omega arith, omega arith)
      | inr e ↦ rw e (signal_of-InRange _)
    ]

order_book_imbalance-InRange : (ob : OrderBook) → InRange (order_book_imbalance ob)
unfolding order_book_imbalance
order_book_imbalance-InRange ob =
    elim (Bool-cases (eqb_ℤ (get_best_bid_qty_raw ob +ℤ get_best_ask_qty_raw ob) (pos 0))) [
      | inl e ↦ rw e (omega arith, omega arith)
      | inr e ↦ elim (Bool-cases (leb_ℤ (get_best_ask_raw ob -ℤ get_best_bid_raw ob) (pos 0))) [
        | inl f ↦ rw (e, f) (omega arith, omega arith)
        | inr f ↦ rw (e, f) (signal_of-InRange _)
      ]
    ]

-- The signal of every strategy, on any books and any update, lies in the range from -1000 to 1000.
pub on_market_data-InRange :
    (books : List OrderBook) (u : MarketUpdate) (s : Strategy)
    → InRange (on_market_data books u s).1
unfolding on_market_data
on_market_data-InRange books u (reversion b) = mid_price_reversion-InRange _ u
on_market_data-InRange books u (imbalance b) = order_book_imbalance-InRange _
on_market_data-InRange books u (momentum m) = micro_momentum-InRange m u

-- The counters of a window that is open.
pub record IsOpen (m : MicroMomentum) : Type 0 where
  pub counted : m.agg_bids + m.agg_asks ≡ m.window_count
  pub below : m.window_count < momentum_window

-- What is counted in `m` and then in `c`, after an update of side `side`: a bid if it is a buy, and
-- else an ask.
abbrev pub Counted : MicroMomentum → Side → MicroMomentum → Type 0
Counted m side c =
    (c.window_count ≡ m.window_count + 1)
    × (c.agg_bids + c.agg_asks ≡ c.window_count)
    × (((side ≡ buy) × (c.agg_bids ≡ m.agg_bids + 1) × (c.agg_asks ≡ m.agg_asks))
        ⊎ ((side ≢ buy) × (c.agg_asks ≡ m.agg_asks + 1) × (c.agg_bids ≡ m.agg_bids)))

count_update-Counted :
    (m : MicroMomentum) (side : Side) → IsOpen m → Counted m side (count_update m side)
count_update-Counted m buy v = (
  omega (arith, v.below),
  omega (arith, v.below, v.counted),
  inl (refl, omega (arith, v.below, v.counted), refl),
)
count_update-Counted m sell v = (
  omega (arith, v.below),
  omega (arith, v.below, v.counted),
  inr ((λ e. absurd (ground arith)), omega (arith, v.below, v.counted), refl),
)
count_update-Counted m invalid v = (
  omega (arith, v.below),
  omega (arith, v.below, v.counted),
  inr ((λ e. absurd (ground arith)), omega (arith, v.below, v.counted), refl),
)

-- In range, the signal of a window is 50 for each bid and -50 for each ask.
window_signal :
    (b a : ℕ)
    → b + a ≤ 20
    → signal_of (tdiv ((pos b -ℤ pos a) *ℤ pos 1000) momentum_window) ≡ sub_ℕ (50 * b) (50 * a)
unfolding signal_of clamp to_int32 wrap tdiv ◌-ℤ◌ ◌*ℤ◌
window_signal b a h = ground arith

-- From an open window, whose bids and asks add up to its count below 20, an update that buys
-- counts one more bid and any other one more ask, and the other number stays; the signal is 50 for
-- each bid and -50 for each ask counted; the window starts afresh when its count is 20 and else is
-- kept, and it is open again.
pub micro_momentum-IsOpen :
    (m : MicroMomentum) (u : MarketUpdate)
    → IsOpen m
    → (c : MicroMomentum) × Counted m u.side c
      × ((micro_momentum m u).1 ≡ sub_ℕ (50 * c.agg_bids) (50 * c.agg_asks))
      × (((c.window_count ≡ 20) × ((micro_momentum m u).0 ≡ fresh_momentum))
          ⊎ ((c.window_count < 20) × ((micro_momentum m u).0 ≡ c)))
      × IsOpen (micro_momentum m u).0
unfolding micro_momentum
micro_momentum-IsOpen m u v =
    let c = count_update m u.side in
    let (more, total, side) = count_update-Counted m u.side v in
    elim (dec_lt c.window_count 20) [
      | yes lt ↦
          let same : (micro_momentum m u).0 ≡ c = ground arith in
          (
            c,
            (more, total, side),
            window_signal c.agg_bids c.agg_asks (omega arith),
            inr (lt, same),
            subst IsOpen (sym same) (record { counted = total; below = lt }),
          )
      | no ge ↦
          let same : (micro_momentum m u).0 ≡ fresh_momentum = ground arith in
          (
            c,
            (more, total, side),
            window_signal c.agg_bids c.agg_asks (omega (arith, v.below)),
            inl (omega (arith, v.below), same),
            subst IsOpen (sym same) (record { counted = omega arith; below = omega arith }),
          )
    ]
