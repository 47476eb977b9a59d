-- ===== src/Strategy/Dispatch.antt =====
-- `StrategyManager::onMarketData` of include/strategies/strategy_manager.hpp: the signals that one
-- update produces.
use hft_system.Prelude.{
  ℕ, ◌+◌, ◌≡◌, refl, arith, sym, ap, ap₂, subst, ◌∙◌, List, [], ◌∷◌, ◌++◌, length, get_or, All,
  all_nil, all_cons, All-append, length-append,
}
use hft_system.Prelude.Int.{ℤ}
use hft_system.Market.{MarketUpdate}
use hft_system.Queue.{push_all}
use hft_system.Queue.Fifo.{push_all-append}
use hft_system.OrderBook.{OrderBook}
use hft_system.Strategy.{
  StrategyManager, strategies_of, run_strategy, run_strategies, dispatch, on_market_data, momentum,
  fresh_momentum,
}
use hft_system.Strategy.Bounds.{InRange, on_market_data-InRange}

-- A run over `strats` has pushed one signal in range for each of them.
pub record Signalled (sm after : StrategyManager) (n : ℕ) : Type 0 where
  pub sent : List ℤ
  pub pushed : after.signals ≡ push_all sm.signals sent
  pub count : length sent ≡ n
  pub in_range : All InRange sent
  pub lists :
      (after.per_instrument ≡ sm.per_instrument) × (after.global_strategies ≡ sm.global_strategies)

Signalled-trans :
    {a b c : StrategyManager} {m n : ℕ} → Signalled a b m → Signalled b c n → Signalled a c (m + n)
Signalled-trans {a} {b} {c} {m} {n} v w = record {
  sent = v.sent ++ w.sent;
  pushed =
      w.pushed
      ∙ ap (λ q. push_all q w.sent) v.pushed
      ∙ sym (push_all-append v.sent w.sent a.signals);
  count = length-append v.sent w.sent ∙ ap₂ ◌+◌ v.count w.count;
  in_range = All-append InRange v.in_range w.in_range;
  lists = (w.lists.0 ∙ v.lists.0, w.lists.1 ∙ v.lists.1);
}

module _ (books : List OrderBook) (u : MarketUpdate) where
  run_strategy-Signalled :
      (sm : StrategyManager) (strat : ℕ) → Signalled sm (run_strategy books u sm strat) 1
  unfolding run_strategy push_all
  run_strategy-Signalled sm strat = record {
    sent = (on_market_data books u (get_or sm.store strat (momentum fresh_momentum))).1 ∷ [];
    pushed = refl;
    count = refl;
    in_range = all_cons (on_market_data-InRange books u _) all_nil;
    lists = (refl, refl);
  }

  run_strategies-Signalled :
      (sm : StrategyManager) (strats : List ℕ)
      → Signalled sm (run_strategies books u sm strats) (length strats)
  unfolding run_strategies push_all
  run_strategies-Signalled sm [] = record {
    sent = [];
    pushed = refl;
    count = refl;
    in_range = all_nil;
    lists = (refl, refl);
  }
  run_strategies-Signalled sm (strat ∷ rest) =
      subst (Signalled sm (run_strategies books u (run_strategy books u sm strat) rest))
        (omega arith)
        (Signalled-trans (run_strategy-Signalled sm strat)
          (run_strategies-Signalled (run_strategy books u sm strat) rest))

  -- One update makes the strategy manager push one signal, in the range from -1000 to 1000, for
  -- each strategy registered for its instrument and for each global one, and changes no
  -- registration.
  pub dispatch-Signalled :
      (sm : StrategyManager)
      → Signalled sm
          (dispatch books u sm)
          (length (strategies_of sm.per_instrument u.instrument_id) + length sm.global_strategies)
  unfolding dispatch
  dispatch-Signalled sm =
      let first = run_strategies-Signalled sm (strategies_of sm.per_instrument u.instrument_id) in
      Signalled-trans first (run_strategies-Signalled _ sm.global_strategies)
