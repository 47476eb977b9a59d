-- ===== src/Program.antt =====
-- `main` of src/main.cpp: the parts of the program are made and joined, and then run by two threads.
-- The rows of the CSV file and the connection are parameters. An exception and a failed `assert` are
-- `none`; `asserts` tells if the build has them (it has not with NDEBUG, as in CMake's Release). The time stamp counter is calibrated for reports only.
mod Tests
pub mod SetUp
pub mod Cycle
use hft_system.Prelude.{
  ℕ, zero, suc, ◌+◌, ◌==◌, ◌&&◌, if◌then◌else◌, Bool, true, false, List, [], ◌∷◌, Option, none,
  some,
}
use hft_system.Prelude.Int.{pos}
use hft_system.Market.{MarketUpdate}
use hft_system.Queue.{LfQueue, make}
use hft_system.Registry.{Bytes, StreamRow, VenueRegistry, venue_registry, lookup}
use hft_system.Config.{binance, load_csv, build_binance_url, url_path}
use hft_system.WebSocket.{Transport}
use hft_system.WebSocket.Handshake.{ascii}
use hft_system.Histogram.{empty_histogram}
use hft_system.Sbe.{
  MessageSchema, register_schema, binance_depth_diff, binance_depth_snapshot, binance_best_bid_ask,
  binance_trades,
}
use hft_system.Strategy.{
  Strategy, reversion, imbalance, momentum, fresh_momentum, StrategyManager, register_strategy,
}
use hft_system.Manager.{
  OrderBookManager, empty_manager, find_index, register_instrument, add_queue, set_strategy_manager,
  queue_at, run,
}
use hft_system.Manager as Manager
use hft_system.Ingester.{MarketDataIngester, receive_one}
use hft_system.Ingester as Ingester

infixl 5 ◌>>=◌ ◌>>◌
abbrev ◌>>=◌ {ℓ κ} : {A : Type ℓ} {B : Type κ} → Option A → (A → Option B) → Option B
none >>= f = none
some a >>= f = f a

abbrev ◌>>◌ {ℓ} : {A : Type ℓ} → Bool → Option A → Option A
true >> rest = rest
false >> rest = none

-- `assert` passes if the test holds, or if the build compiles it out.
abbrev pub holds : Bool → Bool → Bool
holds asserts test = if asserts then test else true

-- What `main` has made when it starts the threads, with the registry and the schemas of the parser.
pub record Program (W : Type 0) : Type 0 where
  pub registry : VenueRegistry
  pub manager : OrderBookManager
  pub schemas : List MessageSchema
  pub path : Bytes
  pub ingester : MarketDataIngester W

-- `for (const auto &r : rows) obm.register_instrument(registry.lookup(r.exchange, r.symbol));`
pub register_rows : VenueRegistry → List StreamRow → OrderBookManager → Option OrderBookManager
register_rows registry [] m = some m
register_rows registry (r ∷ rows) m = do
  id ← lookup registry r.exchange r.symbol
  register_rows registry rows (register_instrument m id)

-- `binance_schemas`
abbrev pub binance_schemas : List MessageSchema
binance_schemas =
    register_schema
      (register_schema
        (register_schema (register_schema [] binance_depth_diff) binance_depth_snapshot)
        binance_best_bid_ask)
      binance_trades

-- The nine strategies: three for the book of each of the three symbols.
abbrev strategy_store : ℕ → ℕ → ℕ → List Strategy
strategy_store btc eth bnb =
    reversion btc
    ∷ imbalance btc
    ∷ momentum fresh_momentum
    ∷ reversion eth
    ∷ imbalance eth
    ∷ momentum fresh_momentum
    ∷ reversion bnb
    ∷ imbalance bnb
    ∷ momentum fresh_momentum
    ∷ []

-- The three calls of `register_strategy` for one symbol.
register_three : StrategyManager → ℕ → ℕ → StrategyManager
register_three sm id first =
    register_strategy (register_strategy (register_strategy sm id first) id (first + 1)) id
      (first + 2)

-- The strategy manager of the three symbols, given by their ids and the indices of their books.
pub strategies : (ids books : ℕ × ℕ × ℕ) → StrategyManager
unfolding register_three
strategies (btc, eth, bnb) (btc_book, eth_book, bnb_book) =
    register_three
      (register_three
        (register_three
          (record {
            store = strategy_store btc_book eth_book bnb_book;
            per_instrument = [];
            global_strategies = [];
            signals = make 8192 (pos 0);
          })
          btc 0)
        eth 3)
      bnb 6

-- `MarketDataIngester` over a connection and a queue.
abbrev pub new_ingester : {W : Type 0} → W → LfQueue MarketUpdate → MarketDataIngester W
new_ingester link q = record {
  link = link;
  updates_queue = q;
  ws_frame_count = 0;
  io_done = 0;
  hist_ws_total = empty_histogram;
  hist_ws_io = empty_histogram;
  hist_ws_cpu = empty_histogram;
  hist_sbe = empty_histogram;
}

-- The queue of the venue; `blank` is a default-made update.
abbrev pub binance_queue : MarketUpdate → LfQueue MarketUpdate
binance_queue blank = make 4096 blank

-- The part of `main` before the threads are started.
pub set_up : {W : Type 0} → Bool → MarketUpdate → W → List StreamRow → Option (Program W)
unfolding register_rows strategies
set_up asserts blank link csv_rows = do
  rows ← load_csv csv_rows
  let registry = venue_registry rows
  btc_id ← lookup registry binance (ascii "BTCUSDT")
  holds asserts (btc_id == 0)
  eth_id ← lookup registry binance (ascii "ETHUSDT")
  holds asserts (eth_id == 1)
  bnb_id ← lookup registry binance (ascii "BNBUSDT")
  holds asserts (bnb_id == 2)
  registered ← register_rows registry rows empty_manager
  btc_book ← find_index registered.id_to_index btc_id
  eth_book ← find_index registered.id_to_index eth_id
  bnb_book ← find_index registered.id_to_index bnb_id
  path ← url_path (build_binance_url rows)
  some (record {
    registry = registry;
    manager =
        set_strategy_manager (add_queue registered (binance_queue blank))
          (strategies (btc_id, eth_id, bnb_id) (btc_book, eth_book, bnb_book));
    schemas = binance_schemas;
    path = path;
    ingester = new_ingester link (binance_queue blank);
  })

-- One turn of the ingester's thread, and then `rounds` rounds of the manager's thread. Both use one
-- queue, which each hands to the other.
pub cycle :
    {W : Type 0}
    → Transport W
    → MarketUpdate
    → Ingester.Readings
    → (ℕ → ℕ → ℕ × Manager.Readings)
    → ℕ
    → Program W
    → Option (Program W)
cycle t blank now clock rounds p = do
  received ← receive_one t p.schemas p.registry binance p.ingester now
  drained ←
      run blank clock rounds (record p.manager { update_queues = received.updates_queue ∷ [] })
  some (record p {
    manager = drained;
    ingester = record received { updates_queue = queue_at drained 0 };
  })
