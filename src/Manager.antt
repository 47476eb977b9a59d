-- ===== src/Manager.antt =====
-- `OrderBookManager` of include/market_data/order_book/order_book_manager.h and
-- src/market_data/order_book/order_book_manager.cpp: updates from the queues of the venues to the
-- books and the strategies. The readings of the time stamp counter are parameters; the report that
-- `run` prints every million updates is output.
mod Tests
pub mod Route
pub mod Poll
pub mod Drain
use hft_system.Prelude.{
  ℕ, zero, suc, ◌+◌, ◌-◌, ◌%◌, ◌^◌, ◌==◌, if◌then◌else◌, Bool, true, false, List, [], ◌∷◌, ◌++◌,
  length, get_or, set, Option, none, some,
}
use hft_system.Market.{MarketUpdate}
use hft_system.Queue.{LfQueue, get_next_to_read, update_read_index}
use hft_system.OrderBook.{OrderBook, empty_book, add_update}
use hft_system.Histogram.{LatencyHistogram, empty_histogram, record_sample}
use hft_system.Strategy.{StrategyManager, dispatch}

pub record OrderBookManager : Type 0 where
  pub update_queues : List (LfQueue MarketUpdate)
  pub order_books : List OrderBook
  pub id_to_index : List (ℕ × ℕ)
  pub strategy_manager : Option StrategyManager
  pub update_count : ℕ
  pub hist_queue_wait : LatencyHistogram
  pub hist_book_update : LatencyHistogram
  pub hist_strategy : LatencyHistogram
  pub hist_obm_total : LatencyHistogram

abbrev pub empty_manager : OrderBookManager
empty_manager = record {
  update_queues = [];
  order_books = [];
  id_to_index = [];
  strategy_manager = none;
  update_count = 0;
  hist_queue_wait = empty_histogram;
  hist_book_update = empty_histogram;
  hist_strategy = empty_histogram;
  hist_obm_total = empty_histogram;
}

-- `id_to_index_`: `find`, and `operator[]` as an assignment.
unfoldable pub find_index : List (ℕ × ℕ) → ℕ → Option ℕ
find_index [] id = none
find_index ((j, i) ∷ rest) id = if j == id then some i else find_index rest id

put_index : List (ℕ × ℕ) → ℕ → ℕ → List (ℕ × ℕ)
put_index [] id i = (id, i) ∷ []
put_index ((j, k) ∷ rest) id i = if j == id then (j, i) ∷ rest else (j, k) ∷ put_index rest id i

-- A new book; its index is cast to `uint16_t`.
unfoldable pub register_instrument : OrderBookManager → ℕ → OrderBookManager
unfolding put_index
register_instrument m id = record m {
  id_to_index = put_index m.id_to_index id (length m.order_books % 2 ^ 16);
  order_books = m.order_books ++ (empty_book ∷ []);
}

-- `none` is the exception of `at`.
pub book_for : OrderBookManager → ℕ → Option OrderBook
unfolding find_index
book_for m id = elim (find_index m.id_to_index id) [
  | none ↦ none
  | some i ↦ some (get_or m.order_books i empty_book)
]

unfoldable pub add_queue : OrderBookManager → LfQueue MarketUpdate → OrderBookManager
add_queue m q = record m { update_queues = m.update_queues ++ (q ∷ []) }

unfoldable pub set_strategy_manager : OrderBookManager → StrategyManager → OrderBookManager
set_strategy_manager m sm = record m { strategy_manager = some sm }

-- The difference of two readings, as a `uint64_t`.
abbrev elapsed : ℕ → ℕ → ℕ
elapsed later earlier = (later + 2 ^ 64 - earlier) % 2 ^ 64

-- The four readings `t0` to `t3` in one call.
pub record Readings : Type 0 where
  pub t0 : ℕ
  pub t1 : ℕ
  pub t2 : ℕ
  pub t3 : ℕ

-- The call of the strategies, if there are any, and the reading that ends it.
notify : OrderBookManager → MarketUpdate → Readings → OrderBookManager × ℕ
notify m u t = elim m.strategy_manager [
  | none ↦ (m, t.t1)
  | some sm ↦ (
    record m {
      strategy_manager = some (dispatch m.order_books u sm);
      hist_strategy = record_sample m.hist_strategy (elapsed t.t3 t.t2);
    },
    t.t3,
  )
]

-- The end of the call: the two histograms of the way through the queue.
finish : OrderBookManager → MarketUpdate → ℕ → ℕ → OrderBookManager
finish m u dequeue_tsc end = record m {
  hist_queue_wait =
      if u.recv_tsc == 0
      then m.hist_queue_wait
      else record_sample m.hist_queue_wait (elapsed dequeue_tsc u.recv_tsc);
  hist_obm_total = record_sample m.hist_obm_total (elapsed end dequeue_tsc);
}

-- `passUpdateToOrderbook`
pub pass_update : OrderBookManager → MarketUpdate → ℕ → Readings → OrderBookManager
unfolding notify finish find_index
pass_update m u dequeue_tsc t = elim (find_index m.id_to_index u.instrument_id) [
  | none ↦ m
  | some i ↦
      let (m', end) =
        notify
          (record m {
            order_books = set m.order_books i (add_update (get_or m.order_books i empty_book) u);
            hist_book_update = record_sample m.hist_book_update (elapsed t.t1 t.t0);
          })
          u t in
      finish m' u dequeue_tsc end
]

-- What stands for a queue out of range.
abbrev pub no_queue : LfQueue MarketUpdate
no_queue = record { store = []; next_write_index = 0; next_read_index = 0; num_elements = 0 }

abbrev pub queue_at : OrderBookManager → ℕ → LfQueue MarketUpdate
queue_at m k = get_or m.update_queues k no_queue

-- One turn of the loop of `run`, for the queue `k`: the first update of the queue, if it holds one,
-- is passed on and then taken off. `blank` is a read of the store out of range.
pub poll_queue : MarketUpdate → OrderBookManager → ℕ → ℕ → Readings → Option OrderBookManager
unfolding pass_update
poll_queue blank m k dequeue_tsc t =
    let q = queue_at m k in
    elim (get_next_to_read blank q) [
      | none ↦ some m
      | some u ↦
          let m' = pass_update m u dequeue_tsc t in
          elim (update_read_index q) [
            | none ↦ none
            | some q' ↦ some (record m' {
              update_queues = set m'.update_queues k q';
              update_count = (m'.update_count + 1) % 2 ^ 64;
            })
          ]
    ]

-- The `for` loop of `run` over `left` queues from the queue `k` on. `clock` gives the readings for a
-- queue.
pub poll_from :
    MarketUpdate → (ℕ → ℕ × Readings) → OrderBookManager → ℕ → ℕ → Option OrderBookManager
unfolding poll_queue
poll_from blank clock m k zero = some m
poll_from blank clock m k (suc left) = elim (poll_queue blank m k (clock k).0 (clock k).1) [
  | none ↦ none
  | some m' ↦ poll_from blank clock m' (k + 1) left
]

-- `run`: `rounds` rounds of its `while` loop, until `stop` clears the flag.
pub run : MarketUpdate → (ℕ → ℕ → ℕ × Readings) → ℕ → OrderBookManager → Option OrderBookManager
unfolding poll_from
run blank clock zero m = some m
run blank clock (suc rounds) m =
    elim (poll_from blank (clock rounds) m 0 (length m.update_queues)) [
      | none ↦ none
      | some m' ↦ run blank clock rounds m'
    ]
