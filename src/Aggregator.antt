-- ===== src/Aggregator.antt =====
-- `HistoricalDataAggergator` of
-- include/market_data/historical_data_aggregator/historical_aggregator.h and
-- src/market_data/historical_data_aggregator/historical_aggregator.cpp. Floating point and the
-- database (libpq) are parameters; `fetchHistoricalData` and `fetchAverageDailyVolume` have no body
-- in the source.
mod Tests
pub mod Window
pub mod Table
use hft_system.Prelude.{
  ℕ, zero, suc, ◌+◌, ◌==◌, ltb, leb, not, ◌&&◌, if◌then◌else◌, Bool, true, false, List, [], ◌∷◌,
  ◌++◌, length, get_or, set, replicate, Option, none, some,
}
use hft_system.Prelude.Int.{ℤ, pos, tdiv}
use hft_system.Prelude.Double.{Double}
use hft_system.Market.{Side, buy, sell, invalid, MarketUpdate}
use hft_system.Queue.{LfQueue, get_next_to_read, update_read_index}
use hft_system.OrderBook.{OrderBook}
use hft_system.OrderBook.Mid.{get_mid_raw}

abbrev pub tick_data_size : ℕ
tick_data_size = 100

-- The state that does not belong to the database. `tick_data` always has 100 elements.
pub record Ticks (D : Type 0) : Type 0 where
  pub tick_data : List D
  pub write_index : ℕ
  pub num_of_elements : ℕ
  pub volatility : D

module _ {D : Type 0} (d : Double D) where
  abbrev nought : D
  nought = d.of_int (pos 0)

  -- A fresh aggregator; the array holds what was in its memory.
  abbrev pub fresh : List D → Ticks D
  fresh memory = record {
    tick_data = memory;
    write_index = 0;
    num_of_elements = 0;
    volatility = nought;
  }

  -- `getMidPrice`
  pub get_mid_price : OrderBook → D
  get_mid_price ob = d.scaled (get_mid_raw ob) ob.price_exp

  -- `insert_tick_data` of a price; `none` is a write beyond the end of the array.
  pub insert_tick : Ticks D → D → Option (Ticks D)
  insert_tick t price =
      let i = if ltb tick_data_size t.write_index then 0 else t.write_index in
      let t' = record t {
        tick_data = set t.tick_data i price;
        write_index = i + 1;
        num_of_elements =
            if ltb t.num_of_elements tick_data_size
            then t.num_of_elements + 1
            else t.num_of_elements;
      } in
      if leb (length t.tick_data) i then none else some t'

  pub insert_ticks : Ticks D → List D → Option (Ticks D)
  unfolding insert_tick
  insert_ticks t [] = some t
  insert_ticks t (p ∷ ps) = elim (insert_tick t p) [ none ↦ none | some t' ↦ insert_ticks t' ps ]

  -- The loop of `computeReturns`, from the element `previous` on.
  pub returns_from : D → List D → List D
  returns_from previous [] = []
  returns_from previous (x ∷ xs) =
      let rest = returns_from x xs in
      if d.gt x nought && d.is_nonzero previous then d.log (d.div x previous) ∷ rest else rest

  -- `computeReturns`: over the whole array, however many ticks there are.
  pub compute_returns : Ticks D → List D
  unfolding returns_from
  compute_returns t =
      if ltb t.num_of_elements 2
      then []
      else elim t.tick_data [ [] ↦ [] | x ∷ xs ↦ returns_from x xs ]

  pub sum_of : D → List D → D
  sum_of acc [] = acc
  sum_of acc (r ∷ rs) = sum_of (d.add acc r) rs

  pub squares_of : D → D → List D → D
  squares_of mean acc [] = acc
  squares_of mean acc (r ∷ rs) =
      squares_of mean (d.add acc (d.mul (d.sub r mean) (d.sub r mean))) rs

  -- `ComputeVolatility`: the 0 for no elements is overwritten at the end.
  pub compute_volatility : Ticks D → Ticks D
  unfolding compute_returns sum_of squares_of
  compute_volatility t =
      let rs = compute_returns t in
      let n = d.of_int (pos t.num_of_elements) in
      let mean = d.div (sum_of nought rs) n in
      record t { volatility = d.sqrt (d.div (squares_of mean nought rs) n) }

-- The statements that are sent to the database.
pub data Statement : Type 0 where
  select_now table_exists create_table create_hypertable : Statement

-- What the program looks at in a `PGresult`.
pub record Reply : Type 0 where
  pub tuples_ok : Bool
  pub command_ok : Bool
  pub value_is_t : Bool

-- A row of `tick_data`: the seconds of its time, and its three other values.
pub record TickRow : Type 0 where
  pub seconds : ℤ
  pub side : Side
  pub price : ℤ
  pub quantity : ℤ

-- libpq, as far as it is used.
pub record Database (C : Type 0) : Type 0 where
  pub is_ok : C → Bool
  pub exec : C → Statement → Reply × C
  pub insert_row : C → TickRow → C

-- How `connectToDB` ends.
pub data Connected : Type 0 where
  no_connection query_failed check_failed create_failed : Connected
  without_hypertable created existed : Connected

module _ {C : Type 0} (db : Database C) where
  -- From the answer on whether the table exists.
  pub make_table : C → Bool → Connected × C
  make_table c exists =
      let (reply, c') = db.exec c create_table in
      let (reply', c'') = db.exec c' create_hypertable in
      if exists
      then (existed, c)
      else if not reply.command_ok
      then (create_failed, c')
      else if not reply'.tuples_ok
      then (without_hypertable, c'')
      else (created, c'')

  -- `connectToDB`
  pub connect_to_db : C → Connected × C
  unfolding make_table
  connect_to_db c =
      let (now, c') = db.exec c select_now in
      let (check, c'') = db.exec c' table_exists in
      if not (db.is_ok c)
      then (no_connection, c)
      else if not now.tuples_ok
      then (query_failed, c')
      else if not check.tuples_ok
      then (check_failed, c'')
      else make_table c'' check.value_is_t

  -- `_market_update->_side == Side::BUY ? "BUY" : "SELL"`
  pub written_side : Side → Side
  written_side buy = buy
  written_side sell = sell
  written_side invalid = sell

  -- `writeToDB`
  pub write_to_db : C → MarketUpdate → C
  unfolding written_side
  write_to_db c u =
      if not (db.is_ok c)
      then c
      else db.insert_row c (record {
        seconds = tdiv u.timestamp 1000;
        side = written_side u.side;
        price = u.price;
        quantity = u.quantity;
      })

  -- One turn of the loop of `run`; `none` is a write beyond the array or a failed assertion.
  pub aggregate_one :
      {D : Type 0}
      → Double D
      → MarketUpdate
      → OrderBook
      → Ticks D × C × LfQueue MarketUpdate
      → Option (Ticks D × C × LfQueue MarketUpdate)
  unfolding insert_tick compute_volatility write_to_db get_mid_price
  aggregate_one d blank ob (t, c, q) = elim (get_next_to_read blank q) [
    | none ↦ some (t, c, q)
    | some u ↦ elim (insert_tick d t (get_mid_price d ob)) [
      | none ↦ none
      | some t' ↦ elim (update_read_index q) [
        | none ↦ none
        | some q' ↦ some (compute_volatility d t', write_to_db c u, q')
      ]
    ]
  ]
