-- ===== src/Aggregator/Tests.antt =====
-- The ticks and the database of
-- src/market_data/historical_data_aggregator/historical_aggregator.cpp at concrete data.
use hft_system.Prelude.{
  ◌≤◌, ◌<◌, ◌≡◌, refl, ◌⊎◌, List, length, replicate, drop, some, none, Bool, true, false,
}
use hft_system.Prelude.DoubleExample.{exact}
use hft_system.Prelude.Int.{ℤ, pos}
use hft_system.Aggregator.{
  Ticks, fresh, insert_ticks, Statement, select_now, table_exists, create_table, create_hypertable,
  Reply, Database, make_table, connect_to_db,
}
use hft_system.Aggregator.Window.{Holds, insert_ticks-fresh}
use hft_system.Aggregator.Table.{IsTruthful, connect_to_db_usable}

abbrev memory : List ℤ
memory = replicate 100 (pos 0)

abbrev ticks : List ℤ
ticks = replicate 101 (pos 7)

insert_ticks-fresh_example :
    ((length ticks ≤ 100)
      × ((t : Ticks ℤ) × (insert_ticks exact (fresh exact memory) ticks ≡ some t)
          × Holds exact t ticks (drop (length ticks) memory)))
    ⊎ ((100 < length ticks) × (insert_ticks exact (fresh exact memory) ticks ≡ none))
insert_ticks-fresh_example = insert_ticks-fresh exact memory ticks refl

-- A database that is whether it has the table.
abbrev reply_to : Bool → Statement → Reply × Bool
reply_to c select_now = (record { tuples_ok = true; command_ok = false; value_is_t = false }, c)
reply_to c table_exists = (record { tuples_ok = true; command_ok = false; value_is_t = c }, c)
reply_to c create_table =
    (record { tuples_ok = false; command_ok = true; value_is_t = false }, true)
reply_to c create_hypertable =
    (record { tuples_ok = true; command_ok = false; value_is_t = false }, c)

abbrev tables : Database Bool
tables = record { is_ok = λ c. true; exec = reply_to; insert_row = λ c r. c }

tables-IsTruthful : IsTruthful tables (λ c. c)
tables-IsTruthful = record { answers = λ c h. refl; creates = λ c h. refl; keeps = λ c. refl }

connect_to_db_usable_example : (connect_to_db tables false).1 ≡ true
unfolding connect_to_db make_table
connect_to_db_usable_example = connect_to_db_usable tables (λ c. c) tables-IsTruthful false refl
