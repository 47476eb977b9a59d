-- ===== src/Program/Tests.antt =====
-- The program of src/main.cpp set up from the three rows of src/exchanges_data.csv, and a frame with a
-- depth message on its way to the book.
use hft_system.Prelude.{
  none, ℕ, ◌+◌, ◌≡◌, refl, arith, List, [], ◌∷◌, ◌++◌, length, map, replicate, some, All, all_nil,
  all_cons, Bool, true, false, ltb, if◌then◌else◌,
}
use hft_system.Prelude.Int.{pos, sub_ℕ, wrap}
use hft_system.Market.{buy, MarketUpdate, market_update}
use hft_system.Registry.{
  StreamRow, venue_registry, add_rows, add_row, get_or_add_venue, find, put, bytes_eq, lookup, pack,
}
use hft_system.Config.{
  binance, lower_stream, load_csv, to_lower, build_binance_url, write_streams, url_path, find_text,
}
use hft_system.WebSocket.Wire.{WireFrame, wire_bytes}
use hft_system.WebSocket.Handshake.{ascii, starts_with}
use hft_system.WebSocket.ByBytes.{by_bytes, by_bytes-IsStream}
use hft_system.WebSocket.Mask.{IsByte}
use hft_system.Sbe.{binance_depth_snapshot, register_schema, find_schema}
use hft_system.Sbe.Encode.{DepthMessage, Fits, encode, binance_depth_snapshot-IsDepth}
use hft_system.Sbe.Payload.{Sent, IsKnownTo, payload_bytes, payload_updates}
use hft_system.Manager.{
  OrderBookManager, empty_manager, register_instrument, find_index, add_queue, set_strategy_manager,
  book_for,
}
use hft_system.Manager as Manager
use hft_system.Manager.Drain.{fed}
use hft_system.Ingester as Ingester
use hft_system.Program.{
  Program, binance_schemas, binance_queue, strategies, register_rows, new_ingester, set_up, cycle,
}
use hft_system.Program.SetUp.{IsWired, HasEmptyBook, set_up-IsWired}
use hft_system.Program.Cycle.{cycle-sent}

abbrev row : List ℕ → List ℕ → StreamRow
row symbol stream = record { exchange = binance; symbol = symbol; stream = stream }

abbrev csv_rows : List StreamRow
csv_rows =
    row (ascii "BTCUSDT") (ascii "btcusdt@depth")
    ∷ row (ascii "ETHUSDT") (ascii "ethusdt@depth")
    ∷ row (ascii "BNBUSDT") (ascii "bnbusdt@depth")
    ∷ []

abbrev blank : MarketUpdate
blank = market_update 0 buy (pos 0) (pos 0) (pos 0) (pos 0) (pos 0)

abbrev snapshot : DepthMessage
snapshot = record {
  template_id = 10002;
  schema_id = 1;
  version = 0;
  time = pos 7000;
  ids = replicate 8 1;
  price_exp = sub_ℕ 0 2;
  qty_exp = sub_ℕ 0 5;
  bids = record { price = pos 100; quantity = pos 5 } ∷ [];
  asks = record { price = pos 101; quantity = pos 7 } ∷ [];
  symbol = ascii "BTCUSDT";
}

abbrev sent : List Sent
sent = record { message = snapshot; schema = binance_depth_snapshot; instrument_id = 0 } ∷ []

-- As a server sends it, without a mask.
abbrev binary : WireFrame
binary = record { fin = true; opcode = 2; mask = none; payload = payload_bytes sent }

abbrev link : List ℕ
link = wire_bytes binary ++ []

abbrev registered : OrderBookManager
registered = register_instrument (register_instrument (register_instrument empty_manager 0) 1) 2

abbrev made : Program (List ℕ)
made = record {
  registry = venue_registry csv_rows;
  manager =
      set_strategy_manager (add_queue registered (binance_queue blank))
        (strategies (0, 1, 2) (0, 1, 2));
  schemas = binance_schemas;
  path = ascii "/stream?streams=btcusdt@depth/ethusdt@depth/bnbusdt@depth";
  ingester = new_ingester link (binance_queue blank);
}

set_up-made : set_up true blank link csv_rows ≡ some made
unfolding set_up load_csv to_lower venue_registry add_rows add_row get_or_add_venue find put
    bytes_eq lookup pack register_rows register_instrument find_index build_binance_url
    write_streams url_path find_text starts_with
set_up-made = refl

set_up-IsWired_example :
    IsWired blank made
    × (made.registry ≡ venue_registry (map lower_stream csv_rows))
    × All (HasEmptyBook made.registry made.manager) (map lower_stream csv_rows)
    × (length made.ingester.updates_queue.store ≡ 4096)
set_up-IsWired_example = set_up-IsWired true blank link csv_rows set_up-made (omega arith)

made-IsWired : IsWired blank made × (length made.ingester.updates_queue.store ≡ 4096)
made-IsWired =
    let all = set_up-IsWired true blank link csv_rows set_up-made (omega arith) in (all.0, all.3)

snapshot-Fits : Fits snapshot
snapshot-Fits = record {
  template_small = omega arith;
  time_small = omega arith;
  price_exp_small = omega arith;
  qty_exp_small = omega arith;
  few_bids = omega arith;
  few_asks = omega arith;
  bids_small = all_cons (omega arith) all_nil;
  asks_small = all_cons (omega arith) all_nil;
  symbol_short = omega arith;
}

sent-IsKnownTo : All (IsKnownTo made.schemas made.registry binance) sent
unfolding venue_registry add_rows add_row get_or_add_venue find put bytes_eq lookup pack
    register_schema find_schema
sent-IsKnownTo =
    all_cons
      (record {
        depth = binance_depth_snapshot-IsDepth;
        fits = snapshot-Fits;
        described = refl;
        named = refl;
      })
      all_nil

bytes_only : List ℕ → Bool
bytes_only [] = true
bytes_only (b ∷ bs) = if ltb b 256 then bytes_only bs else false

bytes_only_lem : (bs : List ℕ) → bytes_only bs ≡ true → All IsByte bs
unfolding bytes_only
bytes_only_lem [] h = all_nil
bytes_only_lem (b ∷ bs) h = all_cons (ground arith) (bytes_only_lem bs (ground arith))

payload-IsByte : All IsByte (payload_bytes sent)
unfolding bytes_only encode wrap
payload-IsByte = bytes_only_lem (payload_bytes sent) refl

payload_length : length (payload_bytes sent) ≡ 74
unfolding encode
payload_length = refl

manager_readings : ℕ → ℕ → ℕ × Manager.Readings
manager_readings rounds k = (5, record { t0 = 10; t1 = 20; t2 = 21; t3 = 30 })

abbrev ingester_readings : Ingester.Readings
ingester_readings = record {
  start = 1;
  frame_done = 5;
  sbe0 = 6;
  at_message = λ c. 7 + c;
  sbe1 = 8;
}

cycle-sent_example :
    (p' : Program (List ℕ)) × (cycle by_bytes blank ingester_readings manager_readings 2 made
      ≡ some p')
    × IsWired blank p'
    × (p'.ingester.link ≡ [])
    × ((id : ℕ)
        → book_for p'.manager id
          ≡ fed id (payload_updates ingester_readings.at_message 0 sent) (book_for made.manager id))
cycle-sent_example =
    cycle-sent by_bytes (λ w. w) by_bytes-IsStream blank ingester_readings manager_readings 2 made
      binary [] sent made-IsWired.0 refl tt refl payload-IsByte (omega (arith, payload_length)) refl
      sent-IsKnownTo (omega (arith, made-IsWired.1)) (omega arith)
