-- ===== src/Ingester/Tests.antt =====
-- A frame through `MarketDataIngester` of
-- src/market_data/data_ingester/market_data_ingester.cpp.
use hft_system.Prelude.{
  ℕ, ◌+◌, ◌%◌, ◌^◌, ◌≡◌, ◌≢◌, refl, arith, ◌⊎◌, List, [], ◌∷◌, ◌++◌, none, some, true, All, all_nil,
  all_cons,
}
use hft_system.Prelude.Int.{pos}
use hft_system.Market.{buy, MarketUpdate, market_update}
use hft_system.Queue.{make, push_all}
use hft_system.Registry.{empty_registry, Bytes}
use hft_system.Histogram.{empty_histogram}
use hft_system.Sbe.{MessageSchema, binance_depth_diff, parse}
use hft_system.Sbe.Parse.{IsKnown}
use hft_system.WebSocket.Wire.{WireFrame, wire_bytes}
use hft_system.WebSocket.ByBytes.{by_bytes, by_bytes-IsStream}
use hft_system.Ingester.{MarketDataIngester, Readings, receive_one}
use hft_system.Ingester.Frames.{receive_one_frame}

abbrev payload : List ℕ
payload = 1 ∷ 2 ∷ []

-- As a server sends it, without a mask.
abbrev binary : WireFrame
binary = record { fin = true; opcode = 2; mask = none; payload = payload }

abbrev ingester : MarketDataIngester (List ℕ)
ingester = record {
  link = wire_bytes binary ++ [];
  updates_queue = make 4 (market_update 0 buy (pos 0) (pos 0) (pos 0) (pos 0) (pos 0));
  ws_frame_count = 3;
  io_done = 0;
  hist_ws_total = empty_histogram;
  hist_ws_io = empty_histogram;
  hist_ws_cpu = empty_histogram;
  hist_sbe = empty_histogram;
}

abbrev readings : Readings
readings = record { start = 1; frame_done = 5; sbe0 = 6; at_message = λ c. 7; sbe1 = 8 }

abbrev venue : Bytes
venue = b'b' ∷ []

abbrev schemas : List MessageSchema
schemas = binance_depth_diff ∷ []

receive_one_frame_example :
    (m' : MarketDataIngester (List ℕ)) × (xs : List MarketUpdate) × (receive_one by_bytes schemas
        empty_registry venue ingester readings
      ≡ some m')
    × (m'.link ≡ [])
    × (m'.updates_queue ≡ push_all ingester.updates_queue xs)
    × All (IsKnown empty_registry venue) xs
    × (((2 % 16 ≡ 2)
          × (parse readings.at_message schemas empty_registry venue payload ingester.updates_queue
              ≡ some m'.updates_queue))
        ⊎ ((2 % 16 ≢ 2) × (xs ≡ [])))
    × (m'.ws_frame_count ≡ (3 + 1) % 2 ^ 64)
receive_one_frame_example =
    receive_one_frame by_bytes schemas empty_registry venue (λ w. w) by_bytes-IsStream ingester
      readings binary [] refl tt (all_cons (omega arith) (all_cons (omega arith) all_nil))
      (omega arith) (omega arith)
