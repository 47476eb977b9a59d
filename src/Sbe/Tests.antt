-- ===== src/Sbe/Tests.antt =====
-- A Binance depth message for the decoder of src/market_data/data_ingester/sbe_decoder.cpp, and the
-- theorems at this message.
use hft_system.Prelude.{
  ℕ, ◌+◌, ◌≤◌, ◌≡◌, refl, arith, List, [], ◌∷◌, ◌++◌, length, replicate, take, drop, some, All,
  all_nil, all_cons, ◌⊎◌,
}
use hft_system.Prelude.Int.{pos, sub_ℕ}
use hft_system.Market.{buy, MarketUpdate, market_update}
use hft_system.Queue.{LfQueue, make, push_all}
use hft_system.Queue.Fifo.{IsRing, contents, IsRing-make}
use hft_system.Registry.{VenueRegistry, empty_registry, lookup, Bytes, bytes_eq, find}
use hft_system.Sbe.{
  MessageSchema, binance_depth_snapshot, find_schema, binance_depth_diff, Prescan, le_value,
  read_le, read_signed, scan_symbol, prescan, stamp, decode, measure, parse,
}
use hft_system.Sbe.Measure.{decode-measure}
use hft_system.Sbe.Decode.{group_levels, decode-contents}
use hft_system.Sbe.Encode.{
  DepthMessage, Fits, binance_depth_snapshot-IsDepth, binance_depth_diff-IsDepth,
}
use hft_system.Sbe.Payload.{Sent, IsKnownTo, payload_bytes, payload_updates, parse-encode}
use hft_system.Sbe.Parse.{IsKnown, parse-pushes}

abbrev level_bytes : ℕ → ℕ → List ℕ
level_bytes price qty = (price ∷ replicate 7 0) ++ (qty ∷ replicate 7 0)

-- One bid, one ask and the symbol `x`.
abbrev message : List ℕ
message =
    (26 ∷ 0 ∷ 19 ∷ 39 ∷ 1 ∷ 0 ∷ 0 ∷ 0 ∷ replicate 24 0)
    ++ (254 ∷ 251 ∷ 16 ∷ 0 ∷ 1 ∷ 0 ∷ level_bytes 100 5)
    ++ (16 ∷ 0 ∷ 1 ∷ 0 ∷ level_bytes 101 7)
    ++ (1 ∷ b'x' ∷ [])

abbrev registry : VenueRegistry
registry = record empty_registry { instrument_map = (b'b' ∷ b':' ∷ b'x' ∷ [], 9) ∷ [] }

abbrev blank : MarketUpdate
blank = market_update 0 buy (pos 0) (pos 0) (pos 0) (pos 0) (pos 0)

abbrev queue : LfQueue MarketUpdate
queue = make 4 blank

abbrev venue : Bytes
venue = b'b' ∷ []

consumed : (decode 0 message binance_depth_diff queue registry venue).0 ≡ 76
unfolding decode prescan scan_symbol read_le le_value lookup find bytes_eq
consumed = refl

price_exponent : read_signed 1 message 32 ≡ sub_ℕ 0 2
unfolding read_signed read_le le_value sub_ℕ
price_exponent = refl

decode-measure_example :
    (measure message binance_depth_diff
      ≡ (decode 0 message binance_depth_diff queue registry venue).0)
    × ((decode 0 message binance_depth_diff queue registry venue).0 ≤ length message)
decode-measure_example =
    decode-measure 0 message binance_depth_diff queue registry venue refl refl refl
      (omega (arith, consumed))

prescan_room : (s : Prescan) → prescan message 34 ≡ some s → 0 + (s.num_bids + s.num_asks) ≤ 4
unfolding prescan scan_symbol read_le le_value
prescan_room s h = ground arith

decode-contents_example :
    (decode 0 message binance_depth_diff queue registry venue ≡ (0, queue))
    ⊎ ((s : Prescan) × (id : ℕ) × (prescan message 34 ≡ some s)
        × (lookup registry venue (take s.sym_len (drop (s.asks_end + 1) message)) ≡ some id)
        × ((decode 0 message binance_depth_diff queue registry venue).0
            ≡ s.asks_end + 1 + s.sym_len)
        × IsRing (decode 0 message binance_depth_diff queue registry venue).1
        × (contents blank (decode 0 message binance_depth_diff queue registry venue).1
            ≡ contents blank queue
              ++ group_levels message binance_depth_diff
                  (stamp 0 message binance_depth_diff id)
                  s
                  34))
decode-contents_example =
    decode-contents blank 0 message binance_depth_diff queue registry venue
      (IsRing-make 4 blank (omega arith) (omega arith)) prescan_room

parse-pushes_example :
    (xs : List MarketUpdate) × (parse
        (λ c. c)
        (binance_depth_diff ∷ [])
        registry
        venue
        message
        queue
      ≡ some (push_all queue xs))
    × All (IsKnown registry venue) xs
parse-pushes_example = parse-pushes registry venue (λ c. c) (binance_depth_diff ∷ []) message queue

-- A snapshot and a difference of one symbol, and the updates that they stand for.
abbrev snapshot : DepthMessage
snapshot = record {
  template_id = 10002;
  schema_id = 1;
  version = 0;
  time = pos 7000;
  ids = replicate 8 1;
  price_exp = sub_ℕ 0 2;
  qty_exp = sub_ℕ 0 5;
  bids = record { price = pos 100; quantity = pos 5 } ∷ [];
  asks =
      record { price = pos 101; quantity = pos 7 }
      ∷ record { price = pos 102; quantity = pos 1 }
      ∷ [];
  symbol = b'x' ∷ [];
}

abbrev difference : DepthMessage
difference = record snapshot {
  template_id = 10003;
  ids = replicate 16 2;
  bids = [];
  asks = record { price = pos 101; quantity = pos 0 } ∷ [];
}

abbrev sent : List Sent
sent =
    record { message = snapshot; schema = binance_depth_snapshot; instrument_id = 9 }
    ∷ record { message = difference; schema = binance_depth_diff; instrument_id = 9 }
    ∷ []

abbrev both_schemas : List MessageSchema
both_schemas = binance_depth_diff ∷ binance_depth_snapshot ∷ []

snapshot-Fits : Fits snapshot
snapshot-Fits = record {
  template_small = omega arith;
  time_small = omega arith;
  price_exp_small = omega arith;
  qty_exp_small = omega arith;
  few_bids = omega arith;
  few_asks = omega arith;
  bids_small = all_cons (omega arith) all_nil;
  asks_small = all_cons (omega arith) (all_cons (omega arith) all_nil);
  symbol_short = omega arith;
}

difference-Fits : Fits difference
difference-Fits = record {
  template_small = omega arith;
  time_small = omega arith;
  price_exp_small = omega arith;
  qty_exp_small = omega arith;
  few_bids = omega arith;
  few_asks = omega arith;
  bids_small = all_nil;
  asks_small = all_cons (omega arith) all_nil;
  symbol_short = omega arith;
}

sent-IsKnownTo : All (IsKnownTo both_schemas registry venue) sent
unfolding lookup find bytes_eq find_schema
sent-IsKnownTo =
    all_cons
      (record {
        depth = binance_depth_snapshot-IsDepth;
        fits = snapshot-Fits;
        described = refl;
        named = refl;
      })
      (all_cons
        (record {
          depth = binance_depth_diff-IsDepth;
          fits = difference-Fits;
          described = refl;
          named = refl;
        })
        all_nil)

parse-encode_example :
    parse (λ c. c) both_schemas registry venue (payload_bytes sent) queue
    ≡ some (push_all queue (payload_updates (λ c. c) 0 sent))
parse-encode_example = parse-encode both_schemas registry venue (λ c. c) sent queue sent-IsKnownTo
