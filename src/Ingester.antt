-- ===== src/Ingester.antt =====
-- `MarketDataIngester` of include/market_data/data_ingester/market_data_ingester.h and
-- src/market_data/data_ingester/market_data_ingester.cpp: frames of the venue to the parser. The
-- transport and the readings of the time stamp counter are parameters; the report that it prints
-- every ten thousand frames is output.
mod Tests
pub mod Frames
use hft_system.Prelude.{
  ℕ, zero, suc, ◌+◌, ◌-◌, ◌%◌, ◌^◌, ◌==◌, if◌then◌else◌, Bool, true, false, List, Option, none,
  some,
}
use hft_system.Market.{MarketUpdate}
use hft_system.Queue.{LfQueue}
use hft_system.Registry.{VenueRegistry, Bytes}
use hft_system.Histogram.{LatencyHistogram, record_sample}
use hft_system.Sbe.{MessageSchema, parse}
use hft_system.WebSocket.{
  Transport, WebSocketFrame, Read, frame, no_frame, overflow, Outcome, read_frame,
}
use hft_system.WebSocket.Handshake.{perform_handshake}

-- The ingester, with the connection it owns.
pub record MarketDataIngester (W : Type 0) : Type 0 where
  pub link : W
  pub updates_queue : LfQueue MarketUpdate
  pub ws_frame_count : ℕ
  pub io_done : ℕ
  pub hist_ws_total : LatencyHistogram
  pub hist_ws_io : LatencyHistogram
  pub hist_ws_cpu : LatencyHistogram
  pub hist_sbe : LatencyHistogram

-- The readings in one turn of the loop; those of the parser are given for each cursor.
pub record Readings : Type 0 where
  pub start : ℕ
  pub frame_done : ℕ
  pub sbe0 : ℕ
  pub at_message : ℕ → ℕ
  pub sbe1 : ℕ

abbrev pub elapsed : ℕ → ℕ → ℕ
elapsed later earlier = (later + 2 ^ 64 - earlier) % 2 ^ 64

module _ {W : Type 0} (t : Transport W) (schemas : List MessageSchema) (registry : VenueRegistry)
    (venue_name : Bytes) where
  -- The histograms of a frame.
  pub measure_frame : MarketDataIngester W → Readings → MarketDataIngester W
  measure_frame m now = record m {
    hist_ws_io = record_sample m.hist_ws_io (elapsed m.io_done now.start);
    hist_ws_cpu = record_sample m.hist_ws_cpu (elapsed now.frame_done m.io_done);
    hist_ws_total = record_sample m.hist_ws_total (elapsed now.frame_done now.start);
  }

  -- A binary frame goes to the parser; `none` if its model ran out of fuel.
  pub parse_frame : MarketDataIngester W → WebSocketFrame → Readings → Option (MarketDataIngester W)
  parse_frame m f now =
      if f.opcode == 2
      then elim (parse now.at_message schemas registry venue_name f.payload m.updates_queue) [
        | none ↦ none
        | some q ↦ some (record m {
          updates_queue = q;
          hist_sbe = record_sample m.hist_sbe (elapsed now.sbe1 now.sbe0);
        })
      ]
      else some m

  pub count_frame : MarketDataIngester W → MarketDataIngester W
  count_frame m = record m { ws_frame_count = (m.ws_frame_count + 1) % 2 ^ 64 }

  -- What a turn does with what `read_frame` gave.
  pub handle : MarketDataIngester W → Outcome W → Readings → Option (MarketDataIngester W)
  unfolding measure_frame parse_frame count_frame
  handle m r now =
      let m' = record m {
        link = r.link;
        io_done = elim r.io_done [ none ↦ m.io_done | some tsc ↦ tsc ];
      } in
      elim r.read [
        | overflow ↦ none
        | no_frame ↦ some m'
        | frame f ↦ elim (parse_frame (measure_frame m' now) f now) [
          | none ↦ none
          | some m'' ↦ some (count_frame m'')
        ]
      ]

  -- One turn of the loop of `startReceiving`; `none` where the receive buffer may be overrun.
  pub receive_one : MarketDataIngester W → Readings → Option (MarketDataIngester W)
  unfolding handle
  receive_one m now = handle m (read_frame t m.link) now

  -- `turns` turns of the loop, until the flag is cleared.
  pub receive : (ℕ → Readings) → ℕ → MarketDataIngester W → Option (MarketDataIngester W)
  receive now zero m = some m
  receive now (suc turns) m = elim (receive_one m (now turns)) [
    | none ↦ none
    | some m' ↦ receive now turns m'
  ]

  -- `startReceiving`: `connect` and the handshake, then the loop. `connect` is that of the transport.
  pub start_receiving :
      (W → Bool × W)
      → Bytes
      → Bytes
      → Bytes
      → Bytes
      → Bytes
      → (ℕ → Readings)
      → ℕ
      → MarketDataIngester W
      → Option (MarketDataIngester W)
  unfolding receive
  start_receiving connect host websocket_key api_key path protocol now turns m =
      let (connected, w) = connect m.link in
      let (accepted, w') = perform_handshake t w host websocket_key api_key path protocol in
      if connected
      then if accepted
        then receive now turns (record m { link = w' })
        else some (record m { link = w' })
      else some (record m { link = w })
