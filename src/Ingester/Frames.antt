-- ===== src/Ingester/Frames.antt =====
-- A frame on the wire of src/market_data/data_ingester/market_data_ingester.cpp and the updates it
-- leaves in the queue.
use hft_system.Prelude.{
  ℕ, ◌+◌, ◌%◌, ◌^◌, ◌≤◌, ◌≡◌, ◌≢◌, refl, arith, sym, ap, ◌∙◌, ◌⊎◌, inl, inr, List, ◌++◌, length,
  some, All, all_nil, [], ℕ_discrete,
}
use hft_system.Market.{MarketUpdate}
use hft_system.Queue.{LfQueue, push_all}
use hft_system.Registry.{VenueRegistry, Bytes}
use hft_system.Sbe.{MessageSchema, parse}
use hft_system.Sbe.Parse.{IsKnown, parse-pushes}
use hft_system.WebSocket.{Transport, WebSocketFrame, frame, read_frame}
use hft_system.WebSocket.Mask.{IsByte}
use hft_system.WebSocket.Stream.{IsStream}
use hft_system.WebSocket.Wire.{WireFrame, wire_bytes, IsMask, read_frame-wire_bytes}
use hft_system.Histogram.{record_sample}
use hft_system.Ingester.{
  MarketDataIngester, Readings, elapsed, measure_frame, parse_frame, count_frame, handle,
  receive_one,
}

module _ {W : Type 0} (t : Transport W) (schemas : List MessageSchema) (registry : VenueRegistry)
    (venue_name : Bytes) where
  parse_frame_binary :
      (m : MarketDataIngester W) (f : WebSocketFrame) (now : Readings) {q : LfQueue MarketUpdate}
      → f.opcode ≡ 2
      → parse now.at_message schemas registry venue_name f.payload m.updates_queue ≡ some q
      → (m' : MarketDataIngester W) × (parse_frame t schemas registry venue_name m f now ≡ some m')
        × (m'.updates_queue ≡ q)
        × (m'.link ≡ m.link)
        × (m'.ws_frame_count ≡ m.ws_frame_count)
  unfolding parse_frame
  parse_frame_binary m f now {q} two parsed = (
    record m { updates_queue = q; hist_sbe = record_sample m.hist_sbe (elapsed now.sbe1 now.sbe0) },
    ground arith,
    refl,
    refl,
    refl,
  )

  parse_frame_other :
      (m : MarketDataIngester W) (f : WebSocketFrame) (now : Readings)
      → f.opcode ≢ 2
      → parse_frame t schemas registry venue_name m f now ≡ some m
  unfolding parse_frame
  parse_frame_other m f now ne = ground arith

  handle_frame :
      (m : MarketDataIngester W) (now : Readings) (f : WebSocketFrame) (w' : W) (tsc : ℕ)
      {m'' : MarketDataIngester W}
      → parse_frame t schemas registry venue_name
          (measure_frame t schemas registry venue_name (record m { link = w'; io_done = tsc }) now)
          f
          now
        ≡ some m''
      → handle t schemas registry venue_name m
          (record { read = frame f; link = w'; io_done = some tsc })
          now
        ≡ some (count_frame t schemas registry venue_name m'')
  unfolding handle
  handle_frame m now f w' tsc h = rw (handle, h) refl

  receive_one_lem :
      (m : MarketDataIngester W) (now : Readings) (f : WebSocketFrame) (w' : W) (tsc : ℕ)
      {m'' : MarketDataIngester W}
      → read_frame t m.link ≡ record { read = frame f; link = w'; io_done = some tsc }
      → parse_frame t schemas registry venue_name
          (measure_frame t schemas registry venue_name (record m { link = w'; io_done = tsc }) now)
          f
          now
        ≡ some m''
      → receive_one t schemas registry venue_name m now
        ≡ some (count_frame t schemas registry venue_name m'')
  unfolding receive_one
  receive_one_lem m now f w' tsc e h =
      ap (λ r. handle t schemas registry venue_name m r now) e ∙ handle_frame m now f w' tsc h

  module _ (stream : W → List ℕ) (laws : IsStream t stream) where
    -- If the stream begins with the bytes of a frame, masked or not and the last of its message or
    -- not, whose opcode is not ping and whose payload has at most 8188 bytes, one turn of the
    -- ingester leaves the rest of the stream, counts the frame, and pushes updates of instruments
    -- that the registry gives for the venue; for a binary frame they are what the parser makes of
    -- the payload, for any other there are none.
    pub receive_one_frame :
        (m : MarketDataIngester W) (now : Readings) (f : WireFrame) (rest : List ℕ)
        → stream m.link ≡ wire_bytes f ++ rest
        → IsMask f.mask
        → All IsByte f.payload
        → length f.payload ≤ 8188
        → f.opcode % 16 ≢ 9
        → (m' : MarketDataIngester W) × (xs : List MarketUpdate) × (receive_one t schemas registry
              venue_name m now
            ≡ some m')
          × (stream m'.link ≡ rest)
          × (m'.updates_queue ≡ push_all m.updates_queue xs)
          × All (IsKnown registry venue_name) xs
          × (((f.opcode % 16 ≡ 2)
                × (parse now.at_message schemas registry venue_name f.payload m.updates_queue
                    ≡ some m'.updates_queue))
              ⊎ ((f.opcode % 16 ≢ 2) × (xs ≡ [])))
          × (m'.ws_frame_count ≡ (m.ws_frame_count + 1) % 2 ^ 64)
    unfolding measure_frame count_frame push_all
    receive_one_frame m now f rest e masked all small other =
        let (w', read, left) =
          read_frame-wire_bytes t stream laws m.link f rest e masked all small other in
        let m1 =
          measure_frame t schemas registry venue_name (record m { link = w'; io_done = t.clock w' })
            now in
        elim (ℕ_discrete (f.opcode % 16) 2) [
          | yes two ↦
              let (xs, parsed, known) =
                parse-pushes registry venue_name now.at_message schemas f.payload m.updates_queue in
              let (m2, done, queue, link, count) = parse_frame_binary m1 _ now two parsed in
              (
                count_frame t schemas registry venue_name m2,
                xs,
                receive_one_lem m now _ w' _ read done,
                ap stream link ∙ left,
                queue,
                known,
                inl (two, parsed ∙ ap some (sym queue)),
                ap (λ n. (n + 1) % 2 ^ 64) count,
              )
          | no ne ↦ (
            count_frame t schemas registry venue_name m1,
            [],
            receive_one_lem m now _ w' _ read (parse_frame_other m1 _ now ne),
            left,
            refl,
            all_nil,
            inr (ne, refl),
            refl,
          )
        ]
