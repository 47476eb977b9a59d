-- ===== src/Lib.antt =====
-- A model of the trading system, from the bytes of a venue to the signals of the strategies.
--
-- A payload of a venue is parsed into market updates, which a queue for each venue carries to the
-- order book manager. The manager routes each update to the order book of its instrument and hands
-- it to the strategies, whose signals go into another queue.
--
-- - Prelude: shared names, lists measured by native numbers (Lists), Boolean tests (Tests), exact
--   integers with the truncated division and the casts of the machine (Int).
-- - Market: `Side` and `MarketUpdate` of include/market_data/order_book/market_order.h and
--   market_update.h.
-- - Queue: `LFQueue` of include/utils/containers/lock_free_queue.hpp, a store with three counters;
--   `push` is the pair of calls of every producer. Fifo: the queue as a list.
-- - Pool: `MemPool` of include/utils/containers/memory_pool.hpp; a pointer is the index of its block.
--   The search for a free block runs at most once over the blocks. Allocate, Count.
-- - Registry: `VenueRegistry` of include/market_data/venue_registry.hpp; texts are lists of bytes.
--   Ids, Maps, Rows, Distinct: the halves of an id, the maps, what a row adds, one id for one key.
-- - Sbe: the schemas of include/market_data/data_ingester/message_schema.h, `decode` and `measure` of
--   src/market_data/data_ingester/sbe_decoder.cpp, the loop of sbe_venue_parser.cpp. Its fuel is one
--   more than the length of the payload, for each round consumes a byte. Measure, Decode, Parse: the
--   properties of each. Wire, Encode, RoundTrip, Payload: depth messages written by an encoder, which
--   is a reference and not part of the program, and what the decoder and the parser read of them.
-- - Histogram: `LatencyHistogram` of include/utils/perf/latency_tracker.hpp, `record` and `reset`.
-- - OrderBook: `OrderBook` of include/market_data/order_book/order_book.h. A side is 256 slots, the
--   count and the indices of its best and worst level; `update_ask` and `update_bid` are the two
--   halves of `addUpdate`. The two scans are `for` loops of at most 255 rounds and need no fuel.
--   Slots and Window: the slot of a price, and a side as a window of prices round the array, with the
--   quotes it stands for; AskAdd, AskRemove, BidAdd, BidRemove: the branches of an update; Best,
--   Band, Stream, Alias: the best quotes, prices in one band, streams of updates, prices that share a
--   slot.
--   Mid: `getMidRaw`, whose two loops run at most 256 rounds.
-- - Strategy: the strategies of src/strategies, as functions of a book or of their counters, and
--   `StrategyManager` of include/strategies/strategy_manager.hpp over a store of strategies. Bounds,
--   Dispatch: their signals.
-- - Manager: `OrderBookManager` of src/market_data/order_book/order_book_manager.cpp. `pass_update`
--   is `passUpdateToOrderbook`, `poll_queue` one turn of the loop of `run`. Route, Poll, Drain: the
--   books that an update reaches, a turn of the loop, and the loop until the queue is empty.
-- - WebSocket: `WebSocket` of src/utils/net/websocket/websocket.cpp over a transport that is a
--   parameter. A read of so many bytes makes at most so many calls, for each gets a byte. Mask,
--   Stream, RoundTrip, Wire, Handshake; ByBytes is a transport to run it on.
-- - Ingester: `MarketDataIngester` of src/market_data/data_ingester/market_data_ingester.cpp;
--   `receive_one` is one turn of the loop of `startReceiving`.
-- - Config: src/utils/config/stream_config/stream_config.cpp and include/utils/config/env_loader.hpp,
--   over the rows and the lines of the files.
-- - Aggregator: `HistoricalDataAggergator` of
--   src/market_data/historical_data_aggregator/historical_aggregator.cpp: Window, Table.
-- - Tls: the handles of `TLSClient` of src/utils/net/tls_client/tls_client.cpp.
-- - Models: src/pcm_model/pcm_model.cpp, src/tcm_model/tcm.cpp and
--   src/risk_management/risk_model.cpp, over a record of the operations on `double`
--   (Prelude.Double).
-- - Program: `main` of src/main.cpp. `set_up` is all that it makes before the threads; `cycle` is a turn
--   of the ingester's thread and then some rounds of the manager's. SetUp, Cycle.
-- - A Tests module of a part runs it on concrete data.
--
-- The assertions of `main` are a parameter, for a build can leave them out; those of the containers end
-- the process in any build.
--
-- Prices and quantities are exact integers: the `int64_t` sums of the program do not overflow in
-- any range of real prices. Casts to `int` and `int64_t` wrap, and counters of the queue wrap.
--
-- Not modelled: output, logs and reports; sockets, TLS, libcurl, libpq and OpenSSL, which are
-- parameters where their results matter; the FIX gateway, whose code is commented out, and the
-- signing of its logon; the CSV reader, a copy of a third-party library; floating point, a parameter;
-- the time stamp counter, a parameter where it is read; the interleaving of threads within one call
-- of the queue.
pub mod Prelude
pub mod Market
pub mod Queue
pub mod Pool
pub mod Registry
pub mod Sbe
pub mod Histogram
pub mod OrderBook
pub mod Strategy
pub mod Manager
pub mod WebSocket
pub mod Ingester
pub mod Config
pub mod Aggregator
pub mod Tls
pub mod Models
pub mod Program
