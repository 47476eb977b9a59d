-- ===== src/Program/SetUp.antt =====
-- What `main` of src/main.cpp has made before it starts the threads.
use hft_system.Prelude.{
  ℕ, ◌+◌, ◌^◌, ◌<◌, ◌==◌, ◌≡◌, refl, arith, sym, ap, subst, ◌∙◌, List, [], ◌∷◌, ◌++◌, length, Bool,
  true, false, Option, none, some, All, all_nil, all_cons, map, length-replicate,
}
use mathlib.Core.Option.{some-injective}
use hft_system.Market.{MarketUpdate}
use hft_system.Queue.{LfQueue}
use hft_system.Queue.Fifo.{IsRing, IsRing-make, contents}
use hft_system.Registry.{StreamRow, VenueRegistry, venue_registry, lookup}
use hft_system.OrderBook.{empty_book}
use hft_system.Config.Url.{load_csv-rows}
use hft_system.Manager.Drain.{IsApart-same, book_for-same}
use hft_system.Config.{load_csv, lower_stream, binance, url_path, build_binance_url}
use hft_system.WebSocket.Handshake.{ascii}
use hft_system.Strategy.{StrategyManager}
use hft_system.Manager.{
  OrderBookManager, empty_manager, find_index, register_instrument, book_for, set_strategy_manager,
  add_queue,
}
use hft_system.Manager.Route.{
  IsApart, empty_manager-IsApart, register_instrument_parts, register_instrument-IsApart,
  register_instrument-kept,
}
use hft_system.Program.{◌>>=◌, ◌>>◌, holds, Program, register_rows, set_up, binance_queue}

-- The book of a row's instrument has no levels.
abbrev pub HasEmptyBook : VenueRegistry → OrderBookManager → StreamRow → Type 0
HasEmptyBook registry m r =
    (id : ℕ) × (lookup registry r.exchange r.symbol ≡ some id) × (book_for m id ≡ some empty_book)

-- The two threads share one queue, a ring that is empty, and instruments have books of their own.
pub record IsWired {W : Type 0} (blank : MarketUpdate) (p : Program W) : Type 0 where
  pub books_apart : IsApart p.manager
  pub shared : p.manager.update_queues ≡ p.ingester.updates_queue ∷ []
  pub ring : IsRing p.ingester.updates_queue
  pub idle : contents blank p.ingester.updates_queue ≡ []

bind_some {ℓ κ} :
    {A : Type ℓ} {B : Type κ} (m : Option A) (f : A → Option B) {b : B}
    → (m >>= f) ≡ some b
    → (a : A) × (m ≡ some a) × (f a ≡ some b)
bind_some none f h = absurd (ground arith)
bind_some (some a) f h = (a, refl, h)

guard_some {ℓ} :
    {A : Type ℓ} (test : Bool) (m : Option A) {b : A} → (test >> m) ≡ some b → m ≡ some b
guard_some true m h = h
guard_some false m h = absurd (ground arith)

module _ (registry : VenueRegistry) where
  register_rows-none :
      (r : StreamRow) (rows : List StreamRow) (m : OrderBookManager) {m' : OrderBookManager}
      → register_rows registry (r ∷ rows) m ≡ some m'
      → (id : ℕ) × (lookup registry r.exchange r.symbol ≡ some id)
        × (register_rows registry rows (register_instrument m id) ≡ some m')
  unfolding register_rows
  register_rows-none r rows m h = bind_some (lookup registry r.exchange r.symbol) _ h

  -- A book without levels is as it was after all rows are registered.
  register_rows-kept :
      (rows : List StreamRow) (m : OrderBookManager) {m' : OrderBookManager}
      → register_rows registry rows m ≡ some m'
      → IsApart m
      → length m.order_books + length rows < 2 ^ 16
      → IsApart m'
        × ((j : ℕ) → book_for m j ≡ some empty_book → book_for m' j ≡ some empty_book)
        × All (HasEmptyBook registry m') rows
        × (m'.update_queues ≡ m.update_queues)
  unfolding register_rows
  register_rows-kept [] m h v few =
      let same = some-injective _ _ h in
      (
        subst IsApart same v,
        λ j e. ap (λ k. book_for k j) (sym same) ∙ e,
        all_nil,
        ap (λ k. k.update_queues) (sym same),
      )
  register_rows-kept (r ∷ rows) m h v few =
      let (id, found, rest) = register_rows-none r rows m h in
      let (v', empty) = register_instrument-IsApart m id v (omega arith) in
      let (longer, unchanged) = register_instrument_parts m id in
      let (v'', kept, all, queues) =
        register_rows-kept rows (register_instrument m id) rest v' (omega (arith, longer)) in
      (
        v'',
        λ j e. kept j (register_instrument-kept m id j v (omega arith) e),
        all_cons (id, found, kept id empty) all,
        queues ∙ unchanged,
      )

-- The parts of a program that was set up.
set_up_lem :
    {W : Type 0} (asserts : Bool) (blank : MarketUpdate) (link : W) (csv_rows : List StreamRow)
    {p : Program W}
    → set_up asserts blank link csv_rows ≡ some p
    → (rows : List StreamRow) × (m : OrderBookManager) × (sm : StrategyManager) × (load_csv csv_rows
        ≡ some rows)
      × (register_rows (venue_registry rows) rows empty_manager ≡ some m)
      × (p.registry ≡ venue_registry rows)
      × (p.manager ≡ set_strategy_manager (add_queue m (binance_queue blank)) sm)
      × (p.ingester.updates_queue ≡ binance_queue blank)
      × (p.ingester.link ≡ link)
unfolding set_up
set_up_lem {W} asserts blank link csv_rows h =
    let (rows, loaded, h1) = bind_some (load_csv csv_rows) _ h in
    let (btc, found1, h2) =
      bind_some (lookup (venue_registry rows) binance (ascii "BTCUSDT")) _ h1 in
    let (eth, found2, h3) =
      bind_some (lookup (venue_registry rows) binance (ascii "ETHUSDT")) _
        (guard_some (holds asserts (btc == 0)) _ h2) in
    let (bnb, found3, h4) =
      bind_some (lookup (venue_registry rows) binance (ascii "BNBUSDT")) _
        (guard_some (holds asserts (eth == 1)) _ h3) in
    let (m, registered, h5) =
      bind_some (register_rows (venue_registry rows) rows empty_manager) _
        (guard_some (holds asserts (bnb == 2)) _ h4) in
    let (b0, i0, h6) = bind_some (find_index m.id_to_index btc) _ h5 in
    let (b1, i1, h7) = bind_some (find_index m.id_to_index eth) _ h6 in
    let (b2, i2, h8) = bind_some (find_index m.id_to_index bnb) _ h7 in
    let (path, url, h9) = bind_some (url_path (build_binance_url rows)) _ h8 in
    let same = some-injective _ _ h9 in
    (
      rows,
      m,
      _,
      loaded,
      registered,
      ap (λ (k : Program W). k.registry) (sym same),
      ap (λ (k : Program W). k.manager) (sym same),
      ap (λ (k : Program W). k.ingester.updates_queue) (sym same),
      ap (λ (k : Program W). k.ingester.link) (sym same),
    )

book_for-wired :
    (m : OrderBookManager) (q : LfQueue MarketUpdate) (sm : StrategyManager) (id : ℕ)
    → book_for (set_strategy_manager (add_queue m q) sm) id ≡ book_for m id
unfolding set_strategy_manager add_queue
book_for-wired m q sm id = book_for-same m (set_strategy_manager (add_queue m q) sm) id refl refl

All-map_to {ℓ κ κ'} :
    {A : Type ℓ} {P : A → Type κ} {Q : A → Type κ'} (f : (x : A) → P x → Q x) {xs : List A}
    → All P xs
    → All Q xs
All-map_to f all_nil = all_nil
All-map_to f (all_cons p ps) = all_cons (f _ p) (All-map_to f ps)

-- If main, built with its assertions or without, gets as far as its threads with fewer than 2 ^ 16
-- rows, the ingester and the manager share one queue of 4096 slots, an empty ring, the registry is
-- that of the rows, every row has an instrument with an empty book, and no two instruments share a
-- book.
pub set_up-IsWired :
    {W : Type 0} (asserts : Bool) (blank : MarketUpdate) (link : W) (csv_rows : List StreamRow)
    {p : Program W}
    → set_up asserts blank link csv_rows ≡ some p
    → length csv_rows < 2 ^ 16
    → IsWired blank p
      × (p.registry ≡ venue_registry (map lower_stream csv_rows))
      × All (HasEmptyBook p.registry p.manager) (map lower_stream csv_rows)
      × (length p.ingester.updates_queue.store ≡ 4096)
unfolding set_strategy_manager add_queue
set_up-IsWired {W} asserts blank link csv_rows {p} h few =
    let (rows, m, sm, loaded, registered, reg, mgr, queue, linked) =
      set_up_lem asserts blank link csv_rows h in
    let (same, as_many) = load_csv-rows csv_rows loaded in
    let (v, kept, all, queues) =
      register_rows-kept (venue_registry rows) rows empty_manager registered empty_manager-IsApart
        (omega (arith, as_many)) in
    let wired = set_strategy_manager (add_queue m (binance_queue blank)) sm in
    (
      record {
        books_apart = subst IsApart (sym mgr) (IsApart-same m wired refl refl v);
        shared =
            ap (λ (k : OrderBookManager). k.update_queues) mgr
            ∙ ap (λ l. l ++ (binance_queue blank ∷ [])) queues
            ∙ ap (λ q. q ∷ []) (sym queue);
        ring = subst IsRing (sym queue) (IsRing-make 4096 blank (omega arith) (omega arith));
        idle = ap (contents blank) queue;
      },
      reg ∙ ap venue_registry same,
      subst (All (HasEmptyBook p.registry p.manager)) same (
          All-map_to
            (λ r e.
              let (id, found, empty) = e in
              (
                id,
                ap (λ k. lookup k r.exchange r.symbol) reg ∙ found,
                ap (λ k. book_for k id) mgr ∙ book_for-wired m (binance_queue blank) sm id ∙ empty,
              ))
            all),
      ap (λ (q : LfQueue MarketUpdate). length q.store) queue ∙ length-replicate 4096 blank,
    )
