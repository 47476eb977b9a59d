-- ===== src/Program/Cycle.antt =====
-- The way of a frame through the program of src/main.cpp: from the bytes of the connection through
-- the parser and the queue to the books.
use hft_system.Prelude.{
  ℕ, ◌%◌, ◌≤◌, ◌≡◌, refl, arith, sym, ap, subst, ◌∙◌, inl, inr, List, [], ◌∷◌, ◌++◌, length, get_or,
  some, All,
}
use mathlib.Core.Option.{some-injective}
use hft_system.Market.{MarketUpdate}
use hft_system.Queue.{LfQueue, push_all}
use hft_system.Queue.Fifo.{IsRing, contents, length-contents, push_all-contents}
use hft_system.Sbe.{parse}
use hft_system.Sbe.Payload.{Sent, IsKnownTo, payload_bytes, payload_updates, parse-encode}
use hft_system.Config.{binance}
use hft_system.WebSocket.{Transport}
use hft_system.WebSocket.Wire.{WireFrame, wire_bytes, IsMask}
use hft_system.WebSocket.Mask.{IsByte}
use hft_system.WebSocket.Stream.{IsStream}
use hft_system.Manager.{OrderBookManager, book_for, queue_at, no_queue, run}
use hft_system.Manager as Manager
use hft_system.Manager.Drain.{IsApart-same, book_for-same, fed, run-book_for}
use hft_system.Ingester.{MarketDataIngester, receive_one}
use hft_system.Ingester as Ingester
use hft_system.Ingester.Frames.{receive_one_frame}
use hft_system.Program.{Program, cycle}
use hft_system.Program.SetUp.{IsWired}

one_queue : (l : List (LfQueue MarketUpdate)) → length l ≡ 1 → l ≡ get_or l 0 no_queue ∷ []
one_queue [] h = absurd (omega arith)
one_queue (q ∷ []) h = refl
one_queue (q ∷ r ∷ l) h = absurd (omega arith)

module _ {W : Type 0} (t : Transport W) (stream : W → List ℕ) (laws : IsStream t stream)
    (blank : MarketUpdate) where
  cycle_lem :
      (now : Ingester.Readings) (clock : ℕ → ℕ → ℕ × Manager.Readings) (rounds : ℕ) (p : Program W)
      {received : MarketDataIngester W} {drained : OrderBookManager}
      → receive_one t p.schemas p.registry binance p.ingester now ≡ some received
      → run blank clock rounds (record p.manager { update_queues = received.updates_queue ∷ [] })
        ≡ some drained
      → cycle t blank now clock rounds p
        ≡ some (record p {
          manager = drained;
          ingester = record received { updates_queue = queue_at drained 0 };
        })
  unfolding cycle
  cycle_lem now clock rounds p e f = rw (cycle, e) (rw f refl)

  -- The same for updates that the parser makes of the payload.
  cycle-book_for :
      (now : Ingester.Readings) (clock : ℕ → ℕ → ℕ × Manager.Readings) (rounds : ℕ) (p : Program W)
      (f : WireFrame) (rest : List ℕ) (xs : List MarketUpdate)
      → IsWired blank p
      → stream p.ingester.link ≡ wire_bytes f ++ rest
      → IsMask f.mask
      → All IsByte f.payload
      → length f.payload ≤ 8188
      → f.opcode % 16 ≡ 2
      → parse now.at_message p.schemas p.registry binance f.payload p.ingester.updates_queue
        ≡ some (push_all p.ingester.updates_queue xs)
      → length xs ≤ length p.ingester.updates_queue.store
      → length xs ≤ rounds
      → (p' : Program W) × (cycle t blank now clock rounds p ≡ some p')
        × IsWired blank p'
        × (stream p'.ingester.link ≡ rest)
        × ((id : ℕ) → book_for p'.manager id ≡ fed id xs (book_for p.manager id))
  cycle-book_for now clock rounds p f rest xs wired e masked all small two parsed room enough =
      let (received, ys, got, left, pushed, known, which, count) =
        receive_one_frame t p.schemas p.registry binance stream laws p.ingester now f rest e masked
          all small (omega arith) in
      let queue : received.updates_queue ≡ push_all p.ingester.updates_queue xs = elim which [
        | inl (_, same) ↦ some-injective _ _ (sym same ∙ parsed)
        | inr (other, _) ↦ absurd (other two)
      ] in
      let nothing : p.ingester.updates_queue.num_elements ≡ 0 =
        sym (length-contents blank p.ingester.updates_queue)
        ∙ ap (λ (l : List MarketUpdate). length l) wired.idle in
      let (ring, held) =
        push_all-contents blank xs p.ingester.updates_queue wired.ring (omega (arith, nothing)) in
      let held' : contents blank received.updates_queue ≡ xs =
        ap (contents blank) queue ∙ held ∙ ap (λ l. l ++ xs) wired.idle in
      let m = record p.manager { update_queues = received.updates_queue ∷ [] } in
      let (drained, ran, empty, ring', apart, one, books) =
        run-book_for blank clock rounds m (IsApart-same p.manager m refl refl wired.books_apart)
          refl (subst IsRing (sym queue) ring) (rw held' enough) in
      (
        _,
        cycle_lem now clock rounds p got ran,
        record {
          books_apart = apart;
          shared = one_queue drained.update_queues one;
          ring = ring';
          idle = empty;
        },
        left,
        λ id.
            books id
            ∙ ap (λ l. fed id l (book_for m id)) held'
            ∙ ap (fed id xs) (book_for-same p.manager m id refl refl),
      )

  -- In a wired program, if the connection gives a binary frame, masked or not, whose payload of at
  -- most 8188 bytes is encoded depth messages with schemas and symbols that the program knows, and
  -- the queue has room for their updates, then one turn of the ingester and at least as many
  -- rounds of the manager as there are updates leave the program wired, the connection behind the
  -- frame, and each book as it was after the updates of its instrument, in the order of the
  -- payload.
  pub cycle-sent :
      (now : Ingester.Readings) (clock : ℕ → ℕ → ℕ × Manager.Readings) (rounds : ℕ) (p : Program W)
      (f : WireFrame) (rest : List ℕ) (ss : List Sent)
      → IsWired blank p
      → stream p.ingester.link ≡ wire_bytes f ++ rest
      → IsMask f.mask
      → f.payload ≡ payload_bytes ss
      → All IsByte f.payload
      → length f.payload ≤ 8188
      → f.opcode % 16 ≡ 2
      → All (IsKnownTo p.schemas p.registry binance) ss
      → length (payload_updates now.at_message 0 ss) ≤ length p.ingester.updates_queue.store
      → length (payload_updates now.at_message 0 ss) ≤ rounds
      → (p' : Program W) × (cycle t blank now clock rounds p ≡ some p')
        × IsWired blank p'
        × (stream p'.ingester.link ≡ rest)
        × ((id : ℕ)
            → book_for p'.manager id
              ≡ fed id (payload_updates now.at_message 0 ss) (book_for p.manager id))
  cycle-sent now clock rounds p f rest ss wired e masked encoded all small two known =
      cycle-book_for now clock rounds p f rest (payload_updates now.at_message 0 ss) wired e masked
        all small two
        (ap (λ l. parse now.at_message p.schemas p.registry binance l p.ingester.updates_queue)
            encoded
          ∙ parse-encode p.schemas p.registry binance now.at_message ss p.ingester.updates_queue
              known)
