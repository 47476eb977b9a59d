-- ===== src/Manager/Drain.antt =====
-- The loop `run` of src/market_data/order_book/order_book_manager.cpp over a queue: that it empties
-- the queue, and what the books are then.
use hft_system.Prelude.{
  ℕ, zero, suc, ◌≤◌, ◌<◌, ◌==◌, ◌≡◌, ◌≢◌, refl, arith, sym, ap, ◌∙◌, subst, inl, inr, List, [], ◌∷◌,
  length, get_or, set, get_or-set_self, length-set, Option, none, some, Option-cases, if◌then◌else◌,
  Bool-cases, true, false,
}
use hft_system.Market.{MarketUpdate}
use hft_system.Queue.{LfQueue}
use hft_system.Queue.Fifo.{IsRing, contents, read-contents}
use hft_system.OrderBook.{OrderBook, add_updates}
use hft_system.Manager.{
  OrderBookManager, find_index, book_for, Readings, pass_update, queue_at, no_queue, poll_queue,
  poll_from, run,
}
use hft_system.Manager.Route.{IsApart, pass_update_books, pass_update_unknown, pass_update-book_for}
use hft_system.Manager.Poll.{pass_update_queues, poll_queue-empty, poll_queue-read}

cons_ne_nil {ℓ} : {A : Type ℓ} (x : A) (xs : List A) → x ∷ xs ≢ []
cons_ne_nil x xs e = absurd (ground arith)

cons_head : (x y : MarketUpdate) (xs ys : List MarketUpdate) → x ∷ xs ≡ y ∷ ys → x ≡ y
cons_head x y xs ys e = cc

cons_tail : (x y : MarketUpdate) (xs ys : List MarketUpdate) → x ∷ xs ≡ y ∷ ys → xs ≡ ys
cons_tail x y xs ys e = cc

-- The updates of one instrument, in order.
abbrev pub updates_of : ℕ → List MarketUpdate → List MarketUpdate
updates_of id [] = []
updates_of id (u ∷ us) = if u.instrument_id == id then u ∷ updates_of id us else updates_of id us

-- A book that has been given the updates of its instrument; none stays none.
abbrev pub fed : ℕ → List MarketUpdate → Option OrderBook → Option OrderBook
fed id us none = none
fed id us (some ob) = some (add_updates ob (updates_of id us))

fed-none : (id : ℕ) (o : Option OrderBook) → fed id [] o ≡ o
unfolding add_updates
fed-none id none = refl
fed-none id (some ob) = refl

fed-cons :
    (id : ℕ) (u : MarketUpdate) (us : List MarketUpdate) (o : Option OrderBook)
    → fed id us (fed id (u ∷ []) o) ≡ fed id (u ∷ us) o
unfolding add_updates
fed-cons id u us none = refl
fed-cons id u us (some ob) = elim (Bool-cases (u.instrument_id == id)) [
  | inl e ↦ rw e refl
  | inr e ↦ rw e refl
]

pub IsApart-same :
    (m m' : OrderBookManager)
    → m'.id_to_index ≡ m.id_to_index
    → length m'.order_books ≡ length m.order_books
    → IsApart m
    → IsApart m'
IsApart-same m m' ids len v = record {
  apart = λ a b i e f.
      v.apart a b i (ap (λ l. find_index l a) (sym ids) ∙ e)
        (ap (λ l. find_index l b) (sym ids) ∙ f);
  within = λ a i e. omega (arith, len, v.within a i (ap (λ l. find_index l a) (sym ids) ∙ e));
}

pub book_for-same :
    (m m' : OrderBookManager) (id : ℕ)
    → m'.id_to_index ≡ m.id_to_index
    → m'.order_books ≡ m.order_books
    → book_for m' id ≡ book_for m id
unfolding book_for
book_for-same m m' id ids books = rw (ids, books) refl

pass_update-IsApart :
    (m : OrderBookManager) (u : MarketUpdate) (now : ℕ) (t : Readings)
    → IsApart m
    → IsApart (pass_update m u now t)
pass_update-IsApart m u now t v = elim (Option-cases (find_index m.id_to_index u.instrument_id)) [
  | inl e ↦ subst IsApart (sym (pass_update_unknown m u now t e)) v
  | inr (i, e) ↦
      let (books, ids) = pass_update_books m u now t e in
      IsApart-same m (pass_update m u now t) ids
        (ap (λ (l : List OrderBook). length l) books ∙ length-set m.order_books i _) v
]

pass_update-fed :
    (m : OrderBookManager) (u : MarketUpdate) (now : ℕ) (t : Readings) (id : ℕ)
    → IsApart m
    → book_for (pass_update m u now t) id ≡ fed id (u ∷ []) (book_for m id)
unfolding add_updates
pass_update-fed m u now t id v = elim (pass_update-book_for m u now t id v) [
  | inl (same, inl (missing, kept)) ↦ ap (λ k. book_for k id) kept ∙ missing ∙ rw missing refl
  | inl (same, inr (ob, old, new)) ↦
      let hit : (u.instrument_id == id) ≡ true = ground arith in new ∙ rw (old, hit) refl
  | inr (other, kept) ↦
      let miss : (u.instrument_id == id) ≡ false = ground arith in
      kept
      ∙ elim (Option-cases (book_for m id)) [ inl e ↦ rw e refl | inr (ob, e) ↦ rw (e, miss) refl ]
]

module _ (blank : MarketUpdate) where
  -- What a turn of the loop leaves of a queue, and what it has done to the books.
  record Turn (m m' : OrderBookManager) (k : ℕ) : Type 0 where
    pub ring : IsRing (queue_at m' k)
    pub books_apart : IsApart m'
    pub queues : length m'.update_queues ≡ length m.update_queues

  poll_queue-next :
      (m : OrderBookManager) (k now : ℕ) (t : Readings) (u : MarketUpdate) (us : List MarketUpdate)
      → k < length m.update_queues
      → IsRing (queue_at m k)
      → IsApart m
      → contents blank (queue_at m k) ≡ u ∷ us
      → (m' : OrderBookManager) × (poll_queue blank m k now t ≡ some m')
        × Turn m m' k
        × (contents blank (queue_at m' k) ≡ us)
        × ((id : ℕ) → book_for m' id ≡ fed id (u ∷ []) (book_for m id))
  poll_queue-next m k now t u us k_in ring v held = elim (read-contents blank (queue_at m k) ring) [
    | inl (nothing, unread, stuck) ↦ absurd (cons_ne_nil u us (sym held ∙ nothing))
    | inr (w, q, split, read, taken, ring') ↦
        let (m', polled, queues, books, strategies, ids) =
          poll_queue-read blank m k now t read taken in
        let at : queue_at m' k ≡ q =
          ap (λ l. get_or l k no_queue)
            (queues ∙ ap (λ l. set l k q) (pass_update_queues m w now t))
          ∙ get_or-set_self m.update_queues k q no_queue k_in in
        let same : w ≡ u = cons_head w u _ us (sym split ∙ held) in
        let books' : m'.order_books ≡ (pass_update m u now t).order_books =
          books ∙ ap (λ x. (pass_update m x now t).order_books) same in
        let ids' : m'.id_to_index ≡ (pass_update m u now t).id_to_index =
          ids ∙ ap (λ x. (pass_update m x now t).id_to_index) same in
        (
          m',
          polled,
          record {
            ring = subst IsRing (sym at) ring';
            books_apart =
                IsApart-same (pass_update m u now t) m' ids'
                  (ap (λ (l : List OrderBook). length l) books') (pass_update-IsApart m u now t v);
            queues =
                ap (λ (l : List (LfQueue MarketUpdate)). length l)
                  (queues ∙ ap (λ l. set l k q) (pass_update_queues m w now t))
                ∙ length-set m.update_queues k q;
          },
          ap (contents blank) at ∙ cons_tail w u _ us (sym split ∙ held),
          λ id.
              book_for-same (pass_update m u now t) m' id ids' books'
              ∙ pass_update-fed m u now t id v,
        )
  ]

  poll_from-one :
      (clock : ℕ → ℕ × Readings) (m : OrderBookManager) {m' : OrderBookManager}
      → poll_queue blank m 0 (clock 0).0 (clock 0).1 ≡ some m'
      → poll_from blank clock m 0 1 ≡ some m'
  unfolding poll_from
  poll_from-one clock m e = rw (poll_from, e) refl

  run-round :
      (clock : ℕ → ℕ → ℕ × Readings) (rounds : ℕ) (m : OrderBookManager) {m' : OrderBookManager}
      → length m.update_queues ≡ 1
      → poll_from blank (clock rounds) m 0 1 ≡ some m'
      → run blank clock (suc rounds) m ≡ run blank clock rounds m'
  unfolding run
  run-round clock rounds m one e = rw (run, one, e) refl

  run-idle :
      (clock : ℕ → ℕ → ℕ × Readings) (rounds : ℕ) (m : OrderBookManager)
      → length m.update_queues ≡ 1
      → IsRing (queue_at m 0)
      → contents blank (queue_at m 0) ≡ []
      → run blank clock rounds m ≡ some m
  unfolding run
  run-idle clock zero m one ring empty = refl
  run-idle clock (suc rounds) m one ring empty = elim (read-contents blank (queue_at m 0) ring) [
    | inl (nothing, unread, stuck) ↦
        run-round clock rounds m one (
          poll_from-one (clock rounds) m
            (poll_queue-empty blank m 0 (clock rounds 0).0 (clock rounds 0).1 unread))
        ∙ run-idle clock rounds m one ring empty
    | inr (w, q, split, read, taken, ring') ↦ absurd (cons_ne_nil w _ (sym split ∙ empty))
  ]

  run-drains :
      (clock : ℕ → ℕ → ℕ × Readings) (us : List MarketUpdate) (rounds : ℕ) (m : OrderBookManager)
      → IsApart m
      → length m.update_queues ≡ 1
      → IsRing (queue_at m 0)
      → contents blank (queue_at m 0) ≡ us
      → length us ≤ rounds
      → (m' : OrderBookManager) × (run blank clock rounds m ≡ some m')
        × Turn m m' 0
        × (contents blank (queue_at m' 0) ≡ [])
        × ((id : ℕ) → book_for m' id ≡ fed id us (book_for m id))
  run-drains clock [] rounds m v one ring held h = (
    m,
    run-idle clock rounds m one ring held,
    record { ring = ring; books_apart = v; queues = refl },
    held,
    λ id. sym (fed-none id (book_for m id)),
  )
  run-drains clock (u ∷ us) zero m v one ring held h = absurd (omega arith)
  run-drains clock (u ∷ us) (suc rounds) m v one ring held h =
      let (m', polled, turn, rest, books) =
        poll_queue-next m 0 (clock rounds 0).0 (clock rounds 0).1 u us (omega arith) ring v held in
      let (m'', ran, turn', empty, books') =
        run-drains clock us rounds m' turn.books_apart (turn.queues ∙ one) turn.ring rest
          (omega arith) in
      (
        m'',
        run-round clock rounds m one (poll_from-one (clock rounds) m polled) ∙ ran,
        record {
          ring = turn'.ring;
          books_apart = turn'.books_apart;
          queues = turn'.queues ∙ turn.queues;
        },
        empty,
        λ id. books' id ∙ ap (fed id us) (books id) ∙ fed-cons id u us (book_for m id),
      )

  -- If the manager has one queue, a ring, and its instruments have books of their own, then as
  -- many rounds of run as the queue holds updates, or more, empty the queue, keep the ring and the
  -- books apart, and leave each registered book as it was after the updates of its instrument, in
  -- order; no book is made or lost.
  pub run-book_for :
      (clock : ℕ → ℕ → ℕ × Readings) (rounds : ℕ) (m : OrderBookManager)
      → IsApart m
      → length m.update_queues ≡ 1
      → IsRing (queue_at m 0)
      → length (contents blank (queue_at m 0)) ≤ rounds
      → (m' : OrderBookManager) × (run blank clock rounds m ≡ some m')
        × (contents blank (queue_at m' 0) ≡ [])
        × IsRing (queue_at m' 0)
        × IsApart m'
        × (length m'.update_queues ≡ 1)
        × ((id : ℕ) → book_for m' id ≡ fed id (contents blank (queue_at m 0)) (book_for m id))
  run-book_for clock rounds m v one ring h =
      let (m', ran, turn, empty, books) =
        run-drains clock (contents blank (queue_at m 0)) rounds m v one ring refl h in
      (m', ran, empty, turn.ring, turn.books_apart, turn.queues ∙ one, books)
