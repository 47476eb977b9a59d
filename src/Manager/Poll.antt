-- ===== src/Manager/Poll.antt =====
-- The loop of `run` in src/market_data/order_book/order_book_manager.cpp: what one turn does to a
-- queue and to the books.
use hft_system.Prelude.{
  ℕ, ◌+◌, ◌%◌, ◌^◌, ◌<◌, ◌≡◌, refl, arith, sym, ap, ◌∙◌, subst, ◌⊎◌, inl, inr, [], ◌∷◌, length,
  get_or, set, get_or-set_self, none, some, Option-cases,
}
use hft_system.Market.{MarketUpdate}
use hft_system.Queue.{LfQueue, get_next_to_read, update_read_index}
use hft_system.Queue.Fifo.{IsRing, contents, read-contents}
use hft_system.Manager.{
  OrderBookManager, find_index, Readings, notify, finish, pass_update, queue_at, no_queue,
  poll_queue,
}

pub pass_update_queues :
    (m : OrderBookManager) (u : MarketUpdate) (now : ℕ) (t : Readings)
    → (pass_update m u now t).update_queues ≡ m.update_queues
unfolding pass_update notify finish
pass_update_queues m u now t = elim (Option-cases (find_index m.id_to_index u.instrument_id)) [
  | inl e ↦ rw (pass_update, e) refl
  | inr (i, e) ↦ elim (Option-cases m.strategy_manager) [
    | inl n ↦ rw (pass_update, e, n) refl
    | inr (sm, n) ↦ rw (pass_update, e, n) refl
  ]
]

pub poll_queue-empty :
    (blank : MarketUpdate) (m : OrderBookManager) (k now : ℕ) (t : Readings)
    → get_next_to_read blank (queue_at m k) ≡ none
    → poll_queue blank m k now t ≡ some m
unfolding poll_queue
poll_queue-empty blank m k now t e = ground arith

pub poll_queue-read :
    (blank : MarketUpdate) (m : OrderBookManager) (k now : ℕ) (t : Readings) {u : MarketUpdate}
    {q : LfQueue MarketUpdate}
    → get_next_to_read blank (queue_at m k) ≡ some u
    → update_read_index (queue_at m k) ≡ some q
    → (m' : OrderBookManager) × (poll_queue blank m k now t ≡ some m')
      × (m'.update_queues ≡ set (pass_update m u now t).update_queues k q)
      × (m'.order_books ≡ (pass_update m u now t).order_books)
      × (m'.strategy_manager ≡ (pass_update m u now t).strategy_manager)
      × (m'.id_to_index ≡ (pass_update m u now t).id_to_index)
unfolding poll_queue
poll_queue-read blank m k now t {u} {q} e f = (
  record (pass_update m u now t) {
    update_queues = set (pass_update m u now t).update_queues k q;
    update_count = ((pass_update m u now t).update_count + 1) % 2 ^ 64;
  },
  ground arith,
  refl,
  refl,
  refl,
  refl,
)

-- A turn of the loop for a queue that is a ring does nothing if the queue is empty; else it takes
-- off the oldest update, keeps the ring, and leaves the books and the strategies as passing that
-- update on does.
pub poll_queue-contents :
    (blank : MarketUpdate) (m : OrderBookManager) (k now : ℕ) (t : Readings)
    → k < length m.update_queues
    → IsRing (queue_at m k)
    → ((contents blank (queue_at m k) ≡ []) × (poll_queue blank m k now t ≡ some m))
      ⊎ ((u : MarketUpdate) × (m' : OrderBookManager) × (contents blank (queue_at m k)
            ≡ u ∷ contents blank (queue_at m' k))
          × (poll_queue blank m k now t ≡ some m')
          × (m'.order_books ≡ (pass_update m u now t).order_books)
          × (m'.strategy_manager ≡ (pass_update m u now t).strategy_manager)
          × IsRing (queue_at m' k))
poll_queue-contents blank m k now t k_in ring = elim (read-contents blank (queue_at m k) ring) [
  | inl (nothing, unread, stuck) ↦ inl (nothing, poll_queue-empty blank m k now t unread)
  | inr (u, q, held, read, taken, ring') ↦
      let (m', polled, queues, books, strategies, ids) =
        poll_queue-read blank m k now t read taken in
      let at : queue_at m' k ≡ q =
        ap (λ l. get_or l k no_queue) (queues ∙ ap (λ l. set l k q) (pass_update_queues m u now t))
        ∙ get_or-set_self m.update_queues k q no_queue k_in in
      inr (
        u,
        m',
        held ∙ ap (λ r. u ∷ contents blank r) (sym at),
        polled,
        books,
        strategies,
        subst IsRing (sym at) ring',
      )
]
