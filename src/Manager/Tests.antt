-- ===== src/Manager/Tests.antt =====
-- The theorems on `OrderBookManager` of src/market_data/order_book/order_book_manager.cpp at a
-- manager of two instruments.
use hft_system.Prelude.{ℕ, ◌≡◌, ◌≢◌, refl, arith, ◌⊎◌, length, [], ◌∷◌, none, some}
use hft_system.Prelude.Int.{pos}
use hft_system.Market.{buy, MarketUpdate, market_update}
use hft_system.Queue.{make, push, push_all}
use hft_system.Queue.Fifo.{IsRing, contents, IsRing-make, push_all-contents}
use hft_system.OrderBook.{OrderBook, empty_book, add_update}
use hft_system.Manager.{
  OrderBookManager, empty_manager, find_index, register_instrument, book_for, Readings, pass_update,
  queue_at, run,
}
use hft_system.Manager.Route.{IsApart, pass_update-book_for, register_instrument-IsApart}
use hft_system.Manager.Drain.{fed, run-book_for}

abbrev bid : MarketUpdate
bid = market_update 7 buy (pos 100) (pos 1) (pos 0) (pos 0) (pos 0)

abbrev readings : Readings
readings = record { t0 = 10; t1 = 20; t2 = 21; t3 = 30 }

none_registered : IsApart empty_manager
unfolding find_index
none_registered = record {
  apart = λ a b i e f. absurd (ground arith);
  within = λ a i e. absurd (ground arith);
}

abbrev one : OrderBookManager
one = register_instrument empty_manager 7

register_instrument-IsApart_example : IsApart one × (book_for one 7 ≡ some empty_book)
register_instrument-IsApart_example =
    register_instrument-IsApart empty_manager 7 none_registered (omega arith)

one-IsApart : IsApart one
one-IsApart = (register_instrument-IsApart empty_manager 7 none_registered (omega arith)).0

pass_update-book_for_example :
    ((bid.instrument_id ≡ 7)
      × (((book_for one 7 ≡ none) × (pass_update one bid 5 readings ≡ one))
          ⊎ ((ob : OrderBook) × (book_for one 7 ≡ some ob)
              × (book_for (pass_update one bid 5 readings) 7 ≡ some (add_update ob bid)))))
    ⊎ ((bid.instrument_id ≢ 7) × (book_for (pass_update one bid 5 readings) 7 ≡ book_for one 7))
pass_update-book_for_example = pass_update-book_for one bid 5 readings 7 one-IsApart

abbrev queued : OrderBookManager
queued = record one { update_queues = push (make 4 bid) bid ∷ [] }

-- Two updates of instrument 7 round one of an instrument that is not registered.
abbrev other : MarketUpdate
other = record bid { instrument_id = 9 }

abbrev crowded : OrderBookManager
crowded = record one { update_queues = push_all (make 4 bid) (bid ∷ other ∷ bid ∷ []) ∷ [] }

crowded-IsRing : IsRing (queue_at crowded 0)
crowded-IsRing =
    (push_all-contents bid (bid ∷ other ∷ bid ∷ []) (make 4 bid)
      (IsRing-make 4 bid (omega arith) (omega arith)) (omega arith)).0

crowded_held : contents bid (queue_at crowded 0) ≡ bid ∷ other ∷ bid ∷ []
crowded_held =
    (push_all-contents bid (bid ∷ other ∷ bid ∷ []) (make 4 bid)
      (IsRing-make 4 bid (omega arith) (omega arith)) (omega arith)).1

crowded-IsApart : IsApart crowded
crowded-IsApart = record { apart = one-IsApart.apart; within = one-IsApart.within }

run-book_for_example :
    (m' : OrderBookManager) × (run bid (λ rounds k. (5, readings)) 3 crowded ≡ some m')
    × (contents bid (queue_at m' 0) ≡ [])
    × IsRing (queue_at m' 0)
    × IsApart m'
    × (length m'.update_queues ≡ 1)
    × ((id : ℕ) → book_for m' id ≡ fed id (contents bid (queue_at crowded 0)) (book_for crowded id))
run-book_for_example =
    run-book_for bid (λ rounds k. (5, readings)) 3 crowded crowded-IsApart refl crowded-IsRing
      (rw crowded_held (omega arith))
