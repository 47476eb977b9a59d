-- ===== src/Manager/Route.antt =====
-- The routing of src/market_data/order_book/order_book_manager.cpp: which books an update changes,
-- and what a poll does to the queues.
use hft_system.Prelude.{
  ℕ, zero, suc, ◌+◌, ◌%◌, ◌^◌, ◌<◌, ◌≡◌, ◌≢◌, refl, arith, sym, ap, ◌∙◌, ◌⊎◌, inl, inr, List, [],
  ◌∷◌, ◌++◌, length, get_or, set, get_or-set_self, get_or-set_ne, none, some, Option-cases,
  ℕ_discrete, if◌then◌else◌, ◌==◌, length-append,
}
use mathlib.Core.Option.{some-injective}
use hft_system.Market.{MarketUpdate}
use hft_system.OrderBook.{OrderBook, empty_book, add_update}
use hft_system.Manager.{
  OrderBookManager, empty_manager, find_index, put_index, register_instrument, book_for, Readings,
  notify, finish, pass_update,
}

-- Two instruments never share a book, and every index is that of a book.
pub record IsApart (m : OrderBookManager) : Type 0 where
  pub apart :
      (a b i : ℕ)
      → find_index m.id_to_index a ≡ some i
      → find_index m.id_to_index b ≡ some i
      → a ≡ b
  pub within : (a i : ℕ) → find_index m.id_to_index a ≡ some i → i < length m.order_books

some_ne_none : {ob : OrderBook} → some ob ≢ none
some_ne_none e = absurd (ground arith)

pub pass_update_books :
    (m : OrderBookManager) (u : MarketUpdate) (now : ℕ) (t : Readings) {i : ℕ}
    → find_index m.id_to_index u.instrument_id ≡ some i
    → ((pass_update m u now t).order_books
        ≡ set m.order_books i (add_update (get_or m.order_books i empty_book) u))
      × ((pass_update m u now t).id_to_index ≡ m.id_to_index)
unfolding pass_update notify finish
pass_update_books m u now t e = elim (Option-cases m.strategy_manager) [
  | inl n ↦ (rw (pass_update, e, n) refl, rw (pass_update, e, n) refl)
  | inr (sm, n) ↦ (rw (pass_update, e, n) refl, rw (pass_update, e, n) refl)
]

pub pass_update_unknown :
    (m : OrderBookManager) (u : MarketUpdate) (now : ℕ) (t : Readings)
    → find_index m.id_to_index u.instrument_id ≡ none
    → pass_update m u now t ≡ m
unfolding pass_update
pass_update_unknown m u now t e = ground arith

pub book_for_lem :
    (m : OrderBookManager) (id : ℕ) {i : ℕ}
    → find_index m.id_to_index id ≡ some i
    → book_for m id ≡ some (get_or m.order_books i empty_book)
unfolding book_for
book_for_lem m id e = ground arith

pub book_for-none :
    (m : OrderBookManager) (id : ℕ) → find_index m.id_to_index id ≡ none → book_for m id ≡ none
unfolding book_for
book_for-none m id e = ground arith

-- A write to another slot of the books.
book_for-other :
    (m after : OrderBookManager) (id i : ℕ) (ob : OrderBook)
    → after.order_books ≡ set m.order_books i ob
    → after.id_to_index ≡ m.id_to_index
    → find_index m.id_to_index id ≢ some i
    → book_for after id ≡ book_for m id
book_for-other m after id i ob books ids ne = elim (Option-cases (find_index m.id_to_index id)) [
  | inl f ↦ book_for-none after id (ap (λ l. find_index l id) ids ∙ f) ∙ sym (book_for-none m id f)
  | inr (j, f) ↦
      book_for_lem after id (ap (λ l. find_index l id) ids ∙ f)
      ∙ ap some (
          ap (λ l. get_or l j empty_book) books
          ∙ get_or-set_ne m.order_books i j ob empty_book (λ k. ne (f ∙ ap some (sym k))))
      ∙ sym (book_for_lem m id f)
]

-- In a manager whose instruments have books of their own, an update gives the book of its
-- instrument the update and leaves the book of every other one; if its instrument is not
-- registered, nothing changes.
pub pass_update-book_for :
    (m : OrderBookManager) (u : MarketUpdate) (now : ℕ) (t : Readings) (id : ℕ)
    → IsApart m
    → ((u.instrument_id ≡ id)
        × (((book_for m id ≡ none) × (pass_update m u now t ≡ m))
            ⊎ ((ob : OrderBook) × (book_for m id ≡ some ob)
                × (book_for (pass_update m u now t) id ≡ some (add_update ob u)))))
      ⊎ ((u.instrument_id ≢ id) × (book_for (pass_update m u now t) id ≡ book_for m id))
pass_update-book_for m u now t id v =
    elim (Option-cases (find_index m.id_to_index u.instrument_id)) [
      | inl e ↦ elim (ℕ_discrete u.instrument_id id) [
        | yes same ↦
            inl (same, inl (book_for-none m id (rw (← same) e), pass_update_unknown m u now t e))
        | no other ↦ inr (other, ap (λ k. book_for k id) (pass_update_unknown m u now t e))
      ]
      | inr (i, e) ↦
          let after = pass_update m u now t in
          let (books, ids) = pass_update_books m u now t e in
          elim (ℕ_discrete u.instrument_id id) [
            | yes same ↦
                let known : find_index m.id_to_index id ≡ some i = rw (← same) e in
                inl (
                  same,
                  inr (
                    get_or m.order_books i empty_book,
                    book_for_lem m id known,
                    book_for_lem after id (ap (λ l. find_index l id) ids ∙ known)
                        ∙ ap some (
                            ap (λ l. get_or l i empty_book) books
                            ∙ get_or-set_self m.order_books i _ empty_book
                                (v.within u.instrument_id i e)),
                  ),
                )
            | no other ↦
                inr
                  (other, book_for-other m after id i _ books ids (λ f. other (v.apart _ _ i e f)))
          ]
    ]

find_index-put_index :
    (l : List (ℕ × ℕ)) (id i j : ℕ)
    → find_index (put_index l id i) j ≡ (if id == j then some i else find_index l j)
unfolding find_index put_index
find_index-put_index [] id i j = refl
find_index-put_index ((k, n) ∷ rest) id i j =
    let h = find_index-put_index rest id i j in
    elim (ℕ_discrete k id) [ yes e ↦ ground arith | no ne ↦ ground arith ]

put_index-same : (l : List (ℕ × ℕ)) (id i : ℕ) → find_index (put_index l id i) id ≡ some i
put_index-same l id i = find_index-put_index l id i id ∙ ground arith

put_index-other :
    (l : List (ℕ × ℕ)) (id i j : ℕ) → id ≢ j → find_index (put_index l id i) j ≡ find_index l j
put_index-other l id i j ne = find_index-put_index l id i j ∙ ground arith

get_or-append_left :
    (l : List OrderBook) (b : OrderBook) (i : ℕ)
    → i < length l
    → get_or (l ++ (b ∷ [])) i empty_book ≡ get_or l i empty_book
get_or-append_left [] b i h = absurd (omega arith)
get_or-append_left (x ∷ l) b zero h = refl
get_or-append_left (x ∷ l) b (suc i) h = get_or-append_left l b i (omega arith)

get_or-append_end :
    (l : List OrderBook) (b : OrderBook) → get_or (l ++ (b ∷ [])) (length l) empty_book ≡ b
get_or-append_end [] b = refl
get_or-append_end (x ∷ l) b = get_or-append_end l b

-- The index of an instrument after a registration.
register_cases :
    (m : OrderBookManager) (id a i : ℕ)
    → length m.order_books < 2 ^ 16
    → find_index (put_index m.id_to_index id (length m.order_books % 2 ^ 16)) a ≡ some i
    → ((id ≡ a) × (i ≡ length m.order_books)) ⊎ ((id ≢ a) × (find_index m.id_to_index a ≡ some i))
register_cases m id a i few e = elim (ℕ_discrete id a) [
  | yes same ↦
      let found : find_index (put_index m.id_to_index id (length m.order_books % 2 ^ 16)) a
          ≡ some (length m.order_books % 2 ^ 16) =
        rw same (put_index-same m.id_to_index a _) in
      inl (same, some-injective _ _ (sym e ∙ found) ∙ omega arith)
  | no ne ↦ inr (ne, sym (put_index-other m.id_to_index id _ a ne) ∙ e)
]

-- Registering an instrument with fewer than 2 ^ 16 books keeps the books of the instruments apart
-- and gives the instrument an empty book.
pub register_instrument-IsApart :
    (m : OrderBookManager) (id : ℕ)
    → IsApart m
    → length m.order_books < 2 ^ 16
    → IsApart (register_instrument m id)
      × (book_for (register_instrument m id) id ≡ some empty_book)
unfolding register_instrument
register_instrument-IsApart m id v few = (
  record {
    apart =
        λ a b i e f. apart a b i (register_cases m id a i few e) (register_cases m id b i few f);
    within = λ a i e. within a i (register_cases m id a i few e);
  },
  book_for_lem (register_instrument m id) id
        (put_index-same m.id_to_index id (length m.order_books % 2 ^ 16))
      ∙ (ap some (
          ap (λ k. get_or (m.order_books ++ (empty_book ∷ [])) k empty_book) (omega arith)
          ∙ get_or-append_end m.order_books empty_book)),
)
  where
    apart :
        (a b i : ℕ)
        → ((id ≡ a) × (i ≡ length m.order_books))
          ⊎ ((id ≢ a) × (find_index m.id_to_index a ≡ some i))
        → ((id ≡ b) × (i ≡ length m.order_books))
          ⊎ ((id ≢ b) × (find_index m.id_to_index b ≡ some i))
        → a ≡ b
    apart a b i (inl e) (inl f) = omega arith
    apart a b i (inl e) (inr f) = absurd (omega (arith, v.within b i f.1))
    apart a b i (inr e) (inl f) = absurd (omega (arith, v.within a i e.1))
    apart a b i (inr e) (inr f) = v.apart a b i e.1 f.1

    within :
        (a i : ℕ)
        → ((id ≡ a) × (i ≡ length m.order_books))
          ⊎ ((id ≢ a) × (find_index m.id_to_index a ≡ some i))
        → i < length (m.order_books ++ (empty_book ∷ []))
    within a i (inl e) = omega (arith, length-append m.order_books (empty_book ∷ []))
    within a i (inr e) =
        omega (arith, length-append m.order_books (empty_book ∷ []), v.within a i e.1)

-- A registration adds a book, and leaves a book without levels as it was.
pub register_instrument-kept :
    (m : OrderBookManager) (id j : ℕ)
    → IsApart m
    → length m.order_books < 2 ^ 16
    → book_for m j ≡ some empty_book
    → book_for (register_instrument m id) j ≡ some empty_book
unfolding register_instrument
register_instrument-kept m id j v few h = elim (ℕ_discrete id j) [
  | yes same ↦ rw (← same) (register_instrument-IsApart m id v few).1
  | no other ↦ elim (Option-cases (find_index m.id_to_index j)) [
    | inl e ↦ absurd (some_ne_none (sym h ∙ book_for-none m j e))
    | inr (i, e) ↦
        book_for_lem (register_instrument m id) j
          (put_index-other m.id_to_index id (length m.order_books % 2 ^ 16) j other ∙ e)
        ∙ ap some (get_or-append_left m.order_books empty_book i (v.within j i e))
        ∙ sym (book_for_lem m j e)
        ∙ h
  ]
]

pub empty_manager-IsApart : IsApart empty_manager
unfolding find_index
empty_manager-IsApart = record {
  apart = λ a b i e f. absurd (ground arith);
  within = λ a i e. absurd (ground arith);
}

pub register_instrument_parts :
    (m : OrderBookManager) (id : ℕ)
    → (length (register_instrument m id).order_books ≡ length m.order_books + 1)
      × ((register_instrument m id).update_queues ≡ m.update_queues)
unfolding register_instrument
register_instrument_parts m id = (length-append m.order_books (empty_book ∷ []), refl)
