-- ===== src/OrderBook/AskRemove.antt =====
-- A removal from the asks, in `addUpdate` of include/market_data/order_book/order_book.h.
use hft_system.Prelude.{
  ℕ, ◌-◌, ◌≤◌, ◌<◌, ◌≡◌, ◌≢◌, arith, true, false, inl, inr, ◌⊎◌, Bool-cases, ℕ_discrete, sym, subst,
  ◌↔◌,
}
use hft_system.Prelude.Int.{ℤ}
use hft_system.OrderBook.{
  BookSide, level, clear, cleared, slot_of, scan_up, scan_down, remove_ask, best_price, worst_price,
}
use hft_system.OrderBook.Slots.{slot_of-lt}
use hft_system.OrderBook.Window.{IsWindow, Active}
use hft_system.OrderBook.Window.Write.{count_active-pos}
use hft_system.OrderBook.Window.Remove.{last-IsBare, middle-IsWindow}
use hft_system.OrderBook.Window.RemoveLow.{low-IsWindow}
use hft_system.OrderBook.Window.RemoveHigh.{high-IsWindow}
use hft_system.OrderBook.Window.{Quotes}
use hft_system.OrderBook.Window.Quotes.{IsHome, Erased, absent-Quotes, present-Quotes, bare-Quotes}
use hft_system.OrderBook.Window.Reach.{Reaches, ask-IsSlot, reach-IsHome}
use hft_system.OrderBook.Sound.{IsSoundAsk, bare, window}

remove_ask_none : (s : BookSide) (price : ℤ) → s.num ≡ 0 → remove_ask s price ≡ s
unfolding remove_ask
remove_ask_none s price e = ground arith

module _ (s : BookSide) (price : ℤ) where
  abbrev index : ℕ
  index = slot_of s price

  remove_ask_idle : (level s.levels index).is_active ≡ false → remove_ask s price ≡ s
  unfolding remove_ask
  remove_ask_idle e = ground arith

  module _ (busy : (level s.levels index).is_active ≡ true) where
    remove_ask_last :
        s.num ≡ 1 → remove_ask s price ≡ record (cleared s index) { best = 0; worst = 0 }
    unfolding remove_ask
    remove_ask_last e = ground arith

    remove_ask_best :
        2 ≤ s.num
        → index ≡ s.best
        → remove_ask s price
          ≡ record (cleared s index) { best = scan_up (clear s.levels index) index s.best 1 255 }
    unfolding remove_ask
    remove_ask_best h e = ground arith

    remove_ask_worst :
        2 ≤ s.num
        → index ≢ s.best
        → index ≡ s.worst
        → remove_ask s price ≡ record (cleared s index) {
          worst = scan_down (clear s.levels index) index s.worst 1 255;
        }
    unfolding remove_ask
    remove_ask_worst h n e = ground arith

    remove_ask_middle :
        2 ≤ s.num → index ≢ s.best → index ≢ s.worst → remove_ask s price ≡ cleared s index
    unfolding remove_ask
    remove_ask_middle h n m = ground arith

remove_ask_levels :
    (s : BookSide) (price : ℤ)
    → 1 ≤ s.num
    → Active s.levels (slot_of s price)
    → (remove_ask s price).levels ≡ clear s.levels (slot_of s price)
unfolding remove_ask
remove_ask_levels s price h busy = ground arith

module _ (s : BookSide) (price : ℤ) (w : IsWindow s.levels s.best s.worst s.num) where
  window-remove_ask : IsSoundAsk (remove_ask s price)
  window-remove_ask = elim (Bool-cases (level s.levels j).is_active) [
    | inr idle ↦ rw (remove_ask_idle s price idle) (window w)
    | inl busy ↦ elim (ℕ_discrete s.num 1) [
      | yes one ↦
          rw (remove_ask_last s price busy one) (bare (last-IsBare w j j_in busy one) (omega arith))
      | no more ↦ elim (ℕ_discrete j s.best) [
        | yes low ↦ rw (remove_ask_best s price busy (two more) low) (
            window (
              subst
                (λ k.
                  IsWindow (clear s.levels k) (scan_up (clear s.levels k) k s.best 1 255) s.worst
                    (s.num - 1))
                (sym low) (low-IsWindow w (two more) s.best)))
        | no nl ↦ elim (ℕ_discrete j s.worst) [
          | yes high ↦ rw (remove_ask_worst s price busy (two more) nl high) (
              window (
                subst
                  (λ k.
                    IsWindow (clear s.levels k) s.best
                      (scan_down (clear s.levels k) k s.worst 1 255) (s.num - 1))
                  (sym high) (high-IsWindow w (two more) s.worst)))
          | no nh ↦
              rw (remove_ask_middle s price busy (two more) nl nh)
                (window (middle-IsWindow w j j_in busy nl nh))
        ]
      ]
    ]
  ]
    where
      j : ℕ
      j = slot_of s price

      j_in : j < 256
      j_in = slot_of-lt s price

      two : s.num ≢ 1 → 2 ≤ s.num
      two ne = omega (arith, w.counted, count_active-pos s.levels s.best w.lo_active)

  -- In reach, the removal takes away the price and nothing else.
  window-remove_ask-Quotes :
      Reaches (best_price s) (worst_price s) price
      → (p q : ℤ) → Quotes (remove_ask s price).levels p q ↔ Erased s.levels price p q
  window-remove_ask-Quotes h p q = elim (Bool-cases (level s.levels j).is_active) [
    | inr idle ↦ rw (remove_ask_idle s price idle) (absent-Quotes s.levels j price home idle p q)
    | inl busy ↦
        rw
          (remove_ask_levels s price
            (omega (arith, w.counted, count_active-pos s.levels s.best w.lo_active)) busy)
          (present-Quotes s.levels w.size j j_in price home busy p q)
  ]
    where
      j : ℕ
      j = slot_of s price

      j_in : j < 256
      j_in = slot_of-lt s price

      home : IsHome s.levels j price
      home = reach-IsHome w j price (ask-IsSlot s price) h

-- A removal keeps the asks sound, whatever its price.
pub remove_ask-IsSoundAsk :
    (s : BookSide) (price : ℤ) → IsSoundAsk s → IsSoundAsk (remove_ask s price)
remove_ask-IsSoundAsk s price (bare b e) = rw (remove_ask_none s price e) (bare b e)
remove_ask-IsSoundAsk s price (window w) = window-remove_ask s price w

-- A removal from the sound asks leaves what they quoted but for the price of the update, if that
-- price is less than 256 above the lowest and less than 256 below the highest one quoted, or if
-- there is none.
pub remove_ask-Quotes :
    (s : BookSide) (price : ℤ)
    → IsSoundAsk s
    → (s.num ≡ 0) ⊎ Reaches (best_price s) (worst_price s) price
    → (p q : ℤ) → Quotes (remove_ask s price).levels p q ↔ Erased s.levels price p q
remove_ask-Quotes s price (bare b e) h p q =
    rw (remove_ask_none s price e) (bare-Quotes s.levels b price p q)
remove_ask-Quotes s price (window w) (inr h) p q = window-remove_ask-Quotes s price w h p q
remove_ask-Quotes s price (window w) (inl e) p q =
    absurd (omega (arith, w.counted, count_active-pos s.levels s.best w.lo_active))
