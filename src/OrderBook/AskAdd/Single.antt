-- ===== src/OrderBook/AskAdd/Single.antt =====
-- A quote where there is one ask only, in `addUpdate` of
-- include/market_data/order_book/order_book.h.
use hft_system.Prelude.{
  ℕ, ◌+◌, ◌-◌, ◌%◌, ◌<◌, ◌≡◌, ◌≢◌, refl, arith, inl, inr, ℕ_discrete, sym, ◌∙◌, ap, dec_le,
}
use hft_system.Prelude.Int.{ℤ, pos, abs, ◌-ℤ◌, ◌≤ℤ◌, ◌<ℤ◌, ℤ_cases, to_int32, parts_split, -ℤ_parts}
use hft_system.OrderBook.{BookSide, level, write, slot_of, add_ask_single, best_price, worst_price}
use hft_system.OrderBook.Slots.{dist, dist-zero, dist-pos, to_int32_small}
use hft_system.OrderBook.Window.{IsPlaced}
use hft_system.OrderBook.Window.Insert.{
  inside-IsWindow, low-IsWindow as insert_low, high-IsWindow as insert_high,
}
use hft_system.OrderBook.Window.Remove.{ends-ne}
use hft_system.OrderBook.Window.Reach.{Reaches, reach-IsHome}
use hft_system.OrderBook.Sound.{window}
use hft_system.OrderBook.Window.Write.{
  active_level, weight, weight_active, level-set_self, level-set_ne,
}
use hft_system.OrderBook.AskAdd.Branches.{
  AskTakes, far_below, far_above, add_ask_single_far, add_ask_single_above, add_ask_single_below,
  add_ask_single_same,
}
use hft_system.OrderBook.AskAdd.Case.{Outcome, taken, refused, IsCase}

module _ (s : BookSide) (price quantity : ℤ) (c : IsCase s price) where
  open c use {w, near, one, j_in, at, top, takes_near, takes_room, in_reach, low_reach, high_reach}

  abbrev j : ℕ
  j = slot_of s price

  -- An update of the only level, or beside it.
  module _ (eq : s.best ≡ s.worst) where
    alone : s.num ≡ 1
    alone = elim (ℕ_discrete s.num 1) [
      | yes e ↦ e
      | no ne ↦ absurd (ends-ne w (omega (arith, one)) eq)
    ]

    worst_is_best : worst_price s ≡ best_price s
    worst_is_best = ap (λ k. (level s.levels k).price) (sym eq)

    gap : to_int32 (pos (abs (price -ℤ best_price s))) ≡ pos (abs (price -ℤ best_price s))
    gap = to_int32_small (pos (abs (price -ℤ best_price s))) (omega (arith, near.0))

    gap_above : best_price s ≤ℤ price → abs (price -ℤ best_price s) ≡ far_above s price
    gap_above h =
        rw worst_is_best
          (omega (arith, -ℤ_parts price (best_price s), parts_split (price -ℤ best_price s)))

    gap_below : price ≤ℤ best_price s → abs (price -ℤ best_price s) ≡ far_below s price
    gap_below h = omega (
      arith,
      -ℤ_parts price (best_price s),
      -ℤ_parts (best_price s) price,
      parts_split (price -ℤ best_price s),
      parts_split (best_price s -ℤ price),
    )

    far-Outcome :
        64 < abs (price -ℤ best_price s)
        → ¬ AskTakes s price
        → Outcome s price quantity (add_ask_single s price quantity)
    far-Outcome far no_take =
        rw (add_ask_single_far s price quantity _ gap far) (refused no_take refl (window w))

    kept :
        (i : ℕ)
        → j ≢ i
        → (level (write s.levels j price quantity) i).price ≡ (level s.levels i).price
    kept i ne =
        ap (λ l. l.price) (level-set_ne s.levels w.size j j_in (active_level price quantity) i ne)

    single_above :
        best_price s <ℤ price → Outcome s price quantity (add_ask_single s price quantity)
    single_above lt = elim (dec_le (far_above s price) 64) [
      | no far ↦ far-Outcome (omega (arith, size)) (λ t. omega (arith, takes_near t))
      | yes small ↦
          let slot : j ≡ (s.best + dist (best_price s) price) % 256 =
            at.up (omega arith) (omega (arith, size, size')) in
          let apart : j ≢ s.best =
            omega (arith, slot, w.lo_in, dist-pos (best_price s) price lt, size') in
          let reach : Reaches (best_price s) (worst_price s) price =
            (omega (arith, size'), omega (arith, none)) in
          rw
            (add_ask_single_above s price quantity _ gap (omega (arith, size)) lt
              (λ e. apart (sym e)) (kept s.best apart))
            (taken j (inr (omega (arith, none_below), small, inl eq))
              (window (insert_high w j price quantity (rw worst_is_best lt) reach.0 slot)) w.size
              j_in (reach-IsHome w j price at reach) refl)
    ]
      where
        size : abs (price -ℤ best_price s) ≡ far_above s price
        size = gap_above (omega arith)

        size' : dist (best_price s) price ≡ far_above s price
        size' = ap (λ r. dist r price) (sym worst_is_best)

        none_below : far_below s price ≡ 0
        none_below = dist-zero price (best_price s) (omega arith)

        none : dist price (worst_price s) ≡ 0
        none = rw worst_is_best none_below

    single_below :
        price <ℤ best_price s → Outcome s price quantity (add_ask_single s price quantity)
    single_below lt = elim (dec_le (far_below s price) 64) [
      | no far ↦ far-Outcome (omega (arith, size)) (λ t. omega (arith, takes_near t))
      | yes small ↦
          let slot : j ≡ (s.best + 256 - dist price (best_price s)) % 256 =
            at.down (omega arith) (omega arith) in
          let apart : j ≢ s.worst =
            omega (arith, slot, w.lo_in, dist-pos price (best_price s) lt, size, eq) in
          let reach : Reaches (best_price s) (worst_price s) price =
            (omega (arith, none), omega (arith, size')) in
          rw
            (add_ask_single_below s price quantity _ gap (omega (arith, size)) lt
              (λ e. apart (sym e)) (kept s.worst apart ∙ worst_is_best))
            (taken j (inr (small, omega (arith, none_above), inl eq))
              (window (insert_low w j price quantity lt reach.1 slot)) w.size j_in
              (reach-IsHome w j price at reach) refl)
    ]
      where
        size : abs (price -ℤ best_price s) ≡ far_below s price
        size = gap_below (omega arith)

        size' : dist price (worst_price s) ≡ far_below s price
        size' = ap (λ r. dist price r) worst_is_best

        none : dist (best_price s) price ≡ 0
        none = dist-zero (best_price s) price (omega arith)

        none_above : far_above s price ≡ 0
        none_above = rw worst_is_best none

    single_same : best_price s ≡ price → Outcome s price quantity (add_ask_single s price quantity)
    single_same e =
        rw
          (add_ask_single_same s price quantity _ gap (omega (arith, size)) e (sym slot)
            (sym eq ∙ sym slot)
            (ap (λ l. l.price)
              (level-set_self s.levels w.size j j_in (active_level price quantity))))
          (taken j (inr (omega (arith, none_below), omega (arith, none_above), inl eq))
            (window (inside-IsWindow w j price quantity j_in here s.num (omega (arith, busy))))
            w.size j_in (reach-IsHome w j price at (in_reach le le')) refl)
      where
        le : best_price s ≤ℤ price
        le = rw e (omega arith)

        le' : price ≤ℤ worst_price s
        le' = rw (worst_is_best, e) (omega arith)

        none_below : far_below s price ≡ 0
        none_below = dist-zero price (best_price s) le

        none_above : far_above s price ≡ 0
        none_above = dist-zero (worst_price s) price le'

        size : abs (price -ℤ best_price s) ≡ 0
        size = gap_above le ∙ none_above

        slot : j ≡ s.best
        slot = omega (arith, at.up le, size, w.lo_in)

        here : IsPlaced s.best (best_price s) (worst_price s) j price
        here = omega (arith, at.up, in_reach le le', le, le')

        busy : weight (level s.levels j) ≡ 1
        busy = rw slot (weight_active (level s.levels s.best) w.lo_active)

    pub single-Outcome : Outcome s price quantity (add_ask_single s price quantity)
    single-Outcome = elim (ℤ_cases price (best_price s)) [
      | inl lt ↦ single_below lt
      | inr (inl e) ↦ single_same (sym e)
      | inr (inr lt) ↦ single_above lt
    ]
