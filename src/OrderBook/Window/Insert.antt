-- ===== src/OrderBook/Window/Insert.antt =====
-- A sound array stays sound when a price is written to its slot: between the two ends, or as a new
-- lowest or highest price (include/market_data/order_book/order_book.h).
use hft_system.Prelude.{
  ℕ, ◌+◌, ◌-◌, ◌%◌, ◌<◌, ◌≡◌, ◌≢◌, refl, arith, true, List, inl, inr, sym, ◌∙◌, ap, subst,
  ℕ_discrete, Bool-cases,
}
use hft_system.Prelude.Int.{ℤ, ◌-ℤ◌, ◌≤ℤ◌, ◌<ℤ◌, parts_split, -ℤ_parts}
use hft_system.OrderBook.{PriceLevel, level, write}
use hft_system.OrderBook.Slots.{dist}
use hft_system.OrderBook.Window.{Active, IsPlaced, IsWindow, IsPlaced-injective}
use hft_system.OrderBook.Window.Write.{
  weight, active_level, level-set_self, level-set_ne, IsWindow-set,
}

pub weight_active : (l : PriceLevel) → l.is_active ≡ true → weight l ≡ 1
weight_active l e = ground arith

-- Arithmetic of a window that grows at its lower end, to `p` at slot `j`.
module _ (lo : ℕ) (pl ph : ℤ) (j : ℕ) (p : ℤ) where
  low_new :
      (hi : ℕ)
      → lo < 256
      → p <ℤ pl
      → dist p ph < 256
      → j ≡ (lo + 256 - dist p pl) % 256
      → IsPlaced lo pl ph hi ph
      → IsPlaced j p ph j p
  low_new hi lo_in lt span e top = omega (arith, -ℤ_parts p p, parts_split (p -ℤ p))

  low_old :
      (i : ℕ) (r : ℤ)
      → lo < 256
      → p <ℤ pl
      → dist p ph < 256
      → j ≡ (lo + 256 - dist p pl) % 256
      → IsPlaced lo pl ph i r
      → IsPlaced j p ph i r × (i ≢ j)
  low_old i r lo_in lt span e o = omega (
    arith,
    -ℤ_parts pl p,
    -ℤ_parts r pl,
    -ℤ_parts r p,
    -ℤ_parts ph p,
    parts_split (pl -ℤ p),
    parts_split (r -ℤ pl),
    parts_split (r -ℤ p),
    parts_split (ph -ℤ p),
  )

  -- The same at the upper end.
  high_new :
      lo < 256
      → ph <ℤ p
      → pl ≤ℤ ph
      → dist pl p < 256
      → j ≡ (lo + dist pl p) % 256
      → IsPlaced lo pl p j p
  high_new lo_in lt le span e = omega arith

  high_old :
      (i : ℕ) (r : ℤ)
      → lo < 256
      → ph <ℤ p
      → dist pl p < 256
      → j ≡ (lo + dist pl p) % 256
      → IsPlaced lo pl ph i r
      → IsPlaced lo pl p i r × (i ≢ j)
  high_old i r lo_in lt span e o =
      omega (arith, -ℤ_parts r pl, -ℤ_parts p pl, parts_split (r -ℤ pl), parts_split (p -ℤ pl))

module _ {ls : List PriceLevel} {lo hi num : ℕ} (w : IsWindow ls lo hi num) (j : ℕ) (p q : ℤ) where
  abbrev pl : ℤ
  pl = (level ls lo).price

  abbrev ph : ℤ
  ph = (level ls hi).price

  abbrev new : PriceLevel
  new = active_level p q

  Active-new : j < 256 → Active (write ls j p q) j
  Active-new h = ap (λ l. l.is_active) (level-set_self ls w.size j h new)

  price_new : j < 256 → (level (write ls j p q) j).price ≡ p
  price_new h = ap (λ l. l.price) (level-set_self ls w.size j h new)

  Active-old : j < 256 → (i : ℕ) → i ≢ j → Active ls i → Active (write ls j p q) i
  Active-old h i ne a =
      ap (λ l. l.is_active) (level-set_ne ls w.size j h new i (λ e. ne (sym e))) ∙ a

  price_old : j < 256 → (i : ℕ) → i ≢ j → (level (write ls j p q) i).price ≡ (level ls i).price
  price_old h i ne = ap (λ l. l.price) (level-set_ne ls w.size j h new i (λ e. ne (sym e)))

  -- A price between the two ends.
  module _ (h : j < 256) (here : IsPlaced lo pl ph j p) where
    pub inside-home : Active ls j → (level ls j).price ≡ p
    inside-home a = IsPlaced-injective lo pl ph j j _ p w.lo_in (w.placed j h a) here refl

    end :
        (e : ℕ)
        → e < 256
        → Active ls e
        → Active (write ls j p q) e × ((level (write ls j p q) e).price ≡ (level ls e).price)
    end e e_in a = elim (ℕ_discrete e j) [
      | yes eq ↦ (
        subst (λ k. Active (write ls j p q) k) (sym eq) (Active-new h),
        subst (λ k. (level (write ls j p q) k).price ≡ (level ls k).price) (sym eq)
            (price_new h ∙ sym (inside-home (subst (λ k. Active ls k) eq a))),
      )
      | no ne ↦ (Active-old h e ne a, price_old h e ne)
    ]

    pub inside-IsWindow :
        (n : ℕ) → n + weight (level ls j) ≡ num + 1 → IsWindow (write ls j p q) lo hi n
    inside-IsWindow n e =
        IsWindow-set ls w.size j h new lo hi n pl ph w.lo_in w.hi_in (end lo w.lo_in w.lo_active).0
          (end hi w.hi_in w.hi_active).0 (end lo w.lo_in w.lo_active).1
          (end hi w.hi_in w.hi_active).1 (λ _. here) (λ i i_in a _. w.placed i i_in a)
          (omega (arith, w.counted))

  -- A price below the lowest.
  module _ (lt : p <ℤ pl) (span : dist p ph < 256) (e : j ≡ (lo + 256 - dist p pl) % 256) where
    low-ne : (i : ℕ) → i < 256 → Active ls i → i ≢ j
    low-ne i i_in a = (low_old lo pl ph j p i _ w.lo_in lt span e (w.placed i i_in a)).1

    pub low-IsWindow : IsWindow (write ls j p q) j hi (num + 1)
    low-IsWindow =
        IsWindow-set ls w.size j h new j hi (num + 1) p ph h w.hi_in (Active-new h)
          (Active-old h hi (low-ne hi w.hi_in w.hi_active) w.hi_active) (price_new h)
          (price_old h hi (low-ne hi w.hi_in w.hi_active))
          (λ _. low_new lo pl ph j p hi w.lo_in lt span e (w.placed hi w.hi_in w.hi_active))
          (λ i i_in a _. (low_old lo pl ph j p i _ w.lo_in lt span e (w.placed i i_in a)).0)
          (omega (arith, w.counted, idle))
      where
        h : j < 256
        h = omega arith

        idle : weight (level ls j) ≡ 0
        idle = elim (Bool-cases (level ls j).is_active) [
          | inl a ↦ absurd (low-ne j h a refl)
          | inr a ↦ rw a
        ]

  -- A price above the highest.
  module _ (lt : ph <ℤ p) (span : dist pl p < 256) (e : j ≡ (lo + dist pl p) % 256) where
    high-ne : (i : ℕ) → i < 256 → Active ls i → i ≢ j
    high-ne i i_in a = (high_old lo pl ph j p i _ w.lo_in lt span e (w.placed i i_in a)).1

    pub high-IsWindow : IsWindow (write ls j p q) lo j (num + 1)
    high-IsWindow =
        IsWindow-set ls w.size j h new lo j (num + 1) pl p w.lo_in h
          (Active-old h lo (high-ne lo w.lo_in w.lo_active) w.lo_active) (Active-new h)
          (price_old h lo (high-ne lo w.lo_in w.lo_active)) (price_new h)
          (λ _. high_new lo pl ph j p w.lo_in lt (w.placed hi w.hi_in w.hi_active).above span e)
          (λ i i_in a _. (high_old lo pl ph j p i _ w.lo_in lt span e (w.placed i i_in a)).0)
          (omega (arith, w.counted, idle))
      where
        h : j < 256
        h = omega arith

        idle : weight (level ls j) ≡ 0
        idle = elim (Bool-cases (level ls j).is_active) [
          | inl a ↦ absurd (high-ne j h a refl)
          | inr a ↦ rw a
        ]
