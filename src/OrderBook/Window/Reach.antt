-- ===== src/OrderBook/Window/Reach.antt =====
-- Which prices the circular index of include/market_data/order_book/order_book.h tells apart: those
-- less than 256 above the lowest and less than 256 below the highest active price.
use hft_system.Prelude.{ℕ, ◌+◌, ◌-◌, ◌%◌, ◌<◌, ◌≤◌, ◌≡◌, arith, List, sym, subst, inl, inr}
use hft_system.Prelude.Int.{ℤ, ◌-ℤ◌, ◌≤ℤ◌, -ℤ_parts, parts_split, eq_of_parts, ≤ℤ_cases}
use hft_system.OrderBook.{BookSide, PriceLevel, level, slot_of, best_price, worst_price}
use hft_system.OrderBook.Slots.{dist, slot_above, slot_below}
use hft_system.OrderBook.Window.{IsWindow, IsPlaced}
use hft_system.OrderBook.Window.Quotes.{IsHome}

-- `j` is the slot of `p`, counted from the lower end.
pub record IsSlot (lo : ℕ) (pl : ℤ) (j : ℕ) (p : ℤ) : Type 0 where
  pub up : pl ≤ℤ p → dist pl p ≤ 256 → j ≡ (lo + dist pl p) % 256
  pub down : p ≤ℤ pl → dist p pl ≤ 256 → j ≡ (lo + 256 - dist p pl) % 256

pub ask-IsSlot : (s : BookSide) (p : ℤ) → IsSlot s.best (best_price s) (slot_of s p) p
ask-IsSlot s p = record {
  up = λ h k. slot_above s p h;
  down = λ h k. omega (arith, slot_below s p h (omega arith));
}

module _ (s : BookSide) (w : IsWindow s.levels s.worst s.best s.num) (p : ℤ) where
  bid_up :
      worst_price s ≤ℤ p
      → dist (worst_price s) p ≤ 256
      → slot_of s p ≡ (s.worst + dist (worst_price s) p) % 256
  bid_up h k = elim (≤ℤ_cases (best_price s) p) [
    | inl a ↦ omega (
      arith,
      slot_above s p a,
      top.slot,
      top.above,
      -ℤ_parts p (worst_price s),
      -ℤ_parts p (best_price s),
      -ℤ_parts (best_price s) (worst_price s),
      parts_split (p -ℤ worst_price s),
      parts_split (p -ℤ best_price s),
      parts_split (best_price s -ℤ worst_price s),
    )
    | inr a ↦ omega (
      arith,
      slot_below s p a,
      top.slot,
      top.above,
      top.near,
      -ℤ_parts p (worst_price s),
      -ℤ_parts (best_price s) p,
      -ℤ_parts (best_price s) (worst_price s),
      parts_split (p -ℤ worst_price s),
      parts_split (best_price s -ℤ p),
      parts_split (best_price s -ℤ worst_price s),
    )
  ]
    where
      top : IsPlaced s.worst (worst_price s) (best_price s) s.best (best_price s)
      top = w.placed s.best w.hi_in w.hi_active

  bid_down :
      p ≤ℤ worst_price s
      → dist p (worst_price s) ≤ 256
      → slot_of s p ≡ (s.worst + 256 - dist p (worst_price s)) % 256
  bid_down h k = omega (
    arith,
    slot_below s p,
    top.slot,
    top.above,
    top.near,
    -ℤ_parts (worst_price s) p,
    -ℤ_parts (best_price s) p,
    -ℤ_parts (best_price s) (worst_price s),
    parts_split (worst_price s -ℤ p),
    parts_split (best_price s -ℤ p),
    parts_split (best_price s -ℤ worst_price s),
  )
    where
      top : IsPlaced s.worst (worst_price s) (best_price s) s.best (best_price s)
      top = w.placed s.best w.hi_in w.hi_active

  pub bid-IsSlot : IsSlot s.worst (worst_price s) (slot_of s p) p
  bid-IsSlot = record { up = bid_up; down = bid_down }

-- The price less than 256 above the lowest and less than 256 below the highest.
abbrev pub Reaches : ℤ → ℤ → ℤ → Type 0
Reaches pl ph p = (dist pl p < 256) × (dist p ph < 256)

module _ (lo : ℕ) (pl ph : ℤ) (j : ℕ) (p : ℤ) (at : IsSlot lo pl j p) where
  -- An active level in the slot of a price within reach has that price.
  slot_exact : (r : ℤ) → lo < 256 → pl ≤ℤ ph → Reaches pl ph p → IsPlaced lo pl ph j r → r ≡ p
  slot_exact r lo_in le h o = eq_of_parts r p (elim (≤ℤ_cases pl p) [
    | inl a ↦ omega (
      arith,
      at.up,
      o.slot,
      -ℤ_parts r pl,
      -ℤ_parts p pl,
      parts_split (r -ℤ pl),
      parts_split (p -ℤ pl),
    )
    | inr a ↦ omega (
      arith,
      at.down,
      o.slot,
      -ℤ_parts r pl,
      -ℤ_parts pl p,
      -ℤ_parts ph p,
      parts_split (r -ℤ pl),
      parts_split (pl -ℤ p),
      parts_split (ph -ℤ p),
    )
  ])

  -- A placed level with that price is in that slot.
  slot_found : (i : ℕ) → IsPlaced lo pl ph i p → i ≡ j
  slot_found i o = omega (arith, at.up)

module _ {ls : List PriceLevel} {lo hi num : ℕ} (w : IsWindow ls lo hi num) (j : ℕ) (p : ℤ) where
  pub reach-IsHome :
      IsSlot lo (level ls lo).price j p
      → Reaches (level ls lo).price (level ls hi).price p
      → IsHome ls j p
  reach-IsHome at h i i_in a = (
    λ e. sym (
        slot_found lo (level ls lo).price (level ls hi).price j p at i (
          subst (λ r. IsPlaced lo (level ls lo).price (level ls hi).price i r) e
            (w.placed i i_in a))),
    λ e.
        slot_exact lo (level ls lo).price (level ls hi).price j p at (level ls i).price w.lo_in
          (w.placed lo w.lo_in w.lo_active).below h
          (subst (λ k. IsPlaced lo (level ls lo).price (level ls hi).price k (level ls i).price)
            (sym e) (w.placed i i_in a)),
  )
