-- ===== src/OrderBook/Window/Remove.antt =====
-- A sound array stays sound when an active level is cleared and the ends are mended
-- (include/market_data/order_book/order_book.h).
use hft_system.Prelude.{
  ℕ, zero, suc, ◌+◌, ◌-◌, ◌≤◌, ◌<◌, ◌≡◌, ◌≢◌, refl, arith, false, List, [], ◌∷◌, length, inl, inr,
  Bool-cases, sym, ◌∙◌, ap, subst, length-set,
}
use hft_system.Prelude.Int.{ℤ, pos, pos_part, neg_part, ◌-ℤ◌, ◌≤ℤ◌, parts_split, -ℤ_parts}
use hft_system.OrderBook.{PriceLevel, level, clear}
use hft_system.OrderBook.Slots.{dist}
use hft_system.OrderBook.Window.{count_active, Active, IsPlaced, IsWindow, IsBare}
use hft_system.OrderBook.Window.Write.{
  weight_active, count_active-set, count_active-pos, level-set_ne, Active-set, IsWindow-set,
}
use hft_system.OrderBook.Window.Scan.{above, below}

find_level : (ls : List PriceLevel) → 0 < count_active ls → (i : ℕ) × (i < length ls) × Active ls i
unfolding count_active
find_level [] h = absurd (omega arith)
find_level (l ∷ ls) h = elim (Bool-cases l.is_active) [
  | inl a ↦ (0, omega arith, a)
  | inr a ↦ let (i, i_in, b) = find_level ls (ground arith) in (suc i, omega arith, b)
]

inactive_of_count :
    (ls : List PriceLevel) → count_active ls ≡ 0 → (i : ℕ) → (level ls i).is_active ≡ false
unfolding count_active
inactive_of_count [] h i = refl
inactive_of_count (l ∷ ls) h zero = ground arith
inactive_of_count (l ∷ ls) h (suc i) = inactive_of_count ls (omega arith) i

-- Arithmetic of a window that shrinks.
module _ (lo : ℕ) (pl ph : ℤ) where
  -- A level elsewhere than at the lower end is at a distance of 1 to 255, in the slot of that round.
  pub low_round :
      (i : ℕ) (r : ℤ)
      → lo < 256
      → IsPlaced lo pl ph i r
      → lo ≢ i
      → (1 ≤ dist pl r) × (dist pl r < 256) × (i ≡ above lo (dist pl r))
  low_round i r lo_in o ne = (omega arith, o.near, o.slot)

  pub high_round :
      (hi i : ℕ) (r : ℤ)
      → lo < 256
      → hi < 256
      → i < 256
      → IsPlaced lo pl ph hi ph
      → IsPlaced lo pl ph i r
      → hi ≢ i
      → (1 ≤ dist r ph) × (dist r ph < 256) × (i ≡ below hi (dist r ph))
  high_round hi i r lo_in hi_in i_in top o ne = omega (
    arith,
    -ℤ_parts r pl,
    -ℤ_parts ph pl,
    -ℤ_parts ph r,
    parts_split (r -ℤ pl),
    parts_split (ph -ℤ pl),
    parts_split (ph -ℤ r),
  )

  -- The window from a new lower end `r` at slot `i`, and up to a new upper end.
  pub low_shrunk :
      (i k : ℕ) (r s : ℤ)
      → lo < 256
      → IsPlaced lo pl ph i r
      → IsPlaced lo pl ph k s
      → dist pl r ≤ dist pl s
      → IsPlaced i r ph k s
  low_shrunk i k r s lo_in a b le = omega (
    arith,
    -ℤ_parts r pl,
    -ℤ_parts s pl,
    -ℤ_parts s r,
    parts_split (r -ℤ pl),
    parts_split (s -ℤ pl),
    parts_split (s -ℤ r),
  )

  pub high_shrunk :
      (k : ℕ) (r s : ℤ)
      → IsPlaced lo pl ph k s
      → r ≤ℤ ph
      → dist r ph ≤ dist s ph
      → IsPlaced lo pl r k s
  high_shrunk k r s b rh le =
      omega (arith, -ℤ_parts ph r, -ℤ_parts ph s, parts_split (ph -ℤ r), parts_split (ph -ℤ s))

module _ {ls : List PriceLevel} {lo hi num : ℕ} (w : IsWindow ls lo hi num) where
  abbrev pub price_of : ℕ → ℤ
  price_of i = (level ls i).price

  -- What a removal at `j` leaves.
  module _ (j : ℕ) (j_in : j < 256) (gone : Active ls j) where
    abbrev pub inactive_level : PriceLevel
    inactive_level = record { price = (level ls j).price; quantity = pos 0; is_active = false }

    count-clear : count_active (clear ls j) + 1 ≡ num
    count-clear = omega (
      arith,
      w.counted,
      count_active-set ls j inactive_level (omega (arith, w.size)),
      weight_active (level ls j) gone,
    )

    pub Active-clear : (i : ℕ) → Active (clear ls j) i → (j ≢ i) × Active ls i
    Active-clear i a = elim (Active-set ls w.size j j_in _ i a) [
      | inl (e, b) ↦ cc
      | inr (ne, b) ↦ (ne, b)
    ]

    pub Active-clear_ne : (i : ℕ) → j ≢ i → Active ls i → Active (clear ls j) i
    Active-clear_ne i ne a = ap (λ l. l.is_active) (level-set_ne ls w.size j j_in _ i ne) ∙ a

    pub other : 2 ≤ num → (i : ℕ) × (i < 256) × Active (clear ls j) i
    other two =
        let (i, i_in, a) = find_level (clear ls j) (omega (arith, count-clear)) in
        (i, subst (λ n. i < n) (length-set ls j inactive_level ∙ w.size) i_in, a)

    -- The array stays sound if every level left has its place in the new window.
    pub IsWindow-clear :
        (lo' hi' : ℕ)
        → lo' < 256
        → hi' < 256
        → Active (clear ls j) lo'
        → Active (clear ls j) hi'
        → ((i : ℕ)
            → i < 256
            → Active ls i
            → j ≢ i
            → IsPlaced lo' (price_of lo') (price_of hi') i (price_of i))
        → IsWindow (clear ls j) lo' hi' (num - 1)
    IsWindow-clear lo' hi' lo_in hi_in lo_active hi_active old =
        IsWindow-set ls w.size j j_in inactive_level lo' hi' (num - 1) (price_of lo') (price_of hi')
          lo_in hi_in lo_active hi_active (same lo' (Active-clear lo' lo_active).0)
          (same hi' (Active-clear hi' hi_active).0) (λ e. cc) old
          (omega (arith, w.counted, weight_active (level ls j) gone, count_active-pos ls j gone))
      where
        same : (i : ℕ) → j ≢ i → (level (clear ls j) i).price ≡ price_of i
        same i ne = ap (λ l. l.price) (level-set_ne ls w.size j j_in inactive_level i ne)

    -- The last level.
    pub last-IsBare : num ≡ 1 → IsBare (clear ls j)
    last-IsBare one = record {
      size = length-set ls j inactive_level ∙ w.size;
      inactive = inactive_of_count (clear ls j) (omega (arith, count-clear));
      counted = omega (arith, count-clear);
    }

    -- A level that is at neither end.
    pub middle-IsWindow : j ≢ lo → j ≢ hi → IsWindow (clear ls j) lo hi (num - 1)
    middle-IsWindow nl nh =
        IsWindow-clear lo hi w.lo_in w.hi_in (Active-clear_ne lo nl w.lo_active)
          (Active-clear_ne hi nh w.hi_active) (λ i i_in a _. w.placed i i_in a)

  -- With two levels the ends differ.
  module _ (two : 2 ≤ num) where
    pub ends-ne : lo ≢ hi
    ends-ne e =
        let (i, i_in, a) = other lo w.lo_in w.lo_active two in
        let (ne, b) = Active-clear lo w.lo_in w.lo_active i a in
        let top = w.placed i i_in b in
        let same : price_of hi ≡ price_of lo = ap price_of (sym e) in
        ne (
          omega (
            arith,
            top.slot,
            ap pos_part same,
            ap neg_part same,
            top.below,
            top.above,
            w.lo_in,
            -ℤ_parts (price_of i) (price_of lo),
            parts_split (price_of i -ℤ price_of lo),
          ))
