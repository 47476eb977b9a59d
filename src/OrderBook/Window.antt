-- ===== src/OrderBook/Window.antt =====
-- When the array of one side of the book (include/market_data/order_book/order_book.h) is sound:
-- the active levels lie in a window of prices less than 256 apart, each in the slot of its price, and
-- the count is theirs. `lo` and `hi` are the slots of the lowest and the highest active price.
pub mod Write
pub mod Insert
pub mod Remove
pub mod RemoveLow
pub mod RemoveHigh
pub mod Quotes
pub mod Reach
pub mod Scan
use hft_system.Prelude.{
  ℕ, zero, suc, ◌+◌, ◌-◌, ◌*◌, ◌/◌, ◌%◌, ◌≤◌, ◌<◌, ◌≡◌, ◌≢◌, refl, arith, Bool, true, false, List,
  [], ◌∷◌, length, set, get_or, replicate, if◌then◌else◌, length-set, ◌↔◌, ◌⊎◌, sym, ◌∙◌,
}
use hft_system.Prelude.Int.{
  ℤ, pos, negsuc, pos_part, neg_part, ◌-ℤ◌, ◌≤ℤ◌, parts_split, -ℤ_parts, eq_of_parts,
}
use hft_system.OrderBook.{PriceLevel, empty_level, level}
use hft_system.OrderBook.Slots.{dist}

-- How many levels are active.
pub count_active : List PriceLevel → ℕ
count_active [] = 0
count_active (l ∷ ls) = (if l.is_active then 1 else 0) + count_active ls

abbrev pub Active : List PriceLevel → ℕ → Type 0
Active ls i = (level ls i).is_active ≡ true

-- A level at slot `i` with price `p`, in a window from price `pl` at slot `lo` to price `ph`.
pub record IsPlaced (lo : ℕ) (pl ph : ℤ) (i : ℕ) (p : ℤ) : Type 0 where
  pub above : pl ≤ℤ p
  pub below : p ≤ℤ ph
  pub near : dist pl p < 256
  pub slot : i ≡ (lo + dist pl p) % 256

pub record IsWindow (ls : List PriceLevel) (lo hi num : ℕ) : Type 0 where
  pub size : length ls ≡ 256
  pub lo_in : lo < 256
  pub hi_in : hi < 256
  pub lo_active : Active ls lo
  pub hi_active : Active ls hi
  pub placed :
      (i : ℕ)
      → i < 256
      → Active ls i
      → IsPlaced lo (level ls lo).price (level ls hi).price i (level ls i).price
  pub counted : num ≡ count_active ls

-- A side with no level.
pub record IsBare (ls : List PriceLevel) : Type 0 where
  pub size : length ls ≡ 256
  pub inactive : (i : ℕ) → (level ls i).is_active ≡ false
  pub counted : count_active ls ≡ 0

-- The side quotes `quantity` at `price`.
abbrev pub Quotes : List PriceLevel → ℤ → ℤ → Type 0
Quotes ls price quantity =
    (i : ℕ) × (i < 256)
    × Active ls i
    × ((level ls i).price ≡ price)
    × ((level ls i).quantity ≡ quantity)

-- Arithmetic of a window, with each integer operation read by its parts.
module _ (lo : ℕ) (pl ph : ℤ) where
  -- Two levels in one slot have one price, and a price has one slot.
  pub IsPlaced-injective :
      (i j : ℕ) (p q : ℤ) → lo < 256 → IsPlaced lo pl ph i p → IsPlaced lo pl ph j q → i ≡ j → p ≡ q
  IsPlaced-injective i j p q h a b e =
      eq_of_parts p q
        (omega (arith, -ℤ_parts p pl, -ℤ_parts q pl, parts_split (p -ℤ pl), parts_split (q -ℤ pl)))

  -- The window read from the slot of another of its levels.
  pub IsPlaced-rebase :
      (i j : ℕ) (p q : ℤ)
      → IsPlaced lo pl ph i p
      → IsPlaced lo pl ph j q
      → p ≤ℤ q
      → j ≡ (i + dist p q) % 256
  IsPlaced-rebase i j p q a b le = omega (
    arith,
    -ℤ_parts p pl,
    -ℤ_parts q pl,
    -ℤ_parts q p,
    parts_split (p -ℤ pl),
    parts_split (q -ℤ pl),
    parts_split (q -ℤ p),
  )
