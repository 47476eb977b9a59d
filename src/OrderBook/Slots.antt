-- ===== src/OrderBook/Slots.antt =====
-- Slot arithmetic of `priceToIndex` in include/market_data/order_book/order_book.h: the circular
-- index as a distance from the slot of a known price, and the casts to `int`.
use hft_system.Prelude.{ℕ, ◌+◌, ◌-◌, ◌%◌, ◌^◌, ◌≤◌, ◌<◌, ◌≡◌, ◌∙◌, arith}
use hft_system.Prelude.Int.{
  ℤ, pos, negsuc, pos_part, neg_part, abs, ◌+ℤ◌, ◌-ℤ◌, ◌≤ℤ◌, ◌<ℤ◌, tdiv, tmod, wrap, to_int32,
  eq_of_parts, parts_split, +ℤ_parts, -ℤ_parts,
}
use hft_system.OrderBook.{BookSide, circular, slot_of, best_price}

-- How far `b` lies above `a`; 0 if it lies below.
abbrev pub dist : ℤ → ℤ → ℕ
dist a b = pos_part (b -ℤ a)

pub dist-zero : (a b : ℤ) → b ≤ℤ a → dist a b ≡ 0
dist-zero a b h = omega (arith, -ℤ_parts b a, parts_split (b -ℤ a))

pub dist-pos : (a b : ℤ) → a <ℤ b → 0 < dist a b
dist-pos a b h = omega (arith, -ℤ_parts b a, parts_split (b -ℤ a))

circular_parts : (raw : ℤ) → circular raw ≡ (pos_part raw % 256 + (256 - neg_part raw % 256)) % 256
unfolding circular tmod ◌+ℤ◌
circular_parts (pos n) = ground arith
circular_parts (negsuc n) = ground arith

tdiv-one : (a : ℤ) → tdiv a 1 ≡ a
unfolding tdiv
tdiv-one (pos n) = ground arith
tdiv-one (negsuc n) = ground arith

pub slot_of-lt : (s : BookSide) (price : ℤ) → slot_of s price < 256
unfolding slot_of
slot_of-lt s price = omega (arith, circular_parts (pos s.best +ℤ tdiv (price -ℤ best_price s) 1))

-- The slot of a price above, and below, the best price.
module _ (s : BookSide) (price : ℤ) where
  slot_of_parts :
      slot_of s price
      ≡ (pos_part (pos s.best +ℤ (price -ℤ best_price s)) % 256
          + (256 - neg_part (pos s.best +ℤ (price -ℤ best_price s)) % 256))
        % 256
  unfolding slot_of
  slot_of_parts = rw (tdiv-one (price -ℤ best_price s)) (circular_parts _)

  pub slot_above :
      best_price s ≤ℤ price → slot_of s price ≡ (s.best + dist (best_price s) price) % 256
  slot_above h = omega (
    arith,
    slot_of_parts,
    +ℤ_parts (pos s.best) (price -ℤ best_price s),
    parts_split (pos s.best +ℤ (price -ℤ best_price s)),
    -ℤ_parts price (best_price s),
    parts_split (price -ℤ best_price s),
  )

  pub slot_below :
      price ≤ℤ best_price s
      → dist price (best_price s) ≤ 512
      → slot_of s price ≡ (s.best + 512 - dist price (best_price s)) % 256
  slot_below h k = omega (
    arith,
    slot_of_parts,
    +ℤ_parts (pos s.best) (price -ℤ best_price s),
    parts_split (pos s.best +ℤ (price -ℤ best_price s)),
    -ℤ_parts price (best_price s),
    -ℤ_parts (best_price s) price,
    parts_split (price -ℤ best_price s),
    parts_split (best_price s -ℤ price),
  )

-- Within 2 ^ 31 the cast to `int` changes nothing.
to_int32-pos : (n : ℕ) → n < 2 ^ 31 → to_int32 (pos n) ≡ pos n
unfolding to_int32 wrap
to_int32-pos n h = ground arith

to_int32-negsuc : (n : ℕ) → n < 2 ^ 31 → to_int32 (negsuc n) ≡ negsuc n
unfolding to_int32 wrap
to_int32-negsuc n h = ground arith

pub to_int32_small : (a : ℤ) → abs a < 2 ^ 31 → to_int32 a ≡ a
to_int32_small (pos n) h = to_int32-pos n (omega arith)
to_int32_small (negsuc n) h = to_int32-negsuc n (omega arith)

dist_lem : (a b : ℤ) → a ≤ℤ b → b -ℤ a ≡ pos (dist a b)
dist_lem a b h =
    eq_of_parts (b -ℤ a) (pos (dist a b)) (omega (arith, -ℤ_parts b a, parts_split (b -ℤ a)))

-- The guards of the source see the true distance of two prices that are less than 2 ^ 31 apart.
pub step_up : (a b : ℤ) → a ≤ℤ b → abs (b -ℤ a) < 2 ^ 31 → to_int32 (b -ℤ a) ≡ pos (dist a b)
step_up a b h near = to_int32_small (b -ℤ a) near ∙ dist_lem a b h

pub step_down : (a b : ℤ) → a ≤ℤ b → abs (a -ℤ b) < 2 ^ 31 → to_int32 (b -ℤ a) ≡ pos (dist a b)
step_down a b h near =
    step_up a b h
      (omega (arith, -ℤ_parts a b, -ℤ_parts b a, parts_split (a -ℤ b), parts_split (b -ℤ a)))

-- Prices 256 apart have one slot.
pub slot_of-period : (s : BookSide) (price : ℤ) → slot_of s (price +ℤ pos 256) ≡ slot_of s price
slot_of-period s price = omega (
  arith,
  slot_of_parts s price,
  slot_of_parts s (price +ℤ pos 256),
  +ℤ_parts price (pos 256),
  parts_split (price +ℤ pos 256),
  +ℤ_parts (pos s.best) (price -ℤ best_price s),
  +ℤ_parts (pos s.best) (price +ℤ pos 256 -ℤ best_price s),
  parts_split (pos s.best +ℤ (price -ℤ best_price s)),
  parts_split (pos s.best +ℤ (price +ℤ pos 256 -ℤ best_price s)),
  -ℤ_parts price (best_price s),
  -ℤ_parts (price +ℤ pos 256) (best_price s),
  parts_split (price -ℤ best_price s),
  parts_split (price +ℤ pos 256 -ℤ best_price s),
)
