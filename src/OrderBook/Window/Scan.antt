-- ===== src/OrderBook/Window/Scan.antt =====
-- The loops of `addUpdate` that look for the next active level after a removal
-- (include/market_data/order_book/order_book.h): they find the nearest one.
use hft_system.Prelude.{
  ℕ, zero, suc, ◌+◌, ◌-◌, ◌%◌, ◌≤◌, ◌<◌, ◌≡◌, refl, arith, Bool, true, false, List, inl, inr,
  Bool-cases, ℕ_discrete, if◌then◌else◌,
}
use hft_system.OrderBook.{PriceLevel, level, scan_up, scan_down}
use hft_system.OrderBook.Window.{Active}

-- `r` is the slot of round `round`, active, and no round from `i` on comes before it.
pub record Found (slot : ℕ → ℕ) (ls : List PriceLevel) (i r : ℕ) : Type 0 where
  pub round : ℕ
  pub late : i ≤ round
  pub there : r ≡ slot round
  pub active : Active ls r
  pub first : (m : ℕ) → i ≤ m → m < round → ¬ Active ls (slot m)

-- A loop that stops at the first active slot; `scan_up` and `scan_down` are such.
module _ (slot : ℕ → ℕ) (ls : List PriceLevel) where
  found_now : (i : ℕ) → Active ls (slot i) → Found slot ls i (slot i)
  found_now i a = record {
    round = i;
    late = omega arith;
    there = refl;
    active = a;
    first = λ m h k. absurd (omega arith);
  }

  found_later : (i r : ℕ) → ¬ Active ls (slot i) → Found slot ls (i + 1) r → Found slot ls i r
  found_later i r none f = record {
    round = f.round;
    late = omega (arith, f.late);
    there = f.there;
    active = f.active;
    first =
        λ m h k. elim (ℕ_discrete m i) [ yes e ↦ rw e none | no ne ↦ f.first m (omega arith) k ];
  }

-- Any loop that tests the slots in turn.
module _ (slot : ℕ → ℕ) (ls : List PriceLevel) (loop : ℕ → ℕ → ℕ)
    (step : (i fuel : ℕ)
      → loop i (suc fuel)
        ≡ (if (level ls (slot i)).is_active then slot i else loop (i + 1) fuel)) where
  loop-Found :
      (i fuel k : ℕ) → i ≤ k → k < i + fuel → Active ls (slot k) → Found slot ls i (loop i fuel)
  loop-Found i zero k h m a = absurd (omega arith)
  loop-Found i (suc fuel) k h m a = elim (Bool-cases (level ls (slot i)).is_active) [
    | inl now ↦ rw (step i fuel, now) (found_now slot ls i now)
    | inr later ↦
        rw (step i fuel, later)
          (found_later slot ls i _ (λ e. differ e later)
            (loop-Found (i + 1) fuel k (not_now later) (omega arith) a))
  ]
    where
      differ : {b : Bool} → b ≡ true → b ≡ false → ⊥
      differ p q = cc

      not_now : (level ls (slot i)).is_active ≡ false → i + 1 ≤ k
      not_now later = elim (ℕ_discrete i k) [
        | yes e ↦ absurd (differ (rw e a) later)
        | no ne ↦ omega arith
      ]

abbrev pub above : ℕ → ℕ → ℕ
above index i = (index + i) % 256

abbrev pub below : ℕ → ℕ → ℕ
below index i = (index + 256 - i) % 256

module _ (ls : List PriceLevel) (index old : ℕ) where
  up_step :
      (i fuel : ℕ)
      → scan_up ls index old i (suc fuel) ≡ (
          if (level ls (above index i)).is_active
          then above index i
          else scan_up ls index old (i + 1) fuel)
  unfolding scan_up
  up_step i fuel = ground arith

  down_step :
      (i fuel : ℕ)
      → scan_down ls index old i (suc fuel) ≡ (
          if (level ls (below index i)).is_active
          then below index i
          else scan_down ls index old (i + 1) fuel)
  unfolding scan_down
  down_step i fuel = ground arith

  -- If some slot of rounds 1 to 255 is active, the loop ends at the first one.
  pub scan_up-Found :
      (k : ℕ)
      → 1 ≤ k
      → k < 256
      → Active ls (above index k)
      → Found (above index) ls 1 (scan_up ls index old 1 255)
  scan_up-Found k h m a = loop-Found (above index) ls (scan_up ls index old) up_step 1 255 k h m a

  pub scan_down-Found :
      (k : ℕ)
      → 1 ≤ k
      → k < 256
      → Active ls (below index k)
      → Found (below index) ls 1 (scan_down ls index old 1 255)
  scan_down-Found k h m a =
      loop-Found (below index) ls (scan_down ls index old) down_step 1 255 k h m a
