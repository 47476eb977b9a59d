-- ===== src/OrderBook/Window/Write.antt =====
-- Writing and clearing a level of a sound array (include/market_data/order_book/order_book.h).
use hft_system.Prelude.{
  replicate, ℕ, zero, suc, ◌+◌, ◌<◌, ◌≡◌, ◌≢◌, arith, true, false, List, [], ◌∷◌, length, set,
  if◌then◌else◌, length-set, get_or-set_self, get_or-set_ne, ◌⊎◌, inl, inr, sym, ◌∙◌, ap, subst,
  ℕ_discrete,
}
use hft_system.Prelude.Int.{ℤ, ◌-ℤ◌, parts_split, -ℤ_parts}
use hft_system.OrderBook.{PriceLevel, empty_level, level, write}
use hft_system.OrderBook.Window.{count_active, Active, IsPlaced, IsWindow, IsBare}

abbrev pub weight : PriceLevel → ℕ
weight l = if l.is_active then 1 else 0

pub weight_active : (l : PriceLevel) → l.is_active ≡ true → weight l ≡ 1
weight_active l e = ground arith

pub count_active-set :
    (ls : List PriceLevel) (i : ℕ) (v : PriceLevel)
    → i < length ls
    → count_active (set ls i v) + weight (level ls i) ≡ count_active ls + weight v
unfolding count_active
count_active-set [] i v h = absurd (omega arith)
count_active-set (l ∷ ls) zero v h = omega arith
count_active-set (l ∷ ls) (suc i) v h = omega (arith, count_active-set ls i v (omega arith))

pub count_active-pos : (ls : List PriceLevel) (i : ℕ) → Active ls i → 0 < count_active ls
unfolding count_active
count_active-pos [] i h = cc
count_active-pos (l ∷ ls) zero h = ground arith
count_active-pos (l ∷ ls) (suc i) h = omega (arith, count_active-pos ls i h)

-- One slot of an array is given a new level.
module _ (ls : List PriceLevel) (size : length ls ≡ 256) (j : ℕ) (j_in : j < 256)
    (v : PriceLevel) where
  pub level-set_self : level (set ls j v) j ≡ v
  level-set_self = get_or-set_self ls j v empty_level (omega arith)

  pub level-set_at : (i : ℕ) → j ≡ i → level (set ls j v) i ≡ v
  level-set_at i e = subst (λ k. level (set ls j v) k ≡ v) e level-set_self

  pub level-set_ne : (i : ℕ) → j ≢ i → level (set ls j v) i ≡ level ls i
  level-set_ne i ne = get_or-set_ne ls j i v empty_level ne

  -- What is active afterwards is the new level or an old one elsewhere.
  pub Active-set :
      (i : ℕ) → Active (set ls j v) i → ((j ≡ i) × (v.is_active ≡ true)) ⊎ ((j ≢ i) × Active ls i)
  Active-set i a = elim (ℕ_discrete j i) [
    | yes e ↦ inl (
      e,
      sym (ap (λ l. l.is_active) level-set_self) ∙ subst (λ k. Active (set ls j v) k) (sym e) a,
    )
    | no ne ↦ inr (ne, sym (ap (λ l. l.is_active) (level-set_ne i ne)) ∙ a)
  ]

  -- The array stays sound if every level has its place in the new window.
  pub IsWindow-set :
      (lo hi num : ℕ) (pl ph : ℤ)
      → lo < 256
      → hi < 256
      → Active (set ls j v) lo
      → Active (set ls j v) hi
      → (level (set ls j v) lo).price ≡ pl
      → (level (set ls j v) hi).price ≡ ph
      → (v.is_active ≡ true → IsPlaced lo pl ph j v.price)
      → ((i : ℕ) → i < 256 → Active ls i → j ≢ i → IsPlaced lo pl ph i (level ls i).price)
      → num + weight (level ls j) ≡ count_active ls + weight v
      → IsWindow (set ls j v) lo hi num
  IsWindow-set lo hi num pl ph lo_in hi_in lo_active hi_active lo_price hi_price new old count =
      record {
        size = length-set ls j v ∙ size;
        lo_in = lo_in;
        hi_in = hi_in;
        lo_active = lo_active;
        hi_active = hi_active;
        placed = λ i i_in a. rw (lo_price, hi_price) (place i i_in (Active-set i a));
        counted = omega (arith, count_active-set ls j v (omega arith));
      }
    where
      place :
          (i : ℕ)
          → i < 256
          → ((j ≡ i) × (v.is_active ≡ true)) ⊎ ((j ≢ i) × Active ls i)
          → IsPlaced lo pl ph i (level (set ls j v) i).price
      place i i_in (inl (e, a)) = rw (← e) (rw level-set_self (new a))
      place i i_in (inr (ne, a)) = rw (level-set_ne i ne) (old i i_in a ne)

abbrev pub active_level : ℤ → ℤ → PriceLevel
active_level p q = record { price = p; quantity = q; is_active = true }

-- The first level of an empty side.
pub IsBare-write :
    {ls : List PriceLevel} (i : ℕ) (p q : ℤ) → IsBare ls → i < 256 → IsWindow (write ls i p q) i i 1
IsBare-write {ls} i p q b h =
    IsWindow-set ls b.size i h v i i 1 p p h h active active price price
      (λ _. omega (arith, -ℤ_parts p p, parts_split (p -ℤ p))) (λ k _ a ne. cc (a, b.inactive k))
      (omega (arith, b.counted, weight-zero (level ls i) (b.inactive i)))
  where
    v : PriceLevel
    v = active_level p q

    active : Active (set ls i v) i
    active = ap (λ l. l.is_active) (level-set_self ls b.size i h v)

    price : (level (set ls i v) i).price ≡ p
    price = ap (λ l. l.price) (level-set_self ls b.size i h v)

    weight-zero : (l : PriceLevel) → l.is_active ≡ false → weight l ≡ 0
    weight-zero l e = ground arith

pub count_active-replicate : (n : ℕ) → count_active (replicate n empty_level) ≡ 0
unfolding count_active
count_active-replicate zero = omega arith
count_active-replicate (suc n) = omega (arith, count_active-replicate n)
