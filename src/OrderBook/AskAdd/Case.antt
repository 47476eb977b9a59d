-- ===== src/OrderBook/AskAdd/Case.antt =====
-- What a new or changed quote of the asks rests on, in `addUpdate` of
-- include/market_data/order_book/order_book.h.
use hft_system.Prelude.{length, ℕ, ◌+◌, ◌≤◌, ◌<◌, ◌≡◌, ◌≢◌, arith, inl, inr, ◌⊎◌}
use hft_system.Prelude.Int.{ℤ, ◌-ℤ◌, ◌≤ℤ◌, ◌<ℤ◌, parts_split, -ℤ_parts}
use hft_system.OrderBook.{BookSide, write, slot_of, best_price, worst_price}
use hft_system.OrderBook.Slots.{slot_of-lt}
use hft_system.OrderBook.Window.{IsWindow, IsPlaced}
use hft_system.OrderBook.Window.Write.{count_active-pos}
use hft_system.OrderBook.Window.Quotes.{IsHome}
use hft_system.OrderBook.Window.Reach.{IsSlot, Reaches, ask-IsSlot}
use hft_system.OrderBook.Sound.{IsSoundAsk}
use hft_system.OrderBook.AskAdd.Branches.{IsNear, AskTakes, far_below, far_above}

-- What an update does: a level written to the home of its price, or nothing.
pub data Outcome (s : BookSide) (price quantity : ℤ) (t : BookSide) : Type 0 where
  taken :
      (j : ℕ)
      → AskTakes s price
      → IsSoundAsk t
      → length s.levels ≡ 256
      → j < 256
      → IsHome s.levels j price
      → t.levels ≡ write s.levels j price quantity
      → Outcome s price quantity t
  refused : ¬ AskTakes s price → t ≡ s → IsSoundAsk t → Outcome s price quantity t

-- The asks with at least one level, a price near enough, and what follows of them.
pub record IsCase (s : BookSide) (price : ℤ) : Type 0 where
  pub w : IsWindow s.levels s.best s.worst s.num
  pub near : IsNear s price
  pub one : 1 ≤ s.num
  pub j_in : slot_of s price < 256
  pub at : IsSlot s.best (best_price s) (slot_of s price) price
  pub top : IsPlaced s.best (best_price s) (worst_price s) s.worst (worst_price s)
  pub takes_near : AskTakes s price → (far_below s price ≤ 64) × (far_above s price ≤ 64)
  pub takes_room :
      s.best ≢ s.worst
      → AskTakes s price
      → (far_below s price ≤ s.best) × (s.worst + far_above s price < 256)
  pub in_reach :
      best_price s ≤ℤ price → price ≤ℤ worst_price s → Reaches (best_price s) (worst_price s) price
  pub low_reach :
      price <ℤ best_price s
      → far_below s price ≤ s.best
      → Reaches (best_price s) (worst_price s) price
  pub high_reach :
      worst_price s <ℤ price
      → s.worst + far_above s price < 256
      → Reaches (best_price s) (worst_price s) price

module _ (s : BookSide) (price : ℤ) (w : IsWindow s.levels s.best s.worst s.num)
    (near : IsNear s price)
    (room : (s.best ≤ s.worst) ⊎ Reaches (best_price s) (worst_price s) price) where
  abbrev j : ℕ
  j = slot_of s price

  j_in : j < 256
  j_in = slot_of-lt s price

  at : IsSlot s.best (best_price s) j price
  at = ask-IsSlot s price

  one : 1 ≤ s.num
  one = omega (arith, w.counted, count_active-pos s.levels s.best w.lo_active)

  top : IsPlaced s.best (best_price s) (worst_price s) s.worst (worst_price s)
  top = w.placed s.worst w.hi_in w.hi_active

  takes_room :
      s.best ≢ s.worst
      → AskTakes s price
      → (far_below s price ≤ s.best) × (s.worst + far_above s price < 256)
  takes_room ne (inl e) = absurd (omega (arith, one))
  takes_room ne (inr (a, b, inl e)) = absurd (ne e)
  takes_room ne (inr (a, b, inr h)) = h

  takes_near : AskTakes s price → (far_below s price ≤ 64) × (far_above s price ≤ 64)
  takes_near (inl e) = absurd (omega (arith, one))
  takes_near (inr (a, b, r)) = (a, b)

  -- The facts on parts of integers that the distances below rest on.
  in_reach :
      best_price s ≤ℤ price → price ≤ℤ worst_price s → Reaches (best_price s) (worst_price s) price
  in_reach a b = omega (
    arith,
    top.near,
    -ℤ_parts price (best_price s),
    -ℤ_parts (worst_price s) price,
    -ℤ_parts (worst_price s) (best_price s),
    parts_split (price -ℤ best_price s),
    parts_split (worst_price s -ℤ price),
    parts_split (worst_price s -ℤ best_price s),
  )

  low_reach :
      price <ℤ best_price s
      → far_below s price ≤ s.best
      → Reaches (best_price s) (worst_price s) price
  low_reach a b = omega (
    arith,
    room,
    w.hi_in,
    top.slot,
    top.above,
    top.near,
    -ℤ_parts price (best_price s),
    -ℤ_parts (best_price s) price,
    -ℤ_parts (worst_price s) price,
    -ℤ_parts (worst_price s) (best_price s),
    parts_split (price -ℤ best_price s),
    parts_split (best_price s -ℤ price),
    parts_split (worst_price s -ℤ price),
    parts_split (worst_price s -ℤ best_price s),
  )

  high_reach :
      worst_price s <ℤ price
      → s.worst + far_above s price < 256
      → Reaches (best_price s) (worst_price s) price
  high_reach a b = omega (
    arith,
    room,
    w.lo_in,
    top.slot,
    top.above,
    top.near,
    -ℤ_parts price (best_price s),
    -ℤ_parts price (worst_price s),
    -ℤ_parts (worst_price s) price,
    -ℤ_parts (worst_price s) (best_price s),
    parts_split (price -ℤ best_price s),
    parts_split (price -ℤ worst_price s),
    parts_split (worst_price s -ℤ price),
    parts_split (worst_price s -ℤ best_price s),
  )

  pub IsCase-intro : IsCase s price
  IsCase-intro = record {
    w = w;
    near = near;
    one = one;
    j_in = j_in;
    at = at;
    top = top;
    takes_near = takes_near;
    takes_room = takes_room;
    in_reach = in_reach;
    low_reach = low_reach;
    high_reach = high_reach;
  }
