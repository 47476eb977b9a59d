-- ===== src/OrderBook/Alias.antt =====
-- Prices 256 apart share a slot of the array in include/market_data/order_book/order_book.h, and a
-- removal does not compare the price that it finds.
use hft_system.Prelude.{ℕ, ◌<◌, ◌≡◌, arith, refl, subst, ap, inr, Bool, true, false}
use hft_system.Prelude.Int.{ℤ, pos, pos_part, neg_part, ◌+ℤ◌, ◌-ℤ◌, -ℤ_parts, +ℤ_parts, parts_split}
use hft_system.OrderBook.{BookSide, best_price, worst_price, remove_ask, remove_bid}
use hft_system.OrderBook.Slots.{slot_of-period, dist}
use hft_system.OrderBook.Window.{IsWindow, IsPlaced, Quotes}
use hft_system.OrderBook.Window.Reach.{Reaches}
use hft_system.OrderBook.Sound.{IsSoundAsk, IsSoundBid}
use hft_system.OrderBook.AskRemove.{remove_ask-Quotes}
use hft_system.OrderBook.BidRemove.{remove_bid-Quotes}

remove_ask-period :
    (s : BookSide) (price : ℤ) → remove_ask s (price +ℤ pos 256) ≡ remove_ask s price
unfolding remove_ask
remove_ask-period s price = rw (slot_of-period s price)

differ : {b : Bool} → b ≡ true → b ≡ false → ⊥
differ x y = cc

-- Two prices 256 apart are not both in one window.
apart :
    {lo i k : ℕ} {ph : ℤ} (pl a b p : ℤ)
    → a ≡ p
    → b ≡ p +ℤ pos 256
    → IsPlaced lo pl ph i a
    → IsPlaced lo pl ph k b
    → ⊥
apart pl a b p f e o o' = omega (
  arith,
  ap pos_part f,
  ap neg_part f,
  ap pos_part e,
  ap neg_part e,
  +ℤ_parts p (pos 256),
  parts_split (p +ℤ pos 256),
  -ℤ_parts a pl,
  -ℤ_parts b pl,
  parts_split (a -ℤ pl),
  parts_split (b -ℤ pl),
)

reached :
    {lo i : ℕ} {a : ℤ} (pl ph p : ℤ)
    → a ≡ p
    → IsPlaced lo pl ph i a
    → dist pl ph < 256
    → Reaches pl ph p
reached {a = a} pl ph p f o span =
    subst (λ r. Reaches pl ph r) f
      (omega (
        arith,
        -ℤ_parts a pl,
        -ℤ_parts ph a,
        -ℤ_parts ph pl,
        parts_split (a -ℤ pl),
        parts_split (ph -ℤ a),
        parts_split (ph -ℤ pl),
      ))

-- The removal of a price 256 above a quoted ask takes that ask away, at whatever quantity,
-- although nothing is quoted at the price of the update.
pub remove_ask_aliased :
    (s : BookSide) (p q : ℤ)
    → IsSoundAsk s
    → Quotes s.levels p q
    → (r : ℤ)
    → (¬ Quotes s.levels (p +ℤ pos 256) r) × (¬ Quotes (remove_ask s (p +ℤ pos 256)).levels p r)
remove_ask_aliased s p q v (i, i_in, a, f, g) r = (go v, gone v)
  where
    window_of : IsSoundAsk s → IsWindow s.levels s.best s.worst s.num
    window_of (IsSoundAsk.bare b e) = absurd (differ a (b.inactive i))
    window_of (IsSoundAsk.window w) = w

    go : IsSoundAsk s → ¬ Quotes s.levels (p +ℤ pos 256) r
    go v' (k, k_in, c, e, h) =
        let w = window_of v' in
        apart (best_price s) _ _ p f e (w.placed i i_in a) (w.placed k k_in c)

    gone : IsSoundAsk s → ¬ Quotes (remove_ask s (p +ℤ pos 256)).levels p r
    gone v' x =
        let w = window_of v' in
        ((remove_ask-Quotes s p v'
              (inr (
                reached (best_price s) (worst_price s) p f (w.placed i i_in a)
                  (w.placed s.worst w.hi_in w.hi_active).near))
              p r).0
            (subst (λ t. Quotes t.levels p r) (remove_ask-period s p) x)).0
          refl

remove_bid-period :
    (s : BookSide) (price : ℤ) → remove_bid s (price +ℤ pos 256) ≡ remove_bid s price
unfolding remove_bid
remove_bid-period s price = rw (slot_of-period s price)

-- The removal of a price 256 below a quoted bid takes that bid away, at whatever quantity,
-- although nothing is quoted at the price of the update.
pub remove_bid_aliased :
    (s : BookSide) (p q : ℤ)
    → IsSoundBid s
    → Quotes s.levels p q
    → (r : ℤ)
    → (¬ Quotes s.levels (p +ℤ pos 256) r) × (¬ Quotes (remove_bid s (p +ℤ pos 256)).levels p r)
remove_bid_aliased s p q v (i, i_in, a, f, g) r = (go v, gone v)
  where
    window_of : IsSoundBid s → IsWindow s.levels s.worst s.best s.num
    window_of (IsSoundBid.bare b e) = absurd (differ a (b.inactive i))
    window_of (IsSoundBid.window w) = w

    go : IsSoundBid s → ¬ Quotes s.levels (p +ℤ pos 256) r
    go v' (k, k_in, c, e, h) =
        let w = window_of v' in
        apart (worst_price s) _ _ p f e (w.placed i i_in a) (w.placed k k_in c)

    gone : IsSoundBid s → ¬ Quotes (remove_bid s (p +ℤ pos 256)).levels p r
    gone v' x =
        let w = window_of v' in
        ((remove_bid-Quotes s p v'
              (inr (
                reached (worst_price s) (best_price s) p f (w.placed i i_in a)
                  (w.placed s.best w.hi_in w.hi_active).near))
              p r).0
            (subst (λ t. Quotes t.levels p r) (remove_bid-period s p) x)).0
          refl
