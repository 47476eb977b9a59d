-- ===== src/OrderBook/Band.antt =====
-- One update in a band of 256 ticks, on each side, through `addUpdate` of include/market_data/order_book/order_book.h.
use hft_system.Prelude.{
  ◌<◌, ◌≡◌, arith, refl, subst, sym, ap, List, inl, inr, ◌⊎◌, ◌↔◌, true, false, Bool-cases,
}
use hft_system.Prelude.Int.{ℤ, pos, ◌+ℤ◌, ◌-ℤ◌, ◌≤ℤ◌, abs, eqb_ℤ, -ℤ_parts, +ℤ_parts, parts_split}
use hft_system.Market.{MarketUpdate}
use hft_system.OrderBook.{BookSide, PriceLevel, best_price, worst_price, update_ask, update_bid}
use hft_system.OrderBook.Window.{IsWindow, Quotes}
use hft_system.OrderBook.Window.Quotes.{Inserted, Erased}
use hft_system.OrderBook.Window.Reach.{Reaches}
use hft_system.OrderBook.Sound.{IsSoundAsk, IsSoundBid}
use hft_system.OrderBook.AskRemove.{remove_ask-IsSoundAsk, remove_ask-Quotes}
use hft_system.OrderBook.BidRemove.{remove_bid-IsSoundBid, remove_bid-Quotes}
use hft_system.OrderBook.AskAdd.{add_ask-IsSoundAsk, add_ask-Quotes}
use hft_system.OrderBook.AskAdd.Branches.{AskFits}
use hft_system.OrderBook.BidAdd.{add_bid-IsSoundBid, add_bid-Quotes}
use hft_system.OrderBook.BidAdd.Branches.{BidFits}

-- The band of 256 prices from `base` on.
abbrev pub InBand : ℤ → ℤ → Type 0
InBand base p = (base ≤ℤ p) × (p ≤ℤ base +ℤ pos 255)

abbrev pub Banded : ℤ → List PriceLevel → Type 0
Banded base ls = (p q : ℤ) → Quotes ls p q → InBand base p

band_reach :
    (base a b p : ℤ)
    → InBand base a
    → InBand base b
    → InBand base p
    → Reaches a b p × (abs (p -ℤ a) < 256) × (abs (p -ℤ b) < 256)
band_reach base a b p ha hb hp = omega (
  arith,
  +ℤ_parts base (pos 255),
  parts_split (base +ℤ pos 255),
  parts_split base,
  parts_split p,
  -ℤ_parts p a,
  -ℤ_parts p b,
  -ℤ_parts b p,
  parts_split (p -ℤ a),
  parts_split (p -ℤ b),
  parts_split (b -ℤ p),
)

module _ (base : ℤ) (s : BookSide) (price : ℤ) (band : Banded base s.levels)
    (here : InBand base price) where
  ask_reach : IsWindow s.levels s.best s.worst s.num → Reaches (best_price s) (worst_price s) price
  ask_reach w = (band_reach base (best_price s) (worst_price s) price (low w) (high w) here).0
    where
      low : IsWindow s.levels s.best s.worst s.num → InBand base (best_price s)
      low w = band _ _ (s.best, w.lo_in, w.lo_active, refl, refl)

      high : IsWindow s.levels s.best s.worst s.num → InBand base (worst_price s)
      high w = band _ _ (s.worst, w.hi_in, w.hi_active, refl, refl)

  pub ask_fits : IsSoundAsk s → AskFits s price
  ask_fits (IsSoundAsk.bare b e) = inl e
  ask_fits (IsSoundAsk.window w) =
      let near =
        band_reach base (best_price s) (worst_price s) price
          (band _ _ (s.best, w.lo_in, w.lo_active, refl, refl))
          (band _ _ (s.worst, w.hi_in, w.hi_active, refl, refl)) here in
      inr ((omega (arith, near), omega (arith, near)), inr near.0)

  pub ask_within : IsSoundAsk s → (s.num ≡ 0) ⊎ Reaches (best_price s) (worst_price s) price
  ask_within (IsSoundAsk.bare b e) = inl e
  ask_within (IsSoundAsk.window w) = inr (ask_reach w)

  pub bid_fits : IsSoundBid s → BidFits s price
  bid_fits (IsSoundBid.bare b e) = inl e
  bid_fits (IsSoundBid.window w) =
      let near =
        band_reach base (worst_price s) (best_price s) price
          (band _ _ (s.worst, w.lo_in, w.lo_active, refl, refl))
          (band _ _ (s.best, w.hi_in, w.hi_active, refl, refl)) here in
      inr ((omega (arith, near), omega (arith, near)), inr near.0)

  pub bid_within : IsSoundBid s → (s.num ≡ 0) ⊎ Reaches (worst_price s) (best_price s) price
  bid_within (IsSoundBid.bare b e) = inl e
  bid_within (IsSoundBid.window w) =
      inr
        (band_reach base (worst_price s) (best_price s) price
          (band _ _ (s.worst, w.lo_in, w.lo_active, refl, refl))
          (band _ _ (s.best, w.hi_in, w.hi_active, refl, refl)) here).0

-- How the quotes of a side may change: the price is erased, or given the quantity, or the update was
-- refused.
pub data Change (before after : List PriceLevel) (u : MarketUpdate) : Type 0 where
  erased :
      eqb_ℤ u.quantity (pos 0) ≡ true
      → ((p q : ℤ) → Quotes after p q ↔ Erased before u.price p q)
      → Change before after u
  inserted :
      eqb_ℤ u.quantity (pos 0) ≡ false
      → ((p q : ℤ) → Quotes after p q ↔ Inserted before u.price u.quantity p q)
      → Change before after u
  refused : eqb_ℤ u.quantity (pos 0) ≡ false → after ≡ before → Change before after u

pub Change-Banded :
    (base : ℤ) (before after : List PriceLevel) (u : MarketUpdate)
    → Banded base before
    → InBand base u.price
    → Change before after u
    → Banded base after
Change-Banded base before after u band here (erased z h) p q x = band p q ((h p q).0 x).1
Change-Banded base before after u band here (inserted z h) p q x = elim ((h p q).0 x) [
  | inl (e, f) ↦ subst (λ r. InBand base r) (sym e) here
  | inr (ne, y) ↦ band p q y
]
Change-Banded base before after u band here (refused z e) p q x =
    band p q (subst (λ ls. Quotes ls p q) e x)

module _ (base : ℤ) (s : BookSide) (u : MarketUpdate) (band : Banded base s.levels)
    (here : InBand base u.price) where
  pub update_ask_lem :
      IsSoundAsk s → IsSoundAsk (update_ask s u) × Change s.levels (update_ask s u).levels u
  unfolding update_ask
  update_ask_lem v = elim (Bool-cases (eqb_ℤ u.quantity (pos 0))) [
    | inl z ↦ rw z (
      remove_ask-IsSoundAsk s u.price v,
      erased z (remove_ask-Quotes s u.price v (ask_within base s u.price band here v)),
    )
    | inr z ↦ rw z (
      add_ask-IsSoundAsk s u.price u.quantity v fits,
      elim (add_ask-Quotes s u.price u.quantity v fits) [
        | inl (t, h) ↦ inserted z h
        | inr (t, e) ↦ refused z (ap (λ r. r.levels) e)
      ],
    )
  ]
    where
      fits : AskFits s u.price
      fits = ask_fits base s u.price band here v

  pub update_bid_lem :
      IsSoundBid s → IsSoundBid (update_bid s u) × Change s.levels (update_bid s u).levels u
  unfolding update_bid
  update_bid_lem v = elim (Bool-cases (eqb_ℤ u.quantity (pos 0))) [
    | inl z ↦ rw z (
      remove_bid-IsSoundBid s u.price v,
      erased z (remove_bid-Quotes s u.price v (bid_within base s u.price band here v)),
    )
    | inr z ↦ rw z (
      add_bid-IsSoundBid s u.price u.quantity v fits,
      elim (add_bid-Quotes s u.price u.quantity v fits) [
        | inl (t, h) ↦ inserted z h
        | inr (t, e) ↦ refused z (ap (λ r. r.levels) e)
      ],
    )
  ]
    where
      fits : BidFits s u.price
      fits = bid_fits base s u.price band here v
