-- ===== src/OrderBook/Window/Quotes.antt =====
-- What a side quotes after one level is written or cleared: the map from prices to quantities that
-- the array of include/market_data/order_book/order_book.h stands for.
use hft_system.Prelude.{
  ℕ, ◌+◌, ◌%◌, ◌<◌, subst, ◌≡◌, ◌≢◌, refl, Bool, true, false, List, length, ◌↔◌, ◌⊎◌, inl, inr, sym,
  ◌∙◌, ap,
}
use hft_system.Prelude.Int.{ℤ, pos}
use hft_system.OrderBook.Slots.{dist}
use hft_system.OrderBook.{PriceLevel, level, write, clear}
use hft_system.OrderBook.Window.{Active, IsBare, IsWindow, IsPlaced, IsPlaced-injective, Quotes}
use hft_system.OrderBook.Window.Write.{level-set_self, level-set_at, level-set_ne, Active-set}

-- Among the active levels, those with price `p` are those in slot `j`.
abbrev pub IsHome : List PriceLevel → ℕ → ℤ → Type 0
IsHome ls j p = (i : ℕ) → i < 256 → Active ls i → ((level ls i).price ≡ p) ↔ (j ≡ i)

-- The map after `price` is given `quantity`, and after `price` is taken away.
abbrev pub Inserted : List PriceLevel → ℤ → ℤ → ℤ → ℤ → Type 0
Inserted ls price quantity p q = ((p ≡ price) × (q ≡ quantity)) ⊎ ((p ≢ price) × Quotes ls p q)

abbrev pub Erased : List PriceLevel → ℤ → ℤ → ℤ → Type 0
Erased ls price p q = (p ≢ price) × Quotes ls p q

module _ (ls : List PriceLevel) (size : length ls ≡ 256) (j : ℕ) (j_in : j < 256) where
  module _ (price quantity : ℤ) (home : IsHome ls j price) (p q : ℤ) where
    abbrev new : PriceLevel
    new = record { price = price; quantity = quantity; is_active = true }

    write-Quotes_to : Quotes (write ls j price quantity) p q → Inserted ls price quantity p q
    write-Quotes_to (i, i_in, a, e, f) = elim (Active-set ls size j j_in new i a) [
      | inl (at, b) ↦
          let self = level-set_at ls size j j_in new i at in
          inl (sym e ∙ ap (λ l. l.price) self, sym f ∙ ap (λ l. l.quantity) self)
      | inr (ne, b) ↦
          let same = level-set_ne ls size j j_in new i ne in
          inr (
            λ eq. ne ((home i i_in b).0 (sym (ap (λ l. l.price) same) ∙ e ∙ eq)),
            (i, i_in, b, sym (ap (λ l. l.price) same) ∙ e, sym (ap (λ l. l.quantity) same) ∙ f),
          )
    ]

    write-Quotes_of : Inserted ls price quantity p q → Quotes (write ls j price quantity) p q
    write-Quotes_of (inl (e, f)) =
        let self = level-set_self ls size j j_in new in
        (
          j,
          j_in,
          ap (λ l. l.is_active) self,
          ap (λ l. l.price) self ∙ sym e,
          ap (λ l. l.quantity) self ∙ sym f,
        )
    write-Quotes_of (inr (ne, (i, i_in, a, e, f))) =
        let same = level-set_ne ls size j j_in new i (λ at. ne (sym e ∙ (home i i_in a).1 at)) in
        (
          i,
          i_in,
          ap (λ l. l.is_active) same ∙ a,
          ap (λ l. l.price) same ∙ e,
          ap (λ l. l.quantity) same ∙ f,
        )

    pub write-Quotes : Quotes (write ls j price quantity) p q ↔ Inserted ls price quantity p q
    write-Quotes = (write-Quotes_to, write-Quotes_of)

  module _ (busy : Active ls j) (home : IsHome ls j (level ls j).price) (p q : ℤ) where
    abbrev gone : PriceLevel
    gone = record { price = (level ls j).price; quantity = pos 0; is_active = false }

    clear-Quotes_to : Quotes (clear ls j) p q → Erased ls (level ls j).price p q
    clear-Quotes_to (i, i_in, a, e, f) = elim (Active-set ls size j j_in gone i a) [
      | inl (at, b) ↦ cc
      | inr (ne, b) ↦
          let same = level-set_ne ls size j j_in gone i ne in
          (
            λ eq. ne ((home i i_in b).0 (sym (ap (λ l. l.price) same) ∙ e ∙ eq)),
            (i, i_in, b, sym (ap (λ l. l.price) same) ∙ e, sym (ap (λ l. l.quantity) same) ∙ f),
          )
    ]

    clear-Quotes_of : Erased ls (level ls j).price p q → Quotes (clear ls j) p q
    clear-Quotes_of (ne, (i, i_in, a, e, f)) =
        let same = level-set_ne ls size j j_in gone i (λ at. ne (sym e ∙ (home i i_in a).1 at)) in
        (
          i,
          i_in,
          ap (λ l. l.is_active) same ∙ a,
          ap (λ l. l.price) same ∙ e,
          ap (λ l. l.quantity) same ∙ f,
        )

    pub clear-Quotes : Quotes (clear ls j) p q ↔ Erased ls (level ls j).price p q
    clear-Quotes = (clear-Quotes_to, clear-Quotes_of)

-- The slot of a placed price is the home of that price.
module _ {ls : List PriceLevel} {lo hi num : ℕ} (w : IsWindow ls lo hi num) where
  pub placed-IsHome :
      (j : ℕ) (p : ℤ) → IsPlaced lo (level ls lo).price (level ls hi).price j p → IsHome ls j p
  placed-IsHome j p here i i_in a = (
    λ e.
        here.slot
        ∙ sym (subst (λ r. i ≡ (lo + dist (level ls lo).price r) % 256) e (w.placed i i_in a).slot),
    λ at. IsPlaced-injective lo _ _ i j _ p w.lo_in (w.placed i i_in a) here (sym at),
  )

  pub Active-IsHome : (j : ℕ) → j < 256 → Active ls j → IsHome ls j (level ls j).price
  Active-IsHome j j_in a = placed-IsHome j _ (w.placed j j_in a)

  -- A slot where nothing is active, for a price that no active level has.
  pub fresh-IsHome :
      (j : ℕ) (p : ℤ)
      → ((i : ℕ) → i < 256 → Active ls i → ((level ls i).price ≢ p) × (i ≢ j))
      → IsHome ls j p
  fresh-IsHome j p out i i_in a =
      (λ e. absurd ((out i i_in a).0 e), λ at. absurd ((out i i_in a).1 (sym at)))

-- A removal at the home of `price`: of nothing, of its level, and on an empty side.
pub absent-Quotes :
    (ls : List PriceLevel) (j : ℕ) (price : ℤ)
    → IsHome ls j price
    → (level ls j).is_active ≡ false
    → (p q : ℤ) → Quotes ls p q ↔ Erased ls price p q
absent-Quotes ls j price home idle p q = (
  λ (i, i_in, a, e, f). (
    λ eq. differ (subst (λ k. Active ls k) (sym ((home i i_in a).0 (e ∙ eq))) a) idle,
    (i, i_in, a, e, f),
  ),
  λ h. h.1,
)
  where
    differ : {b : Bool} → b ≡ true → b ≡ false → ⊥
    differ x y = cc

pub present-Quotes :
    (ls : List PriceLevel)
    → length ls ≡ 256
    → (j : ℕ) → j < 256
    → (price : ℤ) → IsHome ls j price
    → Active ls j
    → (p q : ℤ) → Quotes (clear ls j) p q ↔ Erased ls price p q
present-Quotes ls size j j_in price home busy p q =
    subst (λ r. Quotes (clear ls j) p q ↔ Erased ls r p q) here
      (clear-Quotes ls size j j_in busy (subst (λ r. IsHome ls j r) (sym here) home) p q)
  where
    here : (level ls j).price ≡ price
    here = (home j j_in busy).1 refl

pub bare-Quotes :
    (ls : List PriceLevel) → IsBare ls → (price p q : ℤ) → Quotes ls p q ↔ Erased ls price p q
bare-Quotes ls b price p q = (λ (i, i_in, a, e, f). absurd (differ a (b.inactive i)), λ h. h.1)
  where
    differ : {c : Bool} → c ≡ true → c ≡ false → ⊥
    differ x y = cc
