-- ===== src/Registry/Maps.antt =====
-- The hash maps of `VenueRegistry` of include/market_data/venue_registry.hpp.
use hft_system.Prelude.{
  ℕ, ◌+◌, ◌==◌, ◌≡◌, refl, arith, ap, ap₂, ◌∙◌, inl, inr, if◌then◌else◌, Bool, true, false, List,
  [], ◌∷◌, length, Option, none, some, Bool-cases,
}
use hft_system.Registry.{Bytes, bytes_eq, find, put, VenueRegistry, num_eq, next_symbol}

pub bytes_eq_found : (xs ys : Bytes) → bytes_eq xs ys ≡ true → xs ≡ ys
unfolding bytes_eq
bytes_eq_found [] [] h = refl
bytes_eq_found [] (y ∷ ys) h = absurd (ground arith)
bytes_eq_found (x ∷ xs) [] h = absurd (ground arith)
bytes_eq_found (x ∷ xs) (y ∷ ys) h =
    let one : x ≡ y = ground arith in
    let rest : bytes_eq xs ys ≡ true = ground arith in ap₂ ◌∷◌ one (bytes_eq_found xs ys rest)

pub bytes_eq_refl : (xs : Bytes) → bytes_eq xs xs ≡ true
unfolding bytes_eq
bytes_eq_refl [] = refl
bytes_eq_refl (x ∷ xs) = ground (arith, bytes_eq_refl xs)

num_eq_found : (a b : ℕ) → num_eq a b ≡ true → a ≡ b
num_eq_found a b h = ground arith

num_eq_refl : (a : ℕ) → num_eq a a ≡ true
num_eq_refl a = ground arith

module _ {K : Type 0} (same : K → K → Bool) (found : (a b : K) → same a b ≡ true → a ≡ b)
    (self : (a : K) → same a a ≡ true) where
  find-put :
      (k j : K) (v : ℕ) (m : List (K × ℕ))
      → find same k (put same j v m) ≡ (if same j k then some v else find same k m)
  unfolding find put
  find-put k j v [] = refl
  find-put k j v ((i, w) ∷ m) = elim (Bool-cases (same i j)) [
    | inl e ↦
        rw (found i j e, self j)
          (elim (Bool-cases (same j k)) [ inl f ↦ rw f refl | inr f ↦ rw f refl ])
    | inr e ↦ elim (Bool-cases (same i k)) [
      | inl f ↦
          let apart : same j k ≡ false = elim (Bool-cases (same j k)) [
            | inl g ↦
                let looped : same i j ≡ true = rw (found i k f, found j k g, self k) refl in
                absurd (ground arith)
            | inr g ↦ g
          ] in
          rw (e, apart) (rw f refl)
      | inr f ↦ rw (e, f) (find-put k j v m)
    ]
  ]

  pub length-put :
      (k : K) (v : ℕ) (m : List (K × ℕ))
      → find same k m ≡ none
      → length (put same k v m) ≡ length m + 1
  unfolding find put
  length-put k v [] h = refl
  length-put k v ((i, w) ∷ m) h = elim (Bool-cases (same i k)) [
    | inl e ↦ absurd (ground arith)
    | inr e ↦
        let rest : find same k m ≡ none = ground arith in
        rw e (omega (arith, length-put k v m rest))
  ]

pub find_bytes-put :
    (k j : Bytes) (v : ℕ) (m : List (Bytes × ℕ))
    → find bytes_eq k (put bytes_eq j v m) ≡ (if bytes_eq j k then some v else find bytes_eq k m)
find_bytes-put = find-put bytes_eq bytes_eq_found bytes_eq_refl

pub next_symbol-put :
    (r : VenueRegistry) (v n w : ℕ)
    → next_symbol (record r { next_symbol_idx = put num_eq v n r.next_symbol_idx }) w
      ≡ (if v == w then n else next_symbol r w)
next_symbol-put r v n w =
    ap (λ (o : Option ℕ). elim o [ some n ↦ n | none ↦ 0 ])
      (find-put num_eq num_eq_found num_eq_refl w v n r.next_symbol_idx)
    ∙ elim (Bool-cases (v == w)) [ inl e ↦ rw e refl | inr e ↦ rw e refl ]
