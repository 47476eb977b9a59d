-- ===== src/Registry/Rows.antt =====
-- What `VenueRegistry` of include/market_data/venue_registry.hpp holds after some rows, and the two
-- changes that a row makes: a venue, and a symbol.
use mathlib.Core.Option.{some-injective}
use hft_system.Prelude.{
  ℕ, ◌+◌, ◌-◌, ◌^◌, ◌≤◌, ◌<◌, ◌==◌, ◌≡◌, ◌≢◌, ◌⊎◌, refl, arith, sym, ap, ◌∙◌, subst, inl, inr,
  if◌then◌else◌, length, none, some, Bool-cases, ℕ_discrete,
}
use hft_system.Registry.{
  Bytes, bytes_eq, find, put, VenueRegistry, empty_registry, pack, venue_of, symbol_of, num_eq,
  next_symbol,
}
use hft_system.Registry.Ids.{pack_halves}
use hft_system.Registry.Maps.{
  bytes_eq_found, bytes_eq_refl, find_bytes-put, length-put, next_symbol-put,
}

-- What holds after `n` rows at most.
pub record IsRegistry (r : VenueRegistry) (n : ℕ) : Type 0 where
  pub venues_below :
      (x : Bytes) (v : ℕ) → find bytes_eq x r.venue_ids ≡ some v → v < length r.venue_ids
  pub venue_count : length r.venue_ids ≤ n
  pub symbols_below :
      (k : Bytes) (id : ℕ)
      → find bytes_eq k r.instrument_map ≡ some id
      → (venue_of id < length r.venue_ids) × (symbol_of id < next_symbol r (venue_of id))
  pub next_small : (v : ℕ) → next_symbol r v ≤ n
  pub apart :
      (j k : Bytes) (id : ℕ)
      → find bytes_eq j r.instrument_map ≡ some id
      → find bytes_eq k r.instrument_map ≡ some id
      → j ≡ k

pub IsRegistry-more : (r : VenueRegistry) (n m : ℕ) → n ≤ m → IsRegistry r n → IsRegistry r m
IsRegistry-more r n m h v = record {
  venues_below = v.venues_below;
  venue_count = omega (arith, v.venue_count);
  symbols_below = v.symbols_below;
  next_small = λ w. omega (arith, v.next_small w);
  apart = v.apart;
}

pub empty_registry-IsRegistry : IsRegistry empty_registry 0
unfolding find
empty_registry-IsRegistry = record {
  venues_below = λ x v h. absurd (ground arith);
  venue_count = omega arith;
  symbols_below = λ k id h. absurd (ground arith);
  next_small = λ v. omega arith;
  apart = λ j k id h. absurd (ground arith);
}

-- The registry with one venue more, and with one symbol more.
abbrev pub opened : VenueRegistry → Bytes → VenueRegistry
opened r x = record r {
  venue_ids = put bytes_eq x (length r.venue_ids) r.venue_ids;
  next_symbol_idx = put num_eq (length r.venue_ids) 0 r.next_symbol_idx;
}

abbrev pub given : VenueRegistry → ℕ → Bytes → VenueRegistry
given r vid k = record r {
  next_symbol_idx = put num_eq vid (next_symbol r vid + 1) r.next_symbol_idx;
  instrument_map = put bytes_eq k (pack vid (next_symbol r vid)) r.instrument_map;
}

-- A venue that is new: its number is the number of venues.
module _ (r : VenueRegistry) (n : ℕ) (v : IsRegistry r n) (few : n < 2 ^ 16 - 1) (x : Bytes)
    (fresh : find bytes_eq x r.venue_ids ≡ none) where
  abbrev pub count : ℕ
  count = length r.venue_ids

  abbrev pub with_venue : VenueRegistry
  with_venue = opened r x

  pub with_venue-IsRegistry : IsRegistry with_venue (n + 1)
  with_venue-IsRegistry =
      let longer : length (put bytes_eq x count r.venue_ids) ≡ count + 1 =
        length-put bytes_eq bytes_eq_found bytes_eq_refl x count r.venue_ids fresh in
      record {
        venues_below = λ y w h. elim (Bool-cases (bytes_eq x y)) [
          | inl e ↦
              let is_new : some count ≡ some w =
                (sym (find_bytes-put y x count r.venue_ids ∙ rw e refl)) ∙ h in
              omega (arith, longer, some-injective _ _ is_new)
          | inr e ↦
              let is_old : find bytes_eq y r.venue_ids ≡ some w =
                sym (find_bytes-put y x count r.venue_ids ∙ rw e refl) ∙ h in
              omega (arith, longer, v.venues_below y w is_old)
        ];
        venue_count = omega (arith, longer, v.venue_count);
        symbols_below = λ k id h.
            let (below, old_index) = v.symbols_below k id h in
            let kept : next_symbol with_venue (venue_of id) ≡ next_symbol r (venue_of id) =
              next_symbol-put r count 0 (venue_of id) ∙ ground arith in
            (omega (arith, longer), omega (arith, kept));
        next_small = λ w. elim (Bool-cases (count == w)) [
          | inl e ↦
              let zero_now : next_symbol with_venue w ≡ 0 =
                next_symbol-put r count 0 w ∙ rw e refl in
              omega arith
          | inr e ↦
              let kept : next_symbol with_venue w ≡ next_symbol r w =
                next_symbol-put r count 0 w ∙ rw e refl in
              omega (arith, kept, v.next_small w)
        ];
        apart = v.apart;
      }

-- A symbol of the venue `vid`: its index is the next one.
module _ (r : VenueRegistry) (n : ℕ) (v : IsRegistry r n) (few : n < 2 ^ 16 - 1) (vid : ℕ)
    (vid_in : vid < length r.venue_ids) (k : Bytes) where
  abbrev pub index : ℕ
  index = next_symbol r vid

  abbrev pub with_symbol : VenueRegistry
  with_symbol = given r vid k

  halves : (venue_of (pack vid index) ≡ vid) × (symbol_of (pack vid index) ≡ index)
  halves =
      let (a, b, c) =
        pack_halves vid index (omega (arith, v.venue_count)) (omega (arith, v.next_small vid)) in
      (a, b)

  next_after :
      (w : ℕ) → next_symbol with_symbol w ≡ (if vid == w then index + 1 else next_symbol r w)
  next_after w = next_symbol-put r vid (index + 1) w

  next_range :
      (w : ℕ) → (next_symbol r w ≤ next_symbol with_symbol w) × (next_symbol with_symbol w ≤ n + 1)
  next_range w = elim (ℕ_discrete vid w) [
    | yes e ↦
        let now : next_symbol with_symbol w ≡ index + 1 = next_after w ∙ ground arith in
        let was : next_symbol r w ≡ index = ap (next_symbol r) (sym e) in
        omega (arith, v.next_small vid)
    | no ne ↦
        let kept : next_symbol with_symbol w ≡ next_symbol r w = next_after w ∙ ground arith in
        omega (arith, v.next_small w)
  ]

  found_cases :
      (j : Bytes) (id : ℕ)
      → find bytes_eq j with_symbol.instrument_map ≡ some id
      → ((k ≡ j) × (id ≡ pack vid index)) ⊎ (find bytes_eq j r.instrument_map ≡ some id)
  found_cases j id h = elim (Bool-cases (bytes_eq k j)) [
    | inl e ↦
        let is_new : some (pack vid index) ≡ some id =
          sym (find_bytes-put j k (pack vid index) r.instrument_map ∙ rw e refl) ∙ h in
        inl (bytes_eq_found k j e, sym (some-injective _ _ is_new))
    | inr e ↦ inr (sym (find_bytes-put j k (pack vid index) r.instrument_map ∙ rw e refl) ∙ h)
  ]

  -- The new id is not given out yet.
  not_given : (j : Bytes) → find bytes_eq j r.instrument_map ≢ some (pack vid index)
  not_given j h =
      let (below, old_index) = v.symbols_below j (pack vid index) h in
      let (a, b) = halves in
      let used : index < next_symbol r vid =
        subst (λ i. i < next_symbol r vid) b
          (subst (λ w. symbol_of (pack vid index) < next_symbol r w) a old_index) in
      omega arith

  pub with_symbol-IsRegistry : IsRegistry with_symbol (n + 1)
  with_symbol-IsRegistry = record {
    venues_below = v.venues_below;
    venue_count = omega (arith, v.venue_count);
    symbols_below = λ j id h. elim (found_cases j id h) [
      | inl (same, e) ↦
          let (a, b) = halves in
          let next : next_symbol with_symbol vid ≡ index + 1 = next_after vid ∙ ground arith in
          rw (e, a, b) (vid_in, omega (arith, next))
      | inr old ↦
          let (below, old_index) = v.symbols_below j id old in
          (below, omega (arith, (next_range (venue_of id)).0))
    ];
    next_small = λ w. (next_range w).1;
    apart = λ i j id h l. elim (found_cases i id h) [
      | inl (same, e) ↦ elim (found_cases j id l) [
        | inl (same', e') ↦ sym same ∙ same'
        | inr old ↦ absurd (not_given j (old ∙ ap some e))
      ]
      | inr old ↦ elim (found_cases j id l) [
        | inl (same', e') ↦ absurd (not_given i (old ∙ ap some e'))
        | inr old' ↦ v.apart i j id old old'
      ]
    ];
  }
