-- ===== src/Registry/Distinct.antt =====
-- `VenueRegistry` of include/market_data/venue_registry.hpp gives each key an id of its own.
use hft_system.Prelude.{
  ℕ, ◌+◌, ◌*◌, ◌-◌, ◌%◌, ◌^◌, ◌<◌, ◌≡◌, refl, arith, sym, ap, ◌∙◌, subst, inl, inr, List, [], ◌∷◌,
  length, none, some, Option-cases,
}
use hft_system.Registry.{
  Bytes, bytes_eq, StreamRow, find, put, VenueRegistry, empty_registry, pack, key, num_eq,
  get_or_add_venue, next_symbol, add_row, add_rows, venue_registry, lookup,
}
use hft_system.Registry.Maps.{bytes_eq_found, bytes_eq_refl, length-put}
use hft_system.Registry.Rows.{
  IsRegistry, IsRegistry-more, empty_registry-IsRegistry, opened, given, with_venue-IsRegistry,
  with_symbol-IsRegistry,
}

add_row_lem :
    (r r' : VenueRegistry) (row : StreamRow) (vid : ℕ)
    → get_or_add_venue r row.exchange ≡ (r', vid)
    → next_symbol r' vid < 2 ^ 16 - 1
    → add_row r row ≡ given r' vid (key row.exchange row.symbol)
unfolding add_row
add_row_lem r r' row vid e few =
    ap
      (λ (p : VenueRegistry × ℕ). record p.0 {
        next_symbol_idx = put num_eq p.1 ((next_symbol p.0 p.1 + 1) % 2 ^ 16) p.0.next_symbol_idx;
        instrument_map =
            put bytes_eq (key row.exchange row.symbol) (pack p.1 (next_symbol p.0 p.1))
              p.0.instrument_map;
      })
      e
    ∙ ap
        (λ (m : ℕ). record r' {
          next_symbol_idx = put num_eq vid m r'.next_symbol_idx;
          instrument_map =
              put bytes_eq (key row.exchange row.symbol) (pack vid (next_symbol r' vid))
                r'.instrument_map;
        })
        (omega arith)

get_or_add_venue-known :
    (r : VenueRegistry) (x : Bytes) {vid : ℕ}
    → find bytes_eq x r.venue_ids ≡ some vid
    → get_or_add_venue r x ≡ (r, vid)
unfolding get_or_add_venue
get_or_add_venue-known r x e = rw (get_or_add_venue, e) refl

get_or_add_venue-new :
    (r : VenueRegistry) (x : Bytes)
    → find bytes_eq x r.venue_ids ≡ none
    → length r.venue_ids < 2 ^ 16
    → get_or_add_venue r x ≡ (opened r x, length r.venue_ids)
unfolding get_or_add_venue
get_or_add_venue-new r x e few =
    let small : length r.venue_ids % 2 ^ 16 ≡ length r.venue_ids = omega arith in
    rw (get_or_add_venue, e)
      (ap
        (λ (m : ℕ). (
          record r {
            venue_ids = put bytes_eq x m r.venue_ids;
            next_symbol_idx = put num_eq m 0 r.next_symbol_idx;
          },
          m,
        ))
        small)

-- A row adds at most one venue and one symbol.
add_row-IsRegistry :
    (r : VenueRegistry) (row : StreamRow) (n : ℕ)
    → IsRegistry r n
    → n + 2 < 2 ^ 16
    → IsRegistry (add_row r row) (n + 2)
add_row-IsRegistry r row n v few =
    let k = key row.exchange row.symbol in
    elim (Option-cases (find bytes_eq row.exchange r.venue_ids)) [
      | inl fresh ↦
          let count = length r.venue_ids in
          let w = with_venue-IsRegistry r n v (omega arith) row.exchange fresh in
          let longer : length (put bytes_eq row.exchange count r.venue_ids) ≡ count + 1 =
            length-put bytes_eq bytes_eq_found bytes_eq_refl row.exchange count r.venue_ids fresh in
          subst (λ t. IsRegistry t (n + 2))
            (sym (
              add_row_lem r (opened r row.exchange) row count
                (get_or_add_venue-new r row.exchange fresh (omega (arith, v.venue_count)))
                (omega (arith, w.next_small count))))
            (subst (IsRegistry (given (opened r row.exchange) count k)) (omega arith) (
              with_symbol-IsRegistry (opened r row.exchange) (n + 1) w (omega arith) count
                (omega (arith, longer)) k))
      | inr (vid, e) ↦
          subst (λ t. IsRegistry t (n + 2))
            (sym (
              add_row_lem r r row vid (get_or_add_venue-known r row.exchange e)
                (omega (arith, v.next_small vid))))
            (IsRegistry-more _ (n + 1) (n + 2) (omega arith) (
              with_symbol-IsRegistry r n v (omega arith) vid (v.venues_below row.exchange vid e) k))
    ]

add_rows-IsRegistry :
    (rows : List StreamRow) (r : VenueRegistry) (n : ℕ)
    → IsRegistry r n
    → n + 2 * length rows < 2 ^ 16
    → IsRegistry (add_rows r rows) (n + 2 * length rows)
unfolding add_rows
add_rows-IsRegistry [] r n v few = subst (IsRegistry r) (omega arith) v
add_rows-IsRegistry (row ∷ rows) r n v few =
    subst (IsRegistry (add_rows (add_row r row) rows)) (omega arith) (
      add_rows-IsRegistry rows (add_row r row) (n + 2) (add_row-IsRegistry r row n v (omega arith))
        (omega arith))

-- If fewer than 2 ^ 15 rows fill the registry and two lookups give the same id, they ask for the
-- same key, which is the exchange and the symbol with a colon between.
pub lookup_apart :
    (rows : List StreamRow) (exchange symbol exchange' symbol' : Bytes) (id : ℕ)
    → length rows < 2 ^ 15
    → lookup (venue_registry rows) exchange symbol ≡ some id
    → lookup (venue_registry rows) exchange' symbol' ≡ some id
    → key exchange symbol ≡ key exchange' symbol'
unfolding venue_registry lookup
lookup_apart rows exchange symbol exchange' symbol' id few h k =
    (add_rows-IsRegistry rows empty_registry 0 empty_registry-IsRegistry (omega arith)).apart
      (key exchange symbol) (key exchange' symbol') id h k
