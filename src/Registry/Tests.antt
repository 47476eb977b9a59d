-- ===== src/Registry/Tests.antt =====
-- Runs of `VenueRegistry` of include/market_data/venue_registry.hpp, and its theorems at concrete
-- rows.
use hft_system.Prelude.{◌≡◌, refl, arith, List, [], ◌∷◌, some}
use hft_system.Registry.{
  StreamRow, venue_registry, add_rows, add_row, get_or_add_venue, find, put, bytes_eq, lookup, pack,
  key,
}
use hft_system.Registry.Distinct.{lookup_apart}

abbrev rows : List StreamRow
rows =
    record { exchange = b'b' ∷ []; symbol = b'x' ∷ []; stream = [] }
    ∷ record { exchange = b'c' ∷ []; symbol = b'x' ∷ []; stream = [] }
    ∷ record { exchange = b'b' ∷ []; symbol = b'y' ∷ []; stream = [] }
    ∷ []

second_symbol : lookup (venue_registry rows) (b'b' ∷ []) (b'y' ∷ []) ≡ some 1
unfolding venue_registry add_rows add_row get_or_add_venue find put bytes_eq lookup pack
second_symbol = refl

second_venue : lookup (venue_registry rows) (b'c' ∷ []) (b'x' ∷ []) ≡ some 65536
unfolding venue_registry add_rows add_row get_or_add_venue find put bytes_eq lookup pack
second_venue = refl

-- Two pairs of texts with one key, `b::y`.
abbrev colon_rows : List StreamRow
colon_rows =
    record { exchange = b'a' ∷ []; symbol = b'x' ∷ []; stream = [] }
    ∷ record { exchange = b'b' ∷ []; symbol = b':' ∷ b'y' ∷ []; stream = [] }
    ∷ []

colon_first : lookup (venue_registry colon_rows) (b'b' ∷ []) (b':' ∷ b'y' ∷ []) ≡ some 65536
unfolding venue_registry add_rows add_row get_or_add_venue find put bytes_eq lookup pack
colon_first = refl

colon_second : lookup (venue_registry colon_rows) (b'b' ∷ b':' ∷ []) (b'y' ∷ []) ≡ some 65536
unfolding venue_registry add_rows add_row get_or_add_venue find put bytes_eq lookup pack
colon_second = refl

lookup_apart_example : key (b'b' ∷ []) (b':' ∷ b'y' ∷ []) ≡ key (b'b' ∷ b':' ∷ []) (b'y' ∷ [])
lookup_apart_example =
    lookup_apart colon_rows (b'b' ∷ []) (b':' ∷ b'y' ∷ []) (b'b' ∷ b':' ∷ []) (b'y' ∷ []) 65536
      (omega arith) colon_first colon_second
