-- ===== src/Registry.antt =====
-- `VenueRegistry` of include/market_data/venue_registry.hpp, filled from the rows of
-- include/utils/config/stream_config/stream_config.h. Texts are lists of bytes, hash maps are
-- association lists with one entry for a key, and the exception of `lookup` is `none`.
mod Tests
pub mod Ids
mod Maps
mod Rows
pub mod Distinct
use hft_system.Prelude.{
  ℕ, ◌+◌, ◌*◌, ◌/◌, ◌%◌, ◌^◌, ◌==◌, ◌&&◌, if◌then◌else◌, Bool, true, false, List, [], ◌∷◌, ◌++◌,
  length, Option, none, some,
}

abbrev pub Bytes : Type 0
Bytes = List ℕ

unfoldable pub bytes_eq : Bytes → Bytes → Bool
bytes_eq [] [] = true
bytes_eq [] (y ∷ ys) = false
bytes_eq (x ∷ xs) [] = false
bytes_eq (x ∷ xs) (y ∷ ys) = x == y && bytes_eq xs ys

-- `struct StreamRow`
pub record StreamRow : Type 0 where
  pub exchange : Bytes
  pub symbol : Bytes
  pub stream : Bytes

-- A hash map from texts or numbers to numbers: `find`, and `operator[]` as an assignment.
module _ {K : Type 0} (same : K → K → Bool) where
  unfoldable pub find : K → List (K × ℕ) → Option ℕ
  find k [] = none
  find k ((j, v) ∷ m) = if same j k then some v else find k m

  unfoldable pub put : K → ℕ → List (K × ℕ) → List (K × ℕ)
  put k v [] = (k, v) ∷ []
  put k v ((j, w) ∷ m) = if same j k then (j, v) ∷ m else (j, w) ∷ put k v m

pub record VenueRegistry : Type 0 where
  pub instrument_map : List (Bytes × ℕ)
  pub venue_ids : List (Bytes × ℕ)
  pub next_symbol_idx : List (ℕ × ℕ)

abbrev pub empty_registry : VenueRegistry
empty_registry = record { instrument_map = []; venue_ids = []; next_symbol_idx = [] }

-- `(static_cast<uint32_t>(venue) << 16) | symbol` of two 16-bit values.
unfoldable pub pack : ℕ → ℕ → ℕ
pack venue symbol = venue * 2 ^ 16 + symbol

unfoldable pub venue_of : ℕ → ℕ
venue_of id = id / 2 ^ 16 % 2 ^ 16

unfoldable pub symbol_of : ℕ → ℕ
symbol_of id = id % 2 ^ 16

-- `exchange + ":" + symbol`
abbrev pub key : Bytes → Bytes → Bytes
key exchange symbol = exchange ++ (b':' ∷ symbol)

abbrev num_eq : ℕ → ℕ → Bool
num_eq a b = a == b

-- `get_or_add_venue`: a new venue takes the number of venues as a `uint16_t`, and starts at symbol 0.
unfoldable pub get_or_add_venue : VenueRegistry → Bytes → VenueRegistry × ℕ
unfolding find put
get_or_add_venue r exchange = elim (find bytes_eq exchange r.venue_ids) [
  | some id ↦ (r, id)
  | none ↦ (
    record r {
      venue_ids = put bytes_eq exchange (length r.venue_ids % 2 ^ 16) r.venue_ids;
      next_symbol_idx = put num_eq (length r.venue_ids % 2 ^ 16) 0 r.next_symbol_idx;
    },
    length r.venue_ids % 2 ^ 16,
  )
]

-- `next_symbol_idx_[vid]`: a missing entry reads as 0.
abbrev pub next_symbol : VenueRegistry → ℕ → ℕ
next_symbol r vid = elim (find num_eq vid r.next_symbol_idx) [ some n ↦ n | none ↦ 0 ]

-- One round of the constructor's loop.
unfoldable pub add_row : VenueRegistry → StreamRow → VenueRegistry
add_row r row =
    let (r', vid) = get_or_add_venue r row.exchange in
    record r' {
      next_symbol_idx = put num_eq vid ((next_symbol r' vid + 1) % 2 ^ 16) r'.next_symbol_idx;
      instrument_map =
          put bytes_eq (key row.exchange row.symbol) (pack vid (next_symbol r' vid))
            r'.instrument_map;
    }

unfoldable pub add_rows : VenueRegistry → List StreamRow → VenueRegistry
add_rows r [] = r
add_rows r (row ∷ rows) = add_rows (add_row r row) rows

unfoldable pub venue_registry : List StreamRow → VenueRegistry
venue_registry rows = add_rows empty_registry rows

unfoldable pub lookup : VenueRegistry → Bytes → Bytes → Option ℕ
lookup r exchange symbol = find bytes_eq (key exchange symbol) r.instrument_map

pub size : VenueRegistry → ℕ
size r = length r.instrument_map % 2 ^ 32
