-- ===== src/Registry/Ids.antt =====
-- The packed instrument ids of include/market_data/venue_registry.hpp.
use hft_system.Prelude.{ℕ, ◌^◌, ◌<◌, ◌≡◌, arith}
use hft_system.Registry.{pack, venue_of, symbol_of}

-- For a venue and a symbol index of 16 bits, the halves of the packed id are the venue and the
-- symbol index, and the id has 32 bits.
pub pack_halves :
    (venue symbol : ℕ)
    → venue < 2 ^ 16
    → symbol < 2 ^ 16
    → (venue_of (pack venue symbol) ≡ venue)
      × (symbol_of (pack venue symbol) ≡ symbol)
      × (pack venue symbol < 2 ^ 32)
unfolding pack venue_of symbol_of
pack_halves venue symbol h k = omega arith
