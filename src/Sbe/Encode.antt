-- ===== src/Sbe/Encode.antt =====
-- The depth messages of include/market_data/data_ingester/message_schema.h as a venue writes them: a
-- reference for the decoder of src/market_data/data_ingester/sbe_decoder.cpp. Behind the header of 8
-- bytes stand the time, ids that the program does not read, two exponents, a group of bids, a group
-- of asks and the symbol. A level is a price and a quantity of 8 bytes each.
use hft_system.Prelude.{
  ℕ, ◌+◌, ◌*◌, ◌^◌, ◌<◌, ◌≡◌, refl, arith, ◌∙◌, List, [], ◌∷◌, ◌++◌, length, length-append, All,
  false,
}
use hft_system.Prelude.Int.{ℤ}
use hft_system.Market.{Side, buy, sell, MarketUpdate, market_update}
use hft_system.Registry.{Bytes}
use hft_system.Sbe.{MessageSchema, binance_depth_diff, binance_depth_snapshot, int64, microseconds}
use hft_system.Sbe.Wire.{le_bytes, signed_bytes, IsInt8, IsInt64}

abbrev pub Level : Type 0
Level = record { price : ℤ; quantity : ℤ }

abbrev pub level_bytes : Level → List ℕ
level_bytes l = signed_bytes 8 l.price ++ signed_bytes 8 l.quantity

abbrev pub levels_bytes : List Level → List ℕ
levels_bytes [] = []
levels_bytes (l ∷ ls) = level_bytes l ++ levels_bytes ls

-- The length of a block, their number, and the blocks.
abbrev pub group_bytes : List Level → List ℕ
group_bytes ls = le_bytes 2 16 ++ (le_bytes 2 (length ls) ++ levels_bytes ls)

pub record DepthMessage : Type 0 where
  pub template_id : ℕ
  pub schema_id : ℕ
  pub version : ℕ
  pub time : ℤ
  pub ids : List ℕ
  pub price_exp : ℤ
  pub qty_exp : ℤ
  pub bids : List Level
  pub asks : List Level
  pub symbol : Bytes

-- The fixed block.
abbrev pub block_bytes : DepthMessage → List ℕ
block_bytes m =
    signed_bytes 8 m.time ++ (m.ids ++ (signed_bytes 1 m.price_exp ++ signed_bytes 1 m.qty_exp))

abbrev pub header_bytes : DepthMessage → List ℕ
header_bytes m =
    le_bytes 2 (10 + length m.ids)
    ++ (le_bytes 2 m.template_id ++ (le_bytes 2 m.schema_id ++ le_bytes 2 m.version))

abbrev pub symbol_bytes : Bytes → List ℕ
symbol_bytes symbol = length symbol ∷ symbol

unfoldable pub encode : DepthMessage → List ℕ
encode m =
    header_bytes m
    ++ (block_bytes m ++ (group_bytes m.bids ++ (group_bytes m.asks ++ symbol_bytes m.symbol)))

-- The schema describes depth messages with `ids` bytes of ids.
pub record IsDepth (schema : MessageSchema) (ids : ℕ) : Type 0 where
  pub block : schema.fixed_block_size ≡ 10 + ids
  pub time_at : schema.event_time_offset ≡ 0
  pub unit : schema.event_time_unit ≡ microseconds
  pub price_exp_at : schema.price_exp_offset ≡ 8 + ids
  pub qty_exp_at : schema.qty_exp_offset ≡ 9 + ids
  pub price_at : schema.price_field.offset ≡ 0
  pub price_type : schema.price_field.raw_type ≡ int64
  pub qty_at : schema.qty_field.offset ≡ 8
  pub qty_type : schema.qty_field.raw_type ≡ int64
  pub taken : schema.skip ≡ false

abbrev pub FitsLevel : Level → Type 0
FitsLevel l = IsInt64 l.price × IsInt64 l.quantity

-- Every number of the message fits into its bytes.
pub record Fits (m : DepthMessage) : Type 0 where
  pub template_small : m.template_id < 2 ^ 16
  pub time_small : IsInt64 m.time
  pub price_exp_small : IsInt8 m.price_exp
  pub qty_exp_small : IsInt8 m.qty_exp
  pub few_bids : length m.bids < 2 ^ 16
  pub few_asks : length m.asks < 2 ^ 16
  pub bids_small : All FitsLevel m.bids
  pub asks_small : All FitsLevel m.asks
  pub symbol_short : length m.symbol < 256

-- The update that stands for a level of the message.
abbrev pub update_of : ℕ → ℕ → DepthMessage → Side → Level → MarketUpdate
update_of id recv_tsc m side l =
    record (market_update id side l.price l.quantity m.price_exp m.qty_exp m.time) {
      recv_tsc = recv_tsc;
    }

abbrev pub side_updates : ℕ → ℕ → DepthMessage → Side → List Level → List MarketUpdate
side_updates id recv_tsc m side [] = []
side_updates id recv_tsc m side (l ∷ ls) =
    update_of id recv_tsc m side l ∷ side_updates id recv_tsc m side ls

-- The updates that a message stands for, bids first.
abbrev pub message_updates : ℕ → ℕ → DepthMessage → List MarketUpdate
message_updates id recv_tsc m =
    side_updates id recv_tsc m buy m.bids ++ side_updates id recv_tsc m sell m.asks

pub length-levels_bytes : (ls : List Level) → length (levels_bytes ls) ≡ 16 * length ls
length-levels_bytes [] = refl
length-levels_bytes (l ∷ ls) =
    length-append (level_bytes l) (levels_bytes ls) ∙ omega (arith, length-levels_bytes ls)

pub length-group_bytes : (ls : List Level) → length (group_bytes ls) ≡ 4 + 16 * length ls
length-group_bytes ls = omega (arith, length-levels_bytes ls)

pub length-block_bytes : (m : DepthMessage) → length (block_bytes m) ≡ 10 + length m.ids
length-block_bytes m =
    omega (arith, length-append m.ids (signed_bytes 1 m.price_exp ++ signed_bytes 1 m.qty_exp))

-- Two of the schemas of the program describe depth messages.
pub binance_depth_snapshot-IsDepth : IsDepth binance_depth_snapshot 8
binance_depth_snapshot-IsDepth = record {
  block = refl;
  time_at = refl;
  unit = refl;
  price_exp_at = refl;
  qty_exp_at = refl;
  price_at = refl;
  price_type = refl;
  qty_at = refl;
  qty_type = refl;
  taken = refl;
}

pub binance_depth_diff-IsDepth : IsDepth binance_depth_diff 16
binance_depth_diff-IsDepth = record {
  block = refl;
  time_at = refl;
  unit = refl;
  price_exp_at = refl;
  qty_exp_at = refl;
  price_at = refl;
  price_type = refl;
  qty_at = refl;
  qty_type = refl;
  taken = refl;
}
