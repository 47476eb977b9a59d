-- ===== src/Sbe.antt =====
-- The SBE decoder: include/market_data/data_ingester/message_schema.h and schema_registry.h,
-- src/market_data/data_ingester/sbe_decoder.cpp and sbe_venue_parser.cpp. A message is a list of
-- bytes; the machine is little-endian, as the x86 instructions of the program require. Offsets are
-- exact: with the schemas here and messages of at most 2 ^ 32 bytes no `size_t` sum reaches 2 ^ 64.
mod Tests
pub mod Measure
pub mod Decode
pub mod Parse
pub mod Wire
pub mod Encode
pub mod RoundTrip
pub mod Payload
use hft_system.Prelude.{
  ℕ, zero, suc, ◌+◌, ◌-◌, ◌*◌, ◌%◌, ◌^◌, ◌==◌, ltb, leb, ◌||◌, if◌then◌else◌, Bool, true, false,
  List, [], ◌∷◌, length, get_or, take, drop, Option, none, some,
}
use hft_system.Prelude.Int.{ℤ, pos, sub_ℕ, ◌*ℤ◌, tdiv}
use hft_system.Market.{Side, buy, sell, MarketUpdate, market_update}
use hft_system.Queue.{LfQueue, push}
use hft_system.Registry.{VenueRegistry, lookup, Bytes}

pub data IntEncoding : Type 0 where
  int8 int16 int32 int64 uint8 uint16 uint32 uint64 : IntEncoding

pub data TimestampUnit : Type 0 where
  microseconds milliseconds nanoseconds : TimestampUnit

pub data SideSource : Type 0 where
  implicit_by_group inline_field : SideSource

pub data GroupNumEncoding : Type 0 where
  num_uint16 num_uint32 : GroupNumEncoding

pub record ScaledField : Type 0 where
  pub offset : ℕ
  pub raw_type : IntEncoding

pub record SideFieldDef : Type 0 where
  pub source : SideSource
  pub offset : ℕ
  pub raw_type : IntEncoding
  pub buy_value : ℕ

pub record MessageSchema : Type 0 where
  pub template_id : ℕ
  pub schema_id : ℕ
  pub fixed_block_size : ℕ
  pub event_time_offset : ℕ
  pub event_time_unit : TimestampUnit
  pub price_exp_offset : ℕ
  pub qty_exp_offset : ℕ
  pub price_field : ScaledField
  pub qty_field : ScaledField
  pub side_field : SideFieldDef
  pub num_groups : ℕ
  pub group_num_encoding : GroupNumEncoding
  pub num_vardata : ℕ
  pub skip : Bool

abbrev implicit_side : SideFieldDef
implicit_side = record { source = implicit_by_group; offset = 0; raw_type = uint8; buy_value = 0 }

abbrev pub binance_depth_diff : MessageSchema
binance_depth_diff = record {
  template_id = 10003;
  schema_id = 1;
  fixed_block_size = 26;
  event_time_offset = 0;
  event_time_unit = microseconds;
  price_exp_offset = 24;
  qty_exp_offset = 25;
  price_field = record { offset = 0; raw_type = int64 };
  qty_field = record { offset = 8; raw_type = int64 };
  side_field = implicit_side;
  num_groups = 2;
  group_num_encoding = num_uint16;
  num_vardata = 1;
  skip = false;
}

abbrev pub binance_depth_snapshot : MessageSchema
binance_depth_snapshot = record {
  template_id = 10002;
  schema_id = 1;
  fixed_block_size = 18;
  event_time_offset = 0;
  event_time_unit = microseconds;
  price_exp_offset = 16;
  qty_exp_offset = 17;
  price_field = record { offset = 0; raw_type = int64 };
  qty_field = record { offset = 8; raw_type = int64 };
  side_field = implicit_side;
  num_groups = 2;
  group_num_encoding = num_uint16;
  num_vardata = 1;
  skip = false;
}

abbrev pub binance_best_bid_ask : MessageSchema
binance_best_bid_ask = record {
  template_id = 10001;
  schema_id = 1;
  fixed_block_size = 50;
  event_time_offset = 0;
  event_time_unit = microseconds;
  price_exp_offset = 16;
  qty_exp_offset = 17;
  price_field = record { offset = 0; raw_type = int64 };
  qty_field = record { offset = 8; raw_type = int64 };
  side_field = implicit_side;
  num_groups = 0;
  group_num_encoding = num_uint16;
  num_vardata = 1;
  skip = true;
}

abbrev pub binance_trades : MessageSchema
binance_trades = record {
  template_id = 10000;
  schema_id = 1;
  fixed_block_size = 18;
  event_time_offset = 0;
  event_time_unit = microseconds;
  price_exp_offset = 16;
  qty_exp_offset = 17;
  price_field = record { offset = 8; raw_type = int64 };
  qty_field = record { offset = 16; raw_type = int64 };
  side_field = implicit_side;
  num_groups = 1;
  group_num_encoding = num_uint32;
  num_vardata = 1;
  skip = true;
}

-- `SchemaRegistry`: one schema for a template id, the last one registered.
unfoldable pub register_schema : List MessageSchema → MessageSchema → List MessageSchema
register_schema [] s = s ∷ []
register_schema (t ∷ ts) s =
    if t.template_id == s.template_id then s ∷ ts else t ∷ register_schema ts s

unfoldable pub find_schema : List MessageSchema → ℕ → Option MessageSchema
find_schema [] id = none
find_schema (t ∷ ts) id = if t.template_id == id then some t else find_schema ts id

-- The number that bytes stand for, the least significant first.
pub le_value : List ℕ → ℕ
le_value [] = 0
le_value (b ∷ bs) = b + 256 * le_value bs

-- `read_le` of an unsigned type of `width` bytes; 0 out of range.
pub read_le : ℕ → List ℕ → ℕ → ℕ
unfolding le_value
read_le width buf offset =
    if ltb (length buf) (offset + width) then 0 else le_value (take width (drop offset buf))

-- `read_le` of a signed type: the pattern in two's complement.
pub read_signed : ℕ → List ℕ → ℕ → ℤ
unfolding read_le
read_signed width buf offset =
    let v = read_le width buf offset in
    if ltb v (2 ^ (8 * width - 1)) then pos v else sub_ℕ v (2 ^ (8 * width))

-- The pattern of a `uint64_t` cast to `int64_t`.
abbrev as_int64 : ℕ → ℤ
as_int64 v = if ltb v (2 ^ 63) then pos v else sub_ℕ v (2 ^ 64)

pub read_scaled : List ℕ → ℕ → IntEncoding → ℤ
unfolding read_signed read_le
read_scaled buf offset int8 = read_signed 1 buf offset
read_scaled buf offset int16 = read_signed 2 buf offset
read_scaled buf offset int32 = read_signed 4 buf offset
read_scaled buf offset int64 = read_signed 8 buf offset
read_scaled buf offset uint8 = pos (read_le 1 buf offset)
read_scaled buf offset uint16 = pos (read_le 2 buf offset)
read_scaled buf offset uint32 = pos (read_le 4 buf offset)
read_scaled buf offset uint64 = as_int64 (read_le 8 buf offset)

-- `event_time_us`
pub event_time : TimestampUnit → ℤ → ℤ
event_time microseconds raw = raw
event_time milliseconds raw = raw *ℤ pos 1000
event_time nanoseconds raw = tdiv raw 1000

-- What the pre-scan of `decode` finds: the two groups and the symbol behind them.
pub record Prescan : Type 0 where
  pub bid_block_len : ℕ
  pub num_bids : ℕ
  pub ask_block_len : ℕ
  pub num_asks : ℕ
  pub asks_end : ℕ
  pub sym_len : ℕ

-- The symbol behind the groups, if its length byte and its bytes are there.
pub scan_symbol : List ℕ → ℕ → ℕ → ℕ → ℕ → ℕ → Option Prescan
scan_symbol msg bid_block_len num_bids ask_block_len num_asks asks_end =
    let sym_len = get_or msg asks_end 0 in
    if leb (length msg) asks_end
    then none
    else if ltb (length msg) (asks_end + 1 + sym_len)
    then none
    else some (record {
      bid_block_len = bid_block_len;
      num_bids = num_bids;
      ask_block_len = ask_block_len;
      num_asks = num_asks;
      asks_end = asks_end;
      sym_len = sym_len;
    })

-- The pre-scan from the end of the fixed block on.
pub prescan : List ℕ → ℕ → Option Prescan
prescan msg offset =
    let bid_block_len = read_le 2 msg offset in
    let num_bids = read_le 2 msg (offset + 2) in
    let bids_end = offset + 4 + bid_block_len * num_bids in
    let ask_block_len = read_le 2 msg bids_end in
    let num_asks = read_le 2 msg (bids_end + 2) in
    let asks_end = bids_end + 4 + ask_block_len * num_asks in
    if ltb (length msg) (offset + 4)
    then none
    else if ltb (length msg) (bids_end + 4)
    then none
    else scan_symbol msg bid_block_len num_bids ask_block_len num_asks asks_end

-- What all levels of a message share.
pub record Stamp : Type 0 where
  pub instrument_id : ℕ
  pub price_exp : ℤ
  pub qty_exp : ℤ
  pub event_time_us : ℤ
  pub recv_tsc : ℕ

-- The update of the level whose block starts at `offset`.
pub level_update : List ℕ → MessageSchema → Stamp → Side → ℕ → MarketUpdate
unfolding market_update
level_update msg schema st side offset =
    let price = read_scaled msg (offset + schema.price_field.offset) schema.price_field.raw_type in
    let qty = read_scaled msg (offset + schema.qty_field.offset) schema.qty_field.raw_type in
    record (market_update st.instrument_id side price qty st.price_exp st.qty_exp
      st.event_time_us) { recv_tsc = st.recv_tsc }

-- The bid loop and the ask loop, `n` rounds from `offset` on: the queue and the last offset.
pub push_levels :
    List ℕ
    → MessageSchema
    → Stamp
    → Side
    → ℕ
    → ℕ
    → ℕ
    → LfQueue MarketUpdate
    → LfQueue MarketUpdate × ℕ
push_levels msg schema st side block_len zero offset q = (q, offset)
push_levels msg schema st side block_len (suc n) offset q =
    if ltb (length msg) (offset + block_len)
    then (q, offset)
    else push_levels msg schema st side block_len n (offset + block_len)
        (push q (level_update msg schema st side offset))

-- Both loops; `offset` is the end of the fixed block.
pub push_groups :
    List ℕ → MessageSchema → Stamp → Prescan → ℕ → LfQueue MarketUpdate → LfQueue MarketUpdate
push_groups msg schema st s offset q =
    let (q', after_bids) =
      push_levels msg schema st buy s.bid_block_len s.num_bids (offset + 4) q in
    (push_levels msg schema st sell s.ask_block_len s.num_asks (after_bids + 4) q').0

-- What is read from the fixed block.
abbrev pub stamp : ℕ → List ℕ → MessageSchema → ℕ → Stamp
stamp recv_tsc msg schema id = record {
  instrument_id = id;
  price_exp = read_signed 1 msg (8 + schema.price_exp_offset);
  qty_exp = read_signed 1 msg (8 + schema.qty_exp_offset);
  event_time_us =
      event_time schema.event_time_unit (read_signed 8 msg (8 + schema.event_time_offset));
  recv_tsc = recv_tsc;
}

-- `SBEDecoder::decode`: the bytes consumed, 0 on an error, and the queue. `recv_tsc` is the reading
-- of the time stamp counter.
pub decode :
    ℕ
    → List ℕ
    → MessageSchema
    → LfQueue MarketUpdate
    → VenueRegistry
    → Bytes
    → ℕ × LfQueue MarketUpdate
decode recv_tsc msg schema q registry venue_name =
    let offset = 8 + schema.fixed_block_size in
    if ltb (length msg) 8
    then (0, q)
    else if ltb (length msg) offset
    then (0, q)
    else elim (prescan msg offset) [
      | none ↦ (0, q)
      | some s ↦ elim (lookup registry venue_name (take s.sym_len (drop (s.asks_end + 1) msg))) [
        | none ↦ (0, q)
        | some id ↦ (
          s.asks_end + 1 + s.sym_len,
          push_groups msg schema (stamp recv_tsc msg schema id) s offset q,
        )
      ]
    ]

-- The loops of `measure`, over the groups and over the trailing texts: the new offset, or `none` for
-- `return 0`.
pub measure_groups : List ℕ → GroupNumEncoding → ℕ → ℕ → Option ℕ
measure_groups msg enc zero offset = some offset
measure_groups msg num_uint32 (suc g) offset =
    let rest =
      measure_groups msg num_uint32 g
        (offset + (6 + read_le 2 msg offset * read_le 4 msg (offset + 2))) in
    if ltb (length msg) (offset + 4)
    then none
    else if ltb (length msg) (offset + 6)
    then none
    else rest
measure_groups msg num_uint16 (suc g) offset =
    let rest =
      measure_groups msg num_uint16 g
        (offset + (4 + read_le 2 msg offset * read_le 2 msg (offset + 2))) in
    if ltb (length msg) (offset + 4) then none else rest

pub measure_vardata : List ℕ → ℕ → ℕ → Option ℕ
measure_vardata msg zero offset = some offset
measure_vardata msg (suc v) offset =
    let rest = measure_vardata msg v (offset + (1 + get_or msg offset 0)) in
    if leb (length msg) offset then none else rest

-- `SBEDecoder::measure`
pub measure : List ℕ → MessageSchema → ℕ
measure msg schema =
    if ltb (length msg) 8
    then 0
    else elim (measure_groups msg schema.group_num_encoding schema.num_groups
        (8 + schema.fixed_block_size)) [
          | none ↦ 0
          | some offset ↦ elim (measure_vardata msg schema.num_vardata offset) [
            | none ↦ 0
            | some end ↦ end
          ]
        ]

-- One message at the front of `msg`: measured if its schema says skip, else decoded.
pub take_message :
    ℕ
    → List ℕ
    → MessageSchema
    → LfQueue MarketUpdate
    → VenueRegistry
    → Bytes
    → ℕ × LfQueue MarketUpdate
take_message recv_tsc msg schema q registry venue_name =
    if schema.skip
    then (measure msg schema, q)
    else decode recv_tsc msg schema q registry venue_name

-- The loop of `SBEVenueParser::parse` from `cursor` on: the queue where it ends, or `none` if the
-- fuel ran out. `clock` gives the reading of the time stamp counter for the message at a cursor.
module _ (clock : ℕ → ℕ) (schemas : List MessageSchema) (registry : VenueRegistry)
    (venue_name : Bytes) (payload : List ℕ) where
  pub parse_from : ℕ → ℕ → LfQueue MarketUpdate → Option (LfQueue MarketUpdate)
  parse_from zero cursor q = none
  parse_from (suc fuel) cursor q =
      if leb (length payload) cursor
      then some q
      else if ltb (length payload) (cursor + 4)
      then some q
      else elim (find_schema schemas (read_le 2 payload (cursor + 2))) [
        | none ↦ some q
        | some schema ↦
            let step =
              take_message (clock cursor) (drop cursor payload) schema q registry venue_name in
            elim step.0 [ zero ↦ some step.1 | suc n ↦ parse_from fuel (cursor + suc n) step.1 ]
      ]

  -- `SBEVenueParser::parse`
  pub parse : LfQueue MarketUpdate → Option (LfQueue MarketUpdate)
  parse q = parse_from (suc (length payload)) 0 q
