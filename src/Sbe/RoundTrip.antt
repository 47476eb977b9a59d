-- ===== src/Sbe/RoundTrip.antt =====
-- What `SBEDecoder::decode` of src/market_data/data_ingester/sbe_decoder.cpp makes of an encoded depth
-- message.
use hft_system.Prelude.{
  ℕ, ◌+◌, ◌*◌, ◌^◌, ◌≤◌, ◌<◌, ◌≡◌, refl, arith, sym, ap, ap₂, subst, ◌∙◌, List, [], ◌∷◌, ◌++◌,
  length, length-append, take, drop, get_or, All, all_cons, some,
}
use hft_system.Prelude.Int.{ℤ}
use hft_system.Market.{Side, buy, sell, MarketUpdate}
use hft_system.Queue.{LfQueue, push_all}
use hft_system.Registry.{VenueRegistry, lookup, Bytes}
use hft_system.Sbe.{
  MessageSchema, IntEncoding, int64, read_le, read_signed, Prescan, scan_symbol, prescan, stamp,
  level_update, read_scaled, event_time, push_groups, decode,
}
use hft_system.Sbe.Measure.{prescan-Checked}
use hft_system.Sbe.Decode.{levels_at, group_levels, push_groups-full}
use hft_system.Sbe.Wire.{
  le_bytes, signed_bytes, At, At-left, At-right, At-le, get_or-At, take-At, read_le-At,
  read_signed-byte, read_signed-word, IsInt64,
}
use hft_system.Sbe.Encode.{
  Level, level_bytes, levels_bytes, group_bytes, DepthMessage, block_bytes, header_bytes,
  symbol_bytes, encode, IsDepth, Fits, FitsLevel, update_of, side_updates, message_updates,
  length-group_bytes, length-block_bytes,
}

abbrev moved :
    {offset offset' : ℕ} {bytes msg : List ℕ}
    → At offset bytes msg
    → offset ≡ offset'
    → At offset' bytes msg
moved {bytes} {msg} a e = subst (λ k. At k bytes msg) e a

-- What the pre-scan finds of two groups of blocks of 16 bytes and a symbol.
abbrev found : ℕ → ℕ → ℕ → ℕ → Prescan
found start bids asks symbol = record {
  bid_block_len = 16;
  num_bids = bids;
  ask_block_len = 16;
  num_asks = asks;
  asks_end = start + 4 + 16 * bids + 4 + 16 * asks;
  sym_len = symbol;
}

scan_symbol-found :
    (msg : List ℕ) (start bids asks symbol : ℕ)
    → get_or msg (start + 4 + 16 * bids + 4 + 16 * asks) 0 ≡ symbol
    → start + 4 + 16 * bids + 4 + 16 * asks + 1 + symbol ≤ length msg
    → scan_symbol msg 16 bids 16 asks (start + 4 + 16 * bids + 4 + 16 * asks)
      ≡ some (found start bids asks symbol)
unfolding scan_symbol
scan_symbol-found msg start bids asks symbol e h = ground arith

prescan-found :
    (msg : List ℕ) (start bids asks symbol : ℕ)
    → read_le 2 msg start ≡ 16
    → read_le 2 msg (start + 2) ≡ bids
    → read_le 2 msg (start + 4 + 16 * bids) ≡ 16
    → read_le 2 msg (start + 4 + 16 * bids + 2) ≡ asks
    → get_or msg (start + 4 + 16 * bids + 4 + 16 * asks) 0 ≡ symbol
    → start + 4 + 16 * bids + 4 + 16 * asks + 1 + symbol ≤ length msg
    → prescan msg start ≡ some (found start bids asks symbol)
unfolding prescan
prescan-found msg start bids asks symbol a b c d e h =
    let last = scan_symbol-found msg start bids asks symbol e h in rw (a, b, c, d) (ground arith)

read_le-small :
    (v offset : ℕ) (msg : List ℕ)
    → At offset (le_bytes 2 v) msg
    → v < 2 ^ 16
    → read_le 2 msg offset ≡ v
read_le-small v offset msg a h = read_le-At 2 v offset msg a h

-- The two numbers in front of a group, and its blocks.
group-At :
    (ls : List Level) (rest msg : List ℕ) (offset : ℕ)
    → At offset (group_bytes ls ++ rest) msg
    → length ls < 2 ^ 16
    → (read_le 2 msg offset ≡ 16)
      × (read_le 2 msg (offset + 2) ≡ length ls)
      × At (offset + 4) (levels_bytes ls) msg
      × At (offset + 4 + 16 * length ls) rest msg
group-At ls rest msg offset a few =
    let group = At-left offset (group_bytes ls) rest msg a in
    let tail =
      At-right offset (le_bytes 2 16) (le_bytes 2 (length ls) ++ levels_bytes ls) msg group in
    (
      read_le-small 16 offset msg
          (At-left offset (le_bytes 2 16) (le_bytes 2 (length ls) ++ levels_bytes ls) msg group)
          (omega arith),
      read_le-small (length ls) (offset + 2) msg
          (At-left (offset + 2) (le_bytes 2 (length ls)) (levels_bytes ls) msg tail) few,
      moved (At-right (offset + 2) (le_bytes 2 (length ls)) (levels_bytes ls) msg tail)
          (omega arith),
      moved (At-right offset (group_bytes ls) rest msg a) (omega (arith, length-group_bytes ls)),
    )

read_word :
    {schema_type : IntEncoding} (x : ℤ) (offset : ℕ) (msg : List ℕ)
    → schema_type ≡ int64
    → At offset (signed_bytes 8 x) msg
    → IsInt64 x
    → read_scaled msg offset schema_type ≡ x
unfolding read_scaled
read_word x offset msg e a h = rw e (read_signed-word x offset msg a h)

decode_found :
    (recv_tsc : ℕ) (msg : List ℕ) (schema : MessageSchema) (q : LfQueue MarketUpdate)
    (registry : VenueRegistry) (venue_name : Bytes) {s : Prescan} {id : ℕ}
    → 8 + schema.fixed_block_size ≤ length msg
    → prescan msg (8 + schema.fixed_block_size) ≡ some s
    → lookup registry venue_name (take s.sym_len (drop (s.asks_end + 1) msg)) ≡ some id
    → decode recv_tsc msg schema q registry venue_name ≡ (
      s.asks_end + 1 + s.sym_len,
      push_groups msg schema (stamp recv_tsc msg schema id) s (8 + schema.fixed_block_size) q,
    )
unfolding decode
decode_found recv_tsc msg schema q registry venue_name fits scanned known = ground arith

module _ (schema : MessageSchema) (m : DepthMessage) (d : IsDepth schema (length m.ids))
    (f : Fits m) (msg : List ℕ) (a : At 0 (encode m) msg) (id recv_tsc : ℕ) where
  abbrev start : ℕ
  start = 8 + schema.fixed_block_size

  block-At : At 8 (block_bytes m) msg
  unfolding encode
  block-At =
      At-left 8 (block_bytes m)
        (group_bytes m.bids ++ (group_bytes m.asks ++ symbol_bytes m.symbol)) msg
        (At-right 0 (header_bytes m)
          (block_bytes m ++ (group_bytes m.bids ++ (group_bytes m.asks ++ symbol_bytes m.symbol)))
          msg a)

  groups-At : At start (group_bytes m.bids ++ (group_bytes m.asks ++ symbol_bytes m.symbol)) msg
  unfolding encode
  groups-At =
      moved
        (At-right 8 (block_bytes m)
          (group_bytes m.bids ++ (group_bytes m.asks ++ symbol_bytes m.symbol)) msg
          (At-right 0 (header_bytes m)
            (block_bytes m ++ (group_bytes m.bids ++ (group_bytes m.asks ++ symbol_bytes m.symbol)))
            msg a))
        (omega (arith, length-block_bytes m, d.block))

  -- The time and the exponents.
  stamp_lem : stamp recv_tsc msg schema id ≡ record {
    instrument_id = id;
    price_exp = m.price_exp;
    qty_exp = m.qty_exp;
    event_time_us = m.time;
    recv_tsc = recv_tsc;
  }
  unfolding event_time
  stamp_lem =
      let exps = signed_bytes 1 m.price_exp ++ signed_bytes 1 m.qty_exp in
      let ids = At-right 8 (signed_bytes 8 m.time) (m.ids ++ exps) msg block-At in
      let behind = At-right 16 m.ids exps msg ids in
      let time : read_signed 8 msg 8 ≡ m.time =
        read_signed-word m.time 8 msg
          (At-left 8 (signed_bytes 8 m.time) (m.ids ++ exps) msg block-At) f.time_small in
      let price : read_signed 1 msg (8 + (8 + length m.ids)) ≡ m.price_exp =
        read_signed-byte m.price_exp (8 + (8 + length m.ids)) msg
          (moved
            (At-left (16 + length m.ids) (signed_bytes 1 m.price_exp) (signed_bytes 1 m.qty_exp) msg
              behind)
            (omega arith))
          f.price_exp_small in
      let qty : read_signed 1 msg (8 + (9 + length m.ids)) ≡ m.qty_exp =
        read_signed-byte m.qty_exp (8 + (9 + length m.ids)) msg
          (moved
            (At-right (16 + length m.ids) (signed_bytes 1 m.price_exp) (signed_bytes 1 m.qty_exp)
              msg behind)
            (omega arith))
          f.qty_exp_small in
      rw (d.time_at, d.unit, d.price_exp_at, d.qty_exp_at) (rw (price, qty, time) refl)

  level_update_lem :
      (side : Side) (l : Level) (offset : ℕ)
      → At offset (level_bytes l) msg
      → FitsLevel l
      → level_update msg schema (stamp recv_tsc msg schema id) side offset
        ≡ update_of id recv_tsc m side l
  unfolding level_update
  level_update_lem side l offset at h =
      let price = At-left offset (signed_bytes 8 l.price) (signed_bytes 8 l.quantity) msg at in
      let qty = At-right offset (signed_bytes 8 l.price) (signed_bytes 8 l.quantity) msg at in
      let price_read =
        read_word l.price (offset + schema.price_field.offset) msg d.price_type
          (moved price (omega (arith, d.price_at))) h.0 in
      let qty_read =
        read_word l.quantity (offset + schema.qty_field.offset) msg d.qty_type
          (moved qty (omega (arith, d.qty_at))) h.1 in
      ap (λ st. level_update msg schema st side offset) stamp_lem ∙ rw (price_read, qty_read) refl

  levels_at_lem :
      (side : Side) (ls : List Level) (offset : ℕ)
      → At offset (levels_bytes ls) msg
      → All FitsLevel ls
      → levels_at msg schema (stamp recv_tsc msg schema id) side 16 (length ls) offset
        ≡ side_updates id recv_tsc m side ls
  levels_at_lem side [] offset at h = refl
  levels_at_lem side (l ∷ ls) offset at (all_cons h hs) =
      ap₂ ◌∷◌
        (level_update_lem side l offset (At-left offset (level_bytes l) (levels_bytes ls) msg at) h)
        (levels_at_lem side ls (offset + 16)
          (At-right offset (level_bytes l) (levels_bytes ls) msg at) hs)

  -- The pre-scan finds the groups and the symbol.
  prescan-encode :
      (prescan msg start ≡ some (found start (length m.bids) (length m.asks) (length m.symbol)))
      × At (start + 4) (levels_bytes m.bids) msg
      × At (start + 4 + 16 * length m.bids + 4) (levels_bytes m.asks) msg
      × At (start + 4 + 16 * length m.bids + 4 + 16 * length m.asks) (symbol_bytes m.symbol) msg
  prescan-encode =
      let (a1, b1, bids, rest) =
        group-At m.bids (group_bytes m.asks ++ symbol_bytes m.symbol) msg start groups-At
          f.few_bids in
      let (a2, b2, asks, last) =
        group-At m.asks (symbol_bytes m.symbol) msg (start + 4 + 16 * length m.bids) rest
          f.few_asks in
      (
        prescan-found msg start (length m.bids) (length m.asks) (length m.symbol) a1 b1 a2 b2
            (get_or-At _ (length m.symbol) m.symbol msg 0 last)
            (omega (arith, At-le _ (symbol_bytes m.symbol) msg last)),
        bids,
        asks,
        last,
      )

  symbol-encode :
      take
        (length m.symbol)
        (drop (start + 4 + 16 * length m.bids + 4 + 16 * length m.asks + 1) msg)
      ≡ m.symbol
  symbol-encode =
      let (found_it, bids, asks, last) = prescan-encode in
      take-At (start + 4 + 16 * length m.bids + 4 + 16 * length m.asks + 1) m.symbol msg (
        At-right (start + 4 + 16 * length m.bids + 4 + 16 * length m.asks) (length m.symbol ∷ [])
          m.symbol msg last)

  length-encode :
      length (encode m)
      ≡ start + 4 + 16 * length m.bids + 4 + 16 * length m.asks + 1 + length m.symbol
  unfolding encode
  length-encode = omega (
    arith,
    d.block,
    length-append (block_bytes m)
        (group_bytes m.bids ++ (group_bytes m.asks ++ symbol_bytes m.symbol)),
    length-block_bytes m,
    length-append (group_bytes m.bids) (group_bytes m.asks ++ symbol_bytes m.symbol),
    length-group_bytes m.bids,
    length-append (group_bytes m.asks) (symbol_bytes m.symbol),
    length-group_bytes m.asks,
  )

  group_levels-encode :
      group_levels msg schema
        (stamp recv_tsc msg schema id)
        (found start (length m.bids) (length m.asks) (length m.symbol))
        start
      ≡ message_updates id recv_tsc m
  group_levels-encode =
      let (found_it, bids, asks, last) = prescan-encode in
      ap₂ ◌++◌ (levels_at_lem buy m.bids (start + 4) bids f.bids_small)
        (levels_at_lem sell m.asks (start + 4 + 16 * length m.bids + 4) asks f.asks_small)

  -- Whatever stands behind the message, its decode gives its length and pushes its updates.
  pub decode-encode :
      (registry : VenueRegistry) (venue_name : Bytes) (q : LfQueue MarketUpdate)
      → lookup registry venue_name m.symbol ≡ some id
      → decode recv_tsc msg schema q registry venue_name
        ≡ (length (encode m), push_all q (message_updates id recv_tsc m))
  decode-encode registry venue_name q known =
      let s = found start (length m.bids) (length m.asks) (length m.symbol) in
      let (found_it, bids, asks, last) = prescan-encode in
      decode_found recv_tsc msg schema q registry venue_name
        (omega (arith, At-le _ (symbol_bytes m.symbol) msg last)) found_it
        (ap (lookup registry venue_name) symbol-encode ∙ known)
      ∙ ap₂ (λ n r. (n, r)) (sym length-encode)
          (push_groups-full msg schema (stamp recv_tsc msg schema id) start s q
              (prescan-Checked msg start found_it)
            ∙ ap (push_all q) group_levels-encode)
