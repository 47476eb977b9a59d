-- ===== src/Sbe/Payload.antt =====
-- What the loop of src/market_data/data_ingester/sbe_venue_parser.cpp makes of a payload of several
-- encoded depth messages.
use hft_system.Prelude.{
  ℕ, zero, suc, ◌+◌, ◌-◌, ◌^◌, ◌≤◌, ◌<◌, ◌≡◌, refl, arith, sym, ap, ◌∙◌, List, [], ◌∷◌, ◌++◌,
  length, length-append, drop, All, all_cons, some, append-nil, false,
}
use hft_system.Market.{MarketUpdate}
use hft_system.Queue.{LfQueue, push_all}
use hft_system.Queue.Fifo.{push_all-append}
use hft_system.Registry.{VenueRegistry, lookup, Bytes}
use hft_system.Sbe.{MessageSchema, read_le, find_schema, decode, take_message, parse_from, parse}
use hft_system.Sbe.Wire.{le_bytes, At, At-left, At-right, drop-At, read_le-At}
use hft_system.Sbe.Encode.{
  DepthMessage, group_bytes, symbol_bytes, block_bytes, header_bytes, encode, IsDepth, Fits,
  message_updates,
}
use hft_system.Sbe.RoundTrip.{decode-encode}

-- A message, the schema that it follows and the instrument of its symbol.
pub record Sent : Type 0 where
  pub message : DepthMessage
  pub schema : MessageSchema
  pub instrument_id : ℕ

-- The parser has the schema of the message, and the registry its symbol.
pub record IsKnownTo (schemas : List MessageSchema) (registry : VenueRegistry) (venue_name : Bytes)
    (s : Sent) : Type 0 where
  pub depth : IsDepth s.schema (length s.message.ids)
  pub fits : Fits s.message
  pub described : find_schema schemas s.message.template_id ≡ some s.schema
  pub named : lookup registry venue_name s.message.symbol ≡ some s.instrument_id

abbrev pub payload_bytes : List Sent → List ℕ
payload_bytes [] = []
payload_bytes (s ∷ ss) = encode s.message ++ payload_bytes ss

-- The updates of the messages, each stamped with the reading at its place.
abbrev pub payload_updates : (ℕ → ℕ) → ℕ → List Sent → List MarketUpdate
payload_updates clock cursor [] = []
payload_updates clock cursor (s ∷ ss) =
    message_updates s.instrument_id (clock cursor) s.message
    ++ payload_updates clock (cursor + length (encode s.message)) ss

encode-pos : (m : DepthMessage) → 8 ≤ length (encode m)
unfolding encode
encode-pos m = omega arith

template-At :
    (m : DepthMessage) (offset : ℕ) (msg : List ℕ)
    → At offset (encode m) msg
    → m.template_id < 2 ^ 16
    → read_le 2 msg (offset + 2) ≡ m.template_id
unfolding encode
template-At m offset msg a small =
    let ends = le_bytes 2 m.schema_id ++ le_bytes 2 m.version in
    let header =
      At-left offset (header_bytes m)
        (block_bytes m ++ (group_bytes m.bids ++ (group_bytes m.asks ++ symbol_bytes m.symbol))) msg
        a in
    read_le-At 2 m.template_id (offset + 2) msg
      (At-left (offset + 2) (le_bytes 2 m.template_id) ends msg (
        At-right offset (le_bytes 2 (10 + length m.ids)) (le_bytes 2 m.template_id ++ ends) msg
          header))
      small

module _ (schemas : List MessageSchema) (registry : VenueRegistry) (venue_name : Bytes) where
  take_message-kept :
      (recv_tsc : ℕ) (msg : List ℕ) (schema : MessageSchema) (q : LfQueue MarketUpdate)
      → schema.skip ≡ false
      → take_message recv_tsc msg schema q registry venue_name
        ≡ decode recv_tsc msg schema q registry venue_name
  unfolding take_message
  take_message-kept recv_tsc msg schema q kept = ground arith

  take_message-encode :
      (s : Sent) (recv_tsc : ℕ) (msg : List ℕ) (q : LfQueue MarketUpdate)
      → IsKnownTo schemas registry venue_name s
      → At 0 (encode s.message) msg
      → take_message recv_tsc msg s.schema q registry venue_name ≡ (
        length (encode s.message),
        push_all q (message_updates s.instrument_id recv_tsc s.message),
      )
  take_message-encode s recv_tsc msg q k a =
      take_message-kept recv_tsc msg s.schema q k.depth.taken
      ∙ decode-encode s.schema s.message k.depth k.fits msg a s.instrument_id recv_tsc registry
          venue_name q k.named

  module _ (clock : ℕ → ℕ) (payload : List ℕ) where
    parse_from-step :
        (fuel cursor n : ℕ) (q q' : LfQueue MarketUpdate) {schema : MessageSchema}
        → cursor + 4 ≤ length payload
        → find_schema schemas (read_le 2 payload (cursor + 2)) ≡ some schema
        → take_message (clock cursor) (drop cursor payload) schema q registry venue_name
          ≡ (suc n, q')
        → parse_from clock schemas registry venue_name payload (suc fuel) cursor q
          ≡ parse_from clock schemas registry venue_name payload fuel (cursor + suc n) q'
    unfolding parse_from
    parse_from-step fuel cursor n q q' h known taken = ground arith

    parse_from-encode :
        (ss : List Sent) (fuel cursor : ℕ) (q : LfQueue MarketUpdate)
        → All (IsKnownTo schemas registry venue_name) ss
        → At cursor (payload_bytes ss) payload
        → cursor + length (payload_bytes ss) ≡ length payload
        → length ss < fuel
        → parse_from clock schemas registry venue_name payload fuel cursor q
          ≡ some (push_all q (payload_updates clock cursor ss))
    unfolding parse_from push_all
    parse_from-encode ss zero cursor q all a len h = absurd (omega arith)
    parse_from-encode [] (suc fuel) cursor q all a len h = ground arith
    parse_from-encode (s ∷ ss) (suc fuel) cursor q (all_cons k ks) a len h =
        let m = s.message in
        let here = At-left cursor (encode m) (payload_bytes ss) payload a in
        let (after, dropped) = drop-At cursor (encode m) payload here in
        let front : At 0 (encode m) (drop cursor payload) = record {
          before = [];
          after = after;
          begins = refl;
          whole = dropped;
        } in
        let n = length (encode m) - 1 in
        let whole : length (encode m) ≡ suc n = omega (arith, encode-pos m) in
        let us = message_updates s.instrument_id (clock cursor) m in
        let joined = length-append (encode m) (payload_bytes ss) in
        parse_from-step fuel cursor n q (push_all q us) (omega (arith, encode-pos m, joined))
          (ap (find_schema schemas) (template-At m cursor payload here k.fits.template_small)
            ∙ k.described)
          (take_message-encode s (clock cursor) (drop cursor payload) q k front
            ∙ ap (λ c. (c, push_all q us)) whole)
        ∙ ap
            (λ c.
              parse_from clock schemas registry venue_name payload fuel (cursor + c)
                (push_all q us))
            (sym whole)
        ∙ parse_from-encode ss fuel (cursor + length (encode m)) (push_all q us) ks
            (At-right cursor (encode m) (payload_bytes ss) payload a) (omega (arith, joined))
            (omega arith)
        ∙ ap some
            (sym (push_all-append us (payload_updates clock (cursor + length (encode m)) ss) q))

  length-payload_bytes : (ss : List Sent) → length ss ≤ length (payload_bytes ss)
  length-payload_bytes [] = omega arith
  length-payload_bytes (s ∷ ss) = omega (
    arith,
    length-append (encode s.message) (payload_bytes ss),
    encode-pos s.message,
    length-payload_bytes ss,
  )

  -- The parse of a payload that is one after another the encodings of depth messages, each with a
  -- schema and a symbol that the parser knows and numbers that fit their bytes, pushes the updates
  -- of the messages in order: bids before asks, with the prices, quantities, exponents and times
  -- that were encoded.
  pub parse-encode :
      (clock : ℕ → ℕ) (ss : List Sent) (q : LfQueue MarketUpdate)
      → All (IsKnownTo schemas registry venue_name) ss
      → parse clock schemas registry venue_name (payload_bytes ss) q
        ≡ some (push_all q (payload_updates clock 0 ss))
  unfolding parse
  parse-encode clock ss q all =
      parse_from-encode clock (payload_bytes ss) ss (suc (length (payload_bytes ss))) 0 q all
        (record {
          before = [];
          after = [];
          begins = refl;
          whole = sym (append-nil (payload_bytes ss));
        })
        (omega arith) (omega (arith, length-payload_bytes ss))
