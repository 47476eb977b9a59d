-- ===== src/Sbe/Parse.antt =====
-- The loop of `SBEVenueParser::parse` of src/market_data/data_ingester/sbe_venue_parser.cpp: that
-- it ends, and what it puts into the queue.
use hft_system.Prelude.{
  ℕ, zero, suc, ◌+◌, ◌≤◌, ◌<◌, ◌≡◌, refl, arith, sym, ◌∙◌, ap, List, [], ◌++◌, length, drop, some,
  All, all_nil, all_cons, All-append, ◌⊎◌, inl, inr, dec_lt, Option-cases, Bool-cases,
}
use hft_system.Market.{Side, buy, sell, MarketUpdate}
use hft_system.Queue.{LfQueue, push_all}
use hft_system.Queue.Fifo.{push_all-append}
use hft_system.Registry.{VenueRegistry, lookup, Bytes}
use hft_system.Sbe.{
  MessageSchema, Stamp, stamp, level_update, decode, take_message, find_schema, read_le, parse_from,
  parse,
}
use hft_system.Sbe.Measure.{decode_cases, prescan-Checked}
use hft_system.Sbe.Decode.{levels_at, group_levels, push_groups-full}

-- The instrument of an update is one that the registry knows at this venue.
abbrev pub IsKnown : VenueRegistry → Bytes → MarketUpdate → Type 0
IsKnown registry venue_name x =
    (symbol : Bytes) × (lookup registry venue_name symbol ≡ some x.instrument_id)

level_update-instrument :
    (msg : List ℕ) (schema : MessageSchema) (st : Stamp) (side : Side) (offset : ℕ)
    → (level_update msg schema st side offset).instrument_id ≡ st.instrument_id
unfolding level_update
level_update-instrument msg schema st side offset = refl

zero_or_suc : (n : ℕ) → (n ≡ 0) ⊎ ((k : ℕ) × (n ≡ suc k))
zero_or_suc zero = inl refl
zero_or_suc (suc k) = inr (k, refl)

module _ (registry : VenueRegistry) (venue_name : Bytes) where
  levels_at-IsKnown :
      (msg : List ℕ) (schema : MessageSchema) (st : Stamp) (side : Side) (block_len n offset : ℕ)
      (symbol : Bytes)
      → lookup registry venue_name symbol ≡ some st.instrument_id
      → All (IsKnown registry venue_name) (levels_at msg schema st side block_len n offset)
  levels_at-IsKnown msg schema st side block_len zero offset symbol h = all_nil
  levels_at-IsKnown msg schema st side block_len (suc n) offset symbol h =
      all_cons (symbol, rw (level_update-instrument msg schema st side offset) h)
        (levels_at-IsKnown msg schema st side block_len n (offset + block_len) symbol h)

  take_message_lem :
      (recv_tsc : ℕ) (msg : List ℕ) (schema : MessageSchema) (q : LfQueue MarketUpdate)
      → ((take_message recv_tsc msg schema q registry venue_name).1 ≡ q)
        ⊎ (take_message recv_tsc msg schema q registry venue_name
            ≡ decode recv_tsc msg schema q registry venue_name)
  unfolding take_message
  take_message_lem recv_tsc msg schema q = elim (Bool-cases schema.skip) [
    | inl skipped ↦ inl (ground arith)
    | inr kept ↦ inr (ground arith)
  ]

  -- One message pushes updates of known instruments.
  take_message-pushes :
      (recv_tsc : ℕ) (msg : List ℕ) (schema : MessageSchema) (q : LfQueue MarketUpdate)
      → (xs : List MarketUpdate) × ((take_message recv_tsc msg schema q registry venue_name).1
          ≡ push_all q xs)
        × All (IsKnown registry venue_name) xs
  unfolding push_all
  take_message-pushes recv_tsc msg schema q = elim (take_message_lem recv_tsc msg schema q) [
    | inl skipped ↦ ([], skipped, all_nil)
    | inr kept ↦ elim (decode_cases recv_tsc msg schema q registry venue_name) [
      | inl e ↦ ([], ap (λ r. r.1) (kept ∙ e), all_nil)
      | inr (s, id, h, found, known, e) ↦
          let st = stamp recv_tsc msg schema id in
          let start = 8 + schema.fixed_block_size in
          (
            group_levels msg schema st s start,
            ap (λ r. r.1) (kept ∙ e)
                ∙ push_groups-full msg schema st start s q (prescan-Checked msg start found),
            All-append (IsKnown registry venue_name)
                (levels_at-IsKnown msg schema st buy s.bid_block_len s.num_bids (start + 4) _ known)
                (levels_at-IsKnown msg schema st sell s.ask_block_len s.num_asks _ _ known),
          )
    ]
  ]

  module _ (clock : ℕ → ℕ) (schemas : List MessageSchema) (payload : List ℕ) where
    parse_from_lem :
        (fuel cursor : ℕ) (q : LfQueue MarketUpdate) {schema : MessageSchema}
        → cursor + 4 ≤ length payload
        → find_schema schemas (read_le 2 payload (cursor + 2)) ≡ some schema
        → let step =
            take_message (clock cursor) (drop cursor payload) schema q registry venue_name in
          let run = parse_from clock schemas registry venue_name payload in
          (run (suc fuel) cursor q ≡ some step.1)
          ⊎ ((n : ℕ) × (run (suc fuel) cursor q ≡ run fuel (cursor + suc n) step.1))
    unfolding parse_from
    parse_from_lem fuel cursor q {schema} h known =
        elim (zero_or_suc
          (take_message (clock cursor) (drop cursor payload) schema q registry venue_name).0) [
            | inl e ↦ inl (ground arith)
            | inr (n, e) ↦ inr (n, ground arith)
          ]

    -- The loop ends if the fuel reaches beyond the payload, and it pushes updates of known instruments.
    parse_from-pushes :
        (fuel cursor : ℕ) (q : LfQueue MarketUpdate)
        → length payload < cursor + fuel
        → 0 < fuel
        → (xs : List MarketUpdate) × (parse_from clock schemas registry venue_name payload fuel
              cursor q
            ≡ some (push_all q xs))
          × All (IsKnown registry venue_name) xs
    unfolding parse_from push_all
    parse_from-pushes zero cursor q h pos = absurd (omega arith)
    parse_from-pushes (suc fuel) cursor q h pos = elim (dec_lt cursor (length payload)) [
      | no past ↦ ([], ground arith, all_nil)
      | yes before ↦ elim (dec_lt (length payload) (cursor + 4)) [
        | yes short ↦ ([], ground arith, all_nil)
        | no long ↦ elim (Option-cases (find_schema schemas (read_le 2 payload (cursor + 2)))) [
          | inl unknown ↦ ([], ground arith, all_nil)
          | inr (schema, known) ↦
              let (xs, pushed, all) =
                take_message-pushes (clock cursor) (drop cursor payload) schema q in
              elim (parse_from_lem fuel cursor q (omega arith) known) [
                | inl e ↦ (xs, e ∙ ap some pushed, all)
                | inr (n, e) ↦
                    let (ys, rest, more) =
                      parse_from-pushes fuel (cursor + suc n) _ (omega arith) (omega arith) in
                    (
                      xs ++ ys,
                      e
                          ∙ rest
                          ∙ ap some
                              (ap (λ t. push_all t ys) pushed ∙ sym (push_all-append xs ys q)),
                      All-append (IsKnown registry venue_name) all more,
                    )
              ]
        ]
      ]
    ]

    -- The parse of any payload ends, and what it has done to the queue is to push a list of
    -- updates each of whose instruments the registry gives for a symbol of this venue.
    pub parse-pushes :
        (q : LfQueue MarketUpdate)
        → (xs : List MarketUpdate) × (parse clock schemas registry venue_name payload q
            ≡ some (push_all q xs))
          × All (IsKnown registry venue_name) xs
    unfolding parse
    parse-pushes q = parse_from-pushes (suc (length payload)) 0 q (omega arith) (omega arith)
