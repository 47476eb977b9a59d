-- ===== src/Sbe/Measure.antt =====
-- `SBEDecoder::decode` and `SBEDecoder::measure` of src/market_data/data_ingester/sbe_decoder.cpp
-- agree on the length of a message.
use hft_system.Prelude.{
  ℕ, ◌+◌, ◌*◌, ◌≤◌, ◌<◌, ◌≡◌, ◌≢◌, refl, arith, List, length, get_or, some, take, drop,
  Option-cases, inl, inr, sym, ◌∙◌, ap, dec_lt, ◌⊎◌,
}
use hft_system.Market.{MarketUpdate}
use hft_system.Queue.{LfQueue}
use hft_system.Registry.{VenueRegistry, lookup, Bytes}
use hft_system.Sbe.{
  MessageSchema, num_uint16, Prescan, scan_symbol, prescan, decode, push_groups, stamp,
  measure_groups, measure_vardata, measure, read_le,
}

scan_symbol_lem :
    (msg : List ℕ) (a b c d e : ℕ) {s : Prescan}
    → scan_symbol msg a b c d e ≡ some s
    → (s.asks_end ≡ e)
      × (s.bid_block_len ≡ a)
      × (s.num_bids ≡ b)
      × (s.ask_block_len ≡ c)
      × (s.num_asks ≡ d)
      × (s.sym_len ≡ get_or msg s.asks_end 0)
      × (e + 1 + s.sym_len ≤ length msg)
unfolding scan_symbol
scan_symbol_lem msg a b c d e h = ground arith

-- The lengths that the pre-scan has checked.
pub record Checked (msg : List ℕ) (offset : ℕ) (s : Prescan) : Type 0 where
  pub bids_end : ℕ
  pub bids_at : bids_end ≡ offset + 4 + s.bid_block_len * s.num_bids
  pub asks_at : s.asks_end ≡ bids_end + 4 + s.ask_block_len * s.num_asks
  pub groups : measure_groups msg num_uint16 2 offset ≡ some s.asks_end
  pub texts : measure_vardata msg 1 s.asks_end ≡ some (s.asks_end + 1 + s.sym_len)
  pub fits : s.asks_end + 1 + s.sym_len ≤ length msg

-- The tests that a found pre-scan has passed.
prescan_lem :
    (msg : List ℕ) (offset : ℕ) {s : Prescan}
    → prescan msg offset ≡ some s
    → let bids_end = offset + 4 + read_le 2 msg offset * read_le 2 msg (offset + 2) in
      (offset + 4 ≤ length msg)
      × (bids_end + 4 ≤ length msg)
      × (scan_symbol msg
            (read_le 2 msg offset)
            (read_le 2 msg (offset + 2))
            (read_le 2 msg bids_end)
            (read_le 2 msg (bids_end + 2))
            (bids_end + 4 + read_le 2 msg bids_end * read_le 2 msg (bids_end + 2))
          ≡ some s)
unfolding prescan
prescan_lem msg offset h = ground arith

measure_groups-two :
    (msg : List ℕ) (offset bids_end asks_end : ℕ)
    → offset + 4 ≤ length msg
    → bids_end + 4 ≤ length msg
    → bids_end ≡ offset + 4 + read_le 2 msg offset * read_le 2 msg (offset + 2)
    → asks_end ≡ bids_end + 4 + read_le 2 msg bids_end * read_le 2 msg (bids_end + 2)
    → measure_groups msg num_uint16 2 offset ≡ some asks_end
unfolding measure_groups
measure_groups-two msg offset bids_end asks_end h k e d =
    let first : offset + (4 + read_le 2 msg offset * read_le 2 msg (offset + 2)) ≡ bids_end =
      omega arith in
    let second : bids_end + (4 + read_le 2 msg bids_end * read_le 2 msg (bids_end + 2)) ≡ asks_end =
      omega arith in
    rw (first, second) (ground arith)

measure_vardata-one :
    (msg : List ℕ) (offset : ℕ)
    → offset < length msg
    → measure_vardata msg 1 offset ≡ some (offset + (1 + get_or msg offset 0))
unfolding measure_vardata
measure_vardata-one msg offset h = ground arith

pub prescan-Checked :
    (msg : List ℕ) (offset : ℕ) {s : Prescan} → prescan msg offset ≡ some s → Checked msg offset s
prescan-Checked msg offset {s} h =
    let (in_bids, in_asks, found) = prescan_lem msg offset h in
    let (e, a, b, c, d, l, fits) = scan_symbol_lem msg _ _ _ _ _ found in
    record {
      bids_end = offset + 4 + read_le 2 msg offset * read_le 2 msg (offset + 2);
      bids_at = rw (a, b) refl;
      asks_at = rw (c, d) e;
      groups = measure_groups-two msg offset _ _ in_bids in_asks refl e;
      texts = measure_vardata-one msg s.asks_end (omega arith) ∙ ap some (omega (arith, l));
      fits = rw e fits;
    }

-- How a decode ends: in an error, which leaves the queue, or with both loops run.
pub decode_cases :
    (recv_tsc : ℕ) (msg : List ℕ) (schema : MessageSchema) (q : LfQueue MarketUpdate)
    (registry : VenueRegistry) (venue_name : Bytes)
    → (decode recv_tsc msg schema q registry venue_name ≡ (0, q))
      ⊎ ((s : Prescan) × (id : ℕ) × (8 + schema.fixed_block_size ≤ length msg)
          × (prescan msg (8 + schema.fixed_block_size) ≡ some s)
          × (lookup registry venue_name (take s.sym_len (drop (s.asks_end + 1) msg)) ≡ some id)
          × (decode recv_tsc msg schema q registry venue_name ≡ (
            s.asks_end + 1 + s.sym_len,
            push_groups msg schema (stamp recv_tsc msg schema id) s (8 + schema.fixed_block_size) q,
          )))
unfolding decode
decode_cases recv_tsc msg schema q registry venue_name =
    elim (dec_lt (length msg) (8 + schema.fixed_block_size)) [
      | yes lt ↦ inl ground arith
      | no ge ↦ elim (Option-cases (prescan msg (8 + schema.fixed_block_size))) [
        | inl none_e ↦ inl ground arith
        | inr (s, e) ↦
            elim (Option-cases
              (lookup registry venue_name (take s.sym_len (drop (s.asks_end + 1) msg)))) [
                | inl none_l ↦ inl ground arith
                | inr (id, l) ↦ inr (s, id, omega arith, e, l, ground arith)
              ]
      ]
    ]

measure_lem :
    (msg : List ℕ) (schema : MessageSchema) {offset end : ℕ}
    → 8 ≤ length msg
    → measure_groups msg schema.group_num_encoding schema.num_groups (8 + schema.fixed_block_size)
      ≡ some offset
    → measure_vardata msg schema.num_vardata offset ≡ some end
    → measure msg schema ≡ end
unfolding measure
measure_lem msg schema h k l = ground arith

-- For a schema with two 16-bit groups and one trailing text, if a decode of a message succeeds,
-- the length it gives is the one that measure gives, and lies in the buffer.
pub decode-measure :
    (recv_tsc : ℕ) (msg : List ℕ) (schema : MessageSchema) (q : LfQueue MarketUpdate)
    (registry : VenueRegistry) (venue_name : Bytes)
    → schema.num_groups ≡ 2
    → schema.group_num_encoding ≡ num_uint16
    → schema.num_vardata ≡ 1
    → (decode recv_tsc msg schema q registry venue_name).0 ≢ 0
    → (measure msg schema ≡ (decode recv_tsc msg schema q registry venue_name).0)
      × ((decode recv_tsc msg schema q registry venue_name).0 ≤ length msg)
decode-measure recv_tsc msg schema q registry venue_name groups enc texts ok =
    elim (decode_cases recv_tsc msg schema q registry venue_name) [
      | inl e ↦ absurd (ok (ap (λ r. r.0) e))
      | inr (s, id, h, found, known, e) ↦
          let c = prescan-Checked msg (8 + schema.fixed_block_size) found in
          (
            measure_lem msg schema {offset = s.asks_end} {end = s.asks_end + 1 + s.sym_len}
                  (omega arith) (rw (enc, groups) c.groups) (rw texts c.texts)
                ∙ sym (ap (λ r. r.0) e),
            omega (arith, ap (λ r. r.0) e, c.fits),
          )
    ]
