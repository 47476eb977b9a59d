-- ===== src/Sbe/Decode.antt =====
-- What `SBEDecoder::decode` of src/market_data/data_ingester/sbe_decoder.cpp puts into the queue.
use hft_system.Prelude.{
  ℕ, zero, suc, ◌+◌, ◌*◌, ◌≤◌, ◌≡◌, refl, arith, List, [], ◌∷◌, ◌++◌, length, some, take, drop, sym,
  ◌∙◌, ap, ap₂, subst, ◌⊎◌, inl, inr, length-append,
}
use hft_system.Market.{Side, buy, sell, MarketUpdate}
use hft_system.Queue.{LfQueue, push, push_all}
use hft_system.Queue.Fifo.{IsRing, contents, push_all-contents, push_all-append}
use hft_system.Registry.{VenueRegistry, lookup, Bytes}
use hft_system.Sbe.{
  MessageSchema, Prescan, Stamp, stamp, prescan, level_update, push_levels, push_groups, decode,
}
use hft_system.Sbe.Measure.{Checked, prescan-Checked, decode_cases}

-- The updates of `n` blocks of `block_len` bytes, the first at `offset`.
abbrev pub levels_at : List ℕ → MessageSchema → Stamp → Side → ℕ → ℕ → ℕ → List MarketUpdate
levels_at msg schema st side block_len zero offset = []
levels_at msg schema st side block_len (suc n) offset =
    level_update msg schema st side offset
    ∷ levels_at msg schema st side block_len n (offset + block_len)

-- The updates of both groups.
abbrev pub group_levels : List ℕ → MessageSchema → Stamp → Prescan → ℕ → List MarketUpdate
group_levels msg schema st s offset =
    levels_at msg schema st buy s.bid_block_len s.num_bids (offset + 4)
    ++ levels_at msg schema st sell s.ask_block_len s.num_asks
        (offset + 4 + s.bid_block_len * s.num_bids + 4)

length-levels_at :
    (msg : List ℕ) (schema : MessageSchema) (st : Stamp) (side : Side) (block_len n offset : ℕ)
    → length (levels_at msg schema st side block_len n offset) ≡ n
length-levels_at msg schema st side block_len zero offset = refl
length-levels_at msg schema st side block_len (suc n) offset =
    ap suc (length-levels_at msg schema st side block_len n (offset + block_len))

push_levels-full :
    (msg : List ℕ) (schema : MessageSchema) (st : Stamp) (side : Side) (block_len n offset : ℕ)
    (q : LfQueue MarketUpdate)
    → offset + block_len * n ≤ length msg
    → push_levels msg schema st side block_len n offset q
      ≡ (push_all q (levels_at msg schema st side block_len n offset), offset + block_len * n)
unfolding push_levels push_all
push_levels-full msg schema st side block_len zero offset q h = ap (λ k. (q, k)) (omega arith)
push_levels-full msg schema st side block_len (suc n) offset q h =
    let rest =
      push_levels-full msg schema st side block_len n (offset + block_len)
        (push q (level_update msg schema st side offset)) (omega arith) in
    ground arith

push_groups_lem :
    (msg : List ℕ) (schema : MessageSchema) (st : Stamp) (offset : ℕ) (s : Prescan)
    (q : LfQueue MarketUpdate) {q' : LfQueue MarketUpdate} {after_bids : ℕ}
    → push_levels msg schema st buy s.bid_block_len s.num_bids (offset + 4) q ≡ (q', after_bids)
    → push_groups msg schema st s offset q
      ≡ (push_levels msg schema st sell s.ask_block_len s.num_asks (after_bids + 4) q').0
unfolding push_groups
push_groups_lem msg schema st offset s q e =
    ap (λ r. (push_levels msg schema st sell s.ask_block_len s.num_asks (r.1 + 4) r.0).0) e

pub push_groups-full :
    (msg : List ℕ) (schema : MessageSchema) (st : Stamp) (offset : ℕ) (s : Prescan)
    (q : LfQueue MarketUpdate)
    → Checked msg offset s
    → push_groups msg schema st s offset q ≡ push_all q (group_levels msg schema st s offset)
push_groups-full msg schema st offset s q c =
    let bids =
      push_levels-full msg schema st buy s.bid_block_len s.num_bids (offset + 4) q
        (omega (arith, c.bids_at, c.asks_at, c.fits)) in
    let asks =
      push_levels-full msg schema st sell s.ask_block_len s.num_asks
        (offset + 4 + s.bid_block_len * s.num_bids + 4)
        (push_all q (levels_at msg schema st buy s.bid_block_len s.num_bids (offset + 4)))
        (omega (arith, c.bids_at, c.asks_at, c.fits)) in
    push_groups_lem msg schema st offset s q bids ∙ ap (λ r. r.0) asks ∙ sym (push_all-append _ _ q)

length-group_levels :
    (msg : List ℕ) (schema : MessageSchema) (st : Stamp) (s : Prescan) (offset : ℕ)
    → length (group_levels msg schema st s offset) ≡ s.num_bids + s.num_asks
length-group_levels msg schema st s offset =
    length-append (levels_at msg schema st buy s.bid_block_len s.num_bids (offset + 4)) _
    ∙ ap₂ ◌+◌ (length-levels_at msg schema st buy s.bid_block_len s.num_bids (offset + 4))
        (length-levels_at msg schema st sell s.ask_block_len s.num_asks _)

-- For a queue that is a ring with room for the levels that the pre-scan of the message finds: a
-- decode that fails gives 0 and leaves the queue; one that succeeds has found the groups and a
-- known symbol, gives the bytes up to the end of the symbol, and appends one update for each block
-- of the two groups, bids first, in the order of the message.
pub decode-contents :
    (blank : MarketUpdate) (recv_tsc : ℕ) (msg : List ℕ) (schema : MessageSchema)
    (q : LfQueue MarketUpdate) (registry : VenueRegistry) (venue_name : Bytes)
    → IsRing q
    → ((s : Prescan)
        → prescan msg (8 + schema.fixed_block_size) ≡ some s
        → q.num_elements + (s.num_bids + s.num_asks) ≤ length q.store)
    → (decode recv_tsc msg schema q registry venue_name ≡ (0, q))
      ⊎ ((s : Prescan) × (id : ℕ) × (prescan msg (8 + schema.fixed_block_size) ≡ some s)
          × (lookup registry venue_name (take s.sym_len (drop (s.asks_end + 1) msg)) ≡ some id)
          × ((decode recv_tsc msg schema q registry venue_name).0 ≡ s.asks_end + 1 + s.sym_len)
          × IsRing (decode recv_tsc msg schema q registry venue_name).1
          × (contents blank (decode recv_tsc msg schema q registry venue_name).1
              ≡ contents blank q
                ++ group_levels msg schema
                    (stamp recv_tsc msg schema id)
                    s
                    (8 + schema.fixed_block_size)))
decode-contents blank recv_tsc msg schema q registry venue_name ring room =
    elim (decode_cases recv_tsc msg schema q registry venue_name) [
      | inl e ↦ inl e
      | inr (s, id, h, found, known, e) ↦
          let st = stamp recv_tsc msg schema id in
          let start = 8 + schema.fixed_block_size in
          let pushed =
            ap (λ r. r.1) e
            ∙ push_groups-full msg schema st start s q (prescan-Checked msg start found) in
          let (ring', same) =
            push_all-contents blank (group_levels msg schema st s start) q ring
              (omega (arith, room s found, length-group_levels msg schema st s start)) in
          inr (
            s,
            id,
            found,
            known,
            ap (λ r. r.0) e,
            subst IsRing (sym pushed) ring',
            ap (contents blank) pushed ∙ same,
          )
    ]
