-- ===== src/OrderBook.antt =====
-- The circular limit order book of include/market_data/order_book/order_book.h. A side is an array
-- of 256 price levels with the slots of its best and its worst level and the count of its active
-- levels. The two halves of `addUpdate` are written out one by one, as in the source. Prices are
-- `int64_t` values; their differences are taken exactly, and the casts to `int` wrap.
mod Tests
pub mod Slots
pub mod Window
pub mod Sound
pub mod AskRemove
pub mod AskAdd
pub mod BidRemove
pub mod BidAdd
pub mod Best
pub mod Band
pub mod Stream
pub mod Alias
pub mod Mid
use hft_system.Prelude.{
  ℕ, zero, suc, ◌+◌, ◌-◌, ◌%◌, [], ◌∷◌, ◌==◌, if◌then◌else◌, Bool, true, false, not, ◌&&◌, ◌||◌,
  List, get_or, set, replicate,
}
use hft_system.Prelude.Int.{
  ℤ, pos, pos_part, abs, ◌+ℤ◌, ◌-ℤ◌, tdiv, tmod, to_int32, ltb_ℤ, leb_ℤ, eqb_ℤ,
}
use hft_system.Market.{Side, buy, sell, invalid, MarketUpdate}

abbrev pub lob_depth : ℕ
lob_depth = 256

abbrev pub tick_units : ℕ
tick_units = 1

abbrev pub max_shift_step : ℕ
max_shift_step = 64

-- `struct PriceLevel`
pub record PriceLevel : Type 0 where
  pub price : ℤ
  pub quantity : ℤ
  pub is_active : Bool

abbrev pub empty_level : PriceLevel
empty_level = record { price = pos 0; quantity = pos 0; is_active = false }

-- One side: `bids` or `asks` with its two indices and its count.
pub record BookSide : Type 0 where
  pub levels : List PriceLevel
  pub best : ℕ
  pub worst : ℕ
  pub num : ℕ

-- `class OrderBook`
pub record OrderBook : Type 0 where
  pub bids : BookSide
  pub asks : BookSide
  pub last_update_id : ℕ
  pub price_exp : ℤ
  pub qty_exp : ℤ
  pub exp_set : Bool

abbrev pub level : List PriceLevel → ℕ → PriceLevel
level levels i = get_or levels i empty_level

abbrev pub empty_side : BookSide
empty_side = record { levels = replicate lob_depth empty_level; best = 0; worst = 0; num = 0 }

abbrev pub empty_book : OrderBook
empty_book = record {
  bids = empty_side;
  asks = empty_side;
  last_update_id = 0;
  price_exp = pos 0;
  qty_exp = pos 0;
  exp_set = false;
}

abbrev pub best_price : BookSide → ℤ
best_price s = (level s.levels s.best).price

abbrev pub worst_price : BookSide → ℤ
worst_price s = (level s.levels s.worst).price

-- `((raw % LOB_DEPTH) + LOB_DEPTH) % LOB_DEPTH`, which is never negative.
pub circular : ℤ → ℕ
circular raw = pos_part (tmod (tmod raw lob_depth +ℤ pos lob_depth) lob_depth)

-- One branch of `priceToIndex`: the slot of a price relative to the best level of the side.
pub slot_of : BookSide → ℤ → ℕ
slot_of s price = circular (pos s.best +ℤ tdiv (price -ℤ best_price s) tick_units)

pub price_to_index : OrderBook → ℤ → Bool → ℕ
price_to_index ob price is_bid = if is_bid then slot_of ob.bids price else slot_of ob.asks price

-- The loops that look for the next active level, `fuel` rounds from round `i` on: the first active
-- slot above (below) `index`, or `old` if there is none.
pub scan_up : List PriceLevel → ℕ → ℕ → ℕ → ℕ → ℕ
scan_up levels index old i zero = old
scan_up levels index old i (suc fuel) = elim (level levels ((index + i) % lob_depth)).is_active [
  | true ↦ (index + i) % lob_depth
  | false ↦ scan_up levels index old (i + 1) fuel
]

pub scan_down : List PriceLevel → ℕ → ℕ → ℕ → ℕ → ℕ
scan_down levels index old i zero = old
scan_down levels index old i (suc fuel) =
    elim (level levels ((index + lob_depth - i) % lob_depth)).is_active [
      | true ↦ (index + lob_depth - i) % lob_depth
      | false ↦ scan_down levels index old (i + 1) fuel
    ]

-- `_isActive = false; _quantity = 0;`, the price stays.
abbrev pub clear : List PriceLevel → ℕ → List PriceLevel
clear levels i =
    set levels i (record { price = (level levels i).price; quantity = pos 0; is_active = false })

-- `_price = ...; _quantity = ...; _isActive = true;`
abbrev pub write : List PriceLevel → ℕ → ℤ → ℤ → List PriceLevel
write levels i price quantity =
    set levels i (record { price = price; quantity = quantity; is_active = true })

-- A side after a removal at `index`, where the indices are not yet mended.
abbrev pub cleared : BookSide → ℕ → BookSide
cleared s index = record s { levels = clear s.levels index; num = s.num - 1 }

pub remove_ask : BookSide → ℤ → BookSide
remove_ask s price =
    let index = slot_of s price in
    let t = cleared s index in
    if s.num == 0
    then s
    else if not (level s.levels index).is_active
    then s
    else if t.num == 0
    then record t { best = 0; worst = 0 }
    else if index == s.best
    then record t { best = scan_up t.levels index s.best 1 (lob_depth - 1) }
    else if index == s.worst
    then record t { worst = scan_down t.levels index s.worst 1 (lob_depth - 1) }
    else t

pub remove_bid : BookSide → ℤ → BookSide
remove_bid s price =
    let index = slot_of s price in
    let t = cleared s index in
    if s.num == 0
    then s
    else if not (level s.levels index).is_active
    then s
    else if t.num == 0
    then record t { best = 0; worst = 0 }
    else if index == s.best
    then record t { best = scan_down t.levels index s.best 1 (lob_depth - 1) }
    else if index == s.worst
    then record t { worst = scan_up t.levels index s.worst 1 (lob_depth - 1) }
    else t

-- `static_cast<int>(a - b)`, the distance that the guards on far prices test.
abbrev pub step_size : ℤ → ℤ → ℤ
step_size a b = to_int32 (a -ℤ b)

-- The first level of an empty side goes to the slot `|price| % LOB_DEPTH`.
abbrev pub add_first : BookSide → ℤ → ℤ → BookSide
add_first s price quantity =
    let index = abs price % lob_depth in
    record {
      levels = write s.levels index price quantity;
      best = index;
      worst = index;
      num = s.num + 1;
    }

-- The second level, or a new quantity of the only one. The count grows if the price at the other
-- end is not the price of the update.
pub add_ask_single : BookSide → ℤ → ℤ → BookSide
add_ask_single s price quantity =
    let index = slot_of s price in
    let worst = if ltb_ℤ (best_price s) price then index else s.worst in
    let best =
      if ltb_ℤ (best_price s) price
      then s.best
      else if ltb_ℤ price (best_price s)
      then index
      else s.best in
    let levels = write s.levels index price quantity in
    let other = (level levels (if best == index then worst else best)).price in
    if ltb_ℤ (pos max_shift_step) (to_int32 (pos (abs (price -ℤ best_price s))))
    then s
    else record {
      levels = levels;
      best = best;
      worst = worst;
      num = if eqb_ℤ price other then s.num else s.num + 1;
    }

pub add_bid_single : BookSide → ℤ → ℤ → BookSide
add_bid_single s price quantity =
    let index = slot_of s price in
    let best = if ltb_ℤ (best_price s) price then index else s.best in
    let worst =
      if ltb_ℤ (best_price s) price
      then s.worst
      else if ltb_ℤ price (best_price s)
      then index
      else s.worst in
    let levels = write s.levels index price quantity in
    let other = (level levels (if best == index then worst else best)).price in
    if ltb_ℤ (pos max_shift_step) (to_int32 (pos (abs (price -ℤ best_price s))))
    then s
    else record {
      levels = levels;
      best = best;
      worst = worst;
      num = if eqb_ℤ price other then s.num else s.num + 1;
    }

-- An update between the two ends.
abbrev pub add_inside : BookSide → ℤ → ℤ → BookSide
add_inside s price quantity =
    let index = slot_of s price in
    record s {
      levels = write s.levels index price quantity;
      num = if not (level s.levels index).is_active then s.num + 1 else s.num;
    }

-- A new best, and a new worst, at the slot of its price.
abbrev pub add_best : BookSide → ℤ → ℤ → BookSide
add_best s price quantity =
    let index = slot_of s price in
    record s { levels = write s.levels index price quantity; best = index; num = s.num + 1 }

abbrev pub add_worst : BookSide → ℤ → ℤ → BookSide
add_worst s price quantity =
    let index = slot_of s price in
    record s { levels = write s.levels index price quantity; worst = index; num = s.num + 1 }

pub add_ask : BookSide → ℤ → ℤ → BookSide
add_ask s price quantity =
    let down = step_size (best_price s) price in
    let up = step_size price (worst_price s) in
    if s.num == 0
    then add_first s price quantity
    else if s.best == s.worst
    then add_ask_single s price quantity
    else if leb_ℤ (best_price s) price && leb_ℤ price (worst_price s)
    then add_inside s price quantity
    else if ltb_ℤ price (best_price s)
    then if ltb_ℤ (pos max_shift_step) down || ltb_ℤ (pos s.best -ℤ down) (pos 0)
      then s
      else add_best s price quantity
    else if ltb_ℤ (pos max_shift_step) up || leb_ℤ (pos lob_depth) (pos s.worst +ℤ up)
    then s
    else add_worst s price quantity

pub add_bid : BookSide → ℤ → ℤ → BookSide
add_bid s price quantity =
    let up = step_size price (best_price s) in
    let down = step_size (worst_price s) price in
    if s.num == 0
    then add_first s price quantity
    else if s.best == s.worst
    then add_bid_single s price quantity
    else if leb_ℤ price (best_price s) && leb_ℤ (worst_price s) price
    then add_inside s price quantity
    else if ltb_ℤ (best_price s) price
    then if ltb_ℤ (pos max_shift_step) up || leb_ℤ (pos lob_depth) (pos s.best +ℤ up)
      then s
      else add_best s price quantity
    else if ltb_ℤ (pos max_shift_step) down || ltb_ℤ (pos s.worst -ℤ down) (pos 0)
    then s
    else add_worst s price quantity

-- `if (!exp_set_) ...`
pub latch : OrderBook → MarketUpdate → OrderBook
latch ob u =
    if not ob.exp_set
    then record ob { price_exp = u.price_exp; qty_exp = u.qty_exp; exp_set = true }
    else ob

pub update_ask : BookSide → MarketUpdate → BookSide
update_ask s u =
    if eqb_ℤ u.quantity (pos 0) then remove_ask s u.price else add_ask s u.price u.quantity

pub update_bid : BookSide → MarketUpdate → BookSide
update_bid s u =
    if eqb_ℤ u.quantity (pos 0) then remove_bid s u.price else add_bid s u.price u.quantity

-- `addUpdate`: every side but SELL goes to the bids.
pub is_sell : Side → Bool
is_sell sell = true
is_sell buy = false
is_sell invalid = false

unfoldable pub add_update : OrderBook → MarketUpdate → OrderBook
unfolding latch is_sell
add_update ob u =
    let o = latch ob u in
    if is_sell u.side
    then record o { asks = update_ask o.asks u }
    else record o { bids = update_bid o.bids u }

-- The accessors.
pub get_best_ask_raw : OrderBook → ℤ
get_best_ask_raw ob = best_price ob.asks

pub get_best_ask_qty_raw : OrderBook → ℤ
get_best_ask_qty_raw ob = (level ob.asks.levels ob.asks.best).quantity

pub get_best_bid_raw : OrderBook → ℤ
get_best_bid_raw ob = best_price ob.bids

pub get_best_bid_qty_raw : OrderBook → ℤ
get_best_bid_qty_raw ob = (level ob.bids.levels ob.bids.best).quantity

pub get_num_of_asks : OrderBook → ℕ
get_num_of_asks ob = ob.asks.num

pub get_num_of_bids : OrderBook → ℕ
get_num_of_bids ob = ob.bids.num

pub is_asks_full : OrderBook → Bool
is_asks_full ob = ob.asks.num == lob_depth

pub is_bids_full : OrderBook → Bool
is_bids_full ob = ob.bids.num == lob_depth

-- `addUpdate` for each update in turn.
unfoldable pub add_updates : OrderBook → List MarketUpdate → OrderBook
add_updates ob [] = ob
add_updates ob (u ∷ us) = add_updates (add_update ob u) us
