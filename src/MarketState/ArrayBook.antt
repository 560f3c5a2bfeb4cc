-- ===== src/MarketState/ArrayBook.antt =====
-- crates/market-state/src/book/array_book.rs: price levels in two arrays of `n` lots, with a
-- cached index of the best level of each side that is recomputed when an update has marked it.
pub mod Scan
pub mod Best
pub mod Levels
pub mod Total
pub mod Lawful
mod Tests
use mantis.Prelude.{
  ℕ, zero, suc, ◌+◌, ◌%◌, ◌^◌, Bool, true, false, List, [], ◌∷◌, Option, none, some, get_or, set,
  replicate, length, ltb, leb, if◌then◌else◌,
}
use mantis.Prelude.Int.{ℤ, pos, negsuc, ltb_ℤ}
use mantis.Prelude.I64.{add_i64}
use mantis.Types.{Side, Ticks, Lots, zero_lots}
use mantis.MarketState.Book.{OrderBook}
use mantis.Events.{UpdateAction}

pub record ArrayBook : Type 0 where
  pub bids : List Lots
  pub asks : List Lots
  pub best_bid_idx : Option ℕ
  pub best_ask_idx : Option ℕ
  pub bid_dirty : Bool
  pub ask_dirty : Bool

-- `self.bids[i]`; the source panics out of range, and `IsValid` keeps every index in range.
abbrev pub level : List Lots → ℕ → Lots
level xs i = get_or xs i zero_lots

-- `to_raw() > 0`
abbrev pub is_live : Lots → Bool
is_live q = ltb_ℤ (pos 0) q

-- `i as u16`
abbrev pub as_u16 : ℕ → ℕ
as_u16 i = i % 2 ^ 16

-- The loop `for i in (0..n).rev()` of `best_bid`, which breaks at the first live level.
pub scan_down : ℕ → List Lots → Option ℕ
scan_down zero xs = none
scan_down (suc i) xs = if is_live (level xs i) then some (as_u16 i) else scan_down i xs

-- The loop `for i in 0..n` of `best_ask`, with the rounds left and the index.
pub scan_up : ℕ → ℕ → List Lots → Option ℕ
scan_up zero i xs = none
scan_up (suc k) i xs = if is_live (level xs i) then some (as_u16 i) else scan_up k (suc i) xs

-- What a cached index stands for.
abbrev pub quote_at : List Lots → Option ℕ → Option (Ticks × Lots)
quote_at xs none = none
quote_at xs (some i) = some (pos i, level xs i)

-- `i64::try_from(idx)`
pub idx_to_ticks : ℕ → Option Ticks
idx_to_ticks idx = if ltb idx (2 ^ 63) then some (pos idx) else none

module _ (n : ℕ) where
  pub default : ArrayBook
  default = record {
    bids = replicate n zero_lots;
    asks = replicate n zero_lots;
    best_bid_idx = none;
    best_ask_idx = none;
    bid_dirty = true;
    ask_dirty = true;
  }

  -- The action is not read.
  pub apply_delta : ArrayBook → Ticks → Lots → Side → UpdateAction → ArrayBook
  apply_delta b (negsuc _) qty side action = b
  apply_delta b (pos idx) qty side action = if leb n idx then b else elim side [
    | Side.bid ↦ record b { bids = set b.bids idx qty; bid_dirty = true }
    | Side.ask ↦ record b { asks = set b.asks idx qty; ask_dirty = true }
  ]

  pub clear_side : ArrayBook → Side → ArrayBook
  clear_side b Side.bid = record b {
    bids = replicate n zero_lots;
    best_bid_idx = none;
    bid_dirty = true;
  }
  clear_side b Side.ask = record b {
    asks = replicate n zero_lots;
    best_ask_idx = none;
    ask_dirty = true;
  }

  pub clear : ArrayBook → ArrayBook
  clear b = record {
    bids = replicate n zero_lots;
    asks = replicate n zero_lots;
    best_bid_idx = none;
    best_ask_idx = none;
    bid_dirty = true;
    ask_dirty = true;
  }

  pub best_bid : ArrayBook → Option (Ticks × Lots) × ArrayBook
  best_bid b =
      if b.bid_dirty
      then (
        quote_at b.bids (scan_down n b.bids),
        record b { best_bid_idx = scan_down n b.bids; bid_dirty = false },
      )
      else (quote_at b.bids b.best_bid_idx, b)

  pub best_ask : ArrayBook → Option (Ticks × Lots) × ArrayBook
  best_ask b =
      if b.ask_dirty
      then (
        quote_at b.asks (scan_up n 0 b.asks),
        record b { best_ask_idx = scan_up n 0 b.asks; ask_dirty = false },
      )
      else (quote_at b.asks b.best_ask_idx, b)

-- The two loops of `depth`: `buf[count] = …; count += 1` until the buffer is full.
abbrev pub Buffer : Type 0
Buffer = List (Ticks × Lots)

-- One round of the loop at index `i`.
abbrev pub write_level : List Lots → ℕ → Buffer → ℕ → Buffer × ℕ
write_level xs i buf count =
    if is_live (level xs i)
    then elim (idx_to_ticks i) [
      | none ↦ (buf, count)
      | some price ↦ (set buf count (price, level xs i), count + 1)
    ]
    else (buf, count)

pub depth_down : ℕ → List Lots → Buffer → ℕ → Buffer × ℕ
depth_down zero xs buf count = (buf, count)
depth_down (suc i) xs buf count =
    let (buf', count') = write_level xs i buf count in
    let more = depth_down i xs buf' count' in if leb (length buf) count then (buf, count) else more

pub depth_up : ℕ → ℕ → List Lots → Buffer → ℕ → Buffer × ℕ
depth_up zero i xs buf count = (buf, count)
depth_up (suc k) i xs buf count =
    let (buf', count') = write_level xs i buf count in
    let more = depth_up k (suc i) xs buf' count' in
    if leb (length buf) count then (buf, count) else more

pub depth : ℕ → ArrayBook → Side → Buffer → Buffer × ℕ
depth n b Side.bid buf = depth_down n b.bids buf 0
depth n b Side.ask buf = depth_up n 0 b.asks buf 0

pub count_live : List Lots → ℕ
count_live [] = 0
count_live (q ∷ rest) = (if is_live q then 1 else 0) + count_live rest

pub level_count : ArrayBook → Side → ℕ
level_count b Side.bid = count_live b.bids
level_count b Side.ask = count_live b.asks

-- The two loops of `total_depth`.
pub total_down : ℕ → List Lots → ℕ → Lots → ℕ → Lots
total_down zero xs levels total count = total
total_down (suc i) xs levels total count =
    let more =
      total_down i xs levels (if is_live (level xs i) then add_i64 total (level xs i) else total)
        (if is_live (level xs i) then count + 1 else count) in
    if leb levels count then total else more

pub total_up : ℕ → ℕ → List Lots → ℕ → Lots → ℕ → Lots
total_up zero i xs levels total count = total
total_up (suc k) i xs levels total count =
    let more =
      total_up k (suc i) xs levels
        (if is_live (level xs i) then add_i64 total (level xs i) else total)
        (if is_live (level xs i) then count + 1 else count) in
    if leb levels count then total else more

pub total_depth : ℕ → ArrayBook → Side → ℕ → Lots
total_depth n b Side.bid levels = total_down n b.bids levels zero_lots 0
total_depth n b Side.ask levels = total_up n 0 b.asks levels zero_lots 0

-- `impl OrderBook for ArrayBook<N>`
abbrev pub array_book : ℕ → OrderBook
array_book n = record {
  Book = ArrayBook;
  default = default n;
  apply_delta = apply_delta n;
  clear_side = clear_side n;
  clear = clear n;
  best_bid = best_bid n;
  best_ask = best_ask n;
  level_count = level_count;
  total_depth = total_depth n;
}
