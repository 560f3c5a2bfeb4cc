-- ===== src/MarketState/ArrayBook/Best.antt =====
-- The book as the quantities of its levels: what updates change, and that the cached best quotes
-- are those of the levels.
use mantis.Prelude.{
  ℕ, ◌^◌, ◌≤◌, ◌<◌, ◌≡◌, refl, false, ◌&&◌, List, Option, none, some, arith, if◌then◌else◌, ◌==◌,
  length, set, length-set, length-replicate, get_or-set_self, get_or-set_ne, get_or-replicate,
  ℕ_discrete,
}
use mantis.Prelude.Int.{pos, negsuc}
use mantis.Types.{Lots, Ticks, Side, side_eq, zero_lots}
use mantis.Events.{UpdateAction}
use mantis.MarketState.ArrayBook.{
  ArrayBook, level, scan_down, scan_up, quote_at, default, apply_delta, clear_side, clear, best_bid,
  best_ask,
}
use mantis.MarketState.ArrayBook.Scan.{IsHighest, IsLowest, scan_down-IsHighest, scan_up-IsLowest}

-- The quantities of one side.
abbrev pub side_of : ArrayBook → Side → List Lots
side_of b Side.bid = b.bids
side_of b Side.ask = b.asks

-- The abstract book: the quantity that rests at each price index of each side.
abbrev pub qty_at : ArrayBook → Side → ℕ → Lots
qty_at b s i = level (side_of b s) i

-- The arrays have `n` levels, and a cache that is not marked holds what the scan would find.
pub record IsValid (n : ℕ) (b : ArrayBook) : Type 0 where
  pub small : n ≤ 2 ^ 16
  pub bid_levels : length b.bids ≡ n
  pub ask_levels : length b.asks ≡ n
  pub bid_cached : b.bid_dirty ≡ false → b.best_bid_idx ≡ scan_down n b.bids
  pub ask_cached : b.ask_dirty ≡ false → b.best_ask_idx ≡ scan_up n 0 b.asks

pub default-IsValid : (n : ℕ) → n ≤ 2 ^ 16 → IsValid n (default n)
unfolding default
default-IsValid n h = record {
  small = h;
  bid_levels = length-replicate n zero_lots;
  ask_levels = length-replicate n zero_lots;
  bid_cached = λ e. absurd (ground arith);
  ask_cached = λ e. absurd (ground arith);
}

level-set :
    (xs : List Lots) (i : ℕ) (q : Lots) (j : ℕ)
    → i < length xs
    → level (set xs i q) j ≡ (if i == j then q else level xs j)
level-set xs i q j h = elim (ℕ_discrete i j) [
  | yes e ↦ ground (arith, get_or-set_self xs i q zero_lots h)
  | no ne ↦ ground (arith, get_or-set_ne xs i j q zero_lots ne)
]

module _ (n : ℕ) (b : ArrayBook) where
  -- An update leaves the book well formed, whatever its price, quantity and action.
  pub apply_delta-IsValid :
      (p : Ticks) (q : Lots) (s : Side) (a : UpdateAction)
      → IsValid n b
      → IsValid n (apply_delta n b p q s a)
  unfolding apply_delta
  apply_delta-IsValid (negsuc k) q s a v = v
  apply_delta-IsValid (pos i) q Side.bid a v = ground (arith, length-set b.bids i q)
  apply_delta-IsValid (pos i) q Side.ask a v = ground (arith, length-set b.asks i q)

  -- An update at a price of the array sets that level of its side, and changes no other level.
  pub qty_at-apply_delta :
      (i : ℕ) (q : Lots) (s : Side) (a : UpdateAction) (s' : Side) (j : ℕ)
      → IsValid n b
      → i < n
      → qty_at (apply_delta n b (pos i) q s a) s' j
        ≡ (if side_eq s s' && i == j then q else qty_at b s' j)
  unfolding apply_delta
  qty_at-apply_delta i q Side.bid a s' j v h = ground (arith, level-set b.bids i q j)
  qty_at-apply_delta i q Side.ask a s' j v h = ground (arith, level-set b.asks i q j)

  -- An update at any other price, negative or past the last level, is ignored.
  pub apply_delta_outside :
      (p : Ticks) (q : Lots) (s : Side) (a : UpdateAction)
      → ((i : ℕ) → p ≡ pos i → n ≤ i)
      → apply_delta n b p q s a ≡ b
  unfolding apply_delta
  apply_delta_outside (negsuc k) q s a h = refl
  apply_delta_outside (pos i) q s a h = ground (arith, h i refl)

  -- Clearing a side empties its levels and keeps the other side; the book stays well formed.
  pub clear_side_lem :
      (s s' : Side) (j : ℕ)
      → IsValid n b
      → IsValid n (clear_side n b s)
        × (qty_at (clear_side n b s) s' j ≡ (if side_eq s s' then zero_lots else qty_at b s' j))
  unfolding clear_side
  clear_side_lem Side.bid s' j v =
      (ground (arith, length-replicate n zero_lots), ground (arith, get_or-replicate n j zero_lots))
  clear_side_lem Side.ask s' j v =
      (ground (arith, length-replicate n zero_lots), ground (arith, get_or-replicate n j zero_lots))

  -- `clear` gives the book that `default` gives, which is empty.
  pub clear-eq-default :
      (clear n b ≡ default n) × ((s : Side) (j : ℕ) → qty_at (clear n b) s j ≡ zero_lots)
  unfolding clear default
  clear-eq-default = (refl, λ s j. ground (arith, get_or-replicate n j zero_lots))

-- The highest live level of the bids with its price, or that there is none.
abbrev pub IsBestBid : ℕ → ArrayBook → Option (Ticks × Lots) → Type 0
IsBestBid n b none = IsHighest n b.bids none
IsBestBid n b (some (p, q)) =
    (i : ℕ) × (p ≡ pos i) × (q ≡ level b.bids i) × IsHighest n b.bids (some i)

abbrev pub IsBestAsk : ℕ → ArrayBook → Option (Ticks × Lots) → Type 0
IsBestAsk n b none = IsLowest 0 n b.asks none
IsBestAsk n b (some (p, q)) =
    (i : ℕ) × (p ≡ pos i) × (q ≡ level b.asks i) × IsLowest 0 n b.asks (some i)

quote_highest :
    (n : ℕ) (b : ArrayBook) (r : Option ℕ)
    → IsHighest n b.bids r
    → IsBestBid n b (quote_at b.bids r)
quote_highest n b none h = h
quote_highest n b (some i) h = (i, refl, refl, h)

quote_lowest :
    (n : ℕ) (b : ArrayBook) (r : Option ℕ)
    → IsLowest 0 n b.asks r
    → IsBestAsk n b (quote_at b.asks r)
quote_lowest n b none h = h
quote_lowest n b (some i) h = (i, refl, refl, h)

module _ (n : ℕ) (b : ArrayBook) (v : IsValid n b) where
  pub best_bid-scan : (best_bid n b).0 ≡ quote_at b.bids (scan_down n b.bids)
  unfolding best_bid
  best_bid-scan = ground (arith, v.bid_cached)

  pub best_ask-scan : (best_ask n b).0 ≡ quote_at b.asks (scan_up n 0 b.asks)
  unfolding best_ask
  best_ask-scan = ground (arith, v.ask_cached)

  pub best_bid-IsValid : IsValid n (best_bid n b).1
  unfolding best_bid
  best_bid-IsValid = ground arith

  pub best_ask-IsValid : IsValid n (best_ask n b).1
  unfolding best_ask
  best_ask-IsValid = ground arith

  pub best_bid_keeps : ((best_bid n b).1.bids ≡ b.bids) × ((best_bid n b).1.asks ≡ b.asks)
  unfolding best_bid
  best_bid_keeps = ground arith

  pub best_ask_keeps : ((best_ask n b).1.bids ≡ b.bids) × ((best_ask n b).1.asks ≡ b.asks)
  unfolding best_ask
  best_ask_keeps = ground arith

  -- `best_bid` returns the highest price with a positive quantity, and that quantity, or nothing if
  -- no bid is positive, whether it answers from the cache or scans; no quantity changes, and the
  -- book stays well formed.
  pub best_bid_lem :
      IsBestBid n b (best_bid n b).0
      × IsValid n (best_bid n b).1
      × ((s : Side) (j : ℕ) → qty_at (best_bid n b).1 s j ≡ qty_at b s j)
  best_bid_lem = (
    rw best_bid-scan (quote_highest n b _ (scan_down-IsHighest n b.bids v.small)),
    best_bid-IsValid,
    λ s j. ground (arith, best_bid_keeps),
  )

  -- `best_ask` returns the lowest price with a positive quantity in the same way.
  pub best_ask_lem :
      IsBestAsk n b (best_ask n b).0
      × IsValid n (best_ask n b).1
      × ((s : Side) (j : ℕ) → qty_at (best_ask n b).1 s j ≡ qty_at b s j)
  best_ask_lem = (
    rw best_ask-scan (quote_lowest n b _ (scan_up-IsLowest n 0 n b.asks (omega arith) v.small)),
    best_ask-IsValid,
    λ s j. ground (arith, best_ask_keeps),
  )
