-- ===== src/MarketState/ArrayBook/Tests.antt =====
-- Runs of a book of four levels, and the theorems at concrete inputs.
use Prim.Native.Nat.{min}
use mantis.Prelude.{ℕ, ◌<◌, ◌≡◌, refl, true, false, [], ◌∷◌, none, some, arith, length, get_or}
use mantis.Prelude.Int.{pos}
use mantis.Types.{Side}
use mantis.Events.{UpdateAction}
use mantis.MarketState.ArrayBook.{
  ArrayBook, Buffer, apply_delta, best_bid, best_ask, depth, scan_down, scan_up, level_count,
  count_live,
}
use mantis.MarketState.ArrayBook.Best
use mantis.MarketState.ArrayBook.Best.{IsValid, IsBestBid, IsBestAsk, qty_at}
use mantis.MarketState.ArrayBook.Levels
use mantis.MarketState.ArrayBook.Levels.{Entry, live_down, live_up, live_levels}

-- Bids 10 at 0 and 20 at 1, an ask of 5 at 3; the bid cache is good, the ask side is marked.
abbrev pub four : ArrayBook
four = record {
  bids = pos 10 ∷ pos 20 ∷ pos 0 ∷ pos 0 ∷ [];
  asks = pos 0 ∷ pos 0 ∷ pos 0 ∷ pos 5 ∷ [];
  best_bid_idx = some 1;
  best_ask_idx = none;
  bid_dirty = false;
  ask_dirty = true;
}

abbrev pub buffer : Buffer
buffer = (pos 7, pos 7) ∷ (pos 8, pos 8) ∷ (pos 9, pos 9) ∷ []

four_scan : some 1 ≡ scan_down 4 four.bids
unfolding scan_down
four_scan = refl

pub four-IsValid : IsValid 4 four
four-IsValid = record {
  small = omega arith;
  bid_levels = refl;
  ask_levels = refl;
  bid_cached = λ e. four_scan;
  ask_cached = λ e. absurd (ground arith);
}

best_of_four : (best_ask 4 four).0 ≡ some (pos 3, pos 5)
unfolding best_ask scan_up
best_of_four = refl

two_bids : level_count four Side.bid ≡ 2
unfolding level_count count_live
two_bids = refl

qty_at-apply_delta_example :
    qty_at (apply_delta 4 four (pos 2) (pos 30) Side.bid UpdateAction.change) Side.bid 2 ≡ pos 30
qty_at-apply_delta_example =
    Best.qty_at-apply_delta 4 four 2 (pos 30) Side.bid UpdateAction.change Side.bid 2 four-IsValid
      (omega arith)

apply_delta-IsValid_example :
    IsValid 4 (apply_delta 4 four (pos 2) (pos 30) Side.bid UpdateAction.change)
apply_delta-IsValid_example =
    Best.apply_delta-IsValid 4 four (pos 2) (pos 30) Side.bid UpdateAction.change four-IsValid

best_bid_lem_example :
    IsBestBid 4 four (best_bid 4 four).0
    × IsValid 4 (best_bid 4 four).1
    × ((s : Side) (j : ℕ) → qty_at (best_bid 4 four).1 s j ≡ qty_at four s j)
best_bid_lem_example = Best.best_bid_lem 4 four four-IsValid

best_ask_lem_example :
    IsBestAsk 4 four (best_ask 4 four).0
    × IsValid 4 (best_ask 4 four).1
    × ((s : Side) (j : ℕ) → qty_at (best_ask 4 four).1 s j ≡ qty_at four s j)
best_ask_lem_example = Best.best_ask_lem 4 four four-IsValid

depth_lem_example :
    let (out, count) = depth 4 four Side.bid buffer in
    (length out ≡ 3)
    × (count ≡ min 3 (length (live_levels 4 four Side.bid)))
    × ((j : ℕ) (d : Entry)
        → j < 3
        → get_or out j d ≡ get_or (live_levels 4 four Side.bid) j (get_or buffer j d))
depth_lem_example = Levels.depth_lem 4 four Side.bid buffer (omega arith)
