-- ===== src/MarketState/Engine/History.antt =====
-- The engine over array books as a function of the events it was given: what each instrument holds is
-- read off the history, one level and one flag at a time, without a book.
use mantis.Prelude.{
  ℕ, ltb, ◌&&◌, ◌+◌, ◌≡◌, false, Bool, Option, none, List, [], ◌∷◌, if◌then◌else◌, ◌==◌,
}
use mantis.Types.{Lots, Side, zero_lots, Timestamp}
use mantis.Events.{HotEvent}
use mantis.MarketState.State.{TradeInfo}
use mantis.MarketState.ArrayBook.{array_book}
use mantis.MarketState.ArrayBook.Best.{qty_at}
use mantis.MarketState.Engine.{Engine, process}
use mantis.MarketState.Engine.Effects.{
  State, level_after, under_way_after, received_after, trade_after, time_after,
}

-- Whether an event is for the instrument of a slot, and that slot is one of the active ones.
abbrev pub is_for : ℕ → ℕ → HotEvent → Bool
is_for active slot ev = ltb slot active && ev.header.instrument_id == slot + 1

-- What the slot holds after a history, whose newest event comes first.
unfoldable pub level_of : ℕ → ℕ → ℕ → Side → ℕ → List HotEvent → Lots
level_of n active slot side j [] = zero_lots
level_of n active slot side j (ev ∷ older) =
    let before = level_of n active slot side j older in
    if is_for active slot ev then level_after n ev.header ev.body side j before else before

unfoldable pub under_way_of : ℕ → ℕ → List HotEvent → Bool
under_way_of active slot [] = false
under_way_of active slot (ev ∷ older) =
    let before = under_way_of active slot older in
    if is_for active slot ev then under_way_after ev.header ev.body before else before

unfoldable pub received_of : ℕ → ℕ → List HotEvent → Bool
received_of active slot [] = false
received_of active slot (ev ∷ older) =
    let before = received_of active slot older in
    if is_for active slot ev
    then received_after ev.header ev.body (under_way_of active slot older) before
    else before

unfoldable pub trade_of : ℕ → ℕ → List HotEvent → Option TradeInfo
trade_of active slot [] = none
trade_of active slot (ev ∷ older) =
    let before = trade_of active slot older in
    if is_for active slot ev then trade_after ev.header ev.body before else before

unfoldable pub time_of : ℕ → ℕ → List HotEvent → Timestamp
time_of active slot [] = 0
time_of active slot (ev ∷ older) =
    let before = time_of active slot older in
    if is_for active slot ev then time_after ev.header ev.body before else before

module _ (n active : ℕ) where
  -- The state of the slot is the one that its history describes.
  pub record Follows (slot : ℕ) (evs : List HotEvent) (s : State) : Type 0 where
    pub levels : (side : Side) (j : ℕ) → qty_at s.book side j ≡ level_of n active slot side j evs
    pub under_way : s.in_snapshot ≡ under_way_of active slot evs
    pub received : s.snapshot_received ≡ received_of active slot evs
    pub trade : s.last_trade ≡ trade_of active slot evs
    pub time : s.last_event_ts ≡ time_of active slot evs

-- The engine after a history, its oldest event first.
unfoldable pub process_all : (n : ℕ) → Engine (array_book n) → List HotEvent → Engine (array_book n)
process_all n e [] = e
process_all n e (ev ∷ older) = process (array_book n) (process_all n e older) ev
