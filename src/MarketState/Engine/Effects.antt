-- ===== src/MarketState/Engine/Effects.antt =====
-- What each kind of event does to the levels and the flags of its instrument, over array books: the
-- effect is described on one level or one flag, without the book.
use mantis.Prelude.{
  ℕ, ◌^◌, ◌≤◌, ◌≡◌, ◌∙◌, ap, true, false, Bool, ◌&&◌, ◌||◌, Option, some, arith, if◌then◌else◌, ltb,
  dec_lt,
}
use mantis.Prelude.Int.{pos, negsuc, eqb_ℤ}
use mantis.Types.{Lots, Ticks, Side, side_eq, zero_lots, Timestamp}
use mantis.Events.{
  EventHeader, EventBody, BookDeltaPayload, TopOfBookPayload, UpdateAction, contains, is_snapshot,
  last_in_batch,
}
use mantis.MarketState.State.{InstrumentState, TradeInfo}
use mantis.MarketState.ArrayBook.{ArrayBook, array_book, apply_delta, clear, best_bid}
use mantis.MarketState.ArrayBook.Best.{
  IsValid, qty_at, qty_at-apply_delta, apply_delta_outside, apply_delta-IsValid, clear-eq-default,
  best_bid_keeps, best_ask_keeps, best_bid-IsValid,
}
use mantis.MarketState.ArrayBook.Lawful.{clear-IsValid}
use mantis.MarketState.Engine.{check_bbo, delta_state, tob_state}
use mantis.MarketState.Engine.Snapshot.{delta_state_lem}

-- Whether a price is that of level `j` of `n` levels; no other price is kept.
abbrev pub hits : ℕ → Ticks → ℕ → Bool
hits n price j = eqb_ℤ price (pos j) && ltb j n

-- The quantity at a level after an event, from the quantity before it.
abbrev pub level_after : ℕ → EventHeader → EventBody → Side → ℕ → Lots → Lots
level_after n h (EventBody.book_delta d) side j before =
    if side_eq d.side side && hits n d.price j
    then d.qty
    else (if contains h.flags is_snapshot then zero_lots else before)
level_after n h (EventBody.top_of_book t) Side.bid j before =
    if hits n t.bid_price j then t.bid_qty else zero_lots
level_after n h (EventBody.top_of_book t) Side.ask j before =
    if hits n t.ask_price j then t.ask_qty else zero_lots
level_after n h _ side j before = before

-- Whether a snapshot is under way after an event.
abbrev pub under_way_after : EventHeader → EventBody → Bool → Bool
under_way_after h (EventBody.book_delta d) before =
    if contains h.flags last_in_batch then false else contains h.flags is_snapshot || before
under_way_after h _ before = before

-- Whether a whole book has been received after an event, from the two flags before it.
abbrev pub received_after : EventHeader → EventBody → Bool → Bool → Bool
received_after h (EventBody.book_delta d) under_way before =
    if contains h.flags last_in_batch
    then contains h.flags is_snapshot || under_way || before
    else (if contains h.flags is_snapshot then false else before)
received_after h (EventBody.top_of_book t) under_way before = true
received_after h _ under_way before = before

abbrev pub trade_after : EventHeader → EventBody → Option TradeInfo → Option TradeInfo
trade_after h (EventBody.trade t) before =
    some (record { price = t.price; qty = t.qty; side = t.aggressor; ts = h.recv_ts })
trade_after h _ before = before

abbrev pub time_after : EventHeader → EventBody → Timestamp → Timestamp
time_after h (EventBody.book_delta d) before = h.recv_ts
time_after h (EventBody.trade t) before = h.recv_ts
time_after h (EventBody.top_of_book t) before = h.recv_ts
time_after h _ before = before

abbrev pub State : Type 0
State = InstrumentState ArrayBook

-- Two states with the same levels, flags, trade and time.
pub record Same (s s' : State) : Type 0 where
  pub levels : (side : Side) (j : ℕ) → qty_at s'.book side j ≡ qty_at s.book side j
  pub under_way : s'.in_snapshot ≡ s.in_snapshot
  pub received : s'.snapshot_received ≡ s.snapshot_received
  pub trade : s'.last_trade ≡ s.last_trade
  pub time : s'.last_event_ts ≡ s.last_event_ts

module _ (n : ℕ) (small : n ≤ 2 ^ 16) where
  -- The BBO check moves only the caches.
  pub check_bbo-Same :
      (s : State) (slot : ℕ) → IsValid n s.book → Same s (check_bbo (array_book n) s slot).1
  unfolding check_bbo
  check_bbo-Same s slot v =
      let bid = best_bid_keeps n s.book v in
      let ask = best_ask_keeps n (best_bid n s.book).1 (best_bid-IsValid n s.book v) in
      record {
        levels = λ side j. ground (arith, bid, ask);
        under_way = ground arith;
        received = ground arith;
        trade = ground arith;
        time = ground arith;
      }

  -- An update at any price, at a level of the array.
  level-apply_delta :
      (b : ArrayBook) (p : Ticks) (q : Lots) (s : Side) (a : UpdateAction) (side : Side) (j : ℕ)
      → IsValid n b
      → qty_at (apply_delta n b p q s a) side j
        ≡ (if side_eq s side && hits n p j then q else qty_at b side j)
  level-apply_delta b (negsuc k) q s a side j v =
      rw (apply_delta_outside n b (negsuc k) q s a (λ i e. absurd (cc (e)))) (ground arith)
  level-apply_delta b (pos i) q s a side j v = elim (dec_lt i n) [
    | yes inside ↦ qty_at-apply_delta n b i q s a side j v inside ∙ ground arith
    | no outside ↦
        rw (apply_delta_outside n b (pos i) q s a (λ k e. ground (arith, outside, e)))
          (ground arith)
  ]

  delta_book :
      (h : EventHeader) (d : BookDeltaPayload) (s : State)
      → (delta_state (array_book n) h d s).book
        ≡ apply_delta n
            (if contains h.flags is_snapshot then clear n s.book else s.book)
            d.price
            d.qty
            d.side
            d.action
  delta_book h d s = (delta_state_lem (array_book n) h d s).2

  pub delta_levels :
      (h : EventHeader) (d : BookDeltaPayload) (s : State) (side : Side) (j : ℕ)
      → IsValid n s.book
      → qty_at (delta_state (array_book n) h d s).book side j
        ≡ level_after n h (EventBody.book_delta d) side j (qty_at s.book side j)
  delta_levels h d s side j v =
      ap (λ b. qty_at b side j) (delta_book h d s) ∙ flagged (contains h.flags is_snapshot)
    where
      flagged :
          (snap : Bool)
          → qty_at
              (apply_delta n
                (if snap then clear n s.book else s.book)
                d.price
                d.qty
                d.side
                d.action)
              side
              j
            ≡ (if side_eq d.side side && hits n d.price j
                then d.qty
                else (if snap then zero_lots else qty_at s.book side j))
      flagged true =
          level-apply_delta (clear n s.book) d.price d.qty d.side d.action side j
            (clear-IsValid n small s.book v)
          ∙ ap (λ q. if side_eq d.side side && hits n d.price j then d.qty else q)
              ((clear-eq-default n s.book).1 side j)
      flagged false = level-apply_delta s.book d.price d.qty d.side d.action side j v

  pub tob_levels :
      (h : EventHeader) (t : TopOfBookPayload) (s : State) (side : Side) (j : ℕ)
      → IsValid n s.book
      → qty_at (tob_state (array_book n) h t s).book side j
        ≡ level_after n h (EventBody.top_of_book t) side j (qty_at s.book side j)
  unfolding tob_state
  tob_levels h t s side j v =
      let empty : ArrayBook = clear n s.book in
      let ok = clear-IsValid n small s.book v in
      let with_bid : ArrayBook =
        apply_delta n empty t.bid_price t.bid_qty Side.bid UpdateAction.new in
      level-apply_delta with_bid t.ask_price t.ask_qty Side.ask UpdateAction.new side j
        (apply_delta-IsValid n empty t.bid_price t.bid_qty Side.bid UpdateAction.new ok)
      ∙ bid_then_ask side (
          level-apply_delta empty t.bid_price t.bid_qty Side.bid UpdateAction.new side j ok
          ∙ ap (λ q. if side_eq Side.bid side && hits n t.bid_price j then t.bid_qty else q)
              ((clear-eq-default n s.book).1 side j))
    where
      bid_then_ask :
          (side : Side) {q : Lots}
          → q ≡ (if side_eq Side.bid side && hits n t.bid_price j then t.bid_qty else zero_lots)
          → (if side_eq Side.ask side && hits n t.ask_price j then t.ask_qty else q)
            ≡ level_after n h (EventBody.top_of_book t) side j (qty_at s.book side j)
      bid_then_ask Side.bid e = e
      bid_then_ask Side.ask e = ap (λ q. if hits n t.ask_price j then t.ask_qty else q) e
