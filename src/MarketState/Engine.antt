-- ===== src/MarketState/Engine.antt =====
-- crates/market-state/src/engine.rs: the market-state engine over any implementation of the
-- trait `OrderBook`. Arithmetic on raw i64 values wraps, as in a release build.
pub mod Quotes
pub mod Process
pub mod Invariant
pub mod Snapshot
pub mod Effects
pub mod Advance
pub mod History
pub mod Replay
mod Tests
use mantis.Prelude.{
  ℕ, ◌+◌, ◌-◌, ◌%◌, ◌^◌, Bool, true, false, ◌&&◌, ◌||◌, List, Option, none, some, get_or, set,
  replicate, ltb, leb, ◌==◌, if◌then◌else◌,
}
use mantis.Prelude.Int.{ℤ, pos, ◌+ℤ◌, tdiv, eqb_ℤ, ltb_ℤ}
use mantis.Prelude.I64.{add_i64, sub_i64, mul_i64}
use mantis.Types.{Side, Ticks, Lots, InstrumentId, Timestamp}
use mantis.Events.{
  EventHeader, BookDeltaPayload, TradePayload, TopOfBookPayload, EventBody, HotEvent, UpdateAction,
  contains, is_snapshot, last_in_batch,
}
use mantis.MarketState.Book.{OrderBook}
use mantis.MarketState.State.{TradeInfo, TopOfBook, InstrumentState, initial_state}

abbrev pub Quote : Type 0
Quote = Ticks × Lots

-- `a == b` on `Option<Ticks>`.
abbrev pub option_eq : Option Ticks → Option Ticks → Bool
option_eq none none = true
option_eq (some a) (some b) = eqb_ℤ a b
option_eq _ _ = false

abbrev pub price_of : Option Quote → Option Ticks
price_of none = none
price_of (some (p, q)) = some p

-- `(bp * aq + ap * bq) / total`; with `total` neither 0 nor -1 the division cannot panic.
pub weighted_mid : Quote → Quote → ℤ → Ticks
weighted_mid (bp, bq) (ap, aq) total = tdiv (add_i64 (mul_i64 bp aq) (mul_i64 ap bq)) total

-- `i64::midpoint`: the mean in a wider type, truncated toward zero.
pub midpoint : Ticks → Ticks → Ticks
midpoint a b = tdiv (a +ℤ b) (pos 2)

-- The `TopOfBook` that `check_bbo_price_change` builds for the instrument of a slot.
pub tob_of : Quote → Quote → ℕ → Timestamp → TopOfBook
tob_of (bp, bq) (ap, aq) slot ts =
    let total = add_i64 bq aq in
    record {
      bid_price = bp;
      bid_qty = bq;
      ask_price = ap;
      ask_qty = aq;
      micro_price =
          if ltb_ℤ (pos 0) total then weighted_mid (bp, bq) (ap, aq) total else midpoint bp ap;
      spread = sub_i64 ap bp;
      instrument_id = (slot + 1) % 2 ^ 32;
      ts = ts;
    }

-- The `match (bid, ask)` at the end of `check_bbo_price_change`.
abbrev pub tob_if_both : Option Quote → Option Quote → ℕ → Timestamp → Option TopOfBook
tob_if_both (some bid) (some ask) slot ts = some (tob_of bid ask slot ts)
tob_if_both _ _ slot ts = none

module _ (B : OrderBook) where
  open B use {Book, default, apply_delta, clear, best_bid, best_ask, total_depth}

  pub record Engine : Type 0 where
    pub instruments : List (InstrumentState Book)
    pub active_count : ℕ
    pub stale_timeout_ns : ℕ
    pub tob_changed : Bool
    pub last_tob : Option TopOfBook

  abbrev State : Type 0
  State = InstrumentState Book

  abbrev pub fresh : ℕ → ℕ → ℕ → Engine
  fresh max active stale = record {
    instruments = replicate max (initial_state default);
    active_count = active;
    stale_timeout_ns = stale;
    tob_changed = false;
    last_tob = none;
  }

  -- `none` is the panic of the assertion.
  pub new : ℕ → ℕ → ℕ → Option Engine
  new max active stale = if leb active max then some (fresh max active stale) else none

  -- `raw == 0 || raw > self.active_count`
  abbrev pub is_invalid : Engine → InstrumentId → Bool
  is_invalid e raw = raw == 0 || ltb e.active_count raw

  -- `self.instruments[slot]`, read and written; a slot below `active_count` is in range.
  abbrev pub state_at : Engine → ℕ → State
  state_at e slot = get_or e.instruments slot (initial_state default)

  abbrev pub put_state : Engine → ℕ → State → Engine
  put_state e slot s = record e { instruments = set e.instruments slot s }

  -- `check_bbo_price_change` on the state of the slot: first the two quotes, then the comparison.
  abbrev pub quotes : State → Option Quote × Option Quote × State
  quotes s =
      let (bid, book') = best_bid s.book in
      let (ask, book'') = best_ask book' in (bid, ask, record s { book = book'' })

  pub check_bbo : State → ℕ → Option TopOfBook × State
  check_bbo s slot =
      let (bid, ask, s') = quotes s in
      if option_eq (price_of bid) s.prev_bid && option_eq (price_of ask) s.prev_ask
      then (none, s')
      else (
        tob_if_both bid ask slot s.last_event_ts,
        record s' { prev_bid = price_of bid; prev_ask = price_of ask },
      )

  -- `if let Some(tob) = self.check_bbo_price_change(slot)`, with the state written back.
  pub publish : Engine → ℕ → State → Engine
  publish e slot s =
      let (tob, s') = check_bbo s slot in
      elim tob [
        | none ↦ put_state e slot s'
        | some t ↦ record (put_state e slot s') { last_tob = some t; tob_changed = true }
      ]

  -- The update of the state by a book delta, up to the BBO check.
  pub begin_snapshot : EventHeader → State → State
  begin_snapshot h s =
      if contains h.flags is_snapshot
      then record s { book = clear s.book; in_snapshot = true; snapshot_received = false }
      else s

  pub end_snapshot : State → State
  end_snapshot s =
      if s.in_snapshot then record s { in_snapshot = false; snapshot_received = true } else s

  pub delta_state : EventHeader → BookDeltaPayload → State → State
  unfolding begin_snapshot end_snapshot
  delta_state h d s =
      let s1 = begin_snapshot h (record s { last_event_ts = h.recv_ts; seq = h.seq }) in
      let s2 = record s1 { book = apply_delta s1.book d.price d.qty d.side d.action } in
      if contains h.flags last_in_batch then end_snapshot s2 else s2

  pub on_delta : Engine → EventHeader → BookDeltaPayload → ℕ → Engine
  on_delta e h d slot =
      let s = delta_state h d (state_at e slot) in
      if contains h.flags last_in_batch && s.snapshot_received
      then publish e slot s
      else put_state e slot s

  pub on_trade : Engine → EventHeader → TradePayload → ℕ → Engine
  on_trade e h t slot = put_state e slot (record (state_at e slot) {
    last_event_ts = h.recv_ts;
    last_trade = some (record { price = t.price; qty = t.qty; side = t.aggressor; ts = h.recv_ts });
  })

  pub tob_state : EventHeader → TopOfBookPayload → State → State
  tob_state h t s =
      let cleared = clear s.book in
      let with_bid = apply_delta cleared t.bid_price t.bid_qty Side.bid UpdateAction.new in
      record s {
        last_event_ts = h.recv_ts;
        snapshot_received = true;
        book = apply_delta with_bid t.ask_price t.ask_qty Side.ask UpdateAction.new;
      }

  pub on_tob : Engine → EventHeader → TopOfBookPayload → ℕ → Engine
  on_tob e h t slot = publish e slot (tob_state h t (state_at e slot))

  -- The instrument of the event, if it is one of the engine's, by its slot.
  abbrev pub dispatch : Engine → EventHeader → EventBody → ℕ → Engine
  dispatch e h (EventBody.book_delta d) slot = on_delta e h d slot
  dispatch e h (EventBody.trade t) slot = on_trade e h t slot
  dispatch e h (EventBody.top_of_book t) slot = on_tob e h t slot
  dispatch e h _ slot = e

  pub process : Engine → HotEvent → Engine
  process e ev =
      if is_invalid e ev.header.instrument_id
      then e
      else dispatch e ev.header ev.body (ev.header.instrument_id - 1)

  -- A query that reads quotes writes the book's cache back.
  pub micro_price : Engine → InstrumentId → Option Ticks × Engine
  micro_price e raw =
      if is_invalid e raw
      then (none, e)
      else (let s = state_at e (raw - 1) in
          let (bid, book') = best_bid s.book in
          elim bid [
            | none ↦ (none, put_state e (raw - 1) (record s { book = book' }))
            | some (bp, bq) ↦
                let (ask, book'') = best_ask book' in
                let e' = put_state e (raw - 1) (record s { book = book'' }) in
                elim ask [
                  | none ↦ (none, e')
                  | some (ap, aq) ↦
                      let total = add_i64 bq aq in
                      if eqb_ℤ total (pos 0)
                      then (none, e')
                      else (some (weighted_mid (bp, bq) (ap, aq) total), e')
                ]
          ])

  pub spread : Engine → InstrumentId → Option Ticks × Engine
  spread e raw =
      if is_invalid e raw
      then (none, e)
      else (let s = state_at e (raw - 1) in
          let (bid, book') = best_bid s.book in
          elim bid [
            | none ↦ (none, put_state e (raw - 1) (record s { book = book' }))
            | some (bp, bq) ↦
                let (ask, book'') = best_ask book' in
                let e' = put_state e (raw - 1) (record s { book = book'' }) in
                elim ask [ none ↦ (none, e') | some (ap, aq) ↦ (some (sub_i64 ap bp), e') ]
          ])

  pub last_trade : Engine → InstrumentId → Option TradeInfo
  last_trade e raw = if is_invalid e raw then none else (state_at e (raw - 1)).last_trade

  -- `saturating_sub` is subtraction on ℕ.
  pub is_stale : Engine → InstrumentId → Timestamp → Bool
  is_stale e raw now =
      if is_invalid e raw
      then true
      else (let last = (state_at e (raw - 1)).last_event_ts in
          if last == 0 then true else ltb e.stale_timeout_ns (now - last))

  pub is_ready : Engine → InstrumentId → Bool
  is_ready e raw = if is_invalid e raw then false else (state_at e (raw - 1)).snapshot_received

  pub book : Engine → InstrumentId → Option Book
  book e raw = if is_invalid e raw then none else some (state_at e (raw - 1)).book

  pub take_tob : Engine → Option TopOfBook × Engine
  take_tob e = if e.tob_changed then (e.last_tob, record e { tob_changed = false }) else (none, e)
