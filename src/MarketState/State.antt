-- ===== src/MarketState/State.antt =====
-- crates/market-state/src/state.rs: what the engine keeps for one instrument.
use mantis.Prelude.{Bool, false, Option, none}
use mantis.Types.{Ticks, Lots, Side, InstrumentId, SeqNum, Timestamp}

pub record TradeInfo : Type 0 where
  pub price : Ticks
  pub qty : Lots
  pub side : Side
  pub ts : Timestamp

pub record TopOfBook : Type 0 where
  pub bid_price : Ticks
  pub bid_qty : Lots
  pub ask_price : Ticks
  pub ask_qty : Lots
  pub micro_price : Ticks
  pub spread : Ticks
  pub instrument_id : InstrumentId
  pub ts : Timestamp

-- The book type is a parameter, as in the source.
pub record InstrumentState (Book : Type 0) : Type 0 where
  pub book : Book
  pub prev_bid : Option Ticks
  pub prev_ask : Option Ticks
  pub last_trade : Option TradeInfo
  pub last_event_ts : Timestamp
  pub seq : SeqNum
  pub snapshot_received : Bool
  pub in_snapshot : Bool

unfoldable pub initial_state : {Book : Type 0} → Book → InstrumentState Book
initial_state book = record {
  book = book;
  prev_bid = none;
  prev_ask = none;
  last_trade = none;
  last_event_ts = 0;
  seq = 0;
  snapshot_received = false;
  in_snapshot = false;
}
