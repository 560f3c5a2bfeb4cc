-- ===== src/Decoder/Polymarket.antt =====
-- crates/polymarket/src/market/decoder.rs: the decoder of market messages. `D` is the number of
-- decimals; the three `parse_json` calls and the test of UTF-8 are parameters. The buffer that simd-json
-- overwrites is not kept.
pub mod Schema
pub mod Rows
pub mod Snapshot
pub mod Refines
pub mod Accounts
pub mod Tests
use mantis.Prelude.{
  ℕ, suc, ◌+◌, ◌-◌, ◌%◌, ◌^◌, Bool, ◌&&◌, Option, none, some, List, [], ◌∷◌, ltb, leb, ◌==◌, not,
  if◌then◌else◌, length, get_elem?, set,
}
use mantis.Types.{InstrumentId, SeqNum, Side, Timestamp, Ticks, Lots}
use mantis.Events.{HotEvent, EventFlags, UpdateAction, with_flags, is_snapshot, last_in_batch}
use mantis.Events.Event
use mantis.Instrument.{InstrumentMeta}
use mantis.Registry.{InstrumentRegistry, by_polymarket_token_id, find_record}
use mantis.Registry.Dict.{Text, text_eq}
use mantis.Registry.Types.{InstrumentRecord}
use mantis.Decoder.{Attempt, ◌>>=◌, ◌>>◌, guard, bump, present, settle, decimal, ticks, lots}
use mantis.Decoder.Peek.{peek_type}
use mantis.Decoder.Polymarket.Schema.{
  BookLevel, PolymarketBookMsg, PolymarketPriceChangeMsg, PolymarketTradeMsg, price_change,
  last_trade_price, book, buy, sell,
}

pub record PolymarketMarketDecoder : Type 0 where
  pub seq : ℕ
  pub source_id : ℕ
  pub registry : InstrumentRegistry

abbrev pub new : ℕ → InstrumentRegistry → PolymarketMarketDecoder
new source_id registry = record { seq = 0; source_id = source_id; registry = registry }

unfoldable pub parse_side : Text → Option Side
parse_side s =
    if text_eq s buy then some Side.bid else if text_eq s sell then some Side.ask else none

unfoldable pub parse_price_qty : ℕ → Text → Text → InstrumentMeta → Attempt (Ticks × Lots)
parse_price_qty decimals price_str size_str meta = do
  price_fixed ← decimal decimals price_str
  qty_fixed ← decimal decimals size_str
  price ← ticks meta price_fixed
  qty ← lots meta qty_fixed
  Attempt.done (price, qty)

-- `registry.meta(id)`
abbrev pub meta : InstrumentRegistry → InstrumentId → Option InstrumentMeta
meta r id = elim (find_record r id) [ none ↦ none | some rec ↦ some rec.canonical.meta ]

abbrev pub with_meta :
    InstrumentRegistry → Option InstrumentId → Option (InstrumentId × InstrumentMeta)
with_meta r none = none
with_meta r (some id) = elim (meta r id) [ none ↦ none | some m ↦ some (id, m) ]

unfoldable pub resolve : PolymarketMarketDecoder → Text → Option (InstrumentId × InstrumentMeta)
resolve d asset_id = with_meta d.registry (by_polymarket_token_id d.registry asset_id)

-- The decoder, the output buffer and the number of events that a call leaves.
abbrev pub Decoded : Type 0
Decoded = PolymarketMarketDecoder × (List HotEvent × ℕ)

-- `self.seq += 1; out[0] = event; 1`
abbrev pub emit_one : PolymarketMarketDecoder → List HotEvent → (SeqNum → HotEvent) → Decoded
emit_one d out event = (record d { seq = bump d.seq }, (set out 0 (event (bump d.seq)), 1))

-- `msg.side.and_then(parse_side).unwrap_or(Side::Bid)`
abbrev pub aggressor_of : Option Text → Side
aggressor_of none = Side.bid
aggressor_of (some s) = elim (parse_side s) [ none ↦ Side.bid | some side ↦ side ]

-- The event of one level of a snapshot.
abbrev pub level_event : Timestamp → InstrumentId → ℕ → Side → SeqNum → ℕ → Ticks × Lots → HotEvent
level_event recv_ts id source_id side seq depth (price, qty) =
    Event.book_delta recv_ts seq id source_id is_snapshot (record {
      price = price;
      qty = qty;
      side = side;
      action = UpdateAction.new;
      depth = depth % 2 ^ 8;
    })

-- The variables of `decode_book` that its loops change.
pub record Batch : Type 0 where
  pub seq : ℕ
  pub count : ℕ
  pub out : List HotEvent

-- The body of a loop behind the bound and the parse.
abbrev pub emit_level : (SeqNum → HotEvent) → Batch → Batch
emit_level event b = record {
  seq = bump b.seq;
  count = b.count + 1;
  out = set b.out b.count (event (bump b.seq));
}

-- `out[i].header.flags |= EventFlags::LAST_IN_BATCH`, on what `out[i]` is.
abbrev pub flag_found : List HotEvent → ℕ → Option HotEvent → List HotEvent
flag_found out i none = out
flag_found out i (some e) =
    set out i
      (record e { header = record e.header { flags = with_flags e.header.flags last_in_batch } })

abbrev pub flag_last : List HotEvent → ℕ → List HotEvent
flag_last out i = flag_found out i (get_elem? out i)

abbrev pub is_nil : List BookLevel → Bool
is_nil [] = Bool.true
is_nil (l ∷ ls) = Bool.false

-- What follows the loops.
abbrev pub close_batch : PolymarketMarketDecoder → Batch → Decoded
close_batch d b = (
  record d { seq = b.seq },
  (if ltb 0 b.count then flag_last b.out (b.count - 1) else b.out, b.count),
)

module _ (decimals : ℕ) where
  -- The loop over the levels of one side, from the depth that it has reached.
  unfoldable pub emit_levels :
      Timestamp
      → InstrumentId
      → ℕ
      → InstrumentMeta
      → Side
      → ℕ
      → List BookLevel
      → Batch
      → Attempt Batch
  emit_levels recv_ts id source_id m side depth [] b = Attempt.done b
  emit_levels recv_ts id source_id m side depth (level ∷ levels) b =
      if leb 64 b.count
      then Attempt.done b
      else elim (parse_price_qty decimals level.price level.size m) [
        | Attempt.done row ↦
            emit_levels recv_ts id source_id m side (depth + 1) levels
              (emit_level (λ seq. level_event recv_ts id source_id side seq depth row) b)
        | Attempt.rejected ↦ emit_levels recv_ts id source_id m side (depth + 1) levels b
        | Attempt.panicked ↦ Attempt.panicked
      ]

  module _ (parse_book : Text → Option PolymarketBookMsg) where
    unfoldable pub decode_book :
        PolymarketMarketDecoder → Text → Timestamp → List HotEvent → Attempt Decoded
    decode_book d buf recv_ts out = do
      msg ← present (parse_book buf)
      (id, m) ← present (resolve d msg.asset_id)
      guard (not (is_nil msg.bids && is_nil msg.asks))
      b ←
          emit_levels recv_ts id d.source_id m Side.bid 0 msg.bids
            (record { seq = d.seq; count = 0; out = out })
      b' ← emit_levels recv_ts id d.source_id m Side.ask 0 msg.asks b
      Attempt.done (close_batch d b')

  module _ (parse_price_change : Text → Option PolymarketPriceChangeMsg) where
    unfoldable pub decode_price_change :
        PolymarketMarketDecoder → Text → Timestamp → List HotEvent → Attempt Decoded
    decode_price_change d buf recv_ts out = do
      msg ← present (parse_price_change buf)
      (id, m) ← present (resolve d msg.asset_id)
      (price, qty) ← parse_price_qty decimals msg.price msg.size m
      side ← present (parse_side msg.side)
      Attempt.done (
          emit_one d out (λ seq. Event.book_delta recv_ts seq id d.source_id last_in_batch (record {
            price = price;
            qty = qty;
            side = side;
            action = UpdateAction.change;
            depth = 0;
          })))

  module _ (parse_trade : Text → Option PolymarketTradeMsg) where
    unfoldable pub decode_trade :
        PolymarketMarketDecoder → Text → Timestamp → List HotEvent → Attempt Decoded
    decode_trade d buf recv_ts out = do
      msg ← present (parse_trade buf)
      (id, m) ← present (resolve d msg.asset_id)
      (price, qty) ← parse_price_qty decimals msg.price msg.size m
      Attempt.done (
          emit_one d out (λ seq.
            Event.trade recv_ts seq id d.source_id last_in_batch
              (record { price = price; qty = qty; aggressor = aggressor_of msg.side })))

  module _ (is_utf8 : Text → Bool) (parse_book : Text → Option PolymarketBookMsg)
      (parse_price_change : Text → Option PolymarketPriceChangeMsg)
      (parse_trade : Text → Option PolymarketTradeMsg) where
    -- The dispatch on the type of the message.
    abbrev pub dispatch :
        PolymarketMarketDecoder → Text → Timestamp → List HotEvent → Text → Attempt Decoded
    dispatch d buf recv_ts out msg_type =
        if text_eq msg_type price_change
        then decode_price_change parse_price_change d buf recv_ts out
        else if text_eq msg_type last_trade_price
        then decode_trade parse_trade d buf recv_ts out
        else if text_eq msg_type book
        then decode_book parse_book d buf recv_ts out
        else Attempt.rejected

    unfoldable pub decode :
        PolymarketMarketDecoder → Text → Timestamp → List HotEvent → Option Decoded
    decode d buf recv_ts out =
        settle (d, (out, 0))
          (do
            guard (ltb 0 (length buf))
            msg_type ← present (peek_type is_utf8 buf)
            dispatch d buf recv_ts out msg_type)
