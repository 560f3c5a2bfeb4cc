-- ===== src/Events/Event.antt =====
-- crates/events/src/event.rs: the constructors of `HotEvent`, by the source's names, and the kind of
-- an event.
use mantis.Prelude.{ℕ}
use mantis.Types.{InstrumentId, SeqNum, Timestamp, none_id}
use mantis.Events.{
  EventFlags, EventBody, HotEvent, BookDeltaPayload, TradePayload, TopOfBookPayload,
  OrderAckPayload, FillPayload, OrderRejectPayload, TimerPayload, HeartbeatPayload, EventKind,
  body_kind,
}

abbrev pub kind : HotEvent → EventKind
kind e = body_kind e.body

-- The header that each constructor writes out.
abbrev with_header : Timestamp → SeqNum → InstrumentId → ℕ → EventFlags → EventBody → HotEvent
with_header recv_ts seq instrument_id source_id flags body = record {
  header = record {
    recv_ts = recv_ts;
    seq = seq;
    instrument_id = instrument_id;
    source_id = source_id;
    flags = flags;
  };
  body = body;
}

abbrev pub book_delta :
    Timestamp → SeqNum → InstrumentId → ℕ → EventFlags → BookDeltaPayload → HotEvent
book_delta ts seq id source flags p = with_header ts seq id source flags (EventBody.book_delta p)

abbrev pub trade : Timestamp → SeqNum → InstrumentId → ℕ → EventFlags → TradePayload → HotEvent
trade ts seq id source flags p = with_header ts seq id source flags (EventBody.trade p)

abbrev pub top_of_book :
    Timestamp → SeqNum → InstrumentId → ℕ → EventFlags → TopOfBookPayload → HotEvent
top_of_book ts seq id source flags p = with_header ts seq id source flags (EventBody.top_of_book p)

abbrev pub order_ack :
    Timestamp → SeqNum → InstrumentId → ℕ → EventFlags → OrderAckPayload → HotEvent
order_ack ts seq id source flags p = with_header ts seq id source flags (EventBody.order_ack p)

abbrev pub fill : Timestamp → SeqNum → InstrumentId → ℕ → EventFlags → FillPayload → HotEvent
fill ts seq id source flags p = with_header ts seq id source flags (EventBody.fill p)

abbrev pub order_reject :
    Timestamp → SeqNum → InstrumentId → ℕ → EventFlags → OrderRejectPayload → HotEvent
order_reject ts seq id source flags p =
    with_header ts seq id source flags (EventBody.order_reject p)

abbrev pub timer : Timestamp → SeqNum → InstrumentId → ℕ → EventFlags → TimerPayload → HotEvent
timer ts seq id source flags p = with_header ts seq id source flags (EventBody.timer p)

-- A heartbeat belongs to no instrument.
abbrev pub heartbeat : Timestamp → SeqNum → ℕ → EventFlags → HeartbeatPayload → HotEvent
heartbeat ts seq source flags p = with_header ts seq none_id source flags (EventBody.heartbeat p)
