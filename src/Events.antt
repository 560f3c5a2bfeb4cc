-- ===== src/Events.antt =====
-- crates/events: the hot event, its header, its flags and its payloads. The `_pad` fields of the
-- source only fix the layout and are left out.
pub mod Event
use Prim.Native.Nat.{bit_and, bit_or}
use mantis.Prelude.{ℕ, Bool, ◌==◌}
use mantis.Types.{InstrumentId, SeqNum, Timestamp, Side, Ticks, Lots}

abbrev pub EventFlags : Type 0
EventFlags = ℕ

abbrev pub no_flags : EventFlags
no_flags = 0

abbrev pub is_snapshot : EventFlags
is_snapshot = 1

abbrev pub last_in_batch : EventFlags
last_in_batch = 2

unfoldable pub contains : EventFlags → EventFlags → Bool
contains flags other = bit_and flags other == other

unfoldable pub with_flags : EventFlags → EventFlags → EventFlags
with_flags flags other = bit_or flags other

abbrev pub is_empty : EventFlags → Bool
is_empty flags = flags == 0

pub record EventHeader : Type 0 where
  pub recv_ts : Timestamp
  pub seq : SeqNum
  pub instrument_id : InstrumentId
  pub source_id : ℕ
  pub flags : EventFlags

pub data UpdateAction : Type 0 where
  new change delete : UpdateAction

pub record BookDeltaPayload : Type 0 where
  pub price : Ticks
  pub qty : Lots
  pub side : Side
  pub action : UpdateAction
  pub depth : ℕ

pub record TradePayload : Type 0 where
  pub price : Ticks
  pub qty : Lots
  pub aggressor : Side

pub record TopOfBookPayload : Type 0 where
  pub bid_price : Ticks
  pub bid_qty : Lots
  pub ask_price : Ticks
  pub ask_qty : Lots

pub data OrderStatus : Type 0 where
  accepted cancelled expired : OrderStatus

pub data RejectReason : Type 0 where
  insufficient_funds invalid_price invalid_qty duplicate_order_id : RejectReason
  risk_limit_breached venue_error unknown : RejectReason

pub record OrderAckPayload : Type 0 where
  pub order_id : ℕ
  pub client_order_id : ℕ
  pub status : OrderStatus

pub record FillPayload : Type 0 where
  pub order_id : ℕ
  pub price : Ticks
  pub qty : Lots
  pub side : Side
  pub is_maker : ℕ

pub record OrderRejectPayload : Type 0 where
  pub order_id : ℕ
  pub client_order_id : ℕ
  pub reason : RejectReason

pub data TimerKind : Type 0 where
  stale_feed periodic deadline : TimerKind

pub record TimerPayload : Type 0 where
  pub timer_id : ℕ
  pub kind : TimerKind

pub record HeartbeatPayload : Type 0 where
  pub counter : ℕ

pub data EventBody : Type 0 where
  book_delta : BookDeltaPayload → EventBody
  trade : TradePayload → EventBody
  top_of_book : TopOfBookPayload → EventBody
  order_ack : OrderAckPayload → EventBody
  fill : FillPayload → EventBody
  order_reject : OrderRejectPayload → EventBody
  timer : TimerPayload → EventBody
  heartbeat : HeartbeatPayload → EventBody

pub data EventKind : Type 0 where
  book_delta trade top_of_book order_ack fill order_reject timer heartbeat : EventKind

-- `EventBody::kind`, and `HotEvent::kind`, which asks the body.
abbrev pub body_kind : EventBody → EventKind
body_kind (EventBody.book_delta p) = EventKind.book_delta
body_kind (EventBody.trade p) = EventKind.trade
body_kind (EventBody.top_of_book p) = EventKind.top_of_book
body_kind (EventBody.order_ack p) = EventKind.order_ack
body_kind (EventBody.fill p) = EventKind.fill
body_kind (EventBody.order_reject p) = EventKind.order_reject
body_kind (EventBody.timer p) = EventKind.timer
body_kind (EventBody.heartbeat p) = EventKind.heartbeat

pub record HotEvent : Type 0 where
  pub header : EventHeader
  pub body : EventBody
