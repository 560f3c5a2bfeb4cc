-- ===== src/Strategy/OrderTracker.antt =====
-- crates/strategy/src/order_tracker.rs: the orders of one strategy in an array of 64 slots.
pub mod Slots
pub mod Invariant
pub mod Capacity
pub mod Fill
mod Tests
use mantis.Prelude.{
  ℕ, ◌+◌, ◌-◌, ◌%◌, ◌^◌, Bool, true, false, List, [], ◌∷◌, Option, none, some, ◌&&◌, replicate,
  if◌then◌else◌, ◌==◌,
}
use mantis.Prelude.Int.{ℤ, leb_ℤ, pos}
use mantis.Prelude.I64.{add_i64, sub_i64}
use mantis.Types.{InstrumentId, Side, side_eq, Ticks, Lots, zero_lots}

abbrev pub max_tracked_orders : ℕ
max_tracked_orders = 64

pub data OrderState : Type 0 where
  pending sending live cancel_pending filled cancelled rejected : OrderState

pub record TrackedOrder : Type 0 where
  pub client_order_id : ℕ
  pub exchange_order_id : ℕ
  pub strategy_id : ℕ
  pub instrument_id : InstrumentId
  pub side : Side
  pub price : Ticks
  pub original_qty : Lots
  pub filled_qty : Lots
  pub state : OrderState
  pub created_at_ns : ℕ
  pub acked_at_ns : ℕ

pub remaining_qty : TrackedOrder → Lots
remaining_qty o = sub_i64 o.original_qty o.filled_qty

abbrev pub state_active : OrderState → Bool
state_active OrderState.pending = true
state_active OrderState.sending = true
state_active OrderState.live = true
state_active OrderState.cancel_pending = true
state_active _ = false

abbrev pub is_active : TrackedOrder → Bool
is_active o = state_active o.state

abbrev pub Slot : Type 0
Slot = Option TrackedOrder

pub record OrderTracker : Type 0 where
  pub orders : List Slot
  pub active_count : ℕ

pub new : OrderTracker
new = record { orders = replicate max_tracked_orders none; active_count = 0 }

-- The test of `on_intent_sent`: a slot that is empty, or whose order is in a terminal state.
abbrev pub can_reuse : Slot → Bool
can_reuse none = true
can_reuse (some o) = elim o.state [
  | OrderState.filled ↦ true
  | OrderState.cancelled ↦ true
  | OrderState.rejected ↦ true
  | _ ↦ false
]

-- The loop of `on_intent_sent`: `none` when no slot can be reused.
pub place : TrackedOrder → List Slot → Option (List Slot)
place o [] = none
place o (s ∷ rest) =
    if can_reuse s
    then some (some o ∷ rest)
    else elim (place o rest) [ none ↦ none | some placed ↦ some (s ∷ placed) ]

-- `find_mut` and `get`: the first order with this client id, in any state.
pub find : ℕ → List Slot → Option TrackedOrder
find id [] = none
find id (none ∷ rest) = find id rest
find id (some o ∷ rest) = if o.client_order_id == id then some o else find id rest

-- A write through the reference that `find_mut` returns.
pub update_found : ℕ → (TrackedOrder → TrackedOrder) → List Slot → List Slot
update_found id f [] = []
update_found id f (none ∷ rest) = none ∷ update_found id f rest
update_found id f (some o ∷ rest) =
    if o.client_order_id == id then some (f o) ∷ rest else some o ∷ update_found id f rest

-- The flag is false for `Err(TrackerFullError)`. `usize` addition wraps.
pub on_intent_sent : OrderTracker → TrackedOrder → OrderTracker × Bool
on_intent_sent t o = elim (place o t.orders) [
  | none ↦ (t, false)
  | some placed ↦ (record { orders = placed; active_count = (t.active_count + 1) % 2 ^ 64 }, true)
]

-- What `on_ack`, `on_reject` and `on_cancel_ack` write to the order that they find.
abbrev pub set_live : ℕ → ℕ → TrackedOrder → TrackedOrder
set_live exchange_id at o = record o {
  state = OrderState.live;
  exchange_order_id = exchange_id;
  acked_at_ns = at;
}

abbrev pub set_state : OrderState → TrackedOrder → TrackedOrder
set_state s o = record o { state = s }

pub on_ack : OrderTracker → ℕ → ℕ → ℕ → OrderTracker
on_ack t id exchange_id at = elim (find id t.orders) [
  | none ↦ t
  | some _ ↦ record t { orders = update_found id (set_live exchange_id at) t.orders }
]

-- `saturating_sub(1)` is subtraction on ℕ.
pub on_reject : OrderTracker → ℕ → OrderTracker
on_reject t id = elim (find id t.orders) [
  | none ↦ t
  | some _ ↦ record {
    orders = update_found id (set_state OrderState.rejected) t.orders;
    active_count = t.active_count - 1;
  }
]

-- `filled_qty += fill_qty`, then the clamp at the original quantity.
pub overfilled : TrackedOrder → Lots → Bool
overfilled o q = leb_ℤ o.original_qty (add_i64 o.filled_qty q)

pub fill_order : Lots → TrackedOrder → TrackedOrder
unfolding overfilled
fill_order q o =
    if overfilled o q
    then record o { filled_qty = o.original_qty; state = OrderState.filled }
    else record o { filled_qty = add_i64 o.filled_qty q }

pub on_fill : OrderTracker → ℕ → Lots → OrderTracker
on_fill t id q = elim (find id t.orders) [
  | none ↦ t
  | some o ↦
      if is_active o
      then record {
        orders = update_found id (fill_order q) t.orders;
        active_count = if overfilled o q then t.active_count - 1 else t.active_count;
      }
      else t
]

pub on_cancel_ack : OrderTracker → ℕ → OrderTracker
on_cancel_ack t id = elim (find id t.orders) [
  | none ↦ t
  | some _ ↦ record {
    orders = update_found id (set_state OrderState.cancelled) t.orders;
    active_count = t.active_count - 1;
  }
]

pub get : OrderTracker → ℕ → Option TrackedOrder
get t id = find id t.orders

-- The test in the loop of `open_qty`.
abbrev pub counts_for : InstrumentId → Side → TrackedOrder → Bool
counts_for i s o = is_active o && (o.instrument_id == i && side_eq o.side s)

open_qty_from : Lots → InstrumentId → Side → List Slot → Lots
open_qty_from total i s [] = total
open_qty_from total i s (none ∷ rest) = open_qty_from total i s rest
open_qty_from total i s (some o ∷ rest) =
    open_qty_from (if counts_for i s o then add_i64 total (remaining_qty o) else total) i s rest

pub open_qty : OrderTracker → InstrumentId → Side → Lots
open_qty t i s = open_qty_from zero_lots i s t.orders

pub active_orders : List Slot → List TrackedOrder
active_orders [] = []
active_orders (none ∷ rest) = active_orders rest
active_orders (some o ∷ rest) = if is_active o then o ∷ active_orders rest else active_orders rest
