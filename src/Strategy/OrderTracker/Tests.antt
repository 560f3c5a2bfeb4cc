-- ===== src/Strategy/OrderTracker/Tests.antt =====
-- Runs of the tracker, and its theorems at concrete inputs.
use mantis.Prelude.{ℕ, ◌+◌, ◌≡◌, refl, List, ◌∷◌, none, some, arith, replicate}
use mantis.Prelude.Int.{pos, ◌+ℤ◌, ◌-ℤ◌}
use mantis.Prelude.I64.{add_i64, sub_i64, wrap_i64}
use mantis.Types.{Side}
use mantis.Strategy.OrderTracker.{
  OrderTracker, OrderState, TrackedOrder, Slot, find, on_intent_sent, on_ack, on_reject, on_fill,
  on_cancel_ack, get, open_qty, open_qty_from, remaining_qty,
}
use mantis.Strategy.OrderTracker.Slots.{count_active}
use mantis.Strategy.OrderTracker.Invariant
use mantis.Strategy.OrderTracker.Invariant.{IsValid}
use mantis.Strategy.OrderTracker.Fill
use mantis.Strategy.OrderTracker.Fill.{AllFillable, IsFillable, open_total, taken, share}

abbrev order : ℕ → OrderState → TrackedOrder
order id s = record {
  client_order_id = id;
  exchange_order_id = 0;
  strategy_id = 1;
  instrument_id = 4;
  side = Side.bid;
  price = pos 650;
  original_qty = pos 100;
  filled_qty = pos 30;
  state = s;
  created_at_ns = 5;
  acked_at_ns = 0;
}

abbrev rest : List Slot
rest = replicate 62 none

-- One live order and one that is filled.
abbrev two_orders : OrderTracker
two_orders = record {
  orders = some (order 7 OrderState.live) ∷ some (order 8 OrderState.filled) ∷ rest;
  active_count = 1;
}

two_orders-IsValid : IsValid two_orders
unfolding count_active
two_orders-IsValid = record { slots = refl; counted = refl }

order-IsFillable : (id : ℕ) (s : OrderState) → IsFillable (order id s)
order-IsFillable id s = omega arith

two_orders-AllFillable : AllFillable two_orders.orders
two_orders-AllFillable =
    (order-IsFillable 7 OrderState.live, (order-IsFillable 8 OrderState.filled, tt))

open_qty_of_two : open_qty two_orders 4 Side.bid ≡ pos 70
unfolding open_qty open_qty_from add_i64 sub_i64 wrap_i64 ◌+ℤ◌ ◌-ℤ◌ remaining_qty
open_qty_of_two = refl

on_intent_sent-IsValid_example : IsValid (on_intent_sent two_orders (order 9 OrderState.pending)).0
on_intent_sent-IsValid_example =
    Invariant.on_intent_sent-IsValid two_orders (order 9 OrderState.pending) two_orders-IsValid refl

on_fill-IsValid_example : IsValid (on_fill two_orders 7 (pos 100))
on_fill-IsValid_example = Invariant.on_fill-IsValid two_orders 7 (pos 100) two_orders-IsValid

terminal_reject_drifts_example :
    ((on_reject two_orders 8).active_count + 1 ≡ count_active (on_reject two_orders 8).orders)
    × ((on_cancel_ack two_orders 8).active_count + 1
        ≡ count_active (on_cancel_ack two_orders 8).orders)
unfolding find
terminal_reject_drifts_example =
    Invariant.terminal_reject_drifts two_orders 8 (order 8 OrderState.filled) refl refl
      two_orders-IsValid (omega arith)

terminal_ack_revives_example :
    count_active (on_ack two_orders 8 3 9).orders ≡ (on_ack two_orders 8 3 9).active_count + 1
unfolding find
terminal_ack_revives_example =
    Invariant.terminal_ack_revives two_orders 8 (order 8 OrderState.filled) refl 3 9 refl
      two_orders-IsValid

on_fill_lem_example :
    ((o' : TrackedOrder) × (get (on_fill two_orders 7 (pos 80)) 7 ≡ some o')
      × (o'.filled_qty ≡ pos 100)
      × (o'.state ≡ OrderState.filled))
    × AllFillable (on_fill two_orders 7 (pos 80)).orders
    × ((i : ℕ) (s : Side)
        → open_total i s (on_fill two_orders 7 (pos 80)).orders
            + taken i s 80 (order 7 OrderState.live)
          ≡ open_total i s two_orders.orders)
unfolding find
on_fill_lem_example =
    Fill.on_fill_lem two_orders 7 80 (order 7 OrderState.live) refl refl two_orders-AllFillable
      (omega arith)
