-- ===== src/Strategy/OrderTracker/Capacity.antt =====
-- When `on_intent_sent` reports that the tracker is full.
use mantis.Prelude.{◌≡◌, ◌↔◌, false, arith, Option-cases, inl, inr}
use mantis.Strategy.OrderTracker.{
  OrderTracker, TrackedOrder, max_tracked_orders, place, on_intent_sent,
}
use mantis.Strategy.OrderTracker.Slots.{place-none, place_full}
use mantis.Strategy.OrderTracker.Invariant.{IsValid}

full_of_flag :
    (t : OrderTracker) (o : TrackedOrder)
    → IsValid t
    → (on_intent_sent t o).1 ≡ false
    → t.active_count ≡ max_tracked_orders
unfolding on_intent_sent
full_of_flag t o v h = elim (Option-cases (place o t.orders)) [
  | inl e ↦ omega (arith, place-none o t.orders e)
  | inr (ys, e) ↦ ground arith
]

-- A valid tracker refuses a new order exactly when 64 active orders are tracked: empty slots and
-- slots of finished orders are all found, and a refusal changes nothing.
pub on_intent_sent_full :
    (t : OrderTracker) (o : TrackedOrder)
    → IsValid t
    → ((on_intent_sent t o).1 ≡ false) ↔ (t.active_count ≡ max_tracked_orders)
unfolding on_intent_sent
on_intent_sent_full t o v =
    (full_of_flag t o v, λ h. rw (place_full o t.orders (omega arith), on_intent_sent))
