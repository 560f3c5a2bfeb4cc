-- ===== src/Strategy/OrderTracker/Invariant.antt =====
-- The invariant of `OrderTracker`: 64 slots, and `active_count` counts the active orders.
use mantis.Prelude.{
  ℕ, ◌+◌, ◌<◌, ◌≡◌, true, false, none, some, arith, length, length-replicate, Option-cases, inl,
  inr,
}
use mantis.Types.{Lots}
use mantis.Strategy.OrderTracker.{
  Slot, set_live, set_state, OrderTracker, OrderState, TrackedOrder, is_active, new,
  max_tracked_orders, place, find, update_found, fill_order, on_intent_sent, on_ack, on_reject,
  on_fill, on_cancel_ack,
}
use mantis.Strategy.OrderTracker.Slots.{
  weight, count_active, count_active-le, count_active-replicate, length-place, length-update_found,
  count_active-place, count_active-update_found,
}

pub record IsValid (t : OrderTracker) : Type 0 where
  pub slots : length t.orders ≡ max_tracked_orders
  pub counted : t.active_count ≡ count_active t.orders

-- A new tracker is valid.
pub new-IsValid : IsValid new
unfolding new
new-IsValid = record {
  slots = length-replicate {A = Slot} 64 none;
  counted = omega (arith, count_active-replicate 64);
}

-- Registering an active order, or failing to, keeps the tracker valid.
pub on_intent_sent-IsValid :
    (t : OrderTracker) (o : TrackedOrder)
    → IsValid t
    → is_active o ≡ true
    → IsValid (on_intent_sent t o).0
unfolding on_intent_sent
on_intent_sent-IsValid t o v act = elim (Option-cases (place o t.orders)) [
  | inl e ↦ rw (e, on_intent_sent) v
  | inr (ys, e) ↦
      rw (e, on_intent_sent)
        (ground (
          arith,
          length-place o t.orders ys e,
          count_active-place o t.orders ys e,
          count_active-le t.orders,
        ))
]

module _ (t : OrderTracker) (id : ℕ) (o : TrackedOrder) (found : find id t.orders ≡ some o) where
  pub recount :
      (f : TrackedOrder → TrackedOrder)
      → (length (update_found id f t.orders) ≡ length t.orders)
        × (count_active (update_found id f t.orders) + weight o
            ≡ count_active t.orders + weight (f o))
  recount f = (length-update_found id f t.orders, count_active-update_found id f t.orders o found)

  -- An acknowledgement of an active order keeps the tracker valid.
  pub on_ack-IsValid :
      (exchange_id at : ℕ) → is_active o ≡ true → IsValid t → IsValid (on_ack t id exchange_id at)
  unfolding on_ack
  on_ack-IsValid exchange_id at act v =
      rw (found, on_ack) (ground (arith, recount (set_live exchange_id at)))

  -- A rejection of an active order keeps the tracker valid.
  pub on_reject-IsValid : is_active o ≡ true → IsValid t → IsValid (on_reject t id)
  unfolding on_reject
  on_reject-IsValid act v =
      rw (found, on_reject) (ground (arith, recount (set_state OrderState.rejected)))

  -- A confirmed cancel of an active order keeps the tracker valid.
  pub on_cancel_ack-IsValid : is_active o ≡ true → IsValid t → IsValid (on_cancel_ack t id)
  unfolding on_cancel_ack
  on_cancel_ack-IsValid act v =
      rw (found, on_cancel_ack) (ground (arith, recount (set_state OrderState.cancelled)))

  on_fill-IsValid_found : (q : Lots) → IsValid t → IsValid (on_fill t id q)
  unfolding on_fill fill_order
  on_fill-IsValid_found q v = rw (found, on_fill) (ground (arith, recount (fill_order q)))

  -- On an order that is no longer active the counter falls although no order has left the count:
  -- both the rejection and the confirmed cancel decrement it a second time.
  pub terminal_reject_drifts :
      is_active o ≡ false
      → IsValid t
      → 0 < t.active_count
      → ((on_reject t id).active_count + 1 ≡ count_active (on_reject t id).orders)
        × ((on_cancel_ack t id).active_count + 1 ≡ count_active (on_cancel_ack t id).orders)
  unfolding on_reject on_cancel_ack
  terminal_reject_drifts act v busy =
      rw (found, on_reject, on_cancel_ack)
        (ground (
          arith,
          recount (set_state OrderState.rejected),
          recount (set_state OrderState.cancelled),
        ))

  -- A late acknowledgement of an order that is no longer active makes it live again, and the
  -- counter misses it.
  pub terminal_ack_revives :
      (exchange_id at : ℕ)
      → is_active o ≡ false
      → IsValid t
      → count_active (on_ack t id exchange_id at).orders
        ≡ (on_ack t id exchange_id at).active_count + 1
  unfolding on_ack
  terminal_ack_revives exchange_id at act v =
      rw (found, on_ack) (ground (arith, recount (set_live exchange_id at)))

-- A fill keeps the tracker valid, whatever it names: an unknown order, one that is no longer
-- active, or an active one.
pub on_fill-IsValid : (t : OrderTracker) (id : ℕ) (q : Lots) → IsValid t → IsValid (on_fill t id q)
unfolding on_fill
on_fill-IsValid t id q v = elim (Option-cases (find id t.orders)) [
  | inl e ↦ rw (e, on_fill) v
  | inr (o, e) ↦ on_fill-IsValid_found t id o e q v
]
