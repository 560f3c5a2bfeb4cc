-- ===== src/Strategy/QueueEstimator/Invariant.antt =====
-- The invariant of the estimator over its operations in any order.
use mantis.Prelude.{
  ℕ, suc, ◌^◌, ◌≡◌, refl, ◌∙◌, sym, none, some, arith, length, length-replicate, Bool, true, false,
  inl, inr, Bool-cases, Option-cases, if◌then◌else◌,
}
use mantis.Prelude.Int.{pos, neg_part, leb_ℤ}
use mantis.Prelude.I64.{add_i64, sub_i64}
use mantis.Types.{InstrumentId, Side, Ticks, Lots, zero_lots}
use native.Mathlib.Nat.{mod-eq_of_lt}
use mantis.Strategy.F64.{F64}
use mantis.Strategy.QueueEstimator.{
  QueuedOrder, Slot, QueueEstimator, max_queued_orders, at_level, find_slot, each_order,
  trade_order, level_order, place, new, register_order, remove_order, order_filled, order_cancelled,
  on_trade, on_level_change, trade_rates, zero_float,
}
use mantis.Strategy.QueueEstimator.Orders.{
  occupied, occupied-le, occupied-replicate, Each, Each-replicate, OfSlot, place-some, place-Each,
  occupied-remove, occupied-put_found, length-put_found, put_found-Each, occupied-each_order,
  each_order-Each,
}

-- No order has a negative quantity ahead of it.
abbrev pub AheadInRange : QueuedOrder → Type 0
AheadInRange o = neg_part o.ahead_qty ≡ 0

-- Clamping at zero keeps a quantity from being negative.
trade_order-AheadInRange : (qty : Lots) (o : QueuedOrder) → AheadInRange (trade_order qty o)
unfolding trade_order
trade_order-AheadInRange qty o = ground arith

level_order-AheadInRange :
    (F : F64) (n : F.Float) (old_qty decrease : Lots) (o : QueuedOrder)
    → AheadInRange o
    → AheadInRange (level_order F n old_qty decrease o)
unfolding level_order
level_order-AheadInRange F n old_qty decrease o h =
    elim (Bool-cases (F.le (F.of_i64 old_qty) (zero_float F))) [
      | inl none_left ↦ rw (level_order, none_left) h
      | inr some_left ↦ rw (level_order, some_left) (ground arith)
    ]

-- An order away from the level is left alone.
guarded-AheadInRange :
    (test : Bool) (f : QueuedOrder → QueuedOrder) (o : QueuedOrder)
    → AheadInRange (f o)
    → AheadInRange o
    → AheadInRange (if test then f o else o)
guarded-AheadInRange true f o h k = h
guarded-AheadInRange false f o h k = k

module _ {F : F64} where
  pub record IsValid (e : QueueEstimator F) : Type 0 where
    pub slots : length e.orders ≡ max_queued_orders
    pub counted : e.order_count ≡ occupied e.orders
    pub ahead : Each AheadInRange e.orders

  -- One call of an operation that changes the state. An order is registered with a level size that is
  -- not negative.
  pub data Step (e : QueueEstimator F) : QueueEstimator F → Type 0 where
    registered :
        (id : ℕ) (inst : InstrumentId) (side : Side) (price : Ticks) (qty : Lots) (level : Lots)
        → neg_part level ≡ 0
        → Step e (register_order e id inst side price qty level).0
    filled : (id : ℕ) (qty : Lots) → Step e (order_filled e id qty)
    cancelled : (id : ℕ) → Step e (order_cancelled e id)
    traded :
        (inst : InstrumentId) (side : Side) (price : Ticks) (qty : Lots)
        → Step e (on_trade e inst side price qty)
    level_changed :
        (inst : InstrumentId) (side : Side) (price : Ticks) (old_qty : Lots) (new_qty : Lots)
        → Step e (on_level_change e inst side price old_qty new_qty)

  pub data Reachable (n : F.Float) : QueueEstimator F → Type 0 where
    created : Reachable n (new n)
    after : {e e' : QueueEstimator F} → Reachable n e → Step e e' → Reachable n e'

  new-IsValid : (n : F.Float) → IsValid (new n)
  unfolding new
  new-IsValid n = record {
    slots = length-replicate {A = Slot} max_queued_orders none;
    counted = sym (occupied-replicate max_queued_orders);
    ahead = Each-replicate AheadInRange max_queued_orders;
  }

  register_order-IsValid :
      (e : QueueEstimator F) (id : ℕ) (inst : InstrumentId) (side : Side) (price : Ticks)
      (qty : Lots) (level : Lots)
      → neg_part level ≡ 0
      → IsValid e
      → IsValid (register_order e id inst side price qty level).0
  unfolding register_order
  register_order-IsValid e id inst side price qty level p h =
      let o : QueuedOrder = record {
        order_id = id;
        instrument_id = inst;
        side = side;
        price = price;
        qty = qty;
        ahead_qty = level;
        posted_at_level_size = add_i64 level qty;
      } in
      elim (Option-cases (place o e.orders)) [
        | inl full ↦ rw (register_order, full) h
        | inr (ys, fits) ↦
            let more = place-some o e.orders ys fits in
            let bound = occupied-le ys in
            rw (register_order, fits)
              record {
                slots = more.1 ∙ h.slots;
                counted = ground (
                  arith,
                  h.counted,
                  h.slots,
                  mod-eq_of_lt {n = 2 ^ 64} {m = suc (occupied e.orders)},
                );
                ahead = place-Each AheadInRange o e.orders ys fits p h.ahead;
              }
      ]

  remove_order-IsValid : (e : QueueEstimator F) (id : ℕ) → IsValid e → IsValid (remove_order e id)
  unfolding remove_order OfSlot
  remove_order-IsValid e id h = elim (Option-cases (find_slot id e.orders)) [
    | inl out ↦ rw (remove_order, out) h
    | inr (o, found) ↦
        let less = occupied-remove id e.orders o found in
        rw (remove_order, found)
          record {
            slots = length-put_found id none e.orders ∙ h.slots;
            counted = omega (arith, h.counted);
            ahead = put_found-Each AheadInRange id none e.orders tt h.ahead;
          }
  ]

  each_order-IsValid :
      (e : QueueEstimator F) (f : QueuedOrder → QueuedOrder)
      → ((o : QueuedOrder) → AheadInRange o → AheadInRange (f o))
      → IsValid e
      → IsValid (record e { orders = each_order f e.orders })
  each_order-IsValid e f p h =
      let kept = occupied-each_order f e.orders in
      record {
        slots = kept.1 ∙ h.slots;
        counted = h.counted ∙ sym kept.0;
        ahead = each_order-Each AheadInRange f e.orders p h.ahead;
      }

  order_filled-IsValid :
      (e : QueueEstimator F) (id : ℕ) (fill_qty : Lots)
      → IsValid e
      → IsValid (order_filled e id fill_qty)
  unfolding order_filled OfSlot
  order_filled-IsValid e id fill_qty h = elim (Option-cases (find_slot id e.orders)) [
    | inl out ↦ rw (order_filled, out) h
    | inr (o, found) ↦
        let left : Lots = sub_i64 o.qty fill_qty in
        let front : QueuedOrder = record o { qty = left; ahead_qty = zero_lots } in
        elim (Bool-cases (leb_ℤ left (pos 0))) [
          | inl done ↦ rw (order_filled, found, done) (remove_order-IsValid e id h)
          | inr part ↦
              rw (order_filled, found, part)
                record {
                  slots = length-put_found id (some front) e.orders ∙ h.slots;
                  counted = h.counted ∙ sym (occupied-put_found id front e.orders);
                  ahead = put_found-Each AheadInRange id (some front) e.orders refl h.ahead;
                }
        ]
  ]

  rates_IsValid :
      (e : QueueEstimator F) (inst : InstrumentId) (side : Side) (qty : Lots)
      → IsValid e
      → IsValid (trade_rates e inst side qty)
  rates_IsValid e inst Side.bid qty h = record {
    slots = h.slots;
    counted = h.counted;
    ahead = h.ahead;
  }
  rates_IsValid e inst Side.ask qty h = record {
    slots = h.slots;
    counted = h.counted;
    ahead = h.ahead;
  }

  on_trade-IsValid :
      (e : QueueEstimator F) (inst : InstrumentId) (side : Side) (price : Ticks) (qty : Lots)
      → IsValid e
      → IsValid (on_trade e inst side price qty)
  unfolding on_trade
  on_trade-IsValid e inst side price qty h =
      each_order-IsValid (trade_rates e inst side qty)
        (λ o. if at_level inst side price o then trade_order qty o else o)
        (λ o k.
          guarded-AheadInRange (at_level inst side price o) (trade_order qty) o
            (trade_order-AheadInRange qty o) k)
        (rates_IsValid e inst side qty h)

  on_level_change-IsValid :
      (e : QueueEstimator F) (inst : InstrumentId) (side : Side) (price : Ticks)
      (old_qty new_qty : Lots)
      → IsValid e
      → IsValid (on_level_change e inst side price old_qty new_qty)
  unfolding on_level_change
  on_level_change-IsValid e inst side price old_qty new_qty h =
      let f : QueuedOrder → QueuedOrder =
        level_order F e.prob_power_n old_qty (sub_i64 old_qty new_qty) in
      elim (Bool-cases (leb_ℤ old_qty new_qty)) [
        | inl grown ↦ rw (on_level_change, grown) h
        | inr shrunk ↦
            rw (on_level_change, shrunk)
              (each_order-IsValid e (λ o. if at_level inst side price o then f o else o)
                (λ o k.
                  guarded-AheadInRange (at_level inst side price o) f o
                    (level_order-AheadInRange F e.prob_power_n old_qty (sub_i64 old_qty new_qty) o
                      k)
                    k)
                h)
      ]

  step-IsValid : (e e' : QueueEstimator F) → Step e e' → IsValid e → IsValid e'
  unfolding order_cancelled
  step-IsValid e _ (registered id inst side price qty level p) h =
      register_order-IsValid e id inst side price qty level p h
  step-IsValid e _ (filled id qty) h = order_filled-IsValid e id qty h
  step-IsValid e _ (cancelled id) h = remove_order-IsValid e id h
  step-IsValid e _ (traded inst side price qty) h = on_trade-IsValid e inst side price qty h
  step-IsValid e _ (level_changed inst side price old_qty new_qty) h =
      on_level_change-IsValid e inst side price old_qty new_qty h

  -- An estimator that any sequence of the operations leads to from a new one, where each order is
  -- registered with a level size that is not negative, has its 64 slots, counts the orders that it
  -- holds, and has no order with a negative quantity ahead of it, whatever the `f64` functions return.
  pub Reachable-IsValid : (n : F.Float) (e : QueueEstimator F) → Reachable n e → IsValid e
  Reachable-IsValid n _ created = new-IsValid n
  Reachable-IsValid n e' (after {e = e} before step) =
      step-IsValid e e' step (Reachable-IsValid n e before)
