-- ===== src/Strategy/QueueEstimator/Ahead.antt =====
-- What the operations of the estimator answer about one order.
use mantis.Prelude.{
  Option, leb, ℕ, ◌+◌, ◌-◌, ◌^◌, ◌<◌, ◌≡◌, refl, ◌∙◌, ap, List, [], ◌∷◌, none, some, arith, Bool,
  true, false, inl, inr, Bool-cases, Option-cases, if◌then◌else◌,
}
use mantis.Prelude.Int.{pos, leb_ℤ, ◌≤ℤ◌, ◌<ℤ◌}
use mantis.Prelude.I64.{add_i64, sub_i64, sub_i64-pos, max_ℤ, min_ℤ}
use mantis.Types.{InstrumentId, Side, Ticks, Lots, zero_lots}
use mantis.Strategy.F64.{F64}
use mantis.Strategy.QueueEstimator.{
  QueuedOrder, Slot, QueueEstimator, max_queued_orders, at_level, find_slot, each_order,
  trade_order, place, register_order, remove_order, order_filled, on_trade, trade_rates,
  queue_ahead,
}
use mantis.Strategy.QueueEstimator.Orders.{
  occupied-le, occupied-remove, place-some, place-none, find_slot-place, find_slot-put_found,
  find_slot-each_order,
}
use mantis.Strategy.QueueEstimator.Invariant.{IsValid}
use native.Mathlib.Nat.{mod-eq_of_lt}

find_slot-order_id :
    (id : ℕ) (xs : List Slot) (o : QueuedOrder) → find_slot id xs ≡ some o → o.order_id ≡ id
unfolding find_slot
find_slot-order_id id [] o h = absurd (cc)
find_slot-order_id id (none ∷ rest) o h = find_slot-order_id id rest o h
find_slot-order_id id (some x ∷ rest) o h = ground (arith, find_slot-order_id id rest o)

guarded-order_id :
    (test : Bool) (qty : Lots) (o : QueuedOrder)
    → (if test then trade_order qty o else o).order_id ≡ o.order_id
unfolding trade_order
guarded-order_id true qty o = refl
guarded-order_id false qty o = refl

-- A trade takes its size off what is ahead, and stops at zero.
trade_order_lem :
    (q a : ℕ) (o : QueuedOrder)
    → o.ahead_qty ≡ pos a
    → a < 2 ^ 63
    → (trade_order (pos q) o).ahead_qty ≡ pos (a - q)
unfolding trade_order
trade_order_lem q a o e h =
    let start = ap (λ z. max_ℤ (sub_i64 z (min_ℤ (pos q) z)) (pos 0)) e in
    elim (Bool-cases (leb q a)) [
      | inl under ↦
          let least : min_ℤ (pos q) (pos a) ≡ pos q = ground arith in
          start
          ∙ ap (λ z. max_ℤ (sub_i64 (pos a) z) (pos 0)) least
          ∙ ap (λ z. max_ℤ z (pos 0)) (sub_i64-pos a q (ground arith) h)
          ∙ ground arith
      | inr over ↦
          let least : min_ℤ (pos q) (pos a) ≡ pos a = ground arith in
          start
          ∙ ap (λ z. max_ℤ (sub_i64 (pos a) z) (pos 0)) least
          ∙ ap (λ z. max_ℤ z (pos 0)) (sub_i64-pos a a (omega arith) h)
          ∙ ground arith
    ]

guarded_lem :
    (test : Bool) (q a : ℕ) (o : QueuedOrder)
    → o.ahead_qty ≡ pos a
    → a < 2 ^ 63
    → (if test then trade_order (pos q) o else o).ahead_qty ≡ pos (if test then a - q else a)
guarded_lem true q a o e h = trade_order_lem q a o e h
guarded_lem false q a o e h = e

untracked :
    (id : ℕ) (xs : List Slot)
    → ◌≡◌ {A = Option Lots}
        (elim (find_slot id xs) [ none ↦ none | some o ↦ some o.ahead_qty ])
        none
    → find_slot id xs ≡ none
untracked id xs h = elim (Option-cases (find_slot id xs)) [
  | inl out ↦ out
  | inr (o, found) ↦ absurd (cc)
]

module _ {F : F64} where
  rates_orders :
      (e : QueueEstimator F) (inst : InstrumentId) (side : Side) (qty : Lots)
      → (trade_rates e inst side qty).orders ≡ e.orders
  rates_orders e inst Side.bid qty = refl
  rates_orders e inst Side.ask qty = refl

  -- A trade of `q` lots leaves an order at its level with `a - q` lots ahead, zero when `q` is more, and
  -- every other order with the `a` lots that it had.
  pub on_trade_lem :
      (e : QueueEstimator F) (inst : InstrumentId) (side : Side) (price : Ticks) (q a : ℕ) (id : ℕ)
      (o : QueuedOrder)
      → find_slot id e.orders ≡ some o
      → o.ahead_qty ≡ pos a
      → a < 2 ^ 63
      → queue_ahead (on_trade e inst side price (pos q)) id
        ≡ some (pos (if at_level inst side price o then a - q else a))
  unfolding on_trade queue_ahead
  on_trade_lem e inst side price q a id o found same h =
      let f : QueuedOrder → QueuedOrder =
        λ x. if at_level inst side price x then trade_order (pos q) x else x in
      let there =
        ap (λ z. find_slot id (each_order f z)) (rates_orders e inst side (pos q))
        ∙ find_slot-each_order f id e.orders
            (λ x. guarded-order_id (at_level inst side price x) (pos q) x) in
      ap (λ z. elim z [ none ↦ none | some x ↦ some x.ahead_qty ])
        (there ∙ ap (λ z. elim z [ none ↦ none | some x ↦ some (f x) ]) found)
      ∙ ap some (guarded_lem (at_level inst side price o) q a o same h)

  -- Registering an order on a full estimator is refused and changes nothing. Otherwise it succeeds, the
  -- order is counted, and when its id is new all of the level that it joined is ahead of it.
  pub register_order_lem :
      (e : QueueEstimator F) (id : ℕ) (inst : InstrumentId) (side : Side) (price : Ticks)
      (qty level : Lots)
      → IsValid e
      → (e.order_count ≡ max_queued_orders
          → register_order e id inst side price qty level ≡ (e, false))
        × (e.order_count < max_queued_orders
            → ((register_order e id inst side price qty level).1 ≡ true)
              × ((register_order e id inst side price qty level).0.order_count ≡ e.order_count + 1)
              × (queue_ahead e id ≡ none
                  → queue_ahead (register_order e id inst side price qty level).0 id ≡ some level))
  unfolding register_order queue_ahead
  register_order_lem e id inst side price qty level h =
      let o : QueuedOrder = record {
        order_id = id;
        instrument_id = inst;
        side = side;
        price = price;
        qty = qty;
        ahead_qty = level;
        posted_at_level_size = add_i64 level qty;
      } in
      let size = occupied-le e.orders in
      let slots = h.slots in
      let counted = h.counted in
      elim (Option-cases (place o e.orders)) [
        | inl full ↦
            let all = place-none o e.orders full in
            rw (register_order, full) (λ _. refl, λ less. absurd (omega arith))
        | inr (ys, fits) ↦
            let more = place-some o e.orders ys fits in
            let bound = occupied-le ys in
            rw (register_order, fits)
              (
                λ all. absurd (omega arith),
                λ less. (
                  refl,
                  mod-eq_of_lt (omega arith),
                  λ fresh.
                      ap (λ z. elim z [ none ↦ none | some x ↦ some x.ahead_qty ])
                        (find_slot-place o e.orders ys fits (untracked id e.orders fresh)),
                ),
              )
      ]

  -- A fill of a tracked order. One that leaves a positive rest keeps the order with that rest, puts it at
  -- the front, and keeps the count; any other frees its slot.
  pub order_filled_lem :
      (e : QueueEstimator F) (id : ℕ) (fill_qty : Lots) (o : QueuedOrder)
      → IsValid e
      → find_slot id e.orders ≡ some o
      → (pos 0 <ℤ sub_i64 o.qty fill_qty
          → (find_slot id (order_filled e id fill_qty).orders
              ≡ some (record o { qty = sub_i64 o.qty fill_qty; ahead_qty = zero_lots }))
            × ((order_filled e id fill_qty).order_count ≡ e.order_count))
        × (sub_i64 o.qty fill_qty ≤ℤ pos 0
            → (order_filled e id fill_qty).order_count + 1 ≡ e.order_count)
  unfolding order_filled remove_order
  order_filled_lem e id fill_qty o h found =
      let left : Lots = sub_i64 o.qty fill_qty in
      let front : QueuedOrder = record o { qty = left; ahead_qty = zero_lots } in
      elim (Bool-cases (leb_ℤ left (pos 0))) [
        | inl done ↦
            let less = occupied-remove id e.orders o found in
            let counted = h.counted in
            rw (order_filled, found, done)
              (λ more. absurd (ground arith), λ _. rw (remove_order, found) (omega arith))
        | inr part ↦
            rw (order_filled, found, part)
              (
                λ _. (
                  find_slot-put_found id o front e.orders found
                      (find_slot-order_id id e.orders o found),
                  refl,
                ),
                λ none_left. absurd (ground arith),
              )
      ]
