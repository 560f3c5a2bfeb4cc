-- ===== src/Strategy/QueueEstimator.antt =====
-- crates/strategy/src/queue.rs: the estimate of how much rests ahead of each of the own orders at its
-- price level. The arithmetic of `f64` is a parameter.
pub mod Orders
pub mod Invariant
pub mod Ahead
pub mod FillProbability
mod Tests
use mantis.Prelude.{
  ℕ, zero, suc, ◌+◌, ◌-◌, ◌%◌, ◌^◌, Bool, true, false, List, [], ◌∷◌, Option, none, some, ◌&&◌,
  replicate, set, if◌then◌else◌, ◌==◌,
}
use mantis.Prelude.Int.{ℤ, pos, negsuc, leb_ℤ, eqb_ℤ}
use mantis.Prelude.I64.{add_i64, sub_i64, min_ℤ, max_ℤ}
use mantis.Types.{InstrumentId, Side, side_eq, Ticks, Lots, zero_lots}
use mantis.Strategy.F64.{F64}

abbrev pub max_queued_orders : ℕ
max_queued_orders = 64

abbrev pub max_rate_instruments : ℕ
max_rate_instruments = 16

pub record QueuedOrder : Type 0 where
  pub order_id : ℕ
  pub instrument_id : InstrumentId
  pub side : Side
  pub price : Ticks
  pub qty : Lots
  pub ahead_qty : Lots
  pub posted_at_level_size : Lots

abbrev pub Slot : Type 0
Slot = Option QueuedOrder

-- The test that `on_trade` and `on_level_change` share: an order at this level of this book.
abbrev pub at_level : InstrumentId → Side → Ticks → QueuedOrder → Bool
at_level inst side price o = o.instrument_id == inst && side_eq o.side side && eqb_ℤ o.price price

-- The loop of `register_order`: the first empty slot, `none` when there is none.
pub place : QueuedOrder → List Slot → Option (List Slot)
place o [] = none
place o (none ∷ rest) = some (some o ∷ rest)
place o (some x ∷ rest) = elim (place o rest) [ none ↦ none | some placed ↦ some (some x ∷ placed) ]

-- `find`, and the order that `find_order_mut` refers to.
pub find_slot : ℕ → List Slot → Option QueuedOrder
find_slot id [] = none
find_slot id (none ∷ rest) = find_slot id rest
find_slot id (some o ∷ rest) = if o.order_id == id then some o else find_slot id rest

-- A write through the reference of `find_order_mut`, and the loop of `remove_order`.
pub put_found : ℕ → Slot → List Slot → List Slot
put_found id new_slot [] = []
put_found id new_slot (none ∷ rest) = none ∷ put_found id new_slot rest
put_found id new_slot (some o ∷ rest) =
    let later = put_found id new_slot rest in
    if o.order_id == id then new_slot ∷ rest else some o ∷ later

-- `for order in orders.iter_mut().flatten()`.
pub each_order : (QueuedOrder → QueuedOrder) → List Slot → List Slot
each_order f [] = []
each_order f (none ∷ rest) = none ∷ each_order f rest
each_order f (some o ∷ rest) = some (f o) ∷ each_order f rest

-- What a trade of `qty` does to an order at its level.
pub trade_order : Lots → QueuedOrder → QueuedOrder
trade_order qty o =
    let reduction = min_ℤ qty o.ahead_qty in
    record o { ahead_qty = max_ℤ (sub_i64 o.ahead_qty reduction) (pos 0) }

module _ (F : F64) where
  pub record TakeRateEntry : Type 0 where
    pub rate_instrument : InstrumentId
    pub rate : F.Float

  pub record QueueEstimator : Type 0 where
    pub orders : List Slot
    pub order_count : ℕ
    pub take_rates_bid : List (Option TakeRateEntry)
    pub take_rates_ask : List (Option TakeRateEntry)
    pub prob_power_n : F.Float

  abbrev pub zero_float : F.Float
  zero_float = F.literal (pos 0) 0

  abbrev pub one_float : F.Float
  one_float = F.literal (pos 10) 1

  -- `PowerProbQueueFunc`: the probability that a cancel comes from behind the order.
  pub prob_from_back : F.Float → F.Float → F.Float → F.Float
  prob_from_back n back front =
      if F.lt zero_float (F.add back front)
      then F.div (F.pow back n) (F.add (F.pow back n) (F.pow front n))
      else F.literal (pos 5) 1

  -- What a level that shrinks from `old_qty` by `decrease` does to an order at it.
  pub level_order : F.Float → Lots → Lots → QueuedOrder → QueuedOrder
  level_order n old_qty decrease o =
      let front = F.of_i64 o.ahead_qty in
      let total = F.of_i64 old_qty in
      let back_prob = prob_from_back n (F.sub total front) front in
      let cancel_from_front = F.mul (F.of_i64 decrease) (F.sub one_float back_prob) in
      let cancel_lots = F.to_i64 cancel_from_front in
      if F.le total zero_float
      then o
      else record o { ahead_qty = max_ℤ (sub_i64 o.ahead_qty cancel_lots) (pos 0) }

module _ {F : F64} where
  pub new : F.Float → QueueEstimator F
  new n = record {
    orders = replicate max_queued_orders none;
    order_count = 0;
    take_rates_bid = replicate max_rate_instruments none;
    take_rates_ask = replicate max_rate_instruments none;
    prob_power_n = n;
  }

  -- `Default::default`.
  pub default : QueueEstimator F
  default = new (F.literal (pos 30) 1)

  -- `false` is `Err(QueueFullError)`.
  pub register_order :
      QueueEstimator F → ℕ → InstrumentId → Side → Ticks → Lots → Lots → QueueEstimator F × Bool
  register_order e id inst side price qty current_level_size =
      let order : QueuedOrder = record {
        order_id = id;
        instrument_id = inst;
        side = side;
        price = price;
        qty = qty;
        ahead_qty = current_level_size;
        posted_at_level_size = add_i64 current_level_size qty;
      } in
      elim (place order e.orders) [
        | none ↦ (e, false)
        | some placed ↦
            (record e { orders = placed; order_count = (e.order_count + 1) % 2 ^ 64 }, true)
      ]

  pub remove_order : QueueEstimator F → ℕ → QueueEstimator F
  remove_order e id = elim (find_slot id e.orders) [
    | none ↦ e
    | some o ↦ record e { orders = put_found id none e.orders; order_count = e.order_count - 1 }
  ]

  pub order_filled : QueueEstimator F → ℕ → Lots → QueueEstimator F
  order_filled e id fill_qty = elim (find_slot id e.orders) [
    | none ↦ e
    | some o ↦
        let remaining = sub_i64 o.qty fill_qty in
        let front = record o { qty = remaining; ahead_qty = zero_lots } in
        if leb_ℤ remaining (pos 0)
        then remove_order e id
        else record e { orders = put_found id (some front) e.orders }
  ]

  pub order_cancelled : QueueEstimator F → ℕ → QueueEstimator F
  order_cancelled e id = remove_order e id

  pub queue_ahead : QueueEstimator F → ℕ → Option Lots
  queue_ahead e id = elim (find_slot id e.orders) [ none ↦ none | some o ↦ some o.ahead_qty ]

  -- The first loop of `update_take_rate`: `none` when the instrument has no entry.
  pub blend_rate :
      List (Option (TakeRateEntry F))
      → InstrumentId
      → F.Float
      → F.Float
      → Option (List (Option (TakeRateEntry F)))
  blend_rate [] inst qty_f alpha = none
  blend_rate (none ∷ rest) inst qty_f alpha = elim (blend_rate rest inst qty_f alpha) [
    | none ↦ none
    | some blended ↦ some (none ∷ blended)
  ]
  blend_rate (some x ∷ rest) inst qty_f alpha =
      let later = blend_rate rest inst qty_f alpha in
      let rate = F.add (F.mul x.rate (F.sub (one_float F) alpha)) (F.mul qty_f alpha) in
      if x.rate_instrument == inst
      then some (some (record x { rate = rate }) ∷ rest)
      else elim later [ none ↦ none | some blended ↦ some (some x ∷ blended) ]

  -- The second loop: the first empty slot, `none` when there is none.
  pub insert_rate :
      List (Option (TakeRateEntry F)) → TakeRateEntry F → Option (List (Option (TakeRateEntry F)))
  insert_rate [] x = none
  insert_rate (none ∷ rest) x = some (some x ∷ rest)
  insert_rate (some y ∷ rest) x = elim (insert_rate rest x) [
    | none ↦ none
    | some placed ↦ some (some y ∷ placed)
  ]

  pub update_take_rate :
      List (Option (TakeRateEntry F))
      → InstrumentId
      → F.Float
      → F.Float
      → List (Option (TakeRateEntry F))
  update_take_rate rates inst qty_f alpha =
      let entry : TakeRateEntry F = record { rate_instrument = inst; rate = qty_f } in
      elim (blend_rate rates inst qty_f alpha) [
        | some blended ↦ blended
        | none ↦ elim (insert_rate rates entry) [
          | some placed ↦ placed
          | none ↦ set rates 0 (some entry)
        ]
      ]

  pub find_rate : List (Option (TakeRateEntry F)) → InstrumentId → F.Float
  find_rate [] inst = one_float F
  find_rate (none ∷ rest) inst = find_rate rest inst
  find_rate (some x ∷ rest) inst = if x.rate_instrument == inst then x.rate else find_rate rest inst

  -- `instrument_take_rate` and `take_rate`.
  pub take_rate : QueueEstimator F → InstrumentId → Side → F.Float
  take_rate e inst Side.bid = find_rate e.take_rates_bid inst
  take_rate e inst Side.ask = find_rate e.take_rates_ask inst

  abbrev pub trade_rates : QueueEstimator F → InstrumentId → Side → Lots → QueueEstimator F
  trade_rates e inst Side.bid qty = record e {
    take_rates_bid = update_take_rate e.take_rates_bid inst (F.of_i64 qty) (F.literal (pos 1) 1);
  }
  trade_rates e inst Side.ask qty = record e {
    take_rates_ask = update_take_rate e.take_rates_ask inst (F.of_i64 qty) (F.literal (pos 1) 1);
  }

  pub on_trade : QueueEstimator F → InstrumentId → Side → Ticks → Lots → QueueEstimator F
  on_trade e inst side price qty =
      let rated = trade_rates e inst side qty in
      record rated {
        orders =
            each_order (λ o. if at_level inst side price o then trade_order qty o else o)
              rated.orders;
      }

  pub on_level_change :
      QueueEstimator F → InstrumentId → Side → Ticks → Lots → Lots → QueueEstimator F
  on_level_change e inst side price old_qty new_qty =
      let decrease = sub_i64 old_qty new_qty in
      if leb_ℤ old_qty new_qty then e else record e {
        orders =
            each_order
              (λ o.
                if at_level inst side price o
                then level_order F e.prob_power_n old_qty decrease o
                else o)
              e.orders;
      }
