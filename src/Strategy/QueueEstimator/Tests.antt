-- ===== src/Strategy/QueueEstimator/Tests.antt =====
-- Runs of the estimator over integers in place of `f64`, and its theorems at concrete inputs.
use mantis.Prelude.{◌-◌, ◌≡◌, refl, some, arith, if◌then◌else◌}
use mantis.Prelude.Int.{ℤ, pos, pos_part, ltb_ℤ, leb_ℤ, ◌+ℤ◌, ◌-ℤ◌, ◌*ℤ◌, tdiv}
use mantis.Prelude.I64.{add_i64, wrap_i64}
use mantis.Types.{Side}
use mantis.Strategy.F64.{F64}
use mantis.Strategy.QueueEstimator.{
  QueueEstimator, QueuedOrder, at_level, find_slot, new, register_order, on_trade, queue_ahead,
  place,
}
use mantis.Strategy.QueueEstimator.Invariant
use mantis.Strategy.QueueEstimator.Invariant.{Reachable, created, after, registered, IsValid}
use mantis.Strategy.QueueEstimator.Ahead

abbrev whole : F64
whole = record {
  Float = ℤ;
  literal = λ digits places. digits;
  of_i64 = λ z. z;
  of_usize = pos;
  to_i64 = λ z. z;
  to_usize = pos_part;
  add = λ a b. a +ℤ b;
  sub = λ a b. a -ℤ b;
  mul = λ a b. a *ℤ b;
  div = tdiv;
  neg = λ a. pos 0 -ℤ a;
  lt = ltb_ℤ;
  le = leb_ℤ;
  pow = λ a b. a;
  exp = λ a. a;
  sqrt = λ a. a;
}

abbrev fresh : QueueEstimator whole
fresh = new (pos 3)

-- Five lots at price 650 behind 500.
abbrev one_order : QueueEstimator whole
one_order = (register_order fresh 1 0 Side.bid (pos 650) (pos 5) (pos 500)).0

one_order-Reachable : Reachable (pos 3) one_order
one_order-Reachable = after created (registered 1 0 Side.bid (pos 650) (pos 5) (pos 500) refl)

abbrev order : QueuedOrder
order = record {
  order_id = 1;
  instrument_id = 0;
  side = Side.bid;
  price = pos 650;
  qty = pos 5;
  ahead_qty = pos 500;
  posted_at_level_size = pos 505;
}

tracked : find_slot 1 one_order.orders ≡ some order
unfolding new register_order place find_slot add_i64 wrap_i64 ◌+ℤ◌
tracked = refl

Reachable-IsValid_example : IsValid one_order
Reachable-IsValid_example = Invariant.Reachable-IsValid (pos 3) one_order one_order-Reachable

on_trade_lem_example :
    queue_ahead (on_trade one_order 0 Side.bid (pos 650) (pos 200)) 1
    ≡ some (pos (if at_level 0 Side.bid (pos 650) order then 500 - 200 else 500))
on_trade_lem_example =
    Ahead.on_trade_lem one_order 0 Side.bid (pos 650) 200 500 1 order tracked refl (omega arith)
