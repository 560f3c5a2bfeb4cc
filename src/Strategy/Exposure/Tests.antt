-- ===== src/Strategy/Exposure/Tests.antt =====
-- The theorem on exposure at a concrete input.
use mantis.Prelude.{◌≡◌, ◌∷◌, [], none, some, arith, replicate}
use mantis.Prelude.Int.{pos, ◌+ℤ◌, ◌-ℤ◌}
use mantis.Types.{Side}
use mantis.Strategy.OrderTracker.{OrderState}
use mantis.Strategy.OrderTracker.Fill.{AllFillable, open_total, share}
use mantis.Strategy.Exposure.{ExposureView, current_qty, worst_case_qty}
use mantis.Strategy.Exposure.WorstCase
use mantis.Strategy.Exposure.WorstCase.{signed}

-- A position of ten lots, and an ask for a hundred of which thirty are filled.
abbrev view : ExposureView
view = record {
  positions =
      record {
        instrument_id = 4;
        qty = pos 10;
        avg_entry = pos 500;
        realized_pnl = pos 0;
        fill_count = 1;
      }
      ∷ [];
  orders = record {
    orders =
        some record {
          client_order_id = 7;
          exchange_order_id = 0;
          strategy_id = 1;
          instrument_id = 4;
          side = Side.ask;
          price = pos 650;
          original_qty = pos 100;
          filled_qty = pos 30;
          state = OrderState.live;
          created_at_ns = 5;
          acked_at_ns = 0;
        }
        ∷ replicate 63 none;
    active_count = 1;
  };
}

view-AllFillable : AllFillable view.orders.orders
view-AllFillable = (omega arith, tt)

worst_case_qty_lem_example :
    worst_case_qty view 4 Side.ask
    ≡ current_qty view.positions 4 +ℤ signed Side.ask (open_total 4 Side.ask view.orders.orders)
unfolding open_total share current_qty ◌+ℤ◌ ◌-ℤ◌
worst_case_qty_lem_example =
    WorstCase.worst_case_qty_lem view 4 Side.ask view-AllFillable (omega arith)
      (omega arith, omega arith)
