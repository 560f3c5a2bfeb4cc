-- ===== src/Strategy/Exposure/WorstCase.antt =====
-- The worst case of a book side is the position moved by all that its open orders leave to fill.
use mantis.Prelude.{ℕ, ◌^◌, ◌<◌, ◌≡◌, refl, ◌∙◌, ap, arith}
use mantis.Prelude.Int.{ℤ, pos, ◌+ℤ◌, ◌-ℤ◌}
use mantis.Prelude.I64.{InI64, add_i64, add_i64-eq, neg_i64, wrap_i64-eq}
use mantis.Types.{InstrumentId, Side}
use mantis.Strategy.OrderTracker.Fill.{AllFillable, open_total, open_qty-eq-open_total}
use mantis.Strategy.Exposure.{ExposureView, current_qty, side_delta, worst_case_qty}

-- What a side's fills of `n` lots add to a position.
abbrev pub signed : Side → ℕ → ℤ
signed Side.bid n = pos n
signed Side.ask n = pos 0 -ℤ pos n

side_delta-pos : (s : Side) (n : ℕ) → n < 2 ^ 63 → side_delta s (pos n) ≡ signed s n
unfolding neg_i64
side_delta-pos Side.bid n h = refl
side_delta-pos Side.ask n h =
    wrap_i64-eq (pos 0 -ℤ pos n) (unfold ◌-ℤ◌ in (ground arith, ground arith))

-- The worst case is the quantity of the position plus, for bids, or less, for asks, the sum of what is
-- left of the active orders of that side, as long as that sum and the result fit an i64.
pub worst_case_qty_lem :
    (e : ExposureView) (i : InstrumentId) (s : Side)
    → AllFillable e.orders.orders
    → open_total i s e.orders.orders < 2 ^ 63
    → InI64 (current_qty e.positions i +ℤ signed s (open_total i s e.orders.orders))
    → worst_case_qty e i s ≡ current_qty e.positions i +ℤ signed s (open_total i s e.orders.orders)
unfolding worst_case_qty
worst_case_qty_lem e i s a h k =
    let n : ℕ = open_total i s e.orders.orders in
    ap (λ z. add_i64 (current_qty e.positions i) (side_delta s z))
      (open_qty-eq-open_total e.orders i s a h)
    ∙ ap (add_i64 (current_qty e.positions i)) (side_delta-pos s n h)
    ∙ add_i64-eq (current_qty e.positions i) (signed s n) k
