-- ===== src/Strategy/Exposure.antt =====
-- crates/strategy/src/exposure.rs: `ExposureView`, positions and open orders seen together.
pub mod WorstCase
mod Tests
use mantis.Prelude.{List, [], ◌∷◌, ◌==◌, if◌then◌else◌}
use mantis.Prelude.Int.{ℤ, pos}
use mantis.Prelude.I64.{add_i64, neg_i64}
use mantis.Types.{InstrumentId, Side, SignedLots}
use mantis.Fixed.{FixedI64, zero_fixed, saturating_add}
use mantis.Strategy.OrderTracker.{OrderTracker, open_qty}
use mantis.Strategy.Position.{Position, notional}

pub record ExposureView : Type 0 where
  pub positions : List Position
  pub orders : OrderTracker

-- The quantity of the first position in the instrument, zero when there is none.
pub current_qty : List Position → InstrumentId → SignedLots
current_qty [] inst = pos 0
current_qty (p ∷ rest) inst = if p.instrument_id == inst then p.qty else current_qty rest inst

abbrev pub side_delta : Side → SignedLots → SignedLots
side_delta Side.bid qty = qty
side_delta Side.ask qty = neg_i64 qty

pub worst_case_qty : ExposureView → InstrumentId → Side → SignedLots
worst_case_qty e inst side =
    add_i64 (current_qty e.positions inst) (side_delta side (open_qty e.orders inst side))

-- The inner loop of `total_notional_at_risk`, over the positions.
pub add_notionals : List Position → InstrumentId → FixedI64 → FixedI64 → FixedI64
add_notionals [] inst mid total = total
add_notionals (p ∷ rest) inst mid total =
    let added = saturating_add (notional p mid) total in
    add_notionals rest inst mid (if p.instrument_id == inst then added else total)

-- The outer loop, over the mid prices.
pub add_all_notionals : List Position → List (InstrumentId × FixedI64) → FixedI64 → FixedI64
add_all_notionals ps [] total = total
add_all_notionals ps (x ∷ rest) total = add_all_notionals ps rest (add_notionals ps x.0 x.1 total)

pub total_notional_at_risk : ExposureView → List (InstrumentId × FixedI64) → FixedI64
total_notional_at_risk e mid_prices = add_all_notionals e.positions mid_prices zero_fixed
