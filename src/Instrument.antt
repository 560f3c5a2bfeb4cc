-- ===== src/Instrument.antt =====
-- crates/types/src/instrument.rs: `InstrumentMeta<D>`, the tick and the lot size of an instrument, and the
-- conversions between fixed-point numbers and ticks or lots.
pub mod RoundTrip
mod Tests
use mantis.Prelude.{Bool, Option, none, some, not, if◌then◌else◌}
use mantis.Prelude.Int.{ℤ, pos, eqb_ℤ}
use mantis.Prelude.I64.{div_i64}
use mantis.Types.{Ticks, Lots}
use mantis.Fixed.{FixedI64, is_positive, checked_mul_int}

pub record InstrumentMeta : Type 0 where
  pub tick_size : FixedI64
  pub lot_size : FixedI64

pub data InstrumentMetaError : Type 0 where
  invalid_tick_size invalid_lot_size : InstrumentMetaError

pub data MetaResult : Type 0 where
  ok : InstrumentMeta → MetaResult
  err : InstrumentMetaError → MetaResult

pub new_meta : FixedI64 → FixedI64 → MetaResult
new_meta tick_size lot_size =
    if not (is_positive tick_size)
    then MetaResult.err InstrumentMetaError.invalid_tick_size
    else if not (is_positive lot_size)
    then MetaResult.err InstrumentMetaError.invalid_lot_size
    else MetaResult.ok (record { tick_size = tick_size; lot_size = lot_size })

-- The body of `price_to_ticks` and `qty_to_lots`: the outer `none` is a panic of the division.
abbrev pub quotient_of : FixedI64 → FixedI64 → Option (Option ℤ)
quotient_of value divisor =
    if eqb_ℤ divisor (pos 0)
    then some none
    else elim (div_i64 value divisor) [ none ↦ none | some q ↦ some (some q) ]

unfoldable pub price_to_ticks : InstrumentMeta → FixedI64 → Option (Option Ticks)
price_to_ticks m price = quotient_of price m.tick_size

pub ticks_to_price : InstrumentMeta → Ticks → Option FixedI64
ticks_to_price m ticks = checked_mul_int m.tick_size ticks

unfoldable pub qty_to_lots : InstrumentMeta → FixedI64 → Option (Option Lots)
qty_to_lots m qty = quotient_of qty m.lot_size

pub lots_to_qty : InstrumentMeta → Lots → Option FixedI64
lots_to_qty m lots = checked_mul_int m.lot_size lots
