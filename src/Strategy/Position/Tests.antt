-- ===== src/Strategy/Position/Tests.antt =====
-- The theorems on positions at concrete inputs.
use mantis.Prelude.{ℕ, ◌-◌, ◌<◌, ◌≡◌, refl, true, some, arith}
use mantis.Prelude.Int.{pos, ◌+ℤ◌, ◌-ℤ◌, ◌*ℤ◌}
use mantis.Prelude.I64.{InI64, add_i64}
use mantis.Types.{Side}
use mantis.Fixed.{zero_fixed}
use mantis.Strategy.Position.{Position, on_fill, signed_delta, bump_count, is_zero}
use mantis.Strategy.Position.Flat
use mantis.Strategy.Position.Realized
use mantis.Strategy.Position.Realized.{profit}

-- Ten lots at a price of 500, with nothing realized so far.
abbrev long_ten : Position
long_ten = record {
  instrument_id = 4;
  qty = pos 10;
  avg_entry = pos 500;
  realized_pnl = pos 0;
  fill_count = 1;
}

on_fill_total_example :
    (p' : Position) × (on_fill long_ten Side.ask (pos 10) (pos 520) ≡ some p')
    × (p'.qty ≡ add_i64 (pos 10) (signed_delta Side.ask (pos 10)))
    × (p'.fill_count ≡ bump_count 1)
    × (p'.instrument_id ≡ 4)
    × (is_zero p'.qty ≡ true → p'.avg_entry ≡ zero_fixed)
on_fill_total_example = Flat.on_fill_total long_ten Side.ask (pos 10) (pos 520)

small : InI64 ((pos 520 -ℤ pos 500) *ℤ pos 4) × InI64 (pos 520 -ℤ pos 500)
unfolding ◌-ℤ◌ ◌*ℤ◌
small = ground arith

sum_fits : InI64 (pos 0 +ℤ profit (pos 500) (pos 520) 4)
unfolding ◌-ℤ◌ ◌*ℤ◌ ◌+ℤ◌
sum_fits = ground arith

abbrev sold_lots : ℕ
sold_lots = 4

on_fill_sell_example :
    (p' : Position) × (on_fill long_ten Side.ask (pos 4) (pos 520) ≡ some p')
    × (p'.qty ≡ pos (10 - 4))
    × (p'.realized_pnl ≡ pos 0 +ℤ profit (pos 500) (pos 520) 4)
    × (4 < 10 → p'.avg_entry ≡ pos 500)
    × (sold_lots ≡ 10 → p'.avg_entry ≡ zero_fixed)
on_fill_sell_example =
    Realized.on_fill_sell long_ten 10 4 (pos 520) refl (omega arith) (omega arith) (omega arith)
      small.1 small.0 sum_fits
