-- ===== src/Instrument/Tests.antt =====
-- The theorem on instrument metadata at a concrete input.
use mantis.Prelude.{◌≡◌, refl, some}
use mantis.Prelude.Int.{pos, negsuc, ◌*ℤ◌}
use mantis.Fixed.{checked_mul_int}
use mantis.Instrument.{
  InstrumentMeta, MetaResult, new_meta, price_to_ticks, ticks_to_price, qty_to_lots, lots_to_qty,
}
use mantis.Instrument.RoundTrip

-- A tick of 0.01 and a lot of 0.5, at six decimals.
abbrev meta : InstrumentMeta
meta = record { tick_size = pos 10000; lot_size = pos 500000 }

accepted : new_meta (pos 10000) (pos 500000) ≡ MetaResult.ok meta
unfolding new_meta
accepted = refl

-- Five ticks below zero, and three lots.
converted :
    (ticks_to_price meta (negsuc 4) ≡ some (negsuc 49999))
    × (lots_to_qty meta (pos 3) ≡ some (pos 1500000))
unfolding ticks_to_price lots_to_qty checked_mul_int ◌*ℤ◌
converted = (refl, refl)

price_to_ticks-ticks_to_price_example :
    (price_to_ticks meta (negsuc 49999) ≡ some (some (negsuc 4)))
    × (qty_to_lots meta (pos 1500000) ≡ some (some (pos 3)))
price_to_ticks-ticks_to_price_example =
    RoundTrip.price_to_ticks-ticks_to_price (pos 10000) (pos 500000) meta (negsuc 4) (negsuc 49999)
      (pos 3) (pos 1500000) accepted converted.0 converted.1
