-- ===== src/Instrument/RoundTrip.antt =====
-- Ticks and lots come back from the prices and quantities that they stand for.
use mantis.Prelude.{ℕ, zero, suc, ◌<◌, ◌≡◌, refl, ◌∙◌, sym, ap, arith, true, false, some}
use mantis.Prelude.Int.{ℤ, pos, negsuc, ◌*ℤ◌, tdiv, eqb_ℤ}
use mantis.Prelude.I64.{div_i64}
use mantis.Fixed.{FixedI64, is_positive, checked_mul_int}
use mantis.Fixed.Convert.RoundTrip.{tdiv-mul}
use mantis.Instrument.{
  InstrumentMeta, MetaResult, new_meta, quotient_of, price_to_ticks, ticks_to_price, qty_to_lots,
  lots_to_qty,
}

swap : (f : ℕ) (a : ℤ) → pos f *ℤ a ≡ a *ℤ pos f
unfolding ◌*ℤ◌
swap f (pos m) = grind arith
swap f (negsuc m) = grind arith

div_i64-pos : (a : ℤ) (f : ℕ) → 0 < f → div_i64 a (pos f) ≡ some (tdiv a (pos f))
unfolding div_i64
div_i64-pos a f h = ground arith

-- Dividing an exact multiple of a positive size.
quotient_of-mul :
    (size units value : ℤ)
    → is_positive size ≡ true
    → checked_mul_int size units ≡ some value
    → quotient_of value size ≡ some (some units)
unfolding checked_mul_int
quotient_of-mul (negsuc n) units value h e = absurd (ground arith)
quotient_of-mul (pos zero) units value h e = absurd (ground arith)
quotient_of-mul (pos (suc f)) units value h e =
    let exact : pos (suc f) *ℤ units ≡ value = ground arith in
    let there : tdiv value (pos (suc f)) ≡ units =
      ap (λ z. tdiv z (pos (suc f))) (sym exact ∙ swap (suc f) units)
      ∙ tdiv-mul units (suc f) (omega arith) in
    let not_zero : eqb_ℤ (pos (suc f)) (pos 0) ≡ false = ground arith in
    rw (not_zero, div_i64-pos value (suc f) (omega arith), there) refl

new_meta-positive :
    (tick lot : FixedI64) (m : InstrumentMeta)
    → new_meta tick lot ≡ MetaResult.ok m
    → (is_positive m.tick_size ≡ true) × (is_positive m.lot_size ≡ true)
unfolding new_meta
new_meta-positive tick lot m e = ground arith

-- On metadata that the constructor accepted, ticks that have a price come back from that price, and lots
-- that have a quantity come back from that quantity, and neither division panics.
pub price_to_ticks-ticks_to_price :
    (tick lot : FixedI64) (m : InstrumentMeta) (ticks price lots qty : ℤ)
    → new_meta tick lot ≡ MetaResult.ok m
    → ticks_to_price m ticks ≡ some price
    → lots_to_qty m lots ≡ some qty
    → (price_to_ticks m price ≡ some (some ticks)) × (qty_to_lots m qty ≡ some (some lots))
unfolding ticks_to_price price_to_ticks qty_to_lots lots_to_qty
price_to_ticks-ticks_to_price tick lot m ticks price lots qty e p q =
    let sizes = new_meta-positive tick lot m e in
    (
      quotient_of-mul m.tick_size ticks price sizes.0 p,
      quotient_of-mul m.lot_size lots qty sizes.1 q,
    )
