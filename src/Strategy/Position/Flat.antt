-- ===== src/Strategy/Position/Flat.antt =====
-- `on_fill` never panics, and it keeps the documented invariants of a position.
use mantis.Prelude.{
  ◌≡◌, ◌≢◌, refl, true, some, arith, inl, inr, Bool-cases, Option-cases, if◌then◌else◌,
}
use mantis.Prelude.Int.{ℤ, negsuc, ◌-ℤ◌, ◌+ℤ◌}
use mantis.Prelude.I64.{InI64, wrap_i64-InI64, wrap_i64, neg_i64, abs_i64, add_i64}
use mantis.Types.{Lots, SignedLots, Side}
use mantis.Fixed.{FixedI64, zero_fixed, checked_div_int, checked_mul_int, checked_add}
use mantis.Fixed.Exact.{panics}
use mantis.Strategy.Position.{
  Position, on_fill, vwap, settle, is_increasing, signed_delta, realize, flips, is_zero, or_zero,
  bump_count,
}

-- The absolute value that the machine computes is never -1.
abs_i64-ne : (a : ℤ) → InI64 a → abs_i64 a ≢ negsuc 0
unfolding abs_i64 neg_i64 wrap_i64 ◌-ℤ◌
abs_i64-ne a h = ground arith

vwap_total :
    (avg price : FixedI64) (old delta new_qty : SignedLots)
    → InI64 new_qty
    → (a : FixedI64) × (vwap avg price old delta new_qty ≡ some a)
unfolding vwap
vwap_total avg price old delta new_qty h =
    let cost = or_zero (
      checked_add (or_zero (checked_mul_int avg (abs_i64 old)))
        (or_zero (checked_mul_int price (abs_i64 delta)))) in
    elim (Option-cases (checked_div_int cost (abs_i64 new_qty))) [
      | inl bad ↦ absurd (abs_i64-ne new_qty h (((panics cost (abs_i64 new_qty)).0 bad).1))
      | inr (r, e) ↦ (or_zero r, rw (e, vwap))
    ]

add_i64-InI64 : (a b : ℤ) → InI64 (add_i64 a b)
unfolding add_i64
add_i64-InI64 a b = wrap_i64-InI64 (a +ℤ b)

-- What every fill does, for any inputs: it does not panic; the quantity moves by the signed fill
-- (wrapping); the fill is counted, up to the largest u32; the instrument stays; and a position that
-- is flat afterwards has entry price zero.
pub on_fill_total :
    (p : Position) (side : Side) (qty : Lots) (price : FixedI64)
    → (p' : Position) × (on_fill p side qty price ≡ some p')
      × (p'.qty ≡ add_i64 p.qty (signed_delta side qty))
      × (p'.fill_count ≡ bump_count p.fill_count)
      × (p'.instrument_id ≡ p.instrument_id)
      × (is_zero p'.qty ≡ true → p'.avg_entry ≡ zero_fixed)
unfolding on_fill
on_fill_total p side qty price =
    let delta = signed_delta side qty in
    let new_qty = add_i64 p.qty delta in
    elim (Bool-cases (is_increasing p.qty delta)) [
      | inl up ↦
          let (a, e) =
            vwap_total p.avg_entry price p.qty delta new_qty (add_i64-InI64 p.qty delta) in
          (settle p new_qty a p.realized_pnl, rw (up, e), refl, refl, refl, λ z. rw z)
      | inr down ↦ (
        settle p new_qty (if flips p.qty new_qty then price else p.avg_entry)
            (realize p price delta),
        rw down,
        refl,
        refl,
        refl,
        λ z. rw z,
      )
    ]
