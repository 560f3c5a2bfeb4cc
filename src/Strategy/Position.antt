-- ===== src/Strategy/Position.antt =====
-- crates/strategy/src/position.rs: a signed position with its average entry price and its profit
-- and loss. Plain i64 operators wrap, as in a release build; a failed checked operation falls back
-- to the value that the source names.
pub mod Flat
pub mod Vwap
pub mod Realized
mod Tests
use mantis.Prelude.{
  ℕ, ◌+◌, ◌-◌, ◌^◌, Bool, true, false, ◌&&◌, ◌||◌, not, Option, none, some, ltb, if◌then◌else◌,
}
use Prim.Native.Nat.{min}
use mantis.Prelude.Int.{ℤ, pos, eqb_ℤ, ltb_ℤ}
use mantis.Prelude.I64.{add_i64, neg_i64, abs_i64, min_ℤ, signum}
use mantis.Types.{InstrumentId, Lots, SignedLots, Side}
use mantis.Fixed.{
  FixedI64, zero_fixed, unwrap_or, checked_add, checked_sub, checked_mul_int, checked_div_int,
}

pub record Position : Type 0 where
  pub instrument_id : InstrumentId
  pub qty : SignedLots
  pub avg_entry : FixedI64
  pub realized_pnl : FixedI64
  pub fill_count : ℕ

pub new : InstrumentId → Position
new id = record {
  instrument_id = id;
  qty = pos 0;
  avg_entry = zero_fixed;
  realized_pnl = zero_fixed;
  fill_count = 0;
}

abbrev pub is_zero : SignedLots → Bool
is_zero q = eqb_ℤ q (pos 0)

abbrev pub signed_delta : Side → Lots → SignedLots
signed_delta Side.bid qty = qty
signed_delta Side.ask qty = neg_i64 qty

-- `u32::saturating_add(1)`
abbrev pub bump_count : ℕ → ℕ
bump_count n = min (n + 1) (2 ^ 32 - 1)

pub is_increasing : SignedLots → SignedLots → Bool
is_increasing old delta =
    is_zero old
    || ((ltb_ℤ (pos 0) old && ltb_ℤ (pos 0) delta) || (ltb_ℤ old (pos 0) && ltb_ℤ delta (pos 0)))

abbrev pub or_zero : Option FixedI64 → FixedI64
or_zero o = unwrap_or o zero_fixed

-- The new average entry price of an increase; `none` is a panic of the division.
pub vwap : FixedI64 → FixedI64 → SignedLots → SignedLots → SignedLots → Option FixedI64
vwap avg price old delta new_qty =
    let old_cost = or_zero (checked_mul_int avg (abs_i64 old)) in
    let new_cost = or_zero (checked_mul_int price (abs_i64 delta)) in
    let total_cost = or_zero (checked_add old_cost new_cost) in
    elim (checked_div_int total_cost (abs_i64 new_qty)) [ none ↦ none | some r ↦ some (or_zero r) ]

-- The profit that a reduction realizes, added to what was realized before.
pub realize : Position → FixedI64 → SignedLots → FixedI64
realize p price delta =
    let closed_qty = min_ℤ (abs_i64 delta) (abs_i64 p.qty) in
    let pnl_per_lot =
      or_zero (checked_mul_int (or_zero (checked_sub price p.avg_entry)) (signum p.qty)) in
    let fill_pnl = or_zero (checked_mul_int pnl_per_lot closed_qty) in
    unwrap_or (checked_add p.realized_pnl fill_pnl) p.realized_pnl

-- The fill crosses flat: what is left of it opens a position of the other sign.
abbrev pub flips : SignedLots → SignedLots → Bool
flips old new_qty = ltb_ℤ (pos 0) (abs_i64 new_qty) && not (eqb_ℤ (signum new_qty) (signum old))

-- The end of `on_fill`: quantity, count, and the entry price of a flat position.
abbrev pub settle : Position → SignedLots → FixedI64 → FixedI64 → Position
settle p new_qty avg pnl = record p {
  qty = new_qty;
  avg_entry = if is_zero new_qty then zero_fixed else avg;
  realized_pnl = pnl;
  fill_count = bump_count p.fill_count;
}

-- `none` is a panic.
pub on_fill : Position → Side → Lots → FixedI64 → Option Position
on_fill p side qty price =
    let delta = signed_delta side qty in
    let new_qty = add_i64 p.qty delta in
    if is_increasing p.qty delta
    then elim (vwap p.avg_entry price p.qty delta new_qty) [
      | none ↦ none
      | some avg ↦ some (settle p new_qty avg p.realized_pnl)
    ]
    else some (
        settle p new_qty (if flips p.qty new_qty then price else p.avg_entry)
          (realize p price delta))

pub unrealized_pnl : Position → FixedI64 → FixedI64
unrealized_pnl p mid =
    if is_zero p.qty
    then zero_fixed
    else or_zero (checked_mul_int (or_zero (checked_sub mid p.avg_entry)) p.qty)

pub total_pnl : Position → FixedI64 → FixedI64
total_pnl p mid = unwrap_or (checked_add p.realized_pnl (unrealized_pnl p mid)) p.realized_pnl

pub notional : Position → FixedI64 → FixedI64
notional p mid = or_zero (checked_mul_int mid (abs_i64 p.qty))
