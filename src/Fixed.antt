-- ===== src/Fixed.antt =====
-- crates/fixed/src/{fixed_i64,arithmetic,mul_div}.rs: `FixedI64<D>`, a decimal as an i64 scaled by
-- 10^D. The value is its raw integer; only `from_int` reads the scale.
pub mod Truncation
pub mod Exact
pub mod Wide
pub mod Convert
pub mod Parse
pub mod Display
mod Tests
use mantis.Prelude.{ℕ, ◌^◌, Bool, Option, none, some, ◌||◌, if◌then◌else◌}
use mantis.Prelude.Int.{ℤ, pos, negsuc, ◌+ℤ◌, ◌-ℤ◌, ◌*ℤ◌, eqb_ℤ, ltb_ℤ}
use mantis.Prelude.I64.{add_i64, sub_i64, neg_i64, abs_i64, div_i64, checked, saturated, i64_min}

abbrev pub FixedI64 : Type 0
FixedI64 = ℤ

abbrev pub zero_fixed : FixedI64
zero_fixed = pos 0

abbrev pub unwrap_or : Option FixedI64 → FixedI64 → FixedI64
unwrap_or none d = d
unwrap_or (some a) d = a

-- `SCALE` and `from_int`, for the number of decimals `d`.
abbrev pub scale : ℕ → ℤ
scale d = pos (10 ^ d)

pub from_int : ℕ → ℤ → Option FixedI64
from_int d val = checked (val *ℤ scale d)

abbrev pub is_positive : FixedI64 → Bool
is_positive a = ltb_ℤ (pos 0) a

abbrev pub is_negative : FixedI64 → Bool
is_negative a = ltb_ℤ a (pos 0)

unfoldable pub checked_add : FixedI64 → FixedI64 → Option FixedI64
checked_add a b = checked (a +ℤ b)

unfoldable pub checked_sub : FixedI64 → FixedI64 → Option FixedI64
checked_sub a b = checked (a -ℤ b)

unfoldable pub checked_neg : FixedI64 → Option FixedI64
checked_neg a = checked (pos 0 -ℤ a)

unfoldable pub saturating_add : FixedI64 → FixedI64 → FixedI64
saturating_add a b = saturated (a +ℤ b)

unfoldable pub saturating_sub : FixedI64 → FixedI64 → FixedI64
saturating_sub a b = saturated (a -ℤ b)

unfoldable pub wrapping_add : FixedI64 → FixedI64 → FixedI64
wrapping_add a b = add_i64 a b

unfoldable pub wrapping_sub : FixedI64 → FixedI64 → FixedI64
wrapping_sub a b = sub_i64 a b

unfoldable pub wrapping_neg : FixedI64 → FixedI64
wrapping_neg a = neg_i64 a

-- `i64::checked_abs` and `i64::saturating_abs`.
unfoldable pub checked_abs : FixedI64 → Option FixedI64
checked_abs a = if ltb_ℤ a (pos 0) then checked (pos 0 -ℤ a) else some a

unfoldable pub saturating_abs : FixedI64 → FixedI64
saturating_abs a = if ltb_ℤ a (pos 0) then saturated (pos 0 -ℤ a) else a

unfoldable pub checked_mul_int : FixedI64 → ℤ → Option FixedI64
checked_mul_int a b = checked (a *ℤ b)

unfoldable pub saturating_mul_int : FixedI64 → ℤ → FixedI64
saturating_mul_int a b = saturated (a *ℤ b)

-- The outer `none` is a panic of the division, `i64::MIN / -1`; the inner one is the `None` that
-- the function returns for a zero divisor.
unfoldable pub checked_div_int : FixedI64 → ℤ → Option (Option FixedI64)
checked_div_int a b =
    if eqb_ℤ b (pos 0)
    then some none
    else elim (div_i64 a b) [ none ↦ none | some q ↦ some (some q) ]
