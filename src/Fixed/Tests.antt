-- ===== src/Fixed/Tests.antt =====
-- The theorems on fixed-point operations at concrete inputs, and runs of the parser and the printer.
use mantis.Prelude.{◌≡◌, refl, ◌↔◌, ◌^◌, none, some, arith}
use mantis.Prelude.Int.{pos, negsuc, ◌*ℤ◌}
use mantis.Prelude.I64.{InI64, i64_min}
use mantis.Fixed.{checked_div_int}
use mantis.Fixed.Exact
use mantis.Fixed.Truncation.{IsTruncated}
use mantis.Fixed.Wide.{checked_mul_round}
use mantis.Fixed.Wide.Rounding
use mantis.Fixed.Wide.Rounding.{IsNearest}
use mantis.Fixed.Convert.{rescale_trunc, rescale_round, checked_rescale_exact}
use mantis.Fixed.Convert.RoundTrip
use mantis.Fixed.Parse.{parse_decimal_bytes, Parsed}
use mantis.Fixed.Display.{display}
use mantis.Fixed.Display.RoundTrip as Printed

-- -7 / 2 is -3.
checked_div_int_lem_example :
    ((checked_div_int (negsuc 6) (pos 2) ≡ none) ↔ ((negsuc 6 ≡ i64_min) × (pos 2 ≡ negsuc 0)))
    × ((checked_div_int (negsuc 6) (pos 2) ≡ some none) ↔ (pos 2 ≡ pos 0))
    × ((checked_div_int (negsuc 6) (pos 2) ≡ some (some (negsuc 2)))
        ↔ (InI64 (negsuc 2) × IsTruncated (negsuc 6) (pos 2) (negsuc 2)))
checked_div_int_lem_example =
    Exact.checked_div_int_lem (negsuc 6) (pos 2) (negsuc 2) (omega arith, omega arith)

parse_decimal_bytes-display_example : parse_decimal_bytes 6 (display 6 i64_min) ≡ Parsed.ok i64_min
parse_decimal_bytes-display_example =
    Printed.parse_decimal_bytes-display 6 i64_min (omega arith) (omega arith, omega arith)

checked_mul_round_lem_example :
    (checked_mul_round 2 (pos 150) (negsuc 32) ≡ some (negsuc 49))
    ↔ (InI64 (negsuc 49) × IsNearest (10 ^ 2) (pos 150 *ℤ negsuc 32) (negsuc 49))
checked_mul_round_lem_example =
    Rounding.checked_mul_round_lem 2 (pos 150) (negsuc 32) (negsuc 49) (omega arith)
      (omega arith, omega arith) (omega arith, omega arith)

-- 1.25 as two decimals and as four.
widened : rescale_trunc 2 4 (pos 125) ≡ some (pos 12500)
unfolding rescale_trunc ◌*ℤ◌
widened = refl

rescale-rescale_trunc_example :
    (rescale_trunc 4 2 (pos 12500) ≡ some (pos 125))
    × (rescale_round 4 2 (pos 12500) ≡ some (pos 125))
    × (checked_rescale_exact 4 2 (pos 12500) ≡ some (pos 125))
rescale-rescale_trunc_example =
    RoundTrip.rescale-rescale_trunc 2 4 (pos 125) (pos 12500) (omega arith)
      (omega arith, omega arith) widened
