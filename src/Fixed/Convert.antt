-- ===== src/Fixed/Convert.antt =====
-- crates/fixed/src/convert.rs: rescaling to another number of decimals, through a wider integer.
pub mod RoundTrip
use mantis.Prelude.{ℕ, ◌-◌, ◌/◌, ◌^◌, Bool, Option, none, some, ltb, ◌==◌, if◌then◌else◌, not}
use mantis.Prelude.Int.{ℤ, pos, ◌*ℤ◌, ◌-ℤ◌, tdiv, eqb_ℤ}
use mantis.Fixed.{FixedI64}
use mantis.Fixed.Wide.{narrow, away}

-- `pow10_i64`, a table of the powers up to 10^18.
abbrev pub pow10 : ℕ → ℕ
pow10 exp = 10 ^ exp

-- `raw % factor` on integers, with the sign of `raw`.
abbrev pub rem_ℤ : ℤ → ℕ → ℤ
rem_ℤ z d = z -ℤ tdiv z (pos d) *ℤ pos d

-- From `d` decimals to `d2`.
module _ (d d2 : ℕ) where
  unfoldable pub rescale_trunc : FixedI64 → Option FixedI64
  rescale_trunc a =
      if d2 == d
      then some a
      else if ltb d d2
      then narrow (a *ℤ pos (pow10 (d2 - d)))
      else narrow (tdiv a (pos (pow10 (d - d2))))

  pub rescale_round : FixedI64 → Option FixedI64
  rescale_round a =
      if d2 == d
      then some a
      else if ltb d d2
      then narrow (a *ℤ pos (pow10 (d2 - d)))
      else narrow (tdiv (away a (pow10 (d - d2) / 2)) (pos (pow10 (d - d2))))

  pub checked_rescale_exact : FixedI64 → Option FixedI64
  checked_rescale_exact a =
      if d2 == d
      then some a
      else if ltb d d2
      then narrow (a *ℤ pos (pow10 (d2 - d)))
      else if not (eqb_ℤ (rem_ℤ a (pow10 (d - d2))) (pos 0))
      then none
      else narrow (tdiv a (pos (pow10 (d - d2))))
