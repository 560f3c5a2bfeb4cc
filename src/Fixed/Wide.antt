-- ===== src/Fixed/Wide.antt =====
-- crates/fixed/src/mul_div.rs: products and quotients of two decimals, through 128-bit integers. A
-- 128-bit pattern is a number below 2^128; `|` of parts that share no bit is their sum.
pub mod Schoolbook
pub mod Signed
pub mod Rounding
use mantis.Prelude.{
  ℕ, ◌+◌, ◌-◌, ◌*◌, ◌/◌, ◌%◌, ◌^◌, ◌≡◌, Bool, true, false, Option, none, some, ltb, leb,
  if◌then◌else◌, ◌==◌, ◌||◌, ◌&&◌, not,
}
use mantis.Prelude.Int.{ℤ, pos, negsuc, ◌*ℤ◌, ◌+ℤ◌, ◌-ℤ◌, tdiv, ltb_ℤ, eqb_ℤ, magnitude}
use mantis.Prelude.I64.{of_bits, to_bits, in_i64, i64_min, i64_max}
use mantis.Fixed.{FixedI64, scale}

-- `div_u128_by_u64`: quotient as two digits, and remainder.
pub record Quotient : Type 0 where
  pub high : ℕ
  pub low : ℕ
  pub rem : ℕ

pub div_u128_by_u64 : ℕ → ℕ → ℕ → Quotient
div_u128_by_u64 hi lo d =
    let q_hi = hi / d in
    let r_hi = hi % d in
    let lo_upper = lo / 2 ^ 32 in
    let lo_lower = lo % 2 ^ 32 in
    let mid_num = (r_hi * 2 ^ 32) % 2 ^ 128 + lo_upper in
    let q_mid = (mid_num / d) % 2 ^ 64 in
    let r_mid = (mid_num % d) % 2 ^ 64 in
    let low_num = (r_mid * 2 ^ 32) % 2 ^ 128 + lo_lower in
    let q_low = (low_num / d) % 2 ^ 64 in
    let rem = (low_num % d) % 2 ^ 64 in
    record { high = q_hi; low = (q_mid * 2 ^ 32) % 2 ^ 64 + q_low; rem = rem }

-- The integer that a 128-bit pattern stands for, and the pattern of an integer.
abbrev pub of_bits_128 : ℕ → ℤ
of_bits_128 w = if ltb w (2 ^ 127) then pos w else negsuc (2 ^ 128 - 1 - w)

abbrev pub to_bits_128 : ℤ → ℕ
to_bits_128 (pos n) = n % 2 ^ 128
to_bits_128 (negsuc n) = 2 ^ 128 - 1 - n % 2 ^ 128

-- `(wide >> 64) as i64` and `wide as u64`.
abbrev pub high_half : ℤ → ℤ
high_half wide = of_bits (to_bits_128 wide / 2 ^ 64)

abbrev pub low_half : ℤ → ℕ
low_half wide = to_bits_128 wide % 2 ^ 64

-- The absolute value of two 64-bit digits, by two's complement negation.
pub abs_digits : ℤ → ℕ → ℕ × ℕ
abs_digits hi lo =
    let not_lo = 2 ^ 64 - 1 - lo in
    let carry = (not_lo + 1) / 2 ^ 64 in
    if ltb_ℤ hi (pos 0)
    then ((2 ^ 64 - 1 - to_bits hi + carry) % 2 ^ 64, (not_lo + 1) % 2 ^ 64)
    else (to_bits hi, lo)

-- `div_wide_by_const`, without the remainder, which no caller reads.
pub div_wide_by_const : ℤ → ℕ → ℕ → ℤ
div_wide_by_const hi lo d =
    let digits = abs_digits hi lo in
    let q = div_u128_by_u64 digits.0 digits.1 d in
    let abs_quot = of_bits_128 ((q.high * 2 ^ 64) % 2 ^ 128 + q.low) in
    if ltb_ℤ hi (pos 0) then pos 0 -ℤ abs_quot else abs_quot

-- The range check that ends every operation.
abbrev pub narrow : ℤ → Option FixedI64
narrow z = if ltb_ℤ i64_max z || ltb_ℤ z i64_min then none else some z

abbrev pub wide_mul : FixedI64 → FixedI64 → ℤ
wide_mul a b = a *ℤ b

-- A number away from zero by half a divisor: the bias of the rounding operations.
abbrev pub away : ℤ → ℕ → ℤ
away wide half = if ltb_ℤ wide (pos 0) then wide -ℤ pos half else wide +ℤ pos half

module _ (decimals : ℕ) where
  pub checked_mul_trunc : FixedI64 → FixedI64 → Option FixedI64
  checked_mul_trunc a b =
      let wide = wide_mul a b in
      narrow (div_wide_by_const (high_half wide) (low_half wide) (10 ^ decimals))

  pub checked_mul_round : FixedI64 → FixedI64 → Option FixedI64
  checked_mul_round a b =
      let biased = away (wide_mul a b) (10 ^ decimals / 2) in
      narrow (div_wide_by_const (high_half biased) (low_half biased) (10 ^ decimals))

  pub saturating_mul_trunc : FixedI64 → FixedI64 → FixedI64
  saturating_mul_trunc a b = elim (checked_mul_trunc a b) [
    | some v ↦ v
    | none ↦
        if (ltb_ℤ a (pos 0) && ltb_ℤ b (pos 0)) || (not (ltb_ℤ a (pos 0)) && not (ltb_ℤ b (pos 0)))
        then i64_max
        else i64_min
  ]

  pub checked_div_trunc : FixedI64 → FixedI64 → Option FixedI64
  checked_div_trunc a b =
      if eqb_ℤ b (pos 0) then none else narrow (tdiv (wide_mul a (scale decimals)) b)

  pub checked_div_round : FixedI64 → FixedI64 → Option FixedI64
  checked_div_round a b =
      if eqb_ℤ b (pos 0)
      then none
      else narrow (tdiv (away (wide_mul a (scale decimals)) (magnitude b / 2)) b)
