-- ===== src/Fixed/Wide/Signed.antt =====
-- `div_wide_by_const` on the halves of a 128-bit integer is division that truncates toward zero.
use mantis.Prelude.{ℕ, suc, ◌+◌, ◌*◌, ◌/◌, ◌%◌, ◌^◌, ◌<◌, ◌≡◌, ◌∙◌, ap, arith, true, false}
use native.Mathlib.Nat.{div-le_self}
use mantis.Prelude.Int.{ℤ, pos, negsuc, magnitude, ltb_ℤ, tdiv, ◌-ℤ◌, sub_ℕ}
use mantis.Fixed.Wide.{
  div_u128_by_u64, div_wide_by_const, abs_digits, high_half, low_half, of_bits_128,
}
use mantis.Fixed.Wide.Schoolbook.{div_u128_by_u64_lem}

-- The digits of the absolute value, and the sign.
digits_pos :
    (n : ℕ)
    → n < 2 ^ 127
    → (abs_digits (high_half (pos n)) (low_half (pos n)) ≡ (n / 2 ^ 64, n % 2 ^ 64))
      × (ltb_ℤ (high_half (pos n)) (pos 0) ≡ false)
unfolding abs_digits
digits_pos n h = ground arith

digits_negsuc :
    (n : ℕ)
    → n < 2 ^ 127
    → (abs_digits (high_half (negsuc n)) (low_half (negsuc n)) ≡ (suc n / 2 ^ 64, suc n % 2 ^ 64))
      × (ltb_ℤ (high_half (negsuc n)) (pos 0) ≡ true)
unfolding abs_digits
digits_negsuc n h = ground arith

-- The quotient of an absolute value, put together from its digits.
quotient-eq :
    (n d : ℕ)
    → n < 2 ^ 127
    → 0 < d
    → d < 2 ^ 63
    → of_bits_128 (
        (div_u128_by_u64 (n / 2 ^ 64) (n % 2 ^ 64) d).high * 2 ^ 64 % 2 ^ 128
        + (div_u128_by_u64 (n / 2 ^ 64) (n % 2 ^ 64) d).low)
      ≡ pos (n / d)
quotient-eq n d h p k =
    let lem = div_u128_by_u64_lem (n / 2 ^ 64) (n % 2 ^ 64) d (omega arith) p k in
    let whole : n / 2 ^ 64 * 2 ^ 64 + n % 2 ^ 64 ≡ n = omega arith in
    let quot : (div_u128_by_u64 (n / 2 ^ 64) (n % 2 ^ 64) d).high * 2 ^ 64
          + (div_u128_by_u64 (n / 2 ^ 64) (n % 2 ^ 64) d).low
        ≡ n / d =
      lem.0 ∙ ap (λ (z : ℕ). z / d) whole in
    let small = div-le_self n d in ground arith

negate : (q : ℕ) → pos 0 -ℤ pos q ≡ sub_ℕ 0 q
unfolding ◌-ℤ◌
negate q = ground arith

-- The division of a 128-bit integer that its callers compute, by the halves of its pattern: for an
-- integer below 2^127 in size and a divisor d with 0 < d < 2^63, it is the quotient that truncates
-- toward zero.
pub div_wide_by_const_lem :
    (wide : ℤ) (d : ℕ)
    → magnitude wide < 2 ^ 127
    → 0 < d
    → d < 2 ^ 63
    → div_wide_by_const (high_half wide) (low_half wide) d ≡ tdiv wide (pos d)
unfolding div_wide_by_const tdiv
div_wide_by_const_lem (pos n) d h p k =
    let digits = digits_pos n (omega arith) in
    rw (digits.1, digits.0) (quotient-eq n d (omega arith) p k)
div_wide_by_const_lem (negsuc n) d h p k =
    let digits = digits_negsuc n (omega arith) in
    rw (digits.1, digits.0, quotient-eq (suc n) d (omega arith) p k) (negate (suc n / d))
