-- ===== src/Fixed/Parse.antt =====
-- crates/fixed/src/parse.rs: the decimal parser, on the bytes of a slice. The mantissa is kept at or
-- below zero.
pub mod Digits
use mantis.Prelude.{
  ℕ, ◌+◌, ◌-◌, ◌%◌, ◌^◌, Bool, true, false, ◌&&◌, not, Option, none, some, List, [], ◌∷◌, ltb, leb,
  ◌==◌, if◌then◌else◌,
}
use Prim.Native.Nat.{min}
use mantis.Prelude.Int.{ℤ, pos, ◌*ℤ◌, ◌-ℤ◌, eqb_ℤ}
use mantis.Prelude.I64.{mul_i64, sub_i64, checked}
use mantis.Fixed.{FixedI64, scale}

pub data ParseFixedError : Type 0 where
  invalid_format overflow excess_precision : ParseFixedError

pub data Parsed (A : Type 0) : Type 0 where
  ok : A → Parsed A
  err : ParseFixedError → Parsed A

pub record Accumulator : Type 0 where
  pub mantissa : ℤ
  pub total_digits : ℕ
  pub frac_digits : ℕ
  pub saw_dot : Bool
  pub saw_any_digit : Bool

abbrev pub new_accumulator : Accumulator
new_accumulator = record {
  mantissa = pos 0;
  total_digits = 0;
  frac_digits = 0;
  saw_dot = false;
  saw_any_digit = false;
}

-- `if self.saw_dot { frac_digits.saturating_add(1) }`, on a u8.
abbrev pub count_frac : Accumulator → ℕ
count_frac a = if a.saw_dot then min (a.frac_digits + 1) 255 else a.frac_digits

-- The new mantissa: plain i64 operations up to 18 digits, checked ones for the 19th.
unfoldable pub push_digit : ℕ → ℤ → ℕ → Option ℤ
push_digit total mantissa digit =
    if leb total 18
    then some (sub_i64 (mul_i64 mantissa (pos 10)) (pos digit))
    else elim (checked (mantissa *ℤ pos 10)) [ none ↦ none | some v ↦ checked (v -ℤ pos digit) ]

unfoldable pub feed_digit : Accumulator → ℕ → Parsed Accumulator
feed_digit a digit =
    let total = (a.total_digits + 1) % 2 ^ 8 in
    if (digit == 0) && eqb_ℤ a.mantissa (pos 0)
    then Parsed.ok (record a { frac_digits = count_frac a; saw_any_digit = true })
    else if ltb 19 total
    then Parsed.err ParseFixedError.overflow
    else elim (push_digit total a.mantissa digit) [
      | none ↦ Parsed.err ParseFixedError.overflow
      | some m ↦ Parsed.ok (record a {
        mantissa = m;
        total_digits = total;
        frac_digits = count_frac a;
        saw_any_digit = true;
      })
    ]

unfoldable pub feed : Accumulator → ℕ → Parsed Accumulator
feed a byte =
    if leb b'0' byte && leb byte b'9'
    then feed_digit a (byte - b'0')
    else if byte == b'.'
    then if a.saw_dot
      then Parsed.err ParseFixedError.invalid_format
      else Parsed.ok (record a { saw_dot = true })
    else Parsed.err ParseFixedError.invalid_format

-- The loop over the bytes behind the sign.
unfoldable pub feed_all : Accumulator → List ℕ → Parsed Accumulator
feed_all a [] = Parsed.ok a
feed_all a (b ∷ bytes) = elim (feed a b) [
  | Parsed.err e ↦ Parsed.err e
  | Parsed.ok a' ↦ feed_all a' bytes
]

-- What follows the loop: the checks, the sign, and the padding to `decimals` places.
unfoldable pub finish : ℕ → Bool → Accumulator → Parsed FixedI64
finish decimals negative a =
    let pad = decimals - a.frac_digits in
    if not a.saw_any_digit
    then Parsed.err ParseFixedError.invalid_format
    else if ltb decimals a.frac_digits
    then Parsed.err ParseFixedError.excess_precision
    else if ltb 18 pad
    then Parsed.err ParseFixedError.overflow
    else elim (if negative then some a.mantissa else checked (pos 0 -ℤ a.mantissa)) [
      | none ↦ Parsed.err ParseFixedError.overflow
      | some m ↦ if pad == 0 then Parsed.ok m else elim (checked (m *ℤ scale pad)) [
        | none ↦ Parsed.err ParseFixedError.overflow
        | some z ↦ Parsed.ok z
      ]
    ]

-- The bytes behind the sign, which may not be empty.
unfoldable pub parse_unsigned : ℕ → Bool → List ℕ → Parsed FixedI64
parse_unsigned decimals negative [] = Parsed.err ParseFixedError.invalid_format
parse_unsigned decimals negative (b ∷ bytes) = elim (feed_all new_accumulator (b ∷ bytes)) [
  | Parsed.err e ↦ Parsed.err e
  | Parsed.ok a ↦ finish decimals negative a
]

unfoldable pub parse_decimal_bytes : ℕ → List ℕ → Parsed FixedI64
parse_decimal_bytes decimals [] = Parsed.err ParseFixedError.invalid_format
parse_decimal_bytes decimals (b ∷ bytes) =
    if b == b'-'
    then parse_unsigned decimals true bytes
    else if b == b'+'
    then parse_unsigned decimals false bytes
    else parse_unsigned decimals false (b ∷ bytes)
