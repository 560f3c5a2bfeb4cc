-- ===== src/Platform/Limbs.antt =====
-- crates/platform/src/intrinsics/{addcarry_subborrow,extended_prec}.rs: sums with a carry, wide products,
-- and accumulators of three limbs. `w` is the width of a limb, 32 or 64; the source has each operation
-- for both. A `Ct<T>` is the number that it wraps, and its `+=` wraps around.
pub mod Exact
mod Tests
use mantis.Prelude.{ℕ, ◌+◌, ◌-◌, ◌*◌, ◌/◌, ◌%◌, ◌^◌}

-- The low limb and the high limb of a wide number.
abbrev pub low : ℕ → ℕ → ℕ
low w wide = wide % 2 ^ w

abbrev pub high : ℕ → ℕ → ℕ
high w wide = wide / 2 ^ w

-- (sum, carry_out); the carry is cast to a u8.
abbrev pub add_c : ℕ → ℕ → ℕ → ℕ → ℕ × ℕ
add_c w a b carry_in = (low w (a + b + carry_in), high w (a + b + carry_in) % 2 ^ 8)

-- (diff, borrow_out), on a wide number that wraps around; `& 1` is the remainder by 2.
abbrev pub sub_b : ℕ → ℕ → ℕ → ℕ → ℕ × ℕ
sub_b w a b borrow_in =
    let wide = ((a + 2 ^ (2 * w) - b) % 2 ^ (2 * w) + 2 ^ (2 * w) - borrow_in) % 2 ^ (2 * w) in
    (low w wide, high w wide % 2)

-- (hi, lo)
abbrev pub wide_mul : ℕ → ℕ → ℕ → ℕ × ℕ
wide_mul w a b = (high w (a * b), low w (a * b))

abbrev pub muladd1 : ℕ → ℕ → ℕ → ℕ → ℕ × ℕ
muladd1 w a b c = (high w (a * b + c), low w (a * b + c))

abbrev pub muladd2 : ℕ → ℕ → ℕ → ℕ → ℕ → ℕ × ℕ
muladd2 w a b c1 c2 = (high w (a * b + c1 + c2), low w (a * b + c1 + c2))

-- The three limbs that the accumulating functions write through references.
pub record Accumulator : Type 0 where
  pub t : ℕ
  pub u : ℕ
  pub v : ℕ

-- `(t, u, v) += (hi, lo)`, which ends both functions.
abbrev pub accumulate : ℕ → ℕ → ℕ → Accumulator → Accumulator
accumulate w hi lo acc =
    let (v, carry) = add_c w acc.v lo 0 in
    let (u, carry') = add_c w acc.u hi carry in
    record { t = (acc.t + carry') % 2 ^ w; u = u; v = v }

unfoldable pub mul_acc : ℕ → ℕ → ℕ → Accumulator → Accumulator
mul_acc w a b acc = let (hi, lo) = wide_mul w a b in accumulate w hi lo acc

unfoldable pub mul_double_acc : ℕ → ℕ → ℕ → Accumulator → Accumulator
mul_double_acc w a b acc =
    let (hi, lo) = wide_mul w a b in
    let (lo_d, carry_lo) = add_c w lo lo 0 in
    let (hi_d, carry_hi) = add_c w hi hi carry_lo in
    accumulate w hi_d lo_d (record acc { t = (acc.t + carry_hi) % 2 ^ w })

abbrev pub mul_acc32 : ℕ → ℕ → Accumulator → Accumulator
mul_acc32 a b acc = mul_acc 32 a b acc

abbrev pub mul_double_acc32 : ℕ → ℕ → Accumulator → Accumulator
mul_double_acc32 a b acc = mul_double_acc 32 a b acc
