-- ===== src/Platform/Limbs/Exact.antt =====
-- The accumulators hold the exact sum, modulo their three limbs.
use native.Mathlib.Nat.{mul-le-mul}
use mantis.Prelude.{ℕ, ◌+◌, ◌-◌, ◌*◌, ◌%◌, ◌^◌, ◌<◌, ◌≤◌, ◌≡◌, arith}
use mantis.Platform.Limbs.{Accumulator, mul_acc, mul_acc32, mul_double_acc, mul_double_acc32, sub_b}

-- The number that three limbs of `w` bits stand for.
abbrev pub value : ℕ → Accumulator → ℕ
value w acc = acc.t * 2 ^ (2 * w) + acc.u * 2 ^ w + acc.v

pub record InLimbs (w : ℕ) (acc : Accumulator) : Type 0 where
  pub t_fits : acc.t < 2 ^ w
  pub u_fits : acc.u < 2 ^ w
  pub v_fits : acc.v < 2 ^ w

-- Two limbs have a product of at most the square of the largest one.
product_le : (a b m : ℕ) → a ≤ m → b ≤ m → a * b ≤ m * m
product_le a b m h k = mul-le-mul h k

module _ (a b : ℕ) (acc : Accumulator) where
  mul_acc-exact :
      a < 2 ^ 64
      → b < 2 ^ 64
      → InLimbs 64 acc
      → value 64 (mul_acc 64 a b acc) ≡ (value 64 acc + a * b) % 2 ^ 192
  unfolding mul_acc
  mul_acc-exact h k i =
      let bound = product_le a b (2 ^ 64 - 1) (omega arith) (omega arith) in
      omega (arith, i.t_fits, i.u_fits, i.v_fits, bound)

  mul_double_acc-exact :
      a < 2 ^ 64
      → b < 2 ^ 64
      → InLimbs 64 acc
      → value 64 (mul_double_acc 64 a b acc) ≡ (value 64 acc + 2 * (a * b)) % 2 ^ 192
  unfolding mul_double_acc
  mul_double_acc-exact h k i =
      let bound = product_le a b (2 ^ 64 - 1) (omega arith) (omega arith) in
      omega (arith, i.t_fits, i.u_fits, i.v_fits, bound)

  -- On limbs of 64 bits: an accumulator of three limbs that adds a product, or twice a product, holds
  -- the exact sum modulo 2^192; no carry between its limbs is lost.
  pub accumulators_exact :
      a < 2 ^ 64
      → b < 2 ^ 64
      → InLimbs 64 acc
      → (value 64 (mul_acc 64 a b acc) ≡ (value 64 acc + a * b) % 2 ^ 192)
        × (value 64 (mul_double_acc 64 a b acc) ≡ (value 64 acc + 2 * (a * b)) % 2 ^ 192)
  accumulators_exact h k i = (mul_acc-exact h k i, mul_double_acc-exact h k i)

  mul_acc32-exact :
      a < 2 ^ 32
      → b < 2 ^ 32
      → InLimbs 32 acc
      → value 32 (mul_acc32 a b acc) ≡ (value 32 acc + a * b) % 2 ^ 96
  unfolding mul_acc
  mul_acc32-exact h k i =
      let bound = product_le a b (2 ^ 32 - 1) (omega arith) (omega arith) in
      omega (arith, i.t_fits, i.u_fits, i.v_fits, bound)

  mul_double_acc32-exact :
      a < 2 ^ 32
      → b < 2 ^ 32
      → InLimbs 32 acc
      → value 32 (mul_double_acc32 a b acc) ≡ (value 32 acc + 2 * (a * b)) % 2 ^ 96
  unfolding mul_double_acc
  mul_double_acc32-exact h k i =
      let bound = product_le a b (2 ^ 32 - 1) (omega arith) (omega arith) in
      omega (arith, i.t_fits, i.u_fits, i.v_fits, bound)

-- A difference with a borrow, on limbs of 64 bits: the borrow pays for the wrap around.
sub_b-exact :
    (a b borrow : ℕ)
    → a < 2 ^ 64
    → b < 2 ^ 64
    → borrow ≤ 1
    → (sub_b 64 a b borrow).0 + b + borrow ≡ a + (sub_b 64 a b borrow).1 * 2 ^ 64
sub_b-exact a b borrow h k l = omega arith
