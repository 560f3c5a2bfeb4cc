-- ===== src/Fixed/Wide/Schoolbook.antt =====
-- The long division on 64-bit digits against division of the whole number.
use mantis.Prelude.{ℕ, ◌+◌, ◌*◌, ◌/◌, ◌%◌, ◌^◌, ◌<◌, ◌≡◌, ◌∙◌, sym, ap, arith}
use native.Mathlib.Nat.{div-add-mod'}
use mantis.Fixed.Wide.{div_u128_by_u64}

-- A quotient and a remainder are those of the division.
quotient_unique : (n d q r : ℕ) → n ≡ q * d + r → r < d → (n / d ≡ q) × (n % d ≡ r)
quotient_unique n d q r e h = grind arith

quotient_lt : (n d b : ℕ) → n < b * d → n / d < b
quotient_lt n d b h = grind arith

-- One step: the remainder so far with the next 32 bits behind it.
step_bounds :
    (r x d : ℕ)
    → r < d
    → x < 2 ^ 32
    → d < 2 ^ 63
    → ((r * 2 ^ 32) % 2 ^ 128 ≡ r * 2 ^ 32)
      × (((r * 2 ^ 32 + x) / d) % 2 ^ 64 ≡ (r * 2 ^ 32 + x) / d)
      × (((r * 2 ^ 32 + x) % d) % 2 ^ 64 ≡ (r * 2 ^ 32 + x) % d)
      × ((r * 2 ^ 32 + x) / d < 2 ^ 32)
      × ((r * 2 ^ 32 + x) % d < d)
step_bounds r x d h k l =
    let q : (r * 2 ^ 32 + x) / d < 2 ^ 32 = quotient_lt (r * 2 ^ 32 + x) d (2 ^ 32) (omega arith) in
    let m : (r * 2 ^ 32 + x) % d < d = grind arith in (omega arith, omega arith, omega arith, q, m)

-- The digits of a long division: the three partial quotients make the quotient of the whole.
three_steps :
    (hi up low d a b c r s t : ℕ)
    → hi ≡ a * d + r
    → r * 2 ^ 32 + up ≡ b * d + s
    → s * 2 ^ 32 + low ≡ c * d + t
    → hi * 2 ^ 64 + (up * 2 ^ 32 + low) ≡ (a * 2 ^ 64 + (b * 2 ^ 32 + c)) * d + t
three_steps hi up low d a b c r s t e f g = grind arith

-- The long division of a 128-bit number, given as two digits, by a divisor d with 0 < d < 2^63: the
-- two digits of the quotient make the quotient of the whole number, the low one is a digit, and the
-- remainder is the remainder.
pub div_u128_by_u64_lem :
    (hi lo d : ℕ)
    → lo < 2 ^ 64
    → 0 < d
    → d < 2 ^ 63
    → ((div_u128_by_u64 hi lo d).high * 2 ^ 64 + (div_u128_by_u64 hi lo d).low
        ≡ (hi * 2 ^ 64 + lo) / d)
      × ((div_u128_by_u64 hi lo d).low < 2 ^ 64)
      × ((div_u128_by_u64 hi lo d).rem ≡ (hi * 2 ^ 64 + lo) % d)
unfolding div_u128_by_u64
div_u128_by_u64_lem hi lo d l p k =
    let r = hi % d in
    let up = lo / 2 ^ 32 in
    let low = lo % 2 ^ 32 in
    let r-lt : r < d = grind arith in
    let one = step_bounds r up d r-lt (omega arith) k in
    let b = (r * 2 ^ 32 + up) / d in
    let s = (r * 2 ^ 32 + up) % d in
    let two = step_bounds s low d one.4 (omega arith) k in
    let c = (s * 2 ^ 32 + low) / d in
    let t = (s * 2 ^ 32 + low) % d in
    let whole =
      three_steps hi up low d (hi / d) b c r s t (sym (div-add-mod' hi d))
        (sym (div-add-mod' (r * 2 ^ 32 + up) d)) (sym (div-add-mod' (s * 2 ^ 32 + low) d)) in
    let split : up * 2 ^ 32 + low ≡ lo = omega arith in
    let exact =
      quotient_unique (hi * 2 ^ 64 + lo) d (hi / d * 2 ^ 64 + (b * 2 ^ 32 + c)) t
        (ap (λ (z : ℕ). hi * 2 ^ 64 + z) (sym split) ∙ whole) two.4 in
    let shifted : (b * 2 ^ 32) % 2 ^ 64 ≡ b * 2 ^ 32 = let q = one.3 in omega arith in
    rw (one.0, one.1, one.2, two.0, two.1, two.2, shifted)
      (sym exact.0, (let q = one.3 in let q' = two.3 in omega arith), sym exact.1)
