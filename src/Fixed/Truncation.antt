-- ===== src/Fixed/Truncation.antt =====
-- Division that truncates toward zero, described by products alone.
use native.Mathlib.Nat.{
  div-eq_of_lt-le, div-lt_iff_lt-mul, div-mul-le_self, lt-div-mul-add, div-le_self, mul-pos,
}
use mantis.Prelude.{
  ℕ, zero, suc, ◌+◌, ◌-◌, ◌*◌, ◌/◌, ◌^◌, ◌<◌, ◌≤◌, ◌≡◌, ◌≢◌, ◌⊎◌, inl, inr, ap, refl, arith,
}
use mantis.Prelude.Int.{ℤ, pos, negsuc, magnitude, pos_part, neg_part, tdiv}
use mantis.Prelude.I64.{InI64, i64_min}

-- `q` times `b` comes as close to `a` as it can without passing it, and `q` is not on the other side of
-- zero than the exact quotient.
abbrev pub IsTruncated : ℤ → ℤ → ℤ → Type 0
IsTruncated a b q =
    (magnitude q * magnitude b ≤ magnitude a)
    × (magnitude a < magnitude q * magnitude b + magnitude b)
    × (pos_part q * (pos_part a * neg_part b + neg_part a * pos_part b) ≡ 0)
    × (neg_part q * (pos_part a * pos_part b + neg_part a * neg_part b) ≡ 0)

magnitude-tdiv : (a b : ℤ) → magnitude (tdiv a b) ≡ magnitude a / magnitude b
unfolding tdiv
magnitude-tdiv (pos a) (pos b) = ground arith
magnitude-tdiv (pos a) (negsuc b) = ground arith
magnitude-tdiv (negsuc a) (pos b) = ground arith
magnitude-tdiv (negsuc a) (negsuc b) = ground arith

tdiv_signs :
    (a b : ℤ)
    → (pos_part (tdiv a b) * (pos_part a * neg_part b + neg_part a * pos_part b) ≡ 0)
      × (neg_part (tdiv a b) * (pos_part a * pos_part b + neg_part a * neg_part b) ≡ 0)
unfolding tdiv
tdiv_signs (pos a) (pos b) = ground arith
tdiv_signs (pos a) (negsuc b) = ground arith
tdiv_signs (negsuc a) (pos b) = ground arith
tdiv_signs (negsuc a) (negsuc b) = ground arith

pub tdiv-IsTruncated : (a b : ℤ) → 0 < magnitude b → IsTruncated a b (tdiv a b)
tdiv-IsTruncated a b h =
    let low = div-mul-le_self (magnitude a) (magnitude b) in
    let high = lt-div-mul-add {a = magnitude a} h in
    rw (magnitude-tdiv a b) (low, high, (tdiv_signs a b).0, (tdiv_signs a b).1)

quotient_of_magnitudes : (a b q : ℤ) → IsTruncated a b q → magnitude a / magnitude b ≡ magnitude q
quotient_of_magnitudes a b q (low, high, _, _) = div-eq_of_lt-le (magnitude b) low (grind arith)

-- A divisor and a quotient that are not zero need a dividend that is not zero.
positive_dividend : (k n m : ℕ) → suc k * n ≤ m → m < suc k * n + n → 0 < m * n
positive_dividend k n m low high =
    let n_positive : 0 < n = omega arith in
    let m_positive : 0 < m = grind arith in mul-pos m_positive n_positive

-- There is one such quotient.
pub IsTruncated-unique : (a b q : ℤ) → IsTruncated a b q → tdiv a b ≡ q
unfolding tdiv
IsTruncated-unique (pos a) (pos b) (pos k) h =
    let e = quotient_of_magnitudes (pos a) (pos b) (pos k) h in ground arith
IsTruncated-unique (pos a) (pos b) (negsuc k) (low, high, _, sign) =
    let p = positive_dividend k b a (omega arith) (omega arith) in absurd (grind arith)
IsTruncated-unique (pos a) (negsuc b) (pos zero) h =
    let e = quotient_of_magnitudes (pos a) (negsuc b) (pos zero) h in ground arith
IsTruncated-unique (pos a) (negsuc b) (pos (suc k)) (low, high, sign, _) =
    let p = positive_dividend k (suc b) a (omega arith) (omega arith) in absurd (grind arith)
IsTruncated-unique (pos a) (negsuc b) (negsuc k) h =
    let e = quotient_of_magnitudes (pos a) (negsuc b) (negsuc k) h in ground arith
IsTruncated-unique (negsuc a) (pos b) (pos zero) h =
    let e = quotient_of_magnitudes (negsuc a) (pos b) (pos zero) h in ground arith
IsTruncated-unique (negsuc a) (pos b) (pos (suc k)) (low, high, sign, _) =
    let p = positive_dividend k b (suc a) (omega arith) (omega arith) in absurd (grind arith)
IsTruncated-unique (negsuc a) (pos b) (negsuc k) h =
    let e = quotient_of_magnitudes (negsuc a) (pos b) (negsuc k) h in ground arith
IsTruncated-unique (negsuc a) (negsuc b) (pos k) h =
    let e = quotient_of_magnitudes (negsuc a) (negsuc b) (pos k) h in ground arith
IsTruncated-unique (negsuc a) (negsuc b) (negsuc k) (low, high, _, sign) =
    let p = positive_dividend k (suc b) (suc a) (omega arith) (omega arith) in absurd (grind arith)

smaller_quotient : (x k : ℕ) → x ≤ 2 ^ 63 → 2 ≤ k → x / k < 2 ^ 63
smaller_quotient x k h l =
    (div-lt_iff_lt-mul {k = k} {x = x} {y = 2 ^ 63} (omega arith)).1 (omega arith)

-- The quotient of two i64 values is an i64, but for the smallest value divided by -1.
pub tdiv-InI64 : (a b : ℤ) → InI64 a → (a ≢ i64_min) ⊎ (b ≢ negsuc 0) → InI64 (tdiv a b)
unfolding tdiv
tdiv-InI64 (pos a) (pos b) h o = let l = div-le_self a b in ground arith
tdiv-InI64 (pos a) (negsuc b) h o = let l = div-le_self a (suc b) in ground arith
tdiv-InI64 (negsuc a) (pos b) h o = let l = div-le_self (suc a) b in ground arith
tdiv-InI64 (negsuc a) (negsuc zero) h (inl ne) =
    let other : a ≢ 2 ^ 63 - 1 = λ e. ne (ap negsuc e) in ground arith
tdiv-InI64 (negsuc a) (negsuc zero) h (inr ne) = absurd (ne refl)
tdiv-InI64 (negsuc a) (negsuc (suc b)) h o =
    let l = smaller_quotient (suc a) (suc (suc b)) (ground arith) (omega arith) in ground arith
