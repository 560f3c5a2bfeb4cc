-- ===== src/Fixed/Wide/Rounding.antt =====
-- Products and quotients of decimals against exact arithmetic: truncation, and rounding to nearest.
use mantis.Prelude.{
  ℕ, ◌+◌, ◌*◌, ◌/◌, ◌%◌, ◌^◌, ◌≤◌, ◌<◌, ◌≡◌, ◌↔◌, ◌∙◌, sym, ap, subst, arith, Bool-cases, inl, inr,
  true, false, some,
}
use native.Mathlib.Nat.{pow-le-pow_right, one-le-pow, div-add-mod'}
use mantis.Prelude.Int.{
  ℤ, pos, negsuc, magnitude, pos_part, neg_part, ltb_ℤ, tdiv, ◌-ℤ◌, ◌*ℤ◌, ◌+ℤ◌,
}
use mantis.Prelude.I64.{InI64}
use mantis.Fixed.{scale}
use mantis.Fixed.Wide.{narrow, away, checked_mul_trunc, checked_mul_round}
use mantis.Fixed.Wide.Signed.{div_wide_by_const_lem}

pub scale_bounds : (d : ℕ) → d ≤ 18 → (0 < 10 ^ d) × (10 ^ d < 2 ^ 63)
scale_bounds d h =
    let low = one-le-pow d 10 (omega arith) in
    let high : 10 ^ d ≤ 10 ^ 18 = pow-le-pow_right (omega arith) h in (omega arith, omega arith)

narrow_iff : (z w : ℤ) → (narrow z ≡ some w) ↔ (InI64 z × (z ≡ w))
narrow_iff z w = (λ h. (ground arith, ground arith), λ h. ground arith)

product_lt : (m n : ℕ) → m ≤ 2 ^ 63 → n ≤ 2 ^ 63 → m * n ≤ 2 ^ 126
product_lt m n h k = grind arith

pub magnitude_mul : (a b : ℤ) → magnitude (a *ℤ b) ≡ magnitude a * magnitude b
unfolding ◌*ℤ◌
magnitude_mul (pos a) (pos b) = ground arith
magnitude_mul (pos a) (negsuc b) = ground arith
magnitude_mul (negsuc a) (pos b) = ground arith
magnitude_mul (negsuc a) (negsuc b) = ground arith

magnitude-away : (z : ℤ) (h : ℕ) → magnitude (away z h) ≡ magnitude z + h
unfolding ◌+ℤ◌ ◌-ℤ◌
magnitude-away z h = ground arith

magnitude_lt : (a b : ℤ) → InI64 a → InI64 b → magnitude (a *ℤ b) ≤ 2 ^ 126
magnitude_lt a b h k =
    rw (magnitude_mul a b) (product_lt (magnitude a) (magnitude b) (ground arith) (ground arith))

-- The product of two decimals of `decimals` places, at most 18, both in range: the operation
-- returns the product over the scale, truncated toward zero, if that fits, and nothing otherwise.
pub checked_mul_trunc_lem :
    (decimals : ℕ) (a b w : ℤ)
    → decimals ≤ 18
    → InI64 a
    → InI64 b
    → (checked_mul_trunc decimals a b ≡ some w)
      ↔ (InI64 (tdiv (a *ℤ b) (scale decimals)) × (tdiv (a *ℤ b) (scale decimals) ≡ w))
unfolding checked_mul_trunc
checked_mul_trunc_lem decimals a b w h k l =
    let s = scale_bounds decimals h in
    let small = magnitude_lt a b k l in
    rw (div_wide_by_const_lem (a *ℤ b) (10 ^ decimals) (omega arith) s.0 s.1)
      (narrow_iff (tdiv (a *ℤ b) (scale decimals)) w)

-- `w` is the integer nearest to z / d, and on a tie the one farther from zero.
abbrev pub IsNearest : ℕ → ℤ → ℤ → Type 0
IsNearest d z w =
    (2 * (magnitude w * d) ≤ 2 * magnitude z + d)
    × (2 * magnitude z < 2 * (magnitude w * d) + d)
    × (ltb_ℤ z (pos 0) ≡ true → pos_part w ≡ 0)
    × (ltb_ℤ z (pos 0) ≡ false → neg_part w ≡ 0)

nearest_quotient :
    (m d : ℕ)
    → 0 < d
    → (2 * ((m + d / 2) / d * d) ≤ 2 * m + d) × (2 * m < 2 * ((m + d / 2) / d * d) + d)
nearest_quotient m d h =
    let split = div-add-mod' (m + d / 2) d in
    let small : (m + d / 2) % d < d = grind arith in (omega arith, omega arith)

magnitude-tdiv : (z : ℤ) (d : ℕ) → magnitude (tdiv z (pos d)) ≡ magnitude z / d
unfolding tdiv
magnitude-tdiv (pos n) d = ground arith
magnitude-tdiv (negsuc n) d = ground arith

sign_tdiv :
    (z : ℤ) (d h : ℕ)
    → (ltb_ℤ z (pos 0) ≡ true → pos_part (tdiv (away z h) (pos d)) ≡ 0)
      × (ltb_ℤ z (pos 0) ≡ false → neg_part (tdiv (away z h) (pos d)) ≡ 0)
unfolding tdiv ◌+ℤ◌ ◌-ℤ◌
sign_tdiv (pos n) d h = (λ e. ground arith, λ e. ground arith)
sign_tdiv (negsuc n) d h = (λ e. ground arith, λ e. ground arith)

pub away-IsNearest : (z : ℤ) (d : ℕ) → 0 < d → IsNearest d z (tdiv (away z (d / 2)) (pos d))
away-IsNearest z d h =
    let size : magnitude (tdiv (away z (d / 2)) (pos d)) ≡ (magnitude z + d / 2) / d =
      magnitude-tdiv (away z (d / 2)) d ∙ ap (λ (m : ℕ). m / d) (magnitude-away z (d / 2)) in
    let near = nearest_quotient (magnitude z) d h in
    let sign = sign_tdiv z d (d / 2) in (rw size near.0, rw size near.1, sign.0, sign.1)

quotients_close : (d m u v : ℕ) → 2 * (u * d) ≤ 2 * m + d → 2 * m < 2 * (v * d) + d → u ≤ v
quotients_close d m u v h k = grind arith

same_size_and_sign :
    (u v : ℤ) → magnitude u ≡ magnitude v → (pos_part u ≡ 0) × (pos_part v ≡ 0) → u ≡ v
same_size_and_sign u v e s = ground arith

same_size_and_sign' :
    (u v : ℤ) → magnitude u ≡ magnitude v → (neg_part u ≡ 0) × (neg_part v ≡ 0) → u ≡ v
same_size_and_sign' u v e s = ground arith

pub IsNearest-unique : (d : ℕ) (z u v : ℤ) → IsNearest d z u → IsNearest d z v → u ≡ v
IsNearest-unique d z u v h k =
    let le = quotients_close d (magnitude z) (magnitude u) (magnitude v) h.0 k.1 in
    let ge = quotients_close d (magnitude z) (magnitude v) (magnitude u) k.0 h.1 in
    let size : magnitude u ≡ magnitude v = omega arith in
    elim (Bool-cases (ltb_ℤ z (pos 0))) [
      | inl e ↦ same_size_and_sign u v size (h.2 e, k.2 e)
      | inr e ↦ same_size_and_sign' u v size (h.3 e, k.3 e)
    ]

-- The product of two decimals of `decimals` places, at most 18, both in range: the rounding
-- operation returns exactly the integer that is nearest to the product over the scale, ties away
-- from zero, if that fits, and nothing otherwise.
pub checked_mul_round_lem :
    (decimals : ℕ) (a b w : ℤ)
    → decimals ≤ 18
    → InI64 a
    → InI64 b
    → (checked_mul_round decimals a b ≡ some w) ↔ (InI64 w × IsNearest (10 ^ decimals) (a *ℤ b) w)
unfolding checked_mul_round
checked_mul_round_lem decimals a b w h k l =
    let d = 10 ^ decimals in
    let s = scale_bounds decimals h in
    let small : magnitude (away (a *ℤ b) (d / 2)) < 2 ^ 127 =
      rw (magnitude-away (a *ℤ b) (d / 2)) (let m = magnitude_lt a b k l in omega arith) in
    let best = away-IsNearest (a *ℤ b) d s.0 in
    let exact = narrow_iff (tdiv (away (a *ℤ b) (d / 2)) (pos d)) w in
    rw (div_wide_by_const_lem (away (a *ℤ b) (d / 2)) d small s.0 s.1) (
      λ e.
          let (fits, same) = exact.0 e in
          (subst InI64 same fits, subst (IsNearest d (a *ℤ b)) same best),
      λ (fits, near).
          let same =
            IsNearest-unique d (a *ℤ b) (tdiv (away (a *ℤ b) (d / 2)) (pos d)) w best near in
          exact.1 (subst InI64 (sym same) fits, same),
    )
