-- ===== src/Fixed/Exact.antt =====
-- The checked and saturating operations against exact integer arithmetic.
use mantis.Prelude.{
  ℕ, ◌^◌, ◌<◌, ◌≡◌, ◌↔◌, none, some, arith, ◌≢◌, ◌⊎◌, inl, inr, ap, ◌∙◌, sym, subst, Bool-cases,
}
use mantis.Prelude.Int.{ℤ, pos, negsuc, ◌+ℤ◌, ◌-ℤ◌, ◌*ℤ◌, ◌<ℤ◌, tdiv, eqb_ℤ, eqb_ℤ→eq, magnitude}
use mantis.Prelude.I64.{InI64, checked, i64_min, i64_max, div_i64}
use mantis.Fixed.Truncation.{IsTruncated, tdiv-IsTruncated, IsTruncated-unique, tdiv-InI64}
use mantis.Fixed.{checked_add, checked_sub, checked_mul_int, checked_div_int, saturating_add}

pub checked_iff : (z w : ℤ) → (checked z ≡ some w) ↔ (InI64 z × (z ≡ w))
checked_iff z w = (λ h. (ground arith, ground arith), λ h. ground arith)

pub checked-pos : (n : ℕ) → n < 2 ^ 63 → checked (pos n) ≡ some (pos n)
checked-pos n h = ground arith

-- The result of a checked operation is the exact one, and there is a result exactly when the exact
-- one fits an i64. For addition, subtraction and multiplication by an integer.
pub checked_exact :
    (a b w : ℤ)
    → ((checked_add a b ≡ some w) ↔ (InI64 (a +ℤ b) × (a +ℤ b ≡ w)))
      × ((checked_sub a b ≡ some w) ↔ (InI64 (a -ℤ b) × (a -ℤ b ≡ w)))
      × ((checked_mul_int a b ≡ some w) ↔ (InI64 (a *ℤ b) × (a *ℤ b ≡ w)))
unfolding checked_add checked_sub checked_mul_int
checked_exact a b w = (checked_iff (a +ℤ b) w, checked_iff (a -ℤ b) w, checked_iff (a *ℤ b) w)

-- A saturating sum is the exact one if that fits, and otherwise the nearest end of the range.
pub saturating_add_lem :
    (a b : ℤ)
    → InI64 (saturating_add a b)
      × (InI64 (a +ℤ b) → saturating_add a b ≡ a +ℤ b)
      × (i64_max <ℤ a +ℤ b → saturating_add a b ≡ i64_max)
      × (a +ℤ b <ℤ i64_min → saturating_add a b ≡ i64_min)
unfolding saturating_add
saturating_add_lem a b = (ground arith, λ h. ground arith, λ h. ground arith, λ h. ground arith)

returned :
    (a b q : ℤ)
    → checked_div_int a b ≡ some (some q)
    → (b ≢ pos 0) × ((a ≢ i64_min) ⊎ (b ≢ negsuc 0)) × (tdiv a b ≡ q)
unfolding checked_div_int div_i64
returned a b q e = ground arith

returns :
    (a b : ℤ)
    → b ≢ pos 0
    → (a ≢ i64_min) ⊎ (b ≢ negsuc 0)
    → checked_div_int a b ≡ some (some (tdiv a b))
unfolding checked_div_int div_i64
returns a b h o = ground arith

pub panics : (a b : ℤ) → (checked_div_int a b ≡ none) ↔ ((a ≡ i64_min) × (b ≡ negsuc 0))
unfolding checked_div_int div_i64
panics a b = (λ h. ground arith, λ h. ground arith)

refused : (a b : ℤ) → (checked_div_int a b ≡ some none) ↔ (b ≡ pos 0)
unfolding checked_div_int div_i64
refused a b = (λ h. ground arith, λ h. ground arith)

overflowing : (q : ℤ) → tdiv i64_min (negsuc 0) ≡ q → InI64 q → ⊥
unfolding tdiv
overflowing q e i = absurd (ground arith)

-- A quotient in range rules out the two exceptions.
no_exception :
    (a b q : ℤ) → InI64 q → IsTruncated a b q → (b ≢ pos 0) × ((a ≢ i64_min) ⊎ (b ≢ negsuc 0))
no_exception a b q i (low, high, sign, sign') =
    let not_zero : b ≢ pos 0 = λ e. absurd (ground arith) in
    elim (Bool-cases (eqb_ℤ b (negsuc 0))) [
      | inr other ↦ (not_zero, inr (λ e. ground arith))
      | inl minus_one ↦ (
        not_zero,
        inl (λ e.
            overflowing q
              (sym (λ j. tdiv (e j) (eqb_ℤ→eq b (negsuc 0) minus_one j))
                ∙ IsTruncated-unique a b q (low, high, sign, sign'))
              i),
      )
    ]

in_range : (a b q : ℤ) → InI64 a → checked_div_int a b ≡ some (some q) → InI64 q × IsTruncated a b q
in_range a b q h e =
    let (not_zero, allowed, same) = returned a b q e in
    let size : 0 < magnitude b = ground arith in
    (
      subst InI64 same (tdiv-InI64 a b h allowed),
      subst (IsTruncated a b) same (tdiv-IsTruncated a b size),
    )

found : (a b q : ℤ) → InI64 q → IsTruncated a b q → checked_div_int a b ≡ some (some q)
found a b q i t =
    let (not_zero, allowed) = no_exception a b q i t in
    returns a b not_zero allowed ∙ ap (λ z. some (some z)) (IsTruncated-unique a b q t)

-- For an i64 dividend, division by an integer panics exactly at the smallest value divided by -1, where
-- the function promises a result; it returns `None` exactly for a zero divisor; and it returns `q` exactly
-- where `q` is an i64 and the quotient truncated toward zero.
pub checked_div_int_lem :
    (a b q : ℤ)
    → InI64 a
    → ((checked_div_int a b ≡ none) ↔ ((a ≡ i64_min) × (b ≡ negsuc 0)))
      × ((checked_div_int a b ≡ some none) ↔ (b ≡ pos 0))
      × ((checked_div_int a b ≡ some (some q)) ↔ (InI64 q × IsTruncated a b q))
checked_div_int_lem a b q h =
    (panics a b, refused a b, (in_range a b q h, λ t. found a b q t.0 t.1))
