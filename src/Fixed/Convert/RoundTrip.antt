-- ===== src/Fixed/Convert/RoundTrip.antt =====
-- What a wider scale holds, a narrower one gives back.
use mantis.Prelude.{ℕ, suc, ◌-◌, ◌*◌, ◌/◌, ◌<◌, ◌≡◌, ◌∙◌, ap, arith, true, false, some, ltb, ◌==◌}
use native.Mathlib.Nat.{one-le-pow}
use mantis.Prelude.Int.{ℤ, pos, negsuc, ◌*ℤ◌, ◌-ℤ◌, tdiv, pos_part, neg_part, ltb_ℤ}
use mantis.Prelude.I64.{InI64}
use mantis.Fixed.Wide.{narrow, away}
use mantis.Fixed.Wide.Rounding.{IsNearest-unique, away-IsNearest, magnitude_mul}
use mantis.Fixed.Convert.{pow10, rem_ℤ, rescale_trunc, rescale_round, checked_rescale_exact}

cancel : (m f : ℕ) → 0 < f → m * f / f ≡ m
cancel m f h = grind arith

product_of_negsuc : (m f : ℕ) → 0 < f → negsuc m *ℤ pos f ≡ negsuc (suc m * f - 1)
unfolding ◌*ℤ◌
product_of_negsuc m f h = let more : 0 < suc m * f = grind arith in ground arith

pub tdiv-mul : (a : ℤ) (f : ℕ) → 0 < f → tdiv (a *ℤ pos f) (pos f) ≡ a
unfolding tdiv
tdiv-mul (pos m) f h = unfold ◌*ℤ◌ in ground (arith, cancel m f h)
tdiv-mul (negsuc m) f h =
    let more : 0 < suc m * f = grind arith in
    let whole : suc (suc m * f - 1) / f ≡ suc m =
      ap (λ (z : ℕ). z / f) (omega arith) ∙ cancel (suc m) f h in
    rw (product_of_negsuc m f h) (ground arith)

sub_self : (z : ℤ) → z -ℤ z ≡ pos 0
unfolding ◌-ℤ◌
sub_self z = ground arith

-- A multiple leaves no remainder.
rem-mul : (a : ℤ) (f : ℕ) → 0 < f → rem_ℤ (a *ℤ pos f) f ≡ pos 0
rem-mul a f h = rw (tdiv-mul a f h) (sub_self (a *ℤ pos f))

narrow-eq : (z : ℤ) → InI64 z → narrow z ≡ some z
narrow-eq z h = ground arith

sign-mul :
    (a : ℤ) (f : ℕ)
    → 0 < f
    → (ltb_ℤ (a *ℤ pos f) (pos 0) ≡ true → pos_part a ≡ 0)
      × (ltb_ℤ (a *ℤ pos f) (pos 0) ≡ false → neg_part a ≡ 0)
unfolding ◌*ℤ◌
sign-mul (pos m) f h = (λ e. ground arith, λ e. ground arith)
sign-mul (negsuc m) f h =
    let more : 0 < suc m * f = grind arith in (λ e. ground arith, λ e. ground arith)

-- A multiple of the power is its own nearest multiple, so the bias does not move it.
round-mul : (a : ℤ) (f : ℕ) → 0 < f → tdiv (away (a *ℤ pos f) (f / 2)) (pos f) ≡ a
round-mul a f h =
    IsNearest-unique f (a *ℤ pos f) (tdiv (away (a *ℤ pos f) (f / 2)) (pos f)) a
      (away-IsNearest (a *ℤ pos f) f h)
      (let size = magnitude_mul a (pos f) in
        (omega arith, omega arith, (sign-mul a f h).0, (sign-mul a f h).1))

widened :
    (d d2 : ℕ) (a b : ℤ) → d < d2 → rescale_trunc d d2 a ≡ some b → b ≡ a *ℤ pos (pow10 (d2 - d))
unfolding rescale_trunc
widened d d2 a b h e = ground arith

-- A value that fits the wider scale d2 > d comes back exactly, whichever operation narrows it: by
-- truncation, by rounding, or by the exact conversion, which does not refuse it.
pub rescale-rescale_trunc :
    (d d2 : ℕ) (a b : ℤ)
    → d < d2
    → InI64 a
    → rescale_trunc d d2 a ≡ some b
    → (rescale_trunc d2 d b ≡ some a)
      × (rescale_round d2 d b ≡ some a)
      × (checked_rescale_exact d2 d b ≡ some a)
unfolding rescale_round checked_rescale_exact
rescale-rescale_trunc d d2 a b h k e =
    let f = pow10 (d2 - d) in
    let up = widened d d2 a b h e in
    let some_power : 0 < f = one-le-pow (d2 - d) 10 (omega arith) in
    let back : tdiv b (pos f) ≡ a = rw up (tdiv-mul a f some_power) in
    let near : tdiv (away b (f / 2)) (pos f) ≡ a = rw up (round-mul a f some_power) in
    let exact : rem_ℤ b f ≡ pos 0 = rw up (rem-mul a f some_power) in
    let differ : (d == d2) ≡ false = ground arith in
    let down : ltb d2 d ≡ false = ground arith in
    (
      unfold rescale_trunc in rw (differ, down, back) (narrow-eq a k),
      rw (differ, down, near) (narrow-eq a k),
      rw (differ, down, exact, back) (narrow-eq a k),
    )
