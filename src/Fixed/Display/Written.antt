-- ===== src/Fixed/Display/Written.antt =====
-- The digits that the printer writes, as the number that they are read as.
use mantis.Prelude.{
  ℕ, zero, suc, ◌+◌, ◌*◌, ◌/◌, ◌%◌, ◌^◌, ◌<◌, ◌≡◌, refl, ◌∙◌, ap, arith, true, List, [], ◌∷◌, ◌++◌,
  length, length-append, ltb, inl, inr, Bool-cases,
}
use native.Mathlib.Nat.{pow-suc}
use mantis.Fixed.Parse.Digits.{number, AllDigits}
use mantis.Fixed.Display.{decimal, padded}

pub number-append : (xs ys : List ℕ) (m : ℕ) → number m (xs ++ ys) ≡ number (number m xs) ys
unfolding number
number-append [] ys m = refl
number-append (x ∷ xs) ys m = number-append xs ys (10 * m + x)

pub AllDigits-append : (xs ys : List ℕ) → AllDigits xs → AllDigits ys → AllDigits (xs ++ ys)
AllDigits-append [] ys h k = k
AllDigits-append (x ∷ xs) ys h k = (h.0, AllDigits-append xs ys h.1 k)

pub padded_lem :
    (w n m : ℕ)
    → n < 10 ^ w
    → (number m (padded w n) ≡ m * 10 ^ w + n) × AllDigits (padded w n) × (length (padded w n) ≡ w)
unfolding padded number
padded_lem zero n m h = (omega arith, tt, refl)
padded_lem (suc w) n m h =
    let p = pow-suc 10 w in
    let (e, all, l) = padded_lem w (n / 10) m (omega arith) in
    let grow : m * 10 ^ suc w ≡ m * (10 ^ w * 10) = ap (λ (z : ℕ). m * z) p in
    let last : 10 * (m * 10 ^ w + n / 10) + n % 10 ≡ m * 10 ^ suc w + n = grind arith in
    (
      number-append (padded w (n / 10)) ((n % 10) ∷ []) m
          ∙ ap (λ (z : ℕ). 10 * z + n % 10) e
          ∙ last,
      AllDigits-append (padded w (n / 10)) ((n % 10) ∷ []) all (omega arith, tt),
      length-append (padded w (n / 10)) ((n % 10) ∷ []) ∙ omega arith,
    )

pub decimal_lem :
    (f n : ℕ)
    → 0 < f
    → n < 10 ^ f
    → (number 0 (decimal f n) ≡ n) × AllDigits (decimal f n) × (0 < length (decimal f n))
unfolding decimal number
decimal_lem zero n p h = absurd (omega arith)
decimal_lem (suc zero) n p h =
    let small : ltb n 10 ≡ true = ground arith in
    rw small (omega arith, (omega arith, tt), omega arith)
decimal_lem (suc (suc f)) n p h =
    let q = pow-suc 10 (suc f) in
    let (e, all, l) = decimal_lem (suc f) (n / 10) (omega arith) (omega arith) in
    elim (Bool-cases (ltb n 10)) [
      | inl small ↦ rw small (omega arith, (ground arith, tt), omega arith)
      | inr big ↦ rw big (
        number-append (decimal (suc f) (n / 10)) ((n % 10) ∷ []) 0 ∙ omega arith,
        AllDigits-append (decimal (suc f) (n / 10)) ((n % 10) ∷ []) all (omega arith, tt),
        omega (arith, length-append (decimal (suc f) (n / 10)) ((n % 10) ∷ [])),
      )
    ]
