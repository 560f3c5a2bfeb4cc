-- ===== src/Fixed/Parse/Digits.antt =====
-- Reading a run of digits: the accumulator holds the number that they write.
use mantis.Prelude.{
  ℕ, zero, suc, ◌+◌, ◌-◌, ◌*◌, ◌%◌, ◌^◌, ◌≤◌, ◌<◌, ◌≡◌, refl, ◌∙◌, ap, arith, true, false, ◌&&◌,
  some, List, [], ◌∷◌, ◌++◌, length, ltb, leb, ◌==◌, if◌then◌else◌, inl, inr, Bool-cases,
}
use native.Mathlib.Nat.{pow-suc, pow-le-pow_right}
use mantis.Prelude.Int.{ℤ, pos, pos_part, neg_part, ◌*ℤ◌, ◌-ℤ◌, eqb_ℤ}
use mantis.Prelude.I64.{InI64, mul_i64, sub_i64, checked, mul_i64-eq, sub_i64-eq}
use mantis.Fixed.Exact.{checked_iff}
use mantis.Fixed.Parse.{Accumulator, Parsed, push_digit, feed_digit, feed, feed_all, count_frac}
use mantis.Fixed.Display.{chars}

-- The accumulator holds the number `m`, and has counted its digits.
pub record Reads (a : Accumulator) (m : ℕ) : Type 0 where
  pub not_positive : pos_part a.mantissa ≡ 0
  pub size : neg_part a.mantissa ≡ m
  pub no_digits : m ≡ 0 → a.total_digits ≡ 0
  pub some_digits : 0 < m → 10 ^ a.total_digits ≤ 10 * m

-- The number that digits write behind the number `m`.
unfoldable pub number : ℕ → List ℕ → ℕ
number m [] = m
number m (d ∷ ds) = number (10 * m + d) ds

abbrev pub AllDigits : List ℕ → Type 0
AllDigits [] = Unit
AllDigits (d ∷ ds) = (d ≤ 9) × AllDigits ds

pub le-number : (m : ℕ) (ds : List ℕ) → m ≤ number m ds
unfolding number
le-number m [] = omega arith
le-number m (d ∷ ds) = omega (arith, le-number (10 * m + d) ds)

-- A 19-digit bound on the count, from the bound on the number.
few_digits : (t m : ℕ) → 10 ^ t ≤ 10 * m → 10 * m ≤ 2 ^ 63 → t ≤ 18
few_digits t m h k = elim (Bool-cases (ltb 18 t)) [
  | inl many ↦
      let big : 10 ^ 19 ≤ 10 ^ t =
        pow-le-pow_right (omega arith) (let le : 19 ≤ t = ground arith in le) in
      absurd (omega arith)
  | inr few ↦ ground arith
]

negative_parts : (z : ℤ) (m : ℕ) → pos_part z ≡ 0 → neg_part z ≡ m → z ≡ pos 0 -ℤ pos m
unfolding ◌-ℤ◌
negative_parts z m h k = ground arith

times_ten : (m : ℕ) → (pos 0 -ℤ pos m) *ℤ pos 10 ≡ pos 0 -ℤ pos (10 * m)
unfolding ◌*ℤ◌ ◌-ℤ◌
times_ten m = ground arith

minus_digit : (m d : ℕ) → (pos 0 -ℤ pos m) -ℤ pos d ≡ pos 0 -ℤ pos (m + d)
unfolding ◌-ℤ◌
minus_digit m d = ground arith

pub negative-InI64 : (m : ℕ) → m ≤ 2 ^ 63 → InI64 (pos 0 -ℤ pos m)
unfolding ◌-ℤ◌
negative-InI64 m h = ground arith

-- Either way of computing it, the new mantissa is exact as long as it fits.
push_digit_lem :
    (total d m : ℕ)
    → 10 * m + d ≤ 2 ^ 63
    → push_digit total (pos 0 -ℤ pos m) d ≡ some (pos 0 -ℤ pos (10 * m + d))
unfolding push_digit
push_digit_lem total d m l =
    let ten = times_ten m in
    let in_ten = negative-InI64 (10 * m) (omega arith) in
    let in_all = negative-InI64 (10 * m + d) l in
    let wrapped : sub_i64 (mul_i64 (pos 0 -ℤ pos m) (pos 10)) (pos d) ≡ pos 0 -ℤ pos (10 * m + d) =
      rw
        (
          mul_i64-eq (pos 0 -ℤ pos m) (pos 10) (rw ten in_ten),
          ten,
          sub_i64-eq (pos 0 -ℤ pos (10 * m)) (pos d) (rw (minus_digit (10 * m) d) in_all),
        )
        (minus_digit (10 * m) d) in
    let first : checked ((pos 0 -ℤ pos m) *ℤ pos 10) ≡ some (pos 0 -ℤ pos (10 * m)) =
      (checked_iff ((pos 0 -ℤ pos m) *ℤ pos 10) (pos 0 -ℤ pos (10 * m))).1 (rw ten in_ten, ten) in
    let second : checked ((pos 0 -ℤ pos (10 * m)) -ℤ pos d) ≡ some (pos 0 -ℤ pos (10 * m + d)) =
      (checked_iff ((pos 0 -ℤ pos (10 * m)) -ℤ pos d) (pos 0 -ℤ pos (10 * m + d))).1
        (rw (minus_digit (10 * m) d) in_all, minus_digit (10 * m) d) in
    elim (Bool-cases (leb total 18)) [
      | inl few ↦ rw (few, wrapped)
      | inr many ↦ rw (many, first) second
    ]

-- What a digit makes of an accumulator.
abbrev pub after_digit : Accumulator → ℕ → ℕ → Accumulator
after_digit a m d = record a {
  mantissa = pos 0 -ℤ pos (10 * m + d);
  total_digits = if 10 * m + d == 0 then 0 else a.total_digits + 1;
  frac_digits = count_frac a;
  saw_any_digit = true;
}

pow_digit :
    (t m d : ℕ)
    → (m ≡ 0 → t ≡ 0)
    → (0 < m → 10 ^ t ≤ 10 * m)
    → 0 < 10 * m + d
    → 10 ^ (t + 1) ≤ 10 * (10 * m + d)
pow_digit t zero d h k p = rw (h refl) (omega arith)
pow_digit t (suc m) d h k p =
    let grow = pow-suc 10 t in
    let small = k (omega arith) in
    let next : 10 ^ (t + 1) ≡ 10 ^ t * 10 = ap (λ (z : ℕ). 10 ^ z) (omega arith) ∙ grow in
    omega arith

after_digit-Reads : (a : Accumulator) (m d : ℕ) → Reads a m → Reads (after_digit a m d) (10 * m + d)
unfolding ◌-ℤ◌
after_digit-Reads a m d r =
    let more = pow_digit a.total_digits m d r.no_digits r.some_digits in
    record {
      not_positive = ground arith;
      size = ground arith;
      no_digits = λ e. ground arith;
      some_digits = λ h. let e : (10 * m + d == 0) ≡ false = ground arith in rw e (more h);
    }

few_of : (a : Accumulator) (m : ℕ) → Reads a m → 10 * m ≤ 2 ^ 63 → a.total_digits ≤ 18
few_of a zero r h = rw (r.no_digits refl) (omega arith)
few_of a (suc m) r h = few_digits a.total_digits (suc m) (r.some_digits (omega arith)) h

feed_digit_lem :
    (a : Accumulator) (m d : ℕ)
    → Reads a m
    → d ≤ 9
    → 10 * m + d ≤ 2 ^ 63
    → feed_digit a d ≡ Parsed.ok (after_digit a m d)
unfolding feed_digit
feed_digit_lem a m d r h k =
    let z = negative_parts a.mantissa m r.not_positive r.size in
    elim (Bool-cases (10 * m + d == 0)) [
      | inl nothing ↦
          let d0 : d ≡ 0 = ground arith in
          let m0 : m ≡ 0 = ground arith in
          let t0 = r.no_digits m0 in
          let skip : ((d == 0) && eqb_ℤ a.mantissa (pos 0)) ≡ true = ground arith in
          let same : a.mantissa ≡ pos 0 -ℤ pos (10 * m + d) =
            z ∙ ap (λ (n : ℕ). pos 0 -ℤ pos n) (omega arith) in
          rw (skip, nothing) (cc (same, t0))
      | inr something ↦
          let t : a.total_digits ≤ 18 = few_of a m r (omega arith) in
          let go : ((d == 0) && eqb_ℤ a.mantissa (pos 0)) ≡ false = ground arith in
          let keep : (a.total_digits + 1) % 2 ^ 8 ≡ a.total_digits + 1 = omega arith in
          let few : ltb 19 (a.total_digits + 1) ≡ false = ground arith in
          let new : push_digit (a.total_digits + 1) a.mantissa d
              ≡ some (pos 0 -ℤ pos (10 * m + d)) =
            ap (λ y. push_digit (a.total_digits + 1) y d) z
            ∙ push_digit_lem (a.total_digits + 1) d m k in
          rw (go, keep, few, new, something) (cc keep)
    ]

feed_char : (a : Accumulator) (d : ℕ) → d ≤ 9 → feed a (b'0' + d) ≡ feed_digit a d
unfolding feed
feed_char a d h =
    let test : (leb b'0' (b'0' + d) && leb (b'0' + d) b'9') ≡ true = ground arith in
    let back : b'0' + d - b'0' ≡ d = omega arith in rw (test, back)

-- What a run of digits leaves: the number, the dot as it was, and the decimals counted.
pub record Ran (a a' : Accumulator) (m count : ℕ) : Type 0 where
  pub reads : Reads a' m
  pub dot : a'.saw_dot ≡ a.saw_dot
  pub whole : a.saw_dot ≡ false → a'.frac_digits ≡ a.frac_digits
  pub decimals :
      a.saw_dot ≡ true → a.frac_digits + count ≤ 255 → a'.frac_digits ≡ a.frac_digits + count
  pub kept : a.saw_any_digit ≡ true → a'.saw_any_digit ≡ true
  pub any : 0 < count → a'.saw_any_digit ≡ true

pub feed_all-chars :
    (ds : List ℕ) (a : Accumulator) (m : ℕ) (rest : List ℕ)
    → Reads a m
    → AllDigits ds
    → number m ds ≤ 2 ^ 63
    → (a' : Accumulator) × (feed_all a (chars ds ++ rest) ≡ feed_all a' rest)
      × Ran a a' (number m ds) (length ds)
unfolding number feed_all
feed_all-chars [] a m rest r all k = (
  a,
  refl,
  record {
    reads = r;
    dot = refl;
    whole = λ _. refl;
    decimals = λ e h. omega arith;
    kept = λ e. e;
    any = λ h. absurd (omega arith);
  },
)
feed_all-chars (d ∷ ds) a m rest r all k =
    let fits = le-number (10 * m + d) ds in
    let one = feed_char a d all.0 ∙ feed_digit_lem a m d r all.0 (omega arith) in
    let (a', e, ran) =
      feed_all-chars ds (after_digit a m d) (10 * m + d) rest (after_digit-Reads a m d r) all.1 k in
    (
      a',
      rw (one, feed_all) e,
      record {
        reads = ran.reads;
        dot = ran.dot;
        whole = λ w. ran.whole w ∙ rw w;
        decimals = λ w h.
            let counted : count_frac a ≡ a.frac_digits + 1 = rw w (omega arith) in
            let end = ran.decimals w (omega arith) in omega arith;
        kept = λ w. ran.kept refl;
        any = λ h. ran.kept refl;
      },
    )
