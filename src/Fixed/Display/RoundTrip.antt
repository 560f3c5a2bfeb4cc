-- ===== src/Fixed/Display/RoundTrip.antt =====
-- Parsing a displayed value gives the value back.
use mathlib.Core.List.{append-nil}
use mantis.Prelude.{
  ℕ, ◌+◌, ◌-◌, ◌/◌, ◌%◌, ◌^◌, ◌≤◌, ◌<◌, ◌≡◌, refl, ◌∙◌, sym, ap, subst, arith, true, false, some,
  List, [], ◌∷◌, ◌++◌, length, ltb, ◌==◌, if◌then◌else◌, inl, inr, Bool-cases,
}
use native.Mathlib.Nat.{div-add-mod'}
use mantis.Prelude.Int.{ℤ, pos, pos_part, neg_part, magnitude, ltb_ℤ, ◌-ℤ◌}
use mantis.Prelude.I64.{InI64, checked}
use mantis.Fixed.Exact.{checked_iff}
use mantis.Fixed.Wide.Rounding.{scale_bounds}
use mantis.Fixed.Parse.{
  Accumulator, Parsed, new_accumulator, feed, feed_all, finish, parse_unsigned, parse_decimal_bytes,
}
use mantis.Fixed.Parse.Digits.{Reads, AllDigits, feed_all-chars}
use mantis.Fixed.Display.{decimal, padded, chars, sign, display}
use mantis.Fixed.Display.Written.{padded_lem, decimal_lem}

-- What `display` writes behind the sign.
text : ℕ → ℤ → List ℕ
text decimals raw =
    if decimals == 0
    then chars (decimal 39 (magnitude raw))
    else chars (decimal 39 (magnitude raw / 10 ^ decimals))
      ++ (b'.' ∷ chars (padded decimals (magnitude raw % 10 ^ decimals)))

display-eq-sign : (decimals : ℕ) (raw : ℤ) → display decimals raw ≡ sign raw (text decimals raw)
unfolding display text
display-eq-sign decimals raw = elim (Bool-cases (decimals == 0)) [ inl e ↦ rw e | inr e ↦ rw e ]

first_digit :
    (ds : List ℕ)
    → AllDigits ds
    → 0 < length ds
    → (d : ℕ) × (rest : List ℕ) × (ds ≡ d ∷ rest) × (d ≤ 9)
first_digit [] all l = absurd (omega arith)
first_digit (d ∷ ds) all l = (d, ds, refl, all.0)

-- An accumulator that has read the whole of a value.
record Done (a : Accumulator) (decimals m : ℕ) : Type 0 where
  reads : Reads a m
  decimals_read : a.frac_digits ≡ decimals
  any : a.saw_any_digit ≡ true

feed_dot :
    (a : Accumulator) (rest : List ℕ)
    → a.saw_dot ≡ false
    → feed_all a (b'.' ∷ rest) ≡ feed_all (record a { saw_dot = true }) rest
unfolding feed_all feed
feed_dot a rest e = rw e

new-Reads : Reads new_accumulator 0
new-Reads = record {
  not_positive = refl;
  size = refl;
  no_digits = λ _. refl;
  some_digits = λ h. absurd (omega arith);
}

feed_all-text :
    (decimals : ℕ) (raw : ℤ)
    → decimals ≤ 18
    → InI64 raw
    → (a : Accumulator) × (feed_all new_accumulator (text decimals raw) ≡ Parsed.ok a)
      × Done a decimals (magnitude raw)
unfolding text feed_all
feed_all-text decimals raw h k =
    let m = magnitude raw in
    let small : m ≤ 2 ^ 63 = ground arith in
    elim (Bool-cases (decimals == 0)) [
      | inl none_of_them ↦
          let zero_decimals : decimals ≡ 0 = ground arith in
          let (e, all, l) = decimal_lem 39 m (omega arith) (omega arith) in
          let (a, f, ran) =
            feed_all-chars (decimal 39 m) new_accumulator 0 [] new-Reads all (omega arith) in
          (
            a,
            rw none_of_them
                (ap (feed_all new_accumulator) (sym (append-nil (chars (decimal 39 m)))) ∙ f),
            record {
              reads = subst (Reads a) e ran.reads;
              decimals_read = ran.whole refl ∙ sym zero_decimals;
              any = ran.any l;
            },
          )
      | inr some_of_them ↦
          let s = 10 ^ decimals in
          let pos_scale = (scale_bounds decimals h).0 in
          let split = div-add-mod' m s in
          let low : m % s < s = grind arith in
          let whole_small : m / s ≤ m = grind arith in
          let (e, all, l) = decimal_lem 39 (m / s) (omega arith) (omega arith) in
          let (p, p_all, p_l) = padded_lem decimals (m % s) (m / s) low in
          let (a, f, ran) =
            feed_all-chars (decimal 39 (m / s)) new_accumulator 0
              (b'.' ∷ chars (padded decimals (m % s))) new-Reads all (omega arith) in
          let dotted = record a { saw_dot = true } in
          let r : Reads a (m / s) = subst (Reads a) e ran.reads in
          let r' : Reads dotted (m / s) = record {
            not_positive = r.not_positive;
            size = r.size;
            no_digits = r.no_digits;
            some_digits = r.some_digits;
          } in
          let (b, g, ran') =
            feed_all-chars (padded decimals (m % s)) dotted (m / s) [] r' p_all (omega arith) in
          (
            b,
            rw some_of_them (
                f
                ∙ feed_dot a (chars (padded decimals (m % s))) ran.dot
                ∙ ap (feed_all dotted) (sym (append-nil (chars (padded decimals (m % s)))))
                ∙ g),
            record {
              reads = subst (Reads b) (p ∙ split) ran'.reads;
              decimals_read =
                  (let no_frac = ran.whole refl in
                    let counted = ran'.decimals refl (omega arith) in omega arith);
              any = ran'.kept (ran.any l);
            },
          )
    ]

negated :
    (z raw : ℤ)
    → pos_part z ≡ 0
    → neg_part z ≡ magnitude raw
    → ltb_ℤ raw (pos 0) ≡ false
    → pos 0 -ℤ z ≡ raw
unfolding ◌-ℤ◌
negated z raw h k n = ground arith

as_read :
    (z raw : ℤ) → pos_part z ≡ 0 → neg_part z ≡ magnitude raw → ltb_ℤ raw (pos 0) ≡ true → z ≡ raw
as_read z raw h k n = ground arith

signed_value :
    (z raw : ℤ)
    → pos_part z ≡ 0
    → neg_part z ≡ magnitude raw
    → InI64 raw
    → (if ltb_ℤ raw (pos 0) then some z else checked (pos 0 -ℤ z)) ≡ some raw
signed_value z raw h k fits = elim (Bool-cases (ltb_ℤ raw (pos 0))) [
  | inl neg ↦ rw neg (ap some (as_read z raw h k neg))
  | inr nonneg ↦
      let e = negated z raw h k nonneg in
      rw nonneg ((checked_iff (pos 0 -ℤ z) raw).1 (subst InI64 (sym e) fits, e))
]

finish_lem :
    (a : Accumulator) (decimals : ℕ) (raw : ℤ)
    → Done a decimals (magnitude raw)
    → InI64 raw
    → finish decimals (ltb_ℤ raw (pos 0)) a ≡ Parsed.ok raw
unfolding finish
finish_lem a decimals raw h k =
    let exact : ltb decimals a.frac_digits ≡ false = ground arith in
    let no_pad : decimals - a.frac_digits ≡ 0 = omega arith in
    rw (h.any, exact, signed_value a.mantissa raw h.reads.not_positive h.reads.size k)
      (rw no_pad refl)

text_head :
    (decimals : ℕ) (raw : ℤ)
    → decimals ≤ 18
    → InI64 raw
    → (d : ℕ) × (rest : List ℕ) × (text decimals raw ≡ (b'0' + d) ∷ rest) × (d ≤ 9)
unfolding text
text_head decimals raw h k =
    let m = magnitude raw in
    let whole_small : m / 10 ^ decimals ≤ m = grind arith in
    let all_digits = decimal_lem 39 m (omega arith) (ground arith) in
    let whole_digits = decimal_lem 39 (m / 10 ^ decimals) (omega arith) (ground arith) in
    elim (Bool-cases (decimals == 0)) [
      | inl z ↦
          let (d, rest, e, le) = first_digit (decimal 39 m) all_digits.1 all_digits.2 in
          (d, chars rest, rw (z, e), le)
      | inr nz ↦
          let (d, rest, e, le) =
            first_digit (decimal 39 (m / 10 ^ decimals)) whole_digits.1 whole_digits.2 in
          (d, chars rest ++ (b'.' ∷ chars (padded decimals (m % 10 ^ decimals))), rw (nz, e), le)
    ]

parse_unsigned-text :
    (decimals : ℕ) (raw : ℤ) (d : ℕ) (rest : List ℕ)
    → decimals ≤ 18
    → InI64 raw
    → text decimals raw ≡ (b'0' + d) ∷ rest
    → parse_unsigned decimals (ltb_ℤ raw (pos 0)) ((b'0' + d) ∷ rest) ≡ Parsed.ok raw
unfolding parse_unsigned
parse_unsigned-text decimals raw d rest h k e =
    let (a, read, done) = feed_all-text decimals raw h k in
    rw (ap (feed_all new_accumulator) (sym e) ∙ read, parse_unsigned)
      (finish_lem a decimals raw done k)

-- Every value of a type with at most 18 decimals is read back exactly from what `display` writes.
pub parse_decimal_bytes-display :
    (decimals : ℕ) (raw : ℤ)
    → decimals ≤ 18
    → InI64 raw
    → parse_decimal_bytes decimals (display decimals raw) ≡ Parsed.ok raw
unfolding parse_decimal_bytes
parse_decimal_bytes-display decimals raw h k =
    let (d, rest, e, le) = text_head decimals raw h k in
    let back = parse_unsigned-text decimals raw d rest h k e in
    let no_minus : (b'0' + d == b'-') ≡ false = ground arith in
    let no_plus : (b'0' + d == b'+') ≡ false = ground arith in
    rw (display-eq-sign decimals raw) (elim (Bool-cases (ltb_ℤ raw (pos 0))) [
      | inl neg ↦
          rw (neg, e) (ap (λ n. parse_unsigned decimals n ((b'0' + d) ∷ rest)) (sym neg) ∙ back)
      | inr nonneg ↦
          rw (nonneg, e, no_minus, no_plus)
            (ap (λ n. parse_unsigned decimals n ((b'0' + d) ∷ rest)) (sym nonneg) ∙ back)
    ])
