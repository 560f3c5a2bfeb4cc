-- ===== src/Fixed/Display.antt =====
-- crates/fixed/src/fmt.rs: `Display`. The decimal digits of an integer, and the zeros that pad a
-- number to a width, are what Rust's formatting writes.
pub mod Written
pub mod RoundTrip
use mantis.Prelude.{
  ℕ, zero, suc, ◌+◌, ◌/◌, ◌%◌, ◌^◌, List, [], ◌∷◌, ◌++◌, map, ltb, ◌==◌, if◌then◌else◌,
}
use mantis.Prelude.Int.{ℤ, pos, magnitude, ltb_ℤ}
use mantis.Fixed.{FixedI64}

-- The digits of a number below 10^fuel, without leading zeros; a u128 is below 10^39.
pub decimal : ℕ → ℕ → List ℕ
decimal zero n = []
decimal (suc fuel) n =
    let rest = decimal fuel (n / 10) in if ltb n 10 then n ∷ [] else rest ++ ((n % 10) ∷ [])

-- The last `width` digits, with leading zeros.
pub padded : ℕ → ℕ → List ℕ
padded zero n = []
padded (suc width) n = padded width (n / 10) ++ ((n % 10) ∷ [])

abbrev pub chars : List ℕ → List ℕ
chars ds = map (λ d. b'0' + d) ds

abbrev pub sign : ℤ → List ℕ → List ℕ
sign raw text = if ltb_ℤ raw (pos 0) then b'-' ∷ text else text

pub display : ℕ → FixedI64 → List ℕ
display decimals raw =
    let s = 10 ^ decimals in
    let whole = magnitude raw / s in
    let frac = magnitude raw % s in
    if decimals == 0
    then sign raw (chars (decimal 39 (magnitude raw)))
    else sign raw (chars (decimal 39 whole) ++ (b'.' ∷ chars (padded decimals frac)))
