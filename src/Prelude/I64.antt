-- ===== src/Prelude/I64.antt =====
-- The `i64` of Rust as the integer that it stands for. Plain `+`, `-` and `*` wrap, as in a
-- release build; the checked and saturating forms test the range.
use Prim.Native.Nat.{ℕ, ◌+◌, ◌-◌, ◌%◌, ◌^◌, ◌≤◌, ◌<◌}
use mathlib.Core.Path.{◌≡◌}
use mathlib.Core.Bool.{Bool, ◌&&◌, ◌||◌}
use mathlib.Core.Option.{Option, none, some}
use native.Mathlib.Omega.{arith}
use mantis.Prelude.Tests.{ltb, leb, if◌then◌else◌}
use mantis.Prelude.Int.{ℤ, pos, negsuc, pos_part, neg_part, ◌+ℤ◌, ◌-ℤ◌, ◌*ℤ◌, ltb_ℤ, eqb_ℤ, tdiv}

abbrev pub i64_max : ℤ
i64_max = pos (2 ^ 63 - 1)

abbrev pub i64_min : ℤ
i64_min = negsuc (2 ^ 63 - 1)

abbrev pub InI64 : ℤ → Type 0
InI64 z = (pos_part z < 2 ^ 63) × (neg_part z ≤ 2 ^ 63)

abbrev pub in_i64 : ℤ → Bool
in_i64 z = ltb (pos_part z) (2 ^ 63) && leb (neg_part z) (2 ^ 63)

-- The integer that a 64-bit pattern stands for.
abbrev pub of_bits : ℕ → ℤ
of_bits w = if ltb w (2 ^ 63) then pos w else negsuc (2 ^ 64 - 1 - w)

-- The residue modulo 2^64, as a 64-bit pattern.
abbrev pub to_bits : ℤ → ℕ
to_bits (pos n) = n % 2 ^ 64
to_bits (negsuc n) = 2 ^ 64 - 1 - n % 2 ^ 64

unfoldable pub wrap_i64 : ℤ → ℤ
wrap_i64 z = of_bits (to_bits z)

pub wrap_i64-eq : (z : ℤ) → InI64 z → wrap_i64 z ≡ z
unfolding wrap_i64
wrap_i64-eq (pos n) h = ground arith
wrap_i64-eq (negsuc n) h = ground arith

pub wrap_i64-InI64 : (z : ℤ) → InI64 (wrap_i64 z)
unfolding wrap_i64
wrap_i64-InI64 (pos n) = ground arith
wrap_i64-InI64 (negsuc n) = ground arith

unfoldable pub add_i64 : ℤ → ℤ → ℤ
add_i64 a b = wrap_i64 (a +ℤ b)

unfoldable pub sub_i64 : ℤ → ℤ → ℤ
sub_i64 a b = wrap_i64 (a -ℤ b)

unfoldable pub mul_i64 : ℤ → ℤ → ℤ
mul_i64 a b = wrap_i64 (a *ℤ b)

unfoldable pub neg_i64 : ℤ → ℤ
neg_i64 a = wrap_i64 (pos 0 -ℤ a)

-- `i64::abs`; in a release build the smallest value is its own absolute value.
unfoldable pub abs_i64 : ℤ → ℤ
abs_i64 a = if ltb_ℤ a (pos 0) then neg_i64 a else a

-- Division panics, in every build, on a zero divisor and on `i64::MIN / -1`: that is `none`.
unfoldable pub div_i64 : ℤ → ℤ → Option ℤ
div_i64 a b =
    if eqb_ℤ b (pos 0) || (eqb_ℤ a i64_min && eqb_ℤ b (negsuc 0)) then none else some (tdiv a b)

abbrev pub checked : ℤ → Option ℤ
checked z = if in_i64 z then some z else none

abbrev pub saturated : ℤ → ℤ
saturated z = if in_i64 z then z else if ltb_ℤ z (pos 0) then i64_min else i64_max

abbrev pub min_ℤ : ℤ → ℤ → ℤ
min_ℤ a b = if ltb_ℤ b a then b else a

abbrev pub max_ℤ : ℤ → ℤ → ℤ
max_ℤ a b = if ltb_ℤ b a then a else b

abbrev pub signum : ℤ → ℤ
signum a = if ltb_ℤ (pos 0) a then pos 1 else if ltb_ℤ a (pos 0) then negsuc 0 else pos 0

-- Where the sum of the integers fits, the machine computes it.
pub add_i64-eq : (a b : ℤ) → InI64 (a +ℤ b) → add_i64 a b ≡ a +ℤ b
unfolding add_i64
add_i64-eq a b h = wrap_i64-eq (a +ℤ b) h

pub sub_i64-eq : (a b : ℤ) → InI64 (a -ℤ b) → sub_i64 a b ≡ a -ℤ b
unfolding sub_i64
sub_i64-eq a b h = wrap_i64-eq (a -ℤ b) h

pub mul_i64-eq : (a b : ℤ) → InI64 (a *ℤ b) → mul_i64 a b ≡ a *ℤ b
unfolding mul_i64
mul_i64-eq a b h = wrap_i64-eq (a *ℤ b) h

-- Numbers from 0 up: the machine agrees with ℕ as long as the result fits.
pub add_i64-pos : (a b : ℕ) → a + b < 2 ^ 63 → add_i64 (pos a) (pos b) ≡ pos (a + b)
unfolding add_i64 wrap_i64 ◌+ℤ◌
add_i64-pos a b h = ground arith

pub sub_i64-pos : (a b : ℕ) → b ≤ a → a < 2 ^ 63 → sub_i64 (pos a) (pos b) ≡ pos (a - b)
unfolding sub_i64 wrap_i64 ◌-ℤ◌
sub_i64-pos a b h k = ground arith

pub neg_i64_parts :
    (a : ℤ)
    → InI64 a
    → neg_part a < 2 ^ 63
    → (pos_part (neg_i64 a) ≡ neg_part a) × (neg_part (neg_i64 a) ≡ pos_part a)
unfolding neg_i64 wrap_i64 ◌-ℤ◌
neg_i64_parts (pos n) h k = ground arith
neg_i64_parts (negsuc n) h k = ground arith
