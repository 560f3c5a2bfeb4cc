-- ===== src/Strategy/Position/Vwap.antt =====
-- An increase without overflow: the new entry price is the weighted mean, and lies between the old
-- entry price and the fill price.
use mantis.Prelude.{ℕ, ◌+◌, ◌*◌, ◌/◌, ◌≤◌, ◌<◌, ◌^◌, ◌≡◌, refl, ap, true, some, arith}
use native.Mathlib.Nat.{le-div_iff_mul-le, div-le_of_le-mul, mul_comm}
use mantis.Prelude.Int.{pos, ◌*ℤ◌, ◌+ℤ◌, tdiv}
use mantis.Prelude.I64.{abs_i64, add_i64, add_i64-pos, div_i64}
use mantis.Types.{Side}
use mantis.Fixed.{checked_div_int, checked_mul_int, checked_add}
use mantis.Strategy.Position.{Position, on_fill, vwap, settle, is_increasing}

-- The weighted mean of the entry prices, truncated.
abbrev pub mean : ℕ → ℕ → ℕ → ℕ → ℕ
mean e a x b = (a * e + b * x) / (a + b)

-- It lies in every range that holds both prices.
mean_ge : (e a x b lo : ℕ) → 0 < b → lo ≤ e → lo ≤ x → lo ≤ mean e a x b
mean_ge e a x b lo h k l =
    let pos_sum : 0 < a + b = omega arith in (le-div_iff_mul-le pos_sum).1 (grind arith)

mean_le : (e a x b hi : ℕ) → e ≤ hi → x ≤ hi → mean e a x b ≤ hi
mean_le e a x b hi k l = div-le_of_le-mul (a + b) (grind arith)

mul_cost : (e a : ℕ) → e * a < 2 ^ 63 → checked_mul_int (pos e) (pos a) ≡ some (pos (e * a))
unfolding checked_mul_int ◌*ℤ◌
mul_cost e a h = ground arith

add_cost : (m n : ℕ) → m + n < 2 ^ 63 → checked_add (pos m) (pos n) ≡ some (pos (m + n))
unfolding checked_add ◌+ℤ◌
add_cost m n h = ground arith

div_cost : (m n : ℕ) → 0 < n → checked_div_int (pos m) (pos n) ≡ some (some (pos (m / n)))
unfolding checked_div_int div_i64 tdiv
div_cost m n h = ground arith

abs_i64-pos : (n : ℕ) → abs_i64 (pos n) ≡ pos n
unfolding abs_i64
abs_i64-pos n = ground arith

vwap-pos :
    (e a x b : ℕ)
    → 0 < b
    → e * a + x * b < 2 ^ 63
    → vwap (pos e) (pos x) (pos a) (pos b) (pos (a + b)) ≡ some (pos ((e * a + x * b) / (a + b)))
unfolding vwap
vwap-pos e a x b h k = ground (
  arith,
  abs_i64-pos a,
  abs_i64-pos b,
  abs_i64-pos (a + b),
  mul_cost e a (omega arith),
  mul_cost x b (omega arith),
  add_cost (e * a) (x * b) k,
  div_cost (e * a + x * b) (a + b) (omega arith),
)

-- Buying into a flat or long position, without overflow: the fill succeeds, the entry price becomes
-- the weighted mean of the two prices, truncated, and nothing is realized.
pub on_fill_buy :
    (p : Position) (a b e x : ℕ)
    → p.qty ≡ pos a
    → p.avg_entry ≡ pos e
    → 0 < b
    → a + b < 2 ^ 63
    → a * e + b * x < 2 ^ 63
    → (p' : Position) × (on_fill p Side.bid (pos b) (pos x) ≡ some p')
      × (p'.qty ≡ pos (a + b))
      × (p'.avg_entry ≡ pos (mean e a x b))
      × (p'.realized_pnl ≡ p.realized_pnl)
      × (e ≤ x → (e ≤ mean e a x b) × (mean e a x b ≤ x))
      × (x ≤ e → (x ≤ mean e a x b) × (mean e a x b ≤ e))
unfolding on_fill is_increasing
on_fill_buy p a b e x q v h fits cost =
    let sum : add_i64 p.qty (pos b) ≡ pos (a + b) = rw q (add_i64-pos a b fits) in
    let up : is_increasing p.qty (pos b) ≡ true = ground arith in
    let avg : vwap p.avg_entry (pos x) p.qty (pos b) (add_i64 p.qty (pos b))
        ≡ some (pos (mean e a x b)) =
      rw (sum, q, v, mul_comm a e, mul_comm b x)
        (vwap-pos e a x b h (rw (mul_comm e a, mul_comm x b) cost)) in
    (
      settle p (pos (a + b)) (pos (mean e a x b)) p.realized_pnl,
      rw (up, avg) (ap (λ z. some (settle p z (pos (mean e a x b)) p.realized_pnl)) sum),
      refl,
      ground arith,
      refl,
      λ k. (mean_ge e a x b e h (omega arith) k, mean_le e a x b x k (omega arith)),
      λ k. (mean_ge e a x b x h k (omega arith), mean_le e a x b e (omega arith) k),
    )
