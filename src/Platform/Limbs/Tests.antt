-- ===== src/Platform/Limbs/Tests.antt =====
-- The theorem on the accumulators at the largest limbs.
use mantis.Prelude.{ℕ, ◌+◌, ◌-◌, ◌*◌, ◌%◌, ◌^◌, ◌≡◌, arith}
use mantis.Platform.Limbs.{Accumulator, mul_acc, mul_double_acc}
use mantis.Platform.Limbs.Exact
use mantis.Platform.Limbs.Exact.{value, InLimbs}

abbrev largest : ℕ
largest = 2 ^ 64 - 1

abbrev full : Accumulator
full = record { t = 0; u = largest; v = largest }

full-InLimbs : InLimbs 64 full
full-InLimbs = record { t_fits = omega arith; u_fits = omega arith; v_fits = omega arith }

accumulators_exact_example :
    (value 64 (mul_acc 64 largest largest full) ≡ (value 64 full + largest * largest) % 2 ^ 192)
    × (value 64 (mul_double_acc 64 largest largest full)
        ≡ (value 64 full + 2 * (largest * largest)) % 2 ^ 192)
accumulators_exact_example =
    Exact.accumulators_exact largest largest full (omega arith) (omega arith) full-InLimbs
