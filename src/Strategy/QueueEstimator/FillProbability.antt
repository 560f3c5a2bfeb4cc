-- ===== src/Strategy/QueueEstimator/FillProbability.antt =====
-- crates/strategy/src/queue.rs: `fill_probability` and the functions that it calls.
use mantis.Prelude.{ℕ, zero, suc, ◌+◌, none, some, if◌then◌else◌}
use mantis.Prelude.Int.{pos, negsuc}
use mantis.Prelude.I64.{add_i64}
use mantis.Strategy.F64.{F64}
use mantis.Strategy.QueueEstimator.{QueueEstimator, find_slot, take_rate, zero_float, one_float}

module _ (F : F64) where
  -- `erfc`, the approximation of Abramowitz and Stegun.
  pub erfc : F.Float → F.Float
  erfc x =
      let abs_x = if F.lt x (zero_float F) then F.neg x else x in
      let t = F.div (one_float F) (F.add (one_float F) (F.mul (F.literal (pos 3275911) 7) abs_x)) in
      let p4 = F.mul t (F.literal (pos 1061405429) 9) in
      let p3 = F.mul t (F.add (F.literal (negsuc 1453152026) 9) p4) in
      let p2 = F.mul t (F.add (F.literal (pos 1421413741) 9) p3) in
      let p1 = F.mul t (F.add (F.literal (negsuc 284496735) 9) p2) in
      let poly = F.mul t (F.add (F.literal (pos 254829592) 9) p1) in
      let result = F.mul poly (F.exp (F.mul (F.neg abs_x) abs_x)) in
      if F.le (zero_float F) x then result else F.sub (F.literal (pos 20) 1) result

  -- The loop over `i in 0..k_usize`: `left` rounds are left of it, and `i` are done.
  pub poisson_cdf : F.Float → ℕ → ℕ → F.Float → F.Float → F.Float
  poisson_cdf lambda i zero cdf term = cdf
  poisson_cdf lambda i (suc left) cdf term =
      poisson_cdf lambda (i + 1) left (F.add cdf term)
        (F.mul term (F.div lambda (F.of_usize (i + 1))))

  -- `P[X >= k]` for a Poisson variable of mean `lambda`.
  pub poisson_survival : F.Float → F.Float → F.Float
  poisson_survival lambda k =
      let z = F.div (F.sub k lambda) (F.sqrt lambda) in
      let normal = F.mul (F.literal (pos 5) 1) (erfc (F.div z (F.sqrt (F.literal (pos 20) 1)))) in
      let cdf = poisson_cdf lambda 0 (F.to_usize k) (zero_float F) (F.exp (F.neg lambda)) in
      if F.le lambda (zero_float F)
      then zero_float F
      else if F.lt (F.literal (pos 200) 1) lambda
      then normal
      else F.sub (one_float F) cdf

module _ {F : F64} where
  pub fill_probability : QueueEstimator F → ℕ → F.Float → F.Float
  fill_probability e id time_remaining_secs = elim (find_slot id e.orders) [
    | none ↦ zero_float F
    | some o ↦
        let lambda = F.mul (take_rate e o.instrument_id o.side) time_remaining_secs in
        poisson_survival F lambda (F.of_i64 (add_i64 o.ahead_qty o.qty))
  ]
