-- ===== src/Strategy/F64.antt =====
-- The double-precision numbers of the strategy crate, as an interface: Rust's `f64` with its casts
-- and the functions of the `libm` crate, none of which are code of this repository. A literal is
-- given by its digits and the number of them behind the point.
use mantis.Prelude.{ℕ, Bool}
use mantis.Prelude.Int.{ℤ}

pub record F64 : Type 1 where
  pub Float : Type 0
  pub literal : ℤ → ℕ → Float
  pub of_i64 : ℤ → Float
  pub of_usize : ℕ → Float
  pub to_i64 : Float → ℤ
  pub to_usize : Float → ℕ
  pub add : Float → Float → Float
  pub sub : Float → Float → Float
  pub mul : Float → Float → Float
  pub div : Float → Float → Float
  pub neg : Float → Float
  pub lt : Float → Float → Bool
  pub le : Float → Float → Bool
  pub pow : Float → Float → Float
  pub exp : Float → Float
  pub sqrt : Float → Float
