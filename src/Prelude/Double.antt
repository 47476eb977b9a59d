-- ===== src/Prelude/Double.antt =====
-- All that the program does with a `double`, as a parameter.
use hft_system.Prelude.Int.{ℤ}
use mathlib.Core.Bool.{Bool}

pub record Double (D : Type 0) : Type 0 where
  pub of_int : ℤ → D
  pub scaled : ℤ → ℤ → D
  pub add : D → D → D
  pub sub : D → D → D
  pub mul : D → D → D
  pub div : D → D → D
  pub pow : D → D → D
  pub log : D → D
  pub sqrt : D → D
  pub abs : D → D
  pub trunc : D → ℤ
  pub gt : D → D → Bool
  pub le : D → D → Bool
  pub is_nonzero : D → Bool
