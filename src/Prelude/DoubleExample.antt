-- ===== src/Prelude/DoubleExample.antt =====
-- An instance of the floating-point operations: whole numbers, to run the code on.
use hft_system.Prelude.Int.{ℤ, pos, ◌+ℤ◌, ◌-ℤ◌, ◌*ℤ◌, quot_trunc, ltb_ℤ, leb_ℤ, eqb_ℤ}
use hft_system.Prelude.Int
use hft_system.Prelude.Double.{Double}
use mathlib.Core.Bool.{not}

abbrev pub exact : Double ℤ
unfolding ◌+ℤ◌ ◌-ℤ◌ ◌*ℤ◌ quot_trunc
exact = record {
  of_int = λ a. a;
  scaled = λ a e. a;
  add = ◌+ℤ◌;
  sub = ◌-ℤ◌;
  mul = ◌*ℤ◌;
  div = quot_trunc;
  pow = λ a b. a;
  log = λ a. a;
  sqrt = λ a. a;
  abs = λ a. pos (Int.abs a);
  trunc = λ a. a;
  gt = λ a b. ltb_ℤ b a;
  le = leb_ℤ;
  is_nonzero = λ a. not (eqb_ℤ a (pos 0));
}
