-- ===== src/Prelude/FixedPoint.antt =====
-- Thousandths as a stand-in for `float64` and `float32`, for the examples.
use Prim.Native.Nat.{◌*◌, ◌/◌}
use qperf_go.Prelude.Tests.{if◌then◌else◌, ◌==◌}
use qperf_go.Prelude.Int.{ℤ, pos, pos_part, ◌+ℤ◌, ◌-ℤ◌, ◌*ℤ◌, ltb_ℤ, eqb_ℤ}
use qperf_go.Prelude.Words.{div_i}
use qperf_go.Prelude.Float.{Float64, Float32}

abbrev pub thousandths : Float64
thousandths = record {
  F = ℤ;
  lit = λ a b. if b == 0 then pos 0 else pos (a * 1000 / b);
  of_int = λ a. a *ℤ pos 1000;
  to_int = λ a. div_i a 1000;
  of_u64 = λ n. pos (n * 1000);
  to_u64 = λ a. pos_part a / 1000;
  mul = λ a b. div_i (a *ℤ b) 1000;
  div = λ a b. div_i (a *ℤ pos 1000) (pos_part b);
  ceil = λ a. div_i a 1000 *ℤ pos 1000;
  less = λ a b. ltb_ℤ a b;
  same = λ a b. eqb_ℤ a b;
}

abbrev pub thousandths32 : Float32
thousandths32 = record {
  F = ℤ;
  lit = thousandths.lit;
  of_int = thousandths.of_int;
  to_int = thousandths.to_int;
  add = λ a b. a +ℤ b;
  sub = λ a b. a -ℤ b;
  mul = thousandths.mul;
  div = thousandths.div;
}
