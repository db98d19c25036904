-- ===== src/Prelude/Float.antt =====
-- Go's `float64`, whose values are no part of the model: a type with the operations that the source
-- uses. Each module that computes with floats takes such a record.
use Prim.Native.Nat.{ℕ}
use mathlib.Core.Bool.{Bool}
use qperf_go.Prelude.Int.{ℤ}

pub record Float64 : Type 1 where
  pub F : Type 0
  -- A decimal constant of the source, as a fraction.
  pub lit : ℕ → ℕ → F
  -- `float64(x)` and `int64(f)`.
  pub of_int : ℤ → F
  pub to_int : F → ℤ
  -- `float64(u)` and `uint64(f)`.
  pub of_u64 : ℕ → F
  pub to_u64 : F → ℕ
  pub mul : F → F → F
  pub div : F → F → F
  pub ceil : F → F
  -- `a < b` and `a == b`
  pub less : F → F → Bool
  pub same : F → F → Bool

-- Go's `float32` likewise.
pub record Float32 : Type 1 where
  pub F : Type 0
  pub lit : ℕ → ℕ → F
  -- `float32(x)` and `int64(f)`.
  pub of_int : ℤ → F
  pub to_int : F → ℤ
  pub add : F → F → F
  pub sub : F → F → F
  pub mul : F → F → F
  pub div : F → F → F
