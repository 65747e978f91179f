-- ===== src/Prelude/Float.antt =====
-- `f64`, as far as the code uses it: scores are computed and compared.
use Prim.Native.Nat.{ℕ, Ordering}
use mathlib.Core.Option.{Option}

pub record Floats : Type 1 where
  pub F64 : Type 0
  -- `n as f64`, and `ceil() as usize`
  pub of_ℕ : ℕ → F64
  pub ceil_to_ℕ : F64 → ℕ
  pub add : F64 → F64 → F64
  pub mul : F64 → F64 → F64
  pub div : F64 → F64 → F64
  pub maximum : F64 → F64 → F64
  -- `f64::MAX`
  pub max_value : F64
  pub partial_cmp : F64 → F64 → Option Ordering
