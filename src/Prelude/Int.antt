-- ===== src/Prelude/Int.antt =====
-- Signed integers, and the conversion of a `u32` to an `i32`.
use Prim.Native.Nat.{ℕ, ◌-◌, ◌<◌}
use mathlib.Core.Path.{◌≡◌}
use native.Mathlib.Omega.{arith}
use cordelia_core.Prelude.Equality.{ltb, if◌then◌else◌}

-- `negsuc n` is -(n + 1).
pub data ℤ : Type 0 where
  pos : ℕ → ℤ
  negsuc : ℕ → ℤ

-- `n as i32`
abbrev pub as_i32 : ℕ → ℤ
as_i32 n = if ltb n 2147483648 then pos n else negsuc (4294967295 - n)

-- `z as u32`, for an `i32`.
abbrev pub as_u32 : ℤ → ℕ
as_u32 (pos n) = n
as_u32 (negsuc n) = 4294967295 - n

pub as_u32-as_i32 : (n : ℕ) → n < 4294967296 → as_u32 (as_i32 n) ≡ n
as_u32-as_i32 n small = ground arith
