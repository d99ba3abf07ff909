-- ===== src/Prelude/Int.antt =====
-- Signed integers, and the ranges of `i64`, `u64` and `i128`.
use Prim.Native.Nat.{ℕ, ◌^◌}
use mathlib.Core.Bool.{Bool, false}
use dynamic_config.Prelude.Tests.{ltb}

-- `negsuc n` is -(n + 1).
pub data ℤ : Type 0 where
  pos : ℕ → ℤ
  negsuc : ℕ → ℤ

-- `i64::try_from(n).is_ok()`
abbrev pub fits_i64 : ℤ → Bool
fits_i64 (pos n) = ltb n (2 ^ 63)
fits_i64 (negsuc n) = ltb n (2 ^ 63)

-- `u64::try_from(n).is_ok()`
abbrev pub fits_u64 : ℤ → Bool
fits_u64 (pos n) = ltb n (2 ^ 64)
fits_u64 (negsuc n) = false
