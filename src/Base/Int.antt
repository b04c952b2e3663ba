-- ===== src/Base/Int.antt =====
-- Signed integers over the native numbers; Go's `int` and `int64` values where they may be negative.
use Prim.Native.Nat.{ℕ}
use mathlib.Core.Bool.{Bool, true}
use pyttechat.Base.Tests.{◌==◌}

-- `negsuc n` is -(n + 1).
pub data ℤ : Type 0 where
  pos : ℕ → ℤ
  negsuc : ℕ → ℤ

-- z <= 0
abbrev pub is_not_positive : ℤ → Bool
is_not_positive (pos n) = n == 0
is_not_positive (negsuc n) = true
