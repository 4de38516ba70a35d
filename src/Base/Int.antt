-- ===== src/Base/Int.antt =====
-- Go's `int` where a value may be negative: ports, seconds and sizes that come from a file.
-- Only tests and clamps are done on them, so no sum can leave the 64-bit range.
use Prim.Native.Nat.{ℕ}
use mathlib.Core.Bool.{Bool, true, false}
use sshcustom_vpnchain.Base.Tests.{ltb, ◌==◌}

-- `negsuc n` is -(n + 1).
pub data ℤ : Type 0 where
  pos : ℕ → ℤ
  negsuc : ℕ → ℤ

-- `v <= 0`.
abbrev pub nonpositive : ℤ → Bool
nonpositive (pos n) = n == 0
nonpositive (negsuc n) = true

-- `v > k`, for a constant k.
abbrev pub exceeds : ℤ → ℕ → Bool
exceeds (pos n) k = ltb k n
exceeds (negsuc n) k = false

-- `v < k`, for a constant k.
abbrev pub under : ℤ → ℕ → Bool
under (pos n) k = ltb n k
under (negsuc n) k = true

-- `v == k`, for a constant k.
abbrev pub equals : ℤ → ℕ → Bool
equals (pos n) k = n == k
equals (negsuc n) k = false

-- The value of an `int` that is not negative.
abbrev pub magnitude : ℤ → ℕ
magnitude (pos n) = n
magnitude (negsuc n) = 0

-- `v == w`.
abbrev pub int_eq : ℤ → ℤ → Bool
int_eq (pos m) (pos n) = m == n
int_eq (negsuc m) (negsuc n) = m == n
int_eq _ _ = false
