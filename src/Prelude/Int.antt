-- ===== src/Prelude/Int.antt =====
-- Signed numbers over the native naturals: Go's int64 seconds and durations where they can be
-- negative. Only the comparisons that the modelled code makes are given.
use Prim.Native.Nat.{ℕ}
use mathlib.Core.Bool.{Bool, true}
use chiral.Prelude.Tests.{leb}

-- `negsuc n` is -(n + 1).
pub data ℤ : Type 0 where
  pos : ℕ → ℤ
  negsuc : ℕ → ℤ

-- `x <= 0`.
abbrev pub nonpositive : ℤ → Bool
nonpositive (pos n) = leb n 0
nonpositive (negsuc _) = true

-- The value of a number that is known not to be negative.
abbrev pub to_nat : ℤ → ℕ
to_nat (pos n) = n
to_nat (negsuc _) = 0
