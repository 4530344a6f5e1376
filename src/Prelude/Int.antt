-- ===== src/Prelude/Int.antt =====
-- Go's int where the program only compares it with a count: limits and thresholds.
use Prim.Native.Nat.{ℕ, ◌-◌, ◌+◌}
use mathlib.Core.Bool.{Bool, false, ◌&&◌}
use mini.Prelude.Tests.{ltb, leb, if◌then◌else◌}

-- `negsuc n` is -(n + 1).
pub data ℤ : Type 0 where
  pos : ℕ → ℤ
  negsuc : ℕ → ℤ

-- limit > 0 && n > limit
abbrev pub exceeds : ℕ → ℤ → Bool
exceeds n (pos limit) = ltb 0 limit && ltb limit n
exceeds n (negsuc _) = false

-- limit > 0 && n >= limit
abbrev pub reaches : ℕ → ℤ → Bool
reaches n (pos limit) = ltb 0 limit && leb limit n
reaches n (negsuc _) = false

abbrev pub to_count : ℤ → ℕ
to_count (pos n) = n
to_count (negsuc _) = 0

-- m - n, below zero too
abbrev pub difference : ℕ → ℕ → ℤ
difference m n = if leb n m then pos (m - n) else negsuc (n - (m + 1))
