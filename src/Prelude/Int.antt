-- ===== src/Prelude/Int.antt =====
-- Go's `int` where it may be negative, over the native numbers: `negsuc n` is -(n + 1).
use Prim.Native.Nat.{ℕ, ◌+◌, ◌-◌}
use mathlib.Core.Bool.{Bool, true, false}
use cortex_go.Prelude.Tests.{ltb, leb, if◌then◌else◌}

pub data ℤ : Type 0 where
  pos : ℕ → ℤ
  negsuc : ℕ → ℤ

-- The number, or 0 if it is negative.
abbrev pub pos_part : ℤ → ℕ
pos_part (pos n) = n
pos_part (negsuc n) = 0

-- `i > 0`
abbrev pub is_pos : ℤ → Bool
is_pos (pos n) = ltb 0 n
is_pos (negsuc n) = false

-- `i >= 0`
abbrev pub is_nonneg : ℤ → Bool
is_nonneg (pos n) = true
is_nonneg (negsuc n) = false

-- a - b of two lengths
abbrev pub sub_ℕ : ℕ → ℕ → ℤ
sub_ℕ a b = if leb b a then pos (a - b) else negsuc (b - a - 1)

-- i - n
abbrev pub minus : ℤ → ℕ → ℤ
minus (pos a) b = sub_ℕ a b
minus (negsuc a) b = negsuc (a + b)

-- `n > i` of a length and an `int`
abbrev pub exceeds : ℕ → ℤ → Bool
exceeds n (pos i) = ltb i n
exceeds n (negsuc i) = true
