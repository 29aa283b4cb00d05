-- ===== src/Prelude/Int.antt =====
-- Signed integers over the native numbers, under the library's names: the `int` lengths of the C
-- code that may go below zero. Only what the code does with them: a subtraction and an order.
use Prim.Native.Nat.{ℕ, ◌-◌}
use mathlib.Core.Bool.{Bool}
use pacsni.Prelude.Tests.{ltb, leb, if◌then◌else◌}

-- `negsuc n` is -(n + 1).
pub data ℤ : Type 0 where
  pos : ℕ → ℤ
  negsuc : ℕ → ℤ

-- a - b, as an integer.
abbrev pub sub_ℕ : ℕ → ℕ → ℤ
sub_ℕ a b = if leb b a then pos (a - b) else negsuc (b - a - 1)

-- The number that a non-negative integer is; 0 for a negative one.
abbrev pub pos_part : ℤ → ℕ
pos_part (pos n) = n
pos_part (negsuc n) = 0

-- a < n for a numeral n of the code.
abbrev pub ltb_int : ℤ → ℕ → Bool
ltb_int (pos a) n = ltb a n
ltb_int (negsuc a) n = Bool.true
