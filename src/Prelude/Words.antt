-- ===== src/Prelude/Words.antt =====
-- Machine integers. An `unsigned long` is a number below 2 ^ 64 and wraps; a `long` is the bit
-- pattern of its value, so it is negative from 2 ^ 63 on. `ℤ` is for values that are only passed on.
use Prim.Native.Nat.{ℕ, ◌+◌, ◌-◌, ◌%◌, ◌^◌}
use mathlib.Core.Bool.{Bool, ◌&&◌}
use cgroup_monitor.Prelude.Tests.{ltb, leb}

-- `negsuc n` is -(n + 1).
pub data ℤ : Type 0 where
  pos : ℕ → ℤ
  negsuc : ℕ → ℤ

abbrev pub word : ℕ
word = 2 ^ 64

abbrev pub half_word : ℕ
half_word = 2 ^ 63

-- `a + b` and `a - b` on `unsigned long`, and on `long` where one side is `unsigned long`.
abbrev pub add64 : ℕ → ℕ → ℕ
add64 a b = (a + b) % word

abbrev pub sub64 : ℕ → ℕ → ℕ
sub64 a b = (a + word - b) % word

-- `x > 0` and `x < 0` on a `long`.
abbrev pub is_positive : ℕ → Bool
is_positive x = ltb 0 x && ltb x half_word

abbrev pub is_negative : ℕ → Bool
is_negative x = leb half_word x
