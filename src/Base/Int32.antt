-- ===== src/Base/Int32.antt =====
-- `i32` and `u32`. A machine integer is its bit pattern, a number below 2^32; read as an `i32`,
-- a pattern of 2^31 or more stands for itself less 2^32. `+` and `-` wrap round, as they do in a
-- release build.
use Prim.Native.Nat.{ℕ, ◌+◌, ◌-◌, ◌%◌, ◌<◌}
use mathlib.Core.Bool.{Bool}
use barenetes.Base.Tests.{ltb, if◌then◌else◌}

-- Patterns of 2^31 or more are the negative numbers.
abbrev pub IsNonneg : ℕ → Type 0
IsNonneg a = a < 2147483648

abbrev pub wrapping_add : ℕ → ℕ → ℕ
wrapping_add a b = (a + b) % 4294967296

abbrev pub wrapping_sub : ℕ → ℕ → ℕ
wrapping_sub a b = (a + (4294967296 - b % 4294967296)) % 4294967296

-- `a < b` on `i32`: adding 2^31 puts the patterns in the order of the numbers.
abbrev pub i32_lt : ℕ → ℕ → Bool
i32_lt a b = ltb ((a + 2147483648) % 4294967296) ((b + 2147483648) % 4294967296)

-- `a.max(0)` on `i32`.
abbrev pub max_zero : ℕ → ℕ
max_zero a = if ltb a 2147483648 then a else 0

-- `a > 0` on `i32`.
abbrev pub i32_positive : ℕ → Bool
i32_positive a = i32_lt 0 a
