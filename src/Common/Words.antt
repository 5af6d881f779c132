-- ===== src/Common/Words.antt =====
-- `int64` as its bit pattern below 2 ^ 64, with Go's wrap-around.
use Prim.Native.Nat.{ℕ, ◌+◌, ◌-◌, ◌%◌, ◌^◌}
use mathlib.Core.Bool.{Bool}
use days_project.Common.Tests.{ltb}

abbrev pub Int64 : Type 0
Int64 = ℕ

abbrev pub add64 : Int64 → Int64 → Int64
add64 a b = (a + b) % 2 ^ 64

abbrev pub sub64 : Int64 → Int64 → Int64
sub64 a b = (a + 2 ^ 64 - b) % 2 ^ 64

-- The signed comparison `a < b`: the sign bit is flipped first.
abbrev pub slt64 : Int64 → Int64 → Bool
slt64 a b = ltb ((a + 2 ^ 63) % 2 ^ 64) ((b + 2 ^ 63) % 2 ^ 64)
