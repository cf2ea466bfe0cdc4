-- ===== src/Prelude/Words.antt =====
-- Machine words: `w`-bit unsigned integers as native numbers, their wrap-around written out.
use Prim.Native.Nat.{ℕ, ◌+◌, ◌%◌, ◌^◌}
use mathlib.Core.Option.{Option, none, some}
use telemetry_fabric.Prelude.Tests.{ltb, if◌then◌else◌}

abbrev pub u16_max : ℕ
u16_max = 65535

abbrev pub u32_max : ℕ
u32_max = 4294967295

abbrev pub u64_max : ℕ
u64_max = 18446744073709551615

-- A `usize` has 64 bits.
abbrev pub usize_max : ℕ
usize_max = u64_max

-- `a + b` on `u64`, as a release build computes it.
abbrev pub add_u64 : ℕ → ℕ → ℕ
add_u64 a b = (a + b) % 2 ^ 64

abbrev pub saturating_add_u64 : ℕ → ℕ → ℕ
saturating_add_u64 a b = if ltb u64_max (a + b) then u64_max else a + b

abbrev pub checked_add_u64 : ℕ → ℕ → Option ℕ
checked_add_u64 a b = if ltb u64_max (a + b) then none else some (a + b)
