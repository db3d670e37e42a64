-- ===== src/Common/Int.antt =====
-- Signed integers, over the native numbers.
use Prim.Native.Nat.{ℕ, ◌-◌}
use yappa_core.Common.Tests.{ltb, if◌then◌else◌}

-- `negsuc n` is -(n + 1).
pub data ℤ : Type 0 where
  pos : ℕ → ℤ
  negsuc : ℕ → ℤ

-- The ends of the 64-bit ranges.
abbrev pub i64_max : ℕ
i64_max = 9223372036854775807

abbrev pub u64_max : ℕ
u64_max = 18446744073709551615

-- `x as i64` for an `x : u64`.
abbrev pub as_i64 : ℕ → ℤ
as_i64 n = if ltb i64_max n then negsuc (u64_max - n) else pos n
