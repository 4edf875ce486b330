-- ===== src/Base/Words.antt =====
-- Machine integers: `u64` and `u32` are natural numbers in range, `usize` is 64 bits wide.
use Prim.Native.Nat.{ℕ, ◌+◌, ◌-◌, ◌%◌, ◌^◌}
use mathlib.Core.Option.{Option, none, some}
use fuse_promise.Base.Tests.{leb, if◌then◌else◌}

abbrev pub u64_max : ℕ
u64_max = 2 ^ 64 - 1

abbrev pub u32_max : ℕ
u32_max = 2 ^ 32 - 1

-- `u64::checked_add`.
abbrev pub checked_add : ℕ → ℕ → Option ℕ
checked_add a b = if leb (a + b) u64_max then some (a + b) else none

-- `u64::checked_sub`.
abbrev pub checked_sub : ℕ → ℕ → Option ℕ
checked_sub a b = if leb b a then some (a - b) else none

-- `u64::saturating_add`.
abbrev pub saturating_add : ℕ → ℕ → ℕ
saturating_add a b = if leb (a + b) u64_max then a + b else u64_max

-- `+=` on `u64`, which wraps in a release build.
abbrev pub wrapping_add : ℕ → ℕ → ℕ
wrapping_add a b = (a + b) % 2 ^ 64

-- `u32::try_from`.
abbrev pub try_u32 : ℕ → Option ℕ
try_u32 n = if leb n u32_max then some n else none
