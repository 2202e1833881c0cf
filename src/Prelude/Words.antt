-- ===== src/Prelude/Words.antt =====
-- Unsigned machine words: `u64`, `usize` (64 bits on the target) and `u32` as bounded numbers.
use Prim.Native.Nat.{ℕ, ◌+◌, ◌-◌, ◌%◌, ◌^◌}
use mathlib.Core.Option.{Option, none, some}
use brane_os.Prelude.Tests.{ltb, if◌then◌else◌}

-- `a + b` on `u64`, wrapping as the release profile does.
abbrev pub add_u64 : ℕ → ℕ → ℕ
add_u64 a b = (a + b) % 2 ^ 64

-- `u64::checked_add`.
unfoldable pub checked_add_u64 : ℕ → ℕ → Option ℕ
checked_add_u64 a b = if ltb (a + b) (2 ^ 64) then some (a + b) else none

-- `u64::checked_sub`.
unfoldable pub checked_sub_u64 : ℕ → ℕ → Option ℕ
checked_sub_u64 a b = if ltb a b then none else some (a - b)
