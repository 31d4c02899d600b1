-- ===== src/Prelude/Words.antt =====
-- Machine words: the widths of the counters, and their saturating and checked arithmetic.
use Prim.Native.Nat.{ℕ, ◌+◌, ◌≤◌}
use mathlib.Core.Option.{Option, none, some}
use native.Mathlib.Omega.{arith}
use zon_key.Prelude.Tests.{ltb, if◌then◌else◌}

abbrev pub u64_max : ℕ
u64_max = 18446744073709551615

-- `u64::saturating_add(1)`
unfoldable pub saturating_suc : ℕ → ℕ
saturating_suc n = if ltb n u64_max then n + 1 else u64_max

-- `u64::checked_add(1)`
unfoldable pub checked_suc : ℕ → Option ℕ
checked_suc n = if ltb n u64_max then some (n + 1) else none

pub saturating_suc-le : (n : ℕ) → n ≤ u64_max → saturating_suc n ≤ u64_max
unfolding saturating_suc
saturating_suc-le n h = ground arith
