-- ===== src/Prelude/Int.antt =====
-- Signed machine words, as integers over the native numbers.
use Prim.Native.Nat.{ℕ, ◌-◌, ◌^◌, ◌<◌}
use mathlib.Core.Path.{◌≡◌}
use native.Mathlib.Omega.{arith}
use baobab.Prelude.Tests.{ltb, if◌then◌else◌}

-- `negsuc n` is -(n + 1).
pub data ℤ : Type 0 where
  pos : ℕ → ℤ
  negsuc : ℕ → ℤ

-- `int64(x)` of a uint64.
unfoldable pub int64 : ℕ → ℤ
int64 x = if ltb x (2 ^ 63) then pos x else negsuc (2 ^ 64 - 1 - x)

pub int64-pos : (x : ℕ) → x < 2 ^ 63 → int64 x ≡ pos x
unfolding int64
int64-pos x small = ground (arith, small)
