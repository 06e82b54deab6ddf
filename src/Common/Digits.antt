-- ===== src/Common/Digits.antt =====
-- A bit of a word as a truth value.
use Prim.Native.Nat.{ℕ, ◌/◌, ◌%◌, ◌^◌, ◌<◌}
use mathlib.Core.Path.{◌≡◌}
use mathlib.Core.Bool.{Bool}
use native.Mathlib.Omega.{arith}
use vrtio.Common.Tests.{◌==◌, to_bool}

abbrev pub bit : ℕ → ℕ → Bool
bit word k = word / 2 ^ k % 2 == 1

pub one_bit : (n : ℕ) → n < 2 → to_bool n ≡ (n == 1)
one_bit n h = ground arith
