-- ===== src/Prelude/Int.antt =====
-- Signed integers over the native numbers: what Python's `int` is.
use Prim.Native.Nat.{ℕ, zero, suc, ◌+◌, ◌-◌}
use mathlib.Core.Path.{◌≡◌, refl}
use mathlib.Core.Logic.{◌≢◌}
use mathlib.Core.Bool.{Bool, false}
use mathlib.Core.Option.{Option, none, some}
use native.Mathlib.Omega.{arith}
use server_npd.Prelude.Tests.{◌==◌, leb, if◌then◌else◌}

-- `negsuc n` is -(n + 1).
pub data ℤ : Type 0 where
  pos negsuc : ℕ → ℤ

-- `z == n`
abbrev pub is_nat : ℤ → ℕ → Bool
is_nat (pos m) n = m == n
is_nat (negsuc m) n = false

-- The number, where it is greater than 0.
abbrev pub positive : ℤ → Option ℕ
positive (pos zero) = none
positive (pos (suc n)) = some (suc n)
positive (negsuc n) = none

-- The size, where `z` is a positive number.
pub positive-pos : (n : ℕ) → n ≢ 0 → positive (pos n) ≡ some n
positive-pos zero h = absurd (h refl)
positive-pos (suc n) h = refl

-- a - b
abbrev pub sub_ℕ : ℕ → ℕ → ℤ
sub_ℕ a b = if leb b a then pos (a - b) else negsuc (b - a - 1)

-- a + z ≡ b, over the natural numbers.
abbrev pub AddsUp : ℕ → ℤ → ℕ → Type 0
AddsUp a (pos n) b = a + n ≡ b
AddsUp a (negsuc n) b = a ≡ b + n + 1

pub AddsUp-sub_ℕ : (a b : ℕ) → AddsUp b (sub_ℕ a b) a
AddsUp-sub_ℕ a b = ground arith
