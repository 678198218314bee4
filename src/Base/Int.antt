-- ===== src/Base/Int.antt =====
-- C's `int`, as an integer over the native numbers: keys, file descriptors, process ids.
use Prim.Native.Nat.{ℕ}
use mathlib.Core.Path.{◌≡◌}
use mathlib.Core.Logic.{◌↔◌}
use mathlib.Core.Bool.{Bool, true, false}
use native.Mathlib.Omega.{arith}
use why.Base.Tests.{◌==◌}

-- `negsuc n` is -(n + 1).
pub data ℤ : Type 0 where
  pos : ℕ → ℤ
  negsuc : ℕ → ℤ

abbrev pub minus_one : ℤ
minus_one = negsuc 0

infix 50 ◌==ℤ◌
abbrev pub ◌==ℤ◌ : ℤ → ℤ → Bool
pos a ==ℤ pos b = a == b
pos a ==ℤ negsuc b = false
negsuc a ==ℤ pos b = false
negsuc a ==ℤ negsuc b = a == b

pub ==ℤ_iff : (a b : ℤ) → ((a ==ℤ b) ≡ true) ↔ (a ≡ b)
==ℤ_iff a b = ground arith

pub ==ℤ_refl : (a : ℤ) → (a ==ℤ a) ≡ true
==ℤ_refl a = ground arith
