-- ===== src/Base/Int.antt =====
-- Go's int where a count may fall below 0; `negsuc n` is -(n + 1).
use Prim.Native.Nat.{ℕ, ◌+◌, ◌-◌}
use mathlib.Core.Path.{◌≡◌}
use native.Mathlib.Omega.{arith}
use k8s_ai.Base.Tests.{leb, if◌then◌else◌}

pub data ℤ : Type 0 where
  pos : ℕ → ℤ
  negsuc : ℕ → ℤ

-- `a - b` for a count `b`.
infixl 65 ◌-ℤ◌
unfoldable pub ◌-ℤ◌ : ℤ → ℕ → ℤ
pos a -ℤ b = if leb b a then pos (a - b) else negsuc (b - a - 1)
negsuc a -ℤ b = negsuc (a + b)

-- `if a < 0 { a = 0 }`.
unfoldable pub clamp : ℤ → ℕ
clamp (pos a) = a
clamp (negsuc a) = 0

pub -ℤ_assoc : (a : ℤ) (b c : ℕ) → a -ℤ b -ℤ c ≡ a -ℤ (b + c)
unfolding ◌-ℤ◌
-ℤ_assoc (pos a) b c = ground arith
-ℤ_assoc (negsuc a) b c = ground arith

pub clamp-sub : (a b : ℕ) → clamp (pos a -ℤ b) ≡ a - b
unfolding ◌-ℤ◌ clamp
clamp-sub a b = ground arith

pub -ℤ_zero : (a : ℤ) → a -ℤ 0 ≡ a
unfolding ◌-ℤ◌
-ℤ_zero (pos a) = ground arith
-ℤ_zero (negsuc a) = ground arith
