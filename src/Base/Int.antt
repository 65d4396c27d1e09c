-- ===== src/Base/Int.antt =====
-- Go's `int` and `int64`, as integers: the model's values stay far from the 64-bit bounds.
use Prim.Native.Nat.{ℕ, suc, ◌+◌, ◌-◌, ◌≤◌}
use mathlib.Core.Bool.{Bool}
use native.Mathlib.Omega.{arith}
use sumologic_lambda_extensi.Base.Tests.{leb, ltb, if◌then◌else◌}

-- `negsuc n` is -(n + 1).
pub data ℤ : Type 0 where
  pos : ℕ → ℤ
  negsuc : ℕ → ℤ

abbrev pub pos_part : ℤ → ℕ
pos_part (pos n) = n
pos_part (negsuc n) = 0

abbrev pub neg_part : ℤ → ℕ
neg_part (pos n) = 0
neg_part (negsuc n) = suc n

infix 50 ◌≤ℤ◌
abbrev pub ◌≤ℤ◌ : ℤ → ℤ → Type 0
a ≤ℤ b = pos_part a + neg_part b ≤ pos_part b + neg_part a

abbrev pub leℤ : ℤ → ℤ → Bool
leℤ a b = leb (pos_part a + neg_part b) (pos_part b + neg_part a)

-- The builtins `max` and `min`.
abbrev pub maxℤ : ℤ → ℤ → ℤ
maxℤ a b = if leℤ a b then b else a

abbrev pub minℤ : ℤ → ℤ → ℤ
minℤ a b = if leℤ a b then a else b

-- -n
abbrev pub neg_ℕ : ℕ → ℤ
neg_ℕ n = if ltb 0 n then negsuc (n - 1) else pos 0

pub clamp_bounds :
    (lo hi x : ℤ) → lo ≤ℤ hi → (lo ≤ℤ minℤ (maxℤ x lo) hi) × (minℤ (maxℤ x lo) hi ≤ℤ hi)
clamp_bounds lo hi x h = ground arith
