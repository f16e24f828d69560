-- ===== src/Prelude/Integers.antt =====
-- The integers over the native numbers, for sums that may be negative.
use Prim.Native.Nat.{ℕ, suc, ◌+◌, ◌-◌}
use mathlib.Core.Path.{◌≡◌, ap}
use mathlib.Core.Logic.{inl, inr}
use crash.Prelude.Tests.{leb, if◌then◌else◌, Bool-cases}
use native.Mathlib.Omega.{arith}

pub data ℤ : Type 0 where
  pos negsuc : ℕ → ℤ

-- The difference of two natural numbers.
unfoldable pub sub : ℕ → ℕ → ℤ
sub m n = if leb n m then pos (m - n) else negsuc (n - suc m)

infixl 60 ◌+ℤ◌
unfoldable pub ◌+ℤ◌ : ℤ → ℤ → ℤ
unfolding sub
pos m +ℤ pos n = pos (m + n)
pos m +ℤ negsuc n = sub m (suc n)
negsuc m +ℤ pos n = sub n (suc m)
negsuc m +ℤ negsuc n = negsuc (suc (m + n))

-- An amount that a sum leads to, from another.
abbrev pub Leads : ℕ → ℤ → ℕ → Type 0
Leads i (pos k) t = i + k ≡ t
Leads i (negsuc k) t = i ≡ t + suc k

pub Leads-eq : (i : ℕ) (z : ℤ) (t : ℕ) → Leads i z t → pos i +ℤ z ≡ pos t
unfolding ◌+ℤ◌ sub
Leads-eq i (pos k) t h = ap pos h
Leads-eq i (negsuc k) t h = ground arith

-- A sum that a difference is added to.
pub Leads-add : (i t m n u : ℕ) (z : ℤ) → Leads i z t → t + m ≡ u + n → Leads i (z +ℤ sub m n) u
unfolding ◌+ℤ◌ sub
Leads-add i t m n u (pos k) h e = elim (Bool-cases (leb n m)) [
  | inl q ↦ ground arith
  | inr q ↦ ground arith
]
Leads-add i t m n u (negsuc k) h e = elim (Bool-cases (leb n m)) [
  | inl q ↦ ground arith
  | inr q ↦ ground arith
]
