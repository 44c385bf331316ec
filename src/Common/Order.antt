-- ===== src/Common/Order.antt =====
-- Comparisons told by three tests: less, equal, greater.
use mathlib.Core.Path.{◌≡◌, refl}
use mathlib.Core.Logic.{◌⊎◌, inl, inr}
use mathlib.Core.Bool.{Bool, true, false, ◌&&◌, ◌||◌}
use Prim.Native.Nat.{ℕ}
use native.Mathlib.Omega.{arith}
use binary_reader.Common.Tests.{ltb, ◌==◌, Bool-cases}

-- One of the tests holds, and the other two do not.
abbrev pub OneOf : Bool → Bool → Bool → Type 0
OneOf lt eq gt =
    ((lt ≡ true) × (eq ≡ false) × (gt ≡ false))
    ⊎ (((lt ≡ false) × (eq ≡ true) × (gt ≡ false)) ⊎ ((lt ≡ false) × (eq ≡ false) × (gt ≡ true)))

pub OneOf-numbers : (m n : ℕ) → OneOf (ltb m n) (m == n) (ltb n m)
OneOf-numbers m n = elim (Bool-cases (ltb m n)) [
  | inl less ↦ inl (less, ground arith, ground arith)
  | inr not_less ↦ elim (Bool-cases (ltb n m)) [
    | inl more ↦ inr (inr (not_less, ground arith, more))
    | inr not_more ↦ inr (inl (not_less, ground arith, not_more))
  ]
]

-- First one comparison, then another where that says equal.
pub OneOf-then :
    (l e g l' e' g' : Bool)
    → OneOf l e g
    → OneOf l' e' g'
    → OneOf (l || (e && l')) (e && e') (g || (e && g'))
OneOf-then l e g l' e' g' (inl (p, q, r)) k = rw (p, q, r) (inl (refl, refl, refl))
OneOf-then l e g l' e' g' (inr (inl (p, q, r))) k = rw (p, q, r) k
OneOf-then l e g l' e' g' (inr (inr (p, q, r))) k = rw (p, q, r) (inr (inr (refl, refl, refl)))
