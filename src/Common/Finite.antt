-- ===== src/Common/Finite.antt =====
-- Tests of all numbers below a bound.
use Prim.Native.Nat.{ℕ, zero, suc, ◌<◌}
use granary.Common.Tests.{eq-cases}
use mathlib.Core.Bool.{Bool, true, false, ◌&&◌}
use mathlib.Core.Logic.{inl, inr}
use mathlib.Core.Path.{◌≡◌, refl}
use native.Mathlib.Omega.{arith}

pub and-left : (a b : Bool) → (a && b) ≡ true → a ≡ true
and-left true b h = refl
and-left false b h = h

pub and-right : (a b : Bool) → (a && b) ≡ true → b ≡ true
and-right true b h = h
and-right false b h = absurd (ground arith)

-- A test at every number below a bound.
unfoldable pub all_below : ℕ → (ℕ → Bool) → Bool
all_below zero test = true
all_below (suc n) test = test n && all_below n test

pub all_below_lem :
    (n : ℕ) (test : ℕ → Bool) → all_below n test ≡ true → (i : ℕ) → i < n → test i ≡ true
unfolding all_below
all_below_lem zero test h i lt = absurd (omega arith)
all_below_lem (suc n) test h i lt = elim (eq-cases i n) [
  | inl e ↦ rw e (and-left (test n) (all_below n test) h)
  | inr ne ↦ all_below_lem n test (and-right (test n) (all_below n test) h) i (omega (arith, ne))
]
