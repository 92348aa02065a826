-- ===== src/Base/Count.antt =====
-- How often a list holds a number.
use Prim.Native.Nat.{ℕ, ◌+◌}
use mathlib.Core.Path.{◌≡◌}
use mathlib.Core.List.{List, [], ◌∷◌, ◌++◌}
use native.Mathlib.Omega.{arith}
use cache_flow.Base.Tests.{◌==◌, if◌then◌else◌}

unfoldable pub times : ℕ → List ℕ → ℕ
times x [] = 0
times x (y ∷ ys) = (if x == y then 1 else 0) + times x ys

pub times-append : (x : ℕ) (ys zs : List ℕ) → times x (ys ++ zs) ≡ times x ys + times x zs
unfolding times
times-append x [] zs = omega arith
times-append x (y ∷ ys) zs = omega (arith, times-append x ys zs)
