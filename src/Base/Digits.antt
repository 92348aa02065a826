-- ===== src/Base/Digits.antt =====
-- A number as its quotient and its remainder.
use Prim.Native.Nat.{ℕ, ◌+◌, ◌*◌, ◌/◌, ◌<◌}
use mathlib.Core.Path.{◌≡◌, ap, sym, ◌∙◌}
use native.Mathlib.Nat.{mul-add-div_right, div-eq_of_lt}
use native.Mathlib.Omega.{arith}

pub quotient : (size m a : ℕ) → a < size → (m * size + a) / size ≡ m
quotient size m a h =
    mul-add-div_right (omega (arith, h)) m a ∙ ap (λ x. m + x) (div-eq_of_lt h) ∙ omega arith

pub digits :
    (size m n a b : ℕ) → a < size → b < size → m * size + a ≡ n * size + b → (m ≡ n) × (a ≡ b)
digits size m n a b h k e =
    let same : m ≡ n = sym (quotient size m a h) ∙ ap (λ x. x / size) e ∙ quotient size n b k in
    (same, omega (arith, e, ap (λ x. x * size) same))
