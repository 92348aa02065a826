-- ===== src/Base/Int.antt =====
-- Signed 32-bit values, as integers: `negsuc n` is -(n + 1).
use Prim.Native.Nat.{ℕ, zero, suc, ◌-◌, ◌%◌, ◌^◌, ◌<◌}
use mathlib.Core.Path.{◌≡◌, refl}
use mathlib.Core.Bool.{Bool, true, false}
use native.Mathlib.Omega.{arith}
use cache_flow.Base.Tests.{ltb, ◌==◌, if◌then◌else◌}

pub data ℤ : Type 0 where
  pos : ℕ → ℤ
  negsuc : ℕ → ℤ

infix 50 ◌==ℤ◌
abbrev pub ◌==ℤ◌ : ℤ → ℤ → Bool
pos a ==ℤ pos b = a == b
negsuc a ==ℤ negsuc b = a == b
pos a ==ℤ negsuc b = false
negsuc a ==ℤ pos b = false

-- `x - 1`.
abbrev pub predℤ : ℤ → ℤ
predℤ (pos zero) = negsuc 0
predℤ (pos (suc n)) = pos n
predℤ (negsuc n) = negsuc (suc n)

-- `x + 1`; a count stays far below the 2^31 at which it would overflow.
abbrev pub succℤ : ℤ → ℤ
succℤ (pos n) = pos (suc n)
succℤ (negsuc zero) = pos 0
succℤ (negsuc (suc n)) = negsuc n

-- `x <= 0`.
abbrev pub is_nonpos : ℤ → Bool
is_nonpos (pos zero) = true
is_nonpos (pos (suc n)) = false
is_nonpos (negsuc n) = true

-- `static_cast<int32_t>` of an unsigned value.
unfoldable pub to_int32 : ℕ → ℤ
to_int32 n =
    if ltb (n % 2 ^ 32) (2 ^ 31) then pos (n % 2 ^ 32) else negsuc (2 ^ 32 - 1 - n % 2 ^ 32)

pub to_int32_small : (n : ℕ) → n < 2 ^ 31 → to_int32 n ≡ pos n
unfolding to_int32
to_int32_small n h = ground arith

pub ==ℤ-eq : (a b : ℤ) → (a ==ℤ b) ≡ true → a ≡ b
==ℤ-eq (pos a) (pos b) h = ground arith
==ℤ-eq (pos a) (negsuc b) h = cc
==ℤ-eq (negsuc a) (pos b) h = cc
==ℤ-eq (negsuc a) (negsuc b) h = ground arith

pub ==ℤ_refl : (a : ℤ) → (a ==ℤ a) ≡ true
==ℤ_refl (pos a) = ground arith
==ℤ_refl (negsuc a) = ground arith

pub ==ℤ_comm : (a b : ℤ) → (a ==ℤ b) ≡ (b ==ℤ a)
==ℤ_comm (pos a) (pos b) = ground arith
==ℤ_comm (pos a) (negsuc b) = refl
==ℤ_comm (negsuc a) (pos b) = refl
==ℤ_comm (negsuc a) (negsuc b) = ground arith

-- `static_cast<size_t>` of a signed value.
unfoldable pub to_size : ℤ → ℕ
to_size (pos n) = n
to_size (negsuc n) = 2 ^ 64 - 1 - n

-- `x < y`.
abbrev pub ltbℤ : ℤ → ℤ → Bool
ltbℤ (pos a) (pos b) = ltb a b
ltbℤ (pos a) (negsuc b) = false
ltbℤ (negsuc a) (pos b) = true
ltbℤ (negsuc a) (negsuc b) = ltb b a

pub ltbℤ-asym : (a b : ℤ) → ltbℤ a b ≡ true → ltbℤ b a ≡ false
ltbℤ-asym (pos a) (pos b) h = ground arith
ltbℤ-asym (pos a) (negsuc b) h = cc
ltbℤ-asym (negsuc a) (pos b) h = refl
ltbℤ-asym (negsuc a) (negsuc b) h = ground arith

-- What is not less than `b`, which is not less than `a`, is not less than `a`.
pub ltbℤ-trans : (a b c : ℤ) → ltbℤ b a ≡ false → ltbℤ c b ≡ false → ltbℤ c a ≡ false
ltbℤ-trans (pos a) (pos b) (pos c) h k = ground arith
ltbℤ-trans (pos a) (pos b) (negsuc c) h k = cc
ltbℤ-trans (pos a) (negsuc b) c h k = cc
ltbℤ-trans (negsuc a) (pos b) (pos c) h k = refl
ltbℤ-trans (negsuc a) (pos b) (negsuc c) h k = cc
ltbℤ-trans (negsuc a) (negsuc b) (pos c) h k = refl
ltbℤ-trans (negsuc a) (negsuc b) (negsuc c) h k = ground arith
