-- ===== src/Base/Repeats.antt =====
-- Sums of items that are the unit, or the same.
use Prim.Native.Nat.{ℕ, zero, suc, ◌≤◌, ◌<◌}
use mathlib.Core.Path.{◌≡◌, refl, sym, ap, ◌∙◌, fun_ext}
use mathlib.Core.Logic.{inl, inr}
use mathlib.Core.Bool.{Bool}
use mathlib.Core.List.{List, [], ◌∷◌}
use native.Mathlib.Omega.{arith}
use cache_flow.Base.Tests.{lt→ltb, ltb, ◌==◌, if◌then◌else◌, Bool-cases}
use cache_flow.Base.Sums.{IsCommutative, below, sum, sum-ext, sum-below, right, times-below_lt}

module _ {ℓ} {A : Type ℓ} (op : A → A → A) (unit : A) (law : IsCommutative A op unit) where
  -- Items from `n` on that hold the unit do not count.
  pub sum_padded :
      (f : ℕ → A) (n total : ℕ)
      → n ≤ total
      → sum op unit (λ i. if ltb i n then f i else unit) (below total) ≡ sum op unit f (below n)
  sum_padded f n zero h =
      sum-ext op unit (λ i. if ltb i n then f i else unit) f (below zero)
        (λ x l. absurd (omega (arith, times-below_lt x zero l)))
      ∙ ap (λ (k : ℕ). sum op unit f (below k)) (omega (arith, h))
  sum_padded f n (suc k) h = elim (Bool-cases (ltb k n)) [
    | inl e ↦
        let all : suc k ≡ n = ground arith in
        sum-ext op unit (λ i. if ltb i n then f i else unit) f (below (suc k))
          (λ x l. rw (lt→ltb x n (omega (arith, all, times-below_lt x (suc k) l))) refl)
        ∙ ap (λ (m : ℕ). sum op unit f (below m)) all
    | inr e ↦
        sum-below op unit law (λ i. if ltb i n then f i else unit) k
        ∙ rw e (right op unit law (sum op unit (λ i. if ltb i n then f i else unit) (below k)))
        ∙ sum_padded f n k (ground arith)
  ]

  -- Items that hold the same value come to it, for an operation that takes it twice as once.
  pub sum_const : (a : A) → op a a ≡ a → (n : ℕ) → sum op unit (λ i. a) (below (suc n)) ≡ a
  unfolding sum below
  sum_const a idem zero = right op unit law a
  sum_const a idem (suc n) =
      sum-below op unit law (λ i. a) (suc n) ∙ ap (λ (b : A). op b a) (sum_const a idem n) ∙ idem

  -- The first item alone.
  pub sum_first :
      (a : A) (total : ℕ)
      → 0 < total
      → sum op unit (λ i. if i == 0 then a else unit) (below total) ≡ a
  unfolding sum below
  sum_first a total h =
      ap (λ (test : ℕ → Bool). sum op unit (λ i. if test i then a else unit) (below total))
        (fun_ext {f = λ i. i == 0} {g = λ i. ltb i 1} (λ i. ground arith))
      ∙ sum_padded (λ i. a) 1 total h
      ∙ right op unit law a

  shuffled : (a b c d : A) → op (op a b) (op c d) ≡ op (op a c) (op b d)
  shuffled a b c d =
      law.assoc a b (op c d)
      ∙ ap (op a) (sym (law.assoc b c d) ∙ ap (λ (x : A). op x d) (law.comm b c) ∙ law.assoc c b d)
      ∙ sym (law.assoc a c (op b d))

  sum_both :
      (f g : ℕ → A) (xs : List ℕ)
      → sum op unit (λ x. op (f x) (g x)) xs ≡ op (sum op unit f xs) (sum op unit g xs)
  unfolding sum
  sum_both f g [] = sym (law.left unit)
  sum_both f g (x ∷ xs) =
      ap (op (op (f x) (g x))) (sum_both f g xs)
      ∙ shuffled (f x) (g x) (sum op unit f xs) (sum op unit g xs)

  sum_units : (xs : List ℕ) → sum op unit (λ x. unit) xs ≡ unit
  unfolding sum
  sum_units [] = refl
  sum_units (x ∷ xs) = law.left (sum op unit (λ y. unit) xs) ∙ sum_units xs

  -- A sum taken `n` times, item by item.
  pub sum_repeated :
      (f : ℕ → A) (xs : List ℕ) (n : ℕ)
      → sum op unit (λ x. sum op unit (λ i. f x) (below n)) xs
        ≡ sum op unit (λ i. sum op unit f xs) (below n)
  unfolding sum below
  sum_repeated f xs zero = sum_units xs
  sum_repeated f xs (suc n) =
      ap (λ (g : ℕ → A). sum op unit g xs) (fun_ext (λ x. sum-below op unit law (λ i. f x) n))
      ∙ sum_both (λ x. sum op unit (λ i. f x) (below n)) f xs
      ∙ ap (λ (a : A). op a (sum op unit f xs)) (sum_repeated f xs n)
      ∙ sym (sum-below op unit law (λ i. sum op unit f xs) n)
