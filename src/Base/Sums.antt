-- ===== src/Base/Sums.antt =====
-- Sums over lists of indices, in any order.
use Prim.Native.Nat.{ℕ, zero, suc, ◌+◌, ◌<◌}
use mathlib.Core.Path.{◌≡◌, refl, sym, ap, ◌∙◌}
use mathlib.Core.Logic.{inl, inr}
use mathlib.Core.Bool.{Bool, true, false}
use mathlib.Core.Option.{Option, none, some}
use mathlib.Core.List.{List, [], ◌∷◌, ◌++◌}
use native.Mathlib.Omega.{arith}
use cache_flow.Base.Tests.{
  ltb, ◌==◌, if◌then◌else◌, Bool-cases, Option-cases, ◌>>=◌, ==-eq, ==_refl,
}
use cache_flow.Base.Count.{times, times-append}

-- An operation of which the order and the grouping do not matter.
pub record IsCommutative {ℓ} (A : Type ℓ) (op : A → A → A) (unit : A) : Type ℓ where
  pub assoc : (a b c : A) → op (op a b) c ≡ op a (op b c)
  pub comm : (a b : A) → op a b ≡ op b a
  pub left : (a : A) → op unit a ≡ a

-- A list without one element that is `x`.
unfoldable pub pick : ℕ → List ℕ → Option (List ℕ)
pick x [] = none
pick x (y ∷ ys) = let rest = pick x ys in if x == y then some ys else (rest >>= λ r. some (y ∷ r))

-- Whether the lists have the same elements.
unfoldable pub same_elements : List ℕ → List ℕ → Bool
unfolding pick
same_elements [] [] = true
same_elements [] (y ∷ ys) = false
same_elements (x ∷ xs) ys = elim (pick x ys) [ none ↦ false | some rest ↦ same_elements xs rest ]

-- `0`, ..., `n - 1`.
unfoldable pub below : ℕ → List ℕ
below zero = []
below (suc n) = below n ++ n ∷ []

module _ {ℓ} {A : Type ℓ} (op : A → A → A) (unit : A) where
  unfoldable pub sum : (ℕ → A) → List ℕ → A
  sum f [] = unit
  sum f (x ∷ xs) = op (f x) (sum f xs)

  pub sum-ext :
      (f g : ℕ → A) (xs : List ℕ) → ((x : ℕ) → 0 < times x xs → f x ≡ g x) → sum f xs ≡ sum g xs
  unfolding sum times
  sum-ext f g [] h = refl
  sum-ext f g (x ∷ xs) h =
      let here : f x ≡ g x = h x (rw (==_refl x) (omega arith)) in
      λ i. op (here i) (sum-ext f g xs (λ y l. h y (omega (arith, l))) i)

module _ {ℓ} {A : Type ℓ} (op : A → A → A) (unit : A) (law : IsCommutative A op unit) where
  swapped : (a b c : A) → op a (op b c) ≡ op b (op a c)
  swapped a b c = sym (law.assoc a b c) ∙ ap (λ (d : A). op d c) (law.comm a b) ∙ law.assoc b a c

  pub sum-append :
      (f : ℕ → A) (xs ys : List ℕ)
      → sum op unit f (xs ++ ys) ≡ op (sum op unit f xs) (sum op unit f ys)
  unfolding sum
  sum-append f [] ys = sym (law.left (sum op unit f ys))
  sum-append f (x ∷ xs) ys =
      ap (op (f x)) (sum-append f xs ys)
      ∙ sym (law.assoc (f x) (sum op unit f xs) (sum op unit f ys))

  pub right : (a : A) → op a unit ≡ a
  right a = law.comm a unit ∙ law.left a

  pub sum-below :
      (f : ℕ → A) (n : ℕ) → sum op unit f (below (suc n)) ≡ op (sum op unit f (below n)) (f n)
  unfolding sum below
  sum-below f n = sum-append f (below n) (n ∷ []) ∙ ap (op (sum op unit f (below n))) (right (f n))

  sum-pick :
      (f : ℕ → A) (x : ℕ) (ys rest : List ℕ)
      → pick x ys ≡ some rest
      → sum op unit f ys ≡ op (f x) (sum op unit f rest)
  unfolding sum pick
  sum-pick f x [] rest h = absurd (cc (h))
  sum-pick f x (y ∷ ys) rest h = elim (Bool-cases (x == y)) [
    | inl e ↦
        let same : x ≡ y = ==-eq x y e in
        let tail : ys ≡ rest = cc (rw e at (h)) in λ i. op (f (sym same i)) (sum op unit f (tail i))
    | inr e ↦ elim (Option-cases (pick x ys)) [
      | inl gone ↦ absurd (cc (rw (e, gone) at (h)))
      | inr (r, found) ↦
          let tail : y ∷ r ≡ rest = cc (rw (e, found) at (h)) in
          ap (op (f y)) (sum-pick f x ys r found)
          ∙ swapped (f y) (f x) (sum op unit f r)
          ∙ ap (λ (zs : List ℕ). op (f x) (sum op unit f zs)) tail
    ]
  ]

  pub sum-same_elements :
      (f : ℕ → A) (xs ys : List ℕ)
      → same_elements xs ys ≡ true
      → sum op unit f xs ≡ sum op unit f ys
  unfolding sum same_elements
  sum-same_elements f [] [] h = refl
  sum-same_elements f [] (y ∷ ys) h = absurd (cc (h))
  sum-same_elements f (x ∷ xs) ys h = elim (Option-cases (pick x ys)) [
    | inl gone ↦ absurd (cc (rw (gone, same_elements) at (h)))
    | inr (rest, found) ↦
        ap (op (f x)) (sum-same_elements f xs rest (rw (found, same_elements) at (h)))
        ∙ sym (sum-pick f x ys rest found)
  ]

  pub fold-sum :
      (acc : A) (f : ℕ → A) (x : ℕ) (xs : List ℕ)
      → op (op acc (f x)) (sum op unit f xs) ≡ op acc (sum op unit f (x ∷ xs))
  unfolding sum
  fold-sum acc f x xs = law.assoc acc (f x) (sum op unit f xs)

pick_later :
    (x y : ℕ) (ys rest : List ℕ)
    → (x == y) ≡ false
    → pick x ys ≡ some rest
    → pick x (y ∷ ys) ≡ some (y ∷ rest)
unfolding pick
pick_later x y ys rest e found = rw (e, found) refl

times-pick :
    (x : ℕ) (ys : List ℕ)
    → 0 < times x ys
    → (rest : List ℕ) × (pick x ys ≡ some rest)
      × ((z : ℕ) → times z ys ≡ (if z == x then 1 else 0) + times z rest)
unfolding times pick
times-pick x [] h = absurd (omega (arith, h))
times-pick x (y ∷ ys) h = elim (Bool-cases (x == y)) [
  | inl e ↦
      let same : x ≡ y = ==-eq x y e in
      (ys, rw e refl, λ z. ap (λ (w : ℕ). (if z == w then 1 else 0) + times z ys) (sym same))
  | inr e ↦
      let earlier : 0 < times x ys = omega (arith, rw e at (h)) in
      let (rest, found, counts) = times-pick x ys earlier in
      (y ∷ rest, pick_later x y ys rest e found, λ z. omega (arith, counts z))
]

-- Lists with as many of each element have the same elements.
pub times-same_elements :
    (xs ys : List ℕ) → ((x : ℕ) → times x xs ≡ times x ys) → same_elements xs ys ≡ true
unfolding times same_elements
times-same_elements [] [] h = refl
times-same_elements [] (y ∷ ys) h = absurd (omega (arith, rw (==_refl y) at (h y)))
times-same_elements (x ∷ xs) ys h =
    let some_x : 0 < times x ys = omega (arith, rw (==_refl x) at (h x)) in
    let (rest, found, counts) = times-pick x ys some_x in
    rw (found, same_elements) (times-same_elements xs rest (λ z. omega (arith, h z, counts z)))

pub times-below : (x n : ℕ) → times x (below n) ≡ (if ltb x n then 1 else 0)
unfolding times below
times-below x zero = ground arith
times-below x (suc n) = times-append x (below n) (n ∷ []) ∙ ground (arith, times-below x n)

pub times-below_lt : (x n : ℕ) → 0 < times x (below n) → x < n
times-below_lt x n h = ground (arith, times-below x n)
