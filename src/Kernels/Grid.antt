-- ===== src/Kernels/Grid.antt =====
-- The grid of a launch, and the loops of its threads.
use mathlib.Core.List.{Memᴰ}
use mathlib.Core.List.Memᴰ
use native.Mathlib.Nat.{mod-lt}
use cache_flow.Base.{
  ℕ, zero, suc, ◌+◌, ◌*◌, ◌/◌, ◌%◌, ◌<◌, ◌≡◌, sym, if◌then◌else◌, ltb, lt→ltb, ltb→lt, List, [],
  ◌++◌, Bool-cases, inl, inr, arith, subst,
}

-- The moves of `f 0`, ..., `f (n - 1)`: one dimension of a grid or of its blocks.
unfoldable pub for_each {ℓ} : {A : Type ℓ} → ℕ → (ℕ → List A) → List A
for_each zero f = []
for_each (suc n) f = for_each n f ++ f n

-- `for (int i = start; i < limit; i += stride)`, for `rounds` rounds at most.
unfoldable pub strided {ℓ} : {A : Type ℓ} → (rounds limit stride start : ℕ) → (ℕ → List A) → List A
strided zero limit stride i body = []
strided (suc k) limit stride i body =
    let rest = strided k limit stride (i + stride) body in
    if ltb i limit then body i ++ rest else []

pub mem-for_each {ℓ} :
    {A : Type ℓ} (n k : ℕ) (f : ℕ → List A) (mv : A)
    → k < n
    → Memᴰ mv (f k)
    → Memᴰ mv (for_each n f)
unfolding for_each
mem-for_each zero k f mv l i = absurd (omega (arith, l))
mem-for_each (suc n) k f mv l i = elim (Bool-cases (ltb k n)) [
  | inl e ↦ Memᴰ.append_left (f n) (mem-for_each n k f mv (ground arith) i)
  | inr e ↦
      let last : k ≡ n = ground arith in
      Memᴰ.append_right (for_each n f) (subst (λ (j : ℕ). Memᴰ mv (f j)) last i)
]

pub for_each-mem {ℓ} :
    {A : Type ℓ} (n : ℕ) (f : ℕ → List A) (mv : A)
    → Memᴰ mv (for_each n f)
    → (k : ℕ) × (k < n) × Memᴰ mv (f k)
unfolding for_each
for_each-mem zero f mv i = absurd (Memᴰ.not-nil i)
for_each-mem (suc n) f mv i = elim (Memᴰ.append_cases (for_each n f) i) [
  | inl early ↦ let (k, l, j) = for_each-mem n f mv early in (k, omega (arith, l), j)
  | inr late ↦ (n, omega arith, late)
]

one_more : (i r stride : ℕ) → i + suc r * stride ≡ (i + stride) + r * stride
one_more i r stride = grind arith

pub mem-strided {ℓ} :
    {A : Type ℓ} (k limit stride i r : ℕ) (body : ℕ → List A) (mv : A)
    → r < k
    → i + r * stride < limit
    → Memᴰ mv (body (i + r * stride))
    → Memᴰ mv (strided k limit stride i body)
unfolding strided
mem-strided zero limit stride i r body mv enough l m = absurd (omega (arith, enough))
mem-strided (suc k) limit stride i zero body mv enough l m =
    let here : i + 0 * stride ≡ i = grind arith in
    rw (lt→ltb i limit (omega (arith, l, here))) (
      Memᴰ.append_left (strided k limit stride (i + stride) body)
        (subst (λ (j : ℕ). Memᴰ mv (body j)) here m))
mem-strided (suc k) limit stride i (suc r) body mv enough l m =
    let next = one_more i r stride in
    rw (lt→ltb i limit (omega (arith, l, next))) (
      Memᴰ.append_right (body i) (
        mem-strided k limit stride (i + stride) r body mv (omega (arith, enough))
          (omega (arith, l, next)) (subst (λ (j : ℕ). Memᴰ mv (body j)) next m)))

pub strided-mem {ℓ} :
    {A : Type ℓ} (k limit stride i : ℕ) (body : ℕ → List A) (mv : A)
    → Memᴰ mv (strided k limit stride i body)
    → (r : ℕ) × (i + r * stride < limit) × Memᴰ mv (body (i + r * stride))
unfolding strided
strided-mem zero limit stride i body mv m = absurd (Memᴰ.not-nil m)
strided-mem (suc k) limit stride i body mv m = elim (Bool-cases (ltb i limit)) [
  | inl e ↦
      let all : Memᴰ mv (body i ++ strided k limit stride (i + stride) body) =
        rw (e, strided) at m in
      elim (Memᴰ.append_cases (body i) all) [
        | inl now ↦
            let here : i + 0 * stride ≡ i = grind arith in
            (
              0,
              omega (arith, here, ltb→lt i limit e),
              subst (λ (j : ℕ). Memᴰ mv (body j)) (sym here) now,
            )
        | inr later ↦
            let (r, l, j) = strided-mem k limit stride (i + stride) body mv later in
            let next = one_more i r stride in
            (suc r, omega (arith, l, next), subst (λ (j' : ℕ). Memᴰ mv (body j')) (sym next) j)
      ]
  | inr e ↦ absurd (Memᴰ.not-nil (rw (e, strided) at m))
]

-- The loops of `stride` threads, of which thread `t` starts at `t`, meet every index once.
pub mem-threads {ℓ} :
    {A : Type ℓ} (limit stride i : ℕ) (body : ℕ → List A) (mv : A)
    → i < limit
    → 0 < stride
    → Memᴰ mv (body i)
    → Memᴰ mv (for_each stride (λ t. strided limit limit stride t body))
mem-threads limit stride i body mv l z m =
    let whole : i % stride + (i / stride) * stride ≡ i = grind arith in
    let few : i / stride < limit = grind arith in
    mem-for_each stride (i % stride) (λ t. strided limit limit stride t body) mv (mod-lt i z)
      (mem-strided limit limit stride (i % stride) (i / stride) body mv few
        (omega (arith, whole, l)) (subst (λ (j : ℕ). Memᴰ mv (body j)) (sym whole) m))

pub threads-mem {ℓ} :
    {A : Type ℓ} (limit stride : ℕ) (body : ℕ → List A) (mv : A)
    → Memᴰ mv (for_each stride (λ t. strided limit limit stride t body))
    → (i : ℕ) × (i < limit) × Memᴰ mv (body i)
threads-mem limit stride body mv m =
    let (t, l, inner) = for_each-mem stride (λ t. strided limit limit stride t body) mv m in
    let (r, k, j) = strided-mem limit limit stride t body mv inner in (t + r * stride, k, j)
