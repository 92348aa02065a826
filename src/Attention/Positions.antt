-- ===== src/Attention/Positions.antt =====
-- Sums over what the loops of the threads visit.
use cache_flow.Base.{
  ℕ, zero, suc, ◌+◌, ◌≤◌, ◌<◌, ◌≡◌, refl, sym, ap, ◌∙◌, true, ltb, ltb→lt, ◌==◌, if◌then◌else◌,
  Bool-cases, List, [], ◌∷◌, ◌++◌, map, inl, inr, arith, fun_ext,
}
use cache_flow.Base.Count.{times, times-append}
use cache_flow.Base.Sums.{
  IsCommutative, sum, sum-append, sum-same_elements, same_elements, times-same_elements, below,
  times-below,
}
use cache_flow.Kernels.Grid.{for_each, strided}
use cache_flow.Attention.{Visit, position, visits_v1}
use cache_flow.Attention.Hits.{hits, hits-threads}
use cache_flow.Attention.Visits.{hits-visits_v1}
use cache_flow.Attention.Softmax.{warp_visits}

abbrev pub positions : List Visit → List ℕ
positions vs = map position vs

pub times-positions : (x : ℕ) (vs : List Visit) → times x (positions vs) ≡ hits x vs
unfolding times hits
times-positions x [] = refl
times-positions x (v ∷ vs) = ground (arith, times-positions x vs)

map-append {ℓ κ} :
    {A : Type ℓ} {B : Type κ} (f : A → B) (xs ys : List A) → map f (xs ++ ys) ≡ map f xs ++ map f ys
map-append f [] ys = refl
map-append f (x ∷ xs) ys = ap (λ zs. f x ∷ zs) (map-append f xs ys)

pub map-for_each {ℓ κ} :
    {A : Type ℓ} {B : Type κ} (f : A → B) (n : ℕ) (body : ℕ → List A)
    → map f (for_each n body) ≡ for_each n (λ k. map f (body k))
unfolding for_each
map-for_each f zero body = refl
map-for_each f (suc n) body =
    map-append f (for_each n body) (body n)
    ∙ ap (λ zs. zs ++ map f (body n)) (map-for_each f n body)

map-strided {ℓ κ} :
    {A : Type ℓ} {B : Type κ} (f : A → B) (k limit stride i : ℕ) (body : ℕ → List A)
    → map f (strided k limit stride i body) ≡ strided k limit stride i (λ j. map f (body j))
unfolding strided
map-strided f zero limit stride i body = refl
map-strided f (suc k) limit stride i body = elim (Bool-cases (ltb i limit)) [
  | inl e ↦
      rw (e, strided)
        (map-append f (body i) (strided k limit stride (i + stride) body)
          ∙ ap (λ zs. map f (body i) ++ zs) (map-strided f k limit stride (i + stride) body))
  | inr e ↦ rw (e, strided) refl
]

-- The indices of one thread.
abbrev pub indices : (limit stride start : ℕ) → List ℕ
indices limit stride start = strided limit limit stride start (λ i. i ∷ [])

-- A visit with the position `i`.
abbrev placed : ℕ → Visit
placed i = record { block = 0; off = i }

one_placed : (x i : ℕ) → hits x (placed i ∷ []) ≡ (if i == x then 1 else 0)
unfolding hits
one_placed x i = ground arith

same_position : (i : ℕ) → position (placed i) ≡ i
same_position i = omega arith

indices-positions :
    (limit stride start : ℕ)
    → positions (strided limit limit stride start (λ i. placed i ∷ [])) ≡ indices limit stride start
indices-positions limit stride start =
    map-strided position limit limit stride start (λ i. placed i ∷ [])
    ∙ ap (λ (f : ℕ → ℕ). strided limit limit stride start (λ i. f i ∷ [])) (fun_ext same_position)

-- All threads together have every index below the limit once.
pub threads-same_elements :
    (limit stride : ℕ)
    → 0 < stride
    → same_elements (for_each stride (indices limit stride)) (below limit) ≡ true
threads-same_elements limit stride z =
    times-same_elements (for_each stride (indices limit stride)) (below limit) (λ x.
      ap (λ (f : ℕ → List ℕ). times x (for_each stride f))
        (fun_ext (λ t.
          sym (indices-positions limit stride t)
          ∙ ap (λ (s : ℕ). positions (strided limit limit stride s (λ i. placed i ∷ [])))
              (omega arith)))
      ∙ sym (
          ap (times x) (
            map-for_each position stride
              (λ t. strided limit limit stride (0 + t) (λ i. placed i ∷ []))))
      ∙ times-positions x
          (for_each stride (λ t. strided limit limit stride (0 + t) (λ i. placed i ∷ [])))
      ∙ hits-threads x 1 x (λ i. placed i ∷ []) (one_placed x) limit limit stride 0 z (omega arith)
      ∙ ground (arith, times-below x limit))

-- The warps of the kernel together have every position of the context once.
pub warps-same_elements :
    (ctx_len : ℕ)
    → same_elements (for_each 4 (λ warp. positions (warp_visits ctx_len warp))) (below ctx_len)
      ≡ true
unfolding warp_visits visits_v1
warps-same_elements ctx_len =
    times-same_elements (for_each 4 (λ warp. positions (warp_visits ctx_len warp))) (below ctx_len)
      (λ x.
        sym (ap (times x) (map-for_each position 4 (warp_visits ctx_len)))
        ∙ times-positions x (visits_v1 ctx_len)
        ∙ hits-visits_v1 x ctx_len
        ∙ sym (times-below x ctx_len))

module _ {ℓ} {A : Type ℓ} (op : A → A → A) (unit : A) (law : IsCommutative A op unit) where
  pub sum-for_each :
      (f : ℕ → A) (n : ℕ) (body : ℕ → List ℕ)
      → sum op unit f (for_each n body) ≡ sum op unit (λ k. sum op unit f (body k)) (below n)
  unfolding for_each below sum
  sum-for_each f zero body = refl
  sum-for_each f (suc n) body =
      sum-append op unit law f (for_each n body) (body n)
      ∙ (λ i.
          op (sum-for_each f n body i)
            ((sym (law.left (sum op unit f (body n))) ∙ law.comm unit (sum op unit f (body n))) i))
      ∙ sym (sum-append op unit law (λ k. sum op unit f (body k)) (below n) (n ∷ []))

  -- What the threads have added up comes to the sum of all.
  pub sum-threads :
      (f : ℕ → A) (limit stride : ℕ)
      → 0 < stride
      → sum op unit (λ t. sum op unit f (indices limit stride t)) (below stride)
        ≡ sum op unit f (below limit)
  sum-threads f limit stride z =
      sym (sum-for_each f stride (indices limit stride))
      ∙ sum-same_elements op unit law f (for_each stride (indices limit stride)) (below limit)
          (threads-same_elements limit stride z)

  pub sum-warps :
      (f : ℕ → A) (ctx_len : ℕ)
      → sum op unit (λ warp. sum op unit f (positions (warp_visits ctx_len warp))) (below 4)
        ≡ sum op unit f (below ctx_len)
  sum-warps f ctx_len =
      sym (sum-for_each f 4 (λ warp. positions (warp_visits ctx_len warp)))
      ∙ sum-same_elements op unit law f (for_each 4 (λ warp. positions (warp_visits ctx_len warp)))
          (below ctx_len) (warps-same_elements ctx_len)

pub times-visits_v1 :
    (x ctx_len : ℕ) → times x (positions (visits_v1 ctx_len)) ≡ (if ltb x ctx_len then 1 else 0)
times-visits_v1 x ctx_len = times-positions x (visits_v1 ctx_len) ∙ hits-visits_v1 x ctx_len

times-for_each :
    (x k n : ℕ) (body : ℕ → List ℕ) → k < n → times x (body k) ≤ times x (for_each n body)
unfolding for_each
times-for_each x k zero body l = absurd (omega (arith, l))
times-for_each x k (suc n) body l = elim (Bool-cases (ltb k n)) [
  | inl e ↦
      omega
        (arith, times-append x (for_each n body) (body n), times-for_each x k n body (ltb→lt k n e))
  | inr e ↦
      let last : k ≡ n = ground arith in
      omega
        (arith, times-append x (for_each n body) (body n), ap (λ (j : ℕ). times x (body j)) last)
]

pub times-warp_visits :
    (x ctx_len warp : ℕ)
    → warp < 4
    → times x (positions (warp_visits ctx_len warp)) ≤ (if ltb x ctx_len then 1 else 0)
unfolding warp_visits visits_v1
times-warp_visits x ctx_len warp l = omega (
  arith,
  times-for_each x warp 4 (λ w. positions (warp_visits ctx_len w)) l,
  ap (times x) (map-for_each position 4 (warp_visits ctx_len)),
  times-visits_v1 x ctx_len,
)
