-- ===== src/Attention/Hits.antt =====
-- How often the kernels visit a position.
use native.Mathlib.Nat.{mod-lt}
use cache_flow.Base.{
  ℕ, zero, suc, ◌+◌, ◌-◌, ◌*◌, ◌/◌, ◌%◌, ◌≤◌, ◌<◌, ◌≡◌, ◌≢◌, refl, sym, ◌∙◌, true, false, ltb, leb,
  ◌==◌, if◌then◌else◌, List, [], ◌∷◌, ◌++◌, Bool-cases, ==-eq, ==_refl, lt→ltb, ltb→lt, leb→le, inl,
  inr, arith,
}
use cache_flow.Base.Digits.{digits}
use cache_flow.Kernels.Grid.{for_each, strided}
use cache_flow.Kernels.Owner.{whole}
use cache_flow.Attention.{Visit, position, tokens_v1, tokens_v2}

unfoldable pub hits : ℕ → List Visit → ℕ
hits x [] = 0
hits x (v ∷ vs) = (if position v == x then 1 else 0) + hits x vs

pub hits-append : (x : ℕ) (vs ws : List Visit) → hits x (vs ++ ws) ≡ hits x vs + hits x ws
unfolding hits
hits-append x [] ws = omega arith
hits-append x (v ∷ vs) ws = omega (arith, hits-append x vs ws)

pub hits-tokens_v1 :
    (x k ctx_len block off : ℕ)
    → hits x (tokens_v1 k ctx_len block off) ≡ (
        if leb (block * 16 + off) x
        then if ltb x (block * 16 + off + k) then if ltb x ctx_len then 1 else 0 else 0
        else 0)
unfolding hits tokens_v1
hits-tokens_v1 x zero ctx_len block off = ground arith
hits-tokens_v1 x (suc k) ctx_len block off =
    ground (arith, hits-tokens_v1 x k ctx_len block (suc off))

pub hits-tokens_v2 :
    (x k start_tok end_tok block off : ℕ)
    → hits x (tokens_v2 k start_tok end_tok block off) ≡ (
        if leb (block * 16 + off) x
        then if ltb x (block * 16 + off + k)
          then if leb start_tok x then if ltb x end_tok then 1 else 0 else 0
          else 0
        else 0)
unfolding hits tokens_v2
hits-tokens_v2 x zero start_tok end_tok block off = ground arith
hits-tokens_v2 x (suc k) start_tok end_tok block off =
    ground (arith, hits-tokens_v2 x k start_tok end_tok block (suc off))

one_more : (i r stride : ℕ) → i + suc r * stride ≡ (i + stride) + r * stride
one_more i r stride = grind arith

zero_more : (i stride : ℕ) → i + 0 * stride ≡ i
zero_more i stride = grind arith

pub hits-for_each :
    (x c at n : ℕ) (body : ℕ → List Visit)
    → ((k : ℕ) → k < n → hits x (body k) ≡ (if k == at then c else 0))
    → hits x (for_each n body) ≡ (if ltb at n then c else 0)
unfolding hits for_each
hits-for_each x c at zero body only = ground arith
hits-for_each x c at (suc n) body only =
    hits-append x (for_each n body) (body n)
    ∙ ground (
      arith,
      hits-for_each x c at n body (λ k l. only k (omega (arith, l))),
      only n (omega arith),
    )

pub hits-for_each_none :
    (x n : ℕ) (body : ℕ → List Visit)
    → ((k : ℕ) → hits x (body k) ≡ 0)
    → hits x (for_each n body) ≡ 0
unfolding hits for_each
hits-for_each_none x zero body none_here = refl
hits-for_each_none x (suc n) body none_here =
    hits-append x (for_each n body) (body n)
    ∙ omega (arith, hits-for_each_none x n body none_here, none_here n)

-- One item of the loop has the `c` visits of the position, and the others have none.
module _ (x c at : ℕ) (body : ℕ → List Visit)
    (only : (k : ℕ) → hits x (body k) ≡ (if k == at then c else 0)) where
  only_at : (i : ℕ) → (i == at) ≡ true → hits x (body i) ≡ c
  only_at i e = rw e at (only i)

  only_else : (i : ℕ) → (i == at) ≡ false → hits x (body i) ≡ 0
  only_else i e = rw e at (only i)

  not_here : (i stride : ℕ) → ((r : ℕ) → i + r * stride ≢ at) → (i == at) ≡ false
  not_here i stride h = elim (Bool-cases (i == at)) [
    | inl e ↦ absurd (h 0 (zero_more i stride ∙ ==-eq i at e))
    | inr e ↦ e
  ]

  later : (i r stride : ℕ) → 0 < stride → i ≡ at → (i + stride) + r * stride ≢ at
  later i r stride z here e = absurd (omega (arith, here, e, z))

  missed :
      (k limit stride i : ℕ)
      → ((r : ℕ) → i + r * stride ≢ at)
      → hits x (strided k limit stride i body) ≡ 0
  unfolding hits strided
  missed zero limit stride i h = refl
  missed (suc k) limit stride i h = elim (Bool-cases (ltb i limit)) [
    | inl e ↦
        let here : (i == at) ≡ false = not_here i stride h in
        rw (e, strided)
          (hits-append x (body i) (strided k limit stride (i + stride) body)
            ∙ omega (
              arith,
              only_else i here,
              missed k limit stride (i + stride) (λ r e'. h (suc r) (one_more i r stride ∙ e')),
            ))
    | inr e ↦ rw (e, strided)
  ]

  past : (k limit stride i : ℕ) → limit ≤ at → hits x (strided k limit stride i body) ≡ 0
  unfolding hits strided
  past zero limit stride i h = refl
  past (suc k) limit stride i h = elim (Bool-cases (ltb i limit)) [
    | inl e ↦
        let here : (i == at) ≡ false = ground arith in
        rw (e, strided)
          (hits-append x (body i) (strided k limit stride (i + stride) body)
            ∙ omega (arith, only_else i here, past k limit stride (i + stride) h))
    | inr e ↦ rw (e, strided)
  ]

  found :
      (k limit stride i r : ℕ)
      → 0 < stride
      → r < k
      → i + r * stride ≡ at
      → at < limit
      → hits x (strided k limit stride i body) ≡ c
  unfolding hits strided
  found zero limit stride i r z enough e l = absurd (omega (arith, enough))
  found (suc k) limit stride i zero z enough e l =
      let here : i ≡ at = grind arith in
      let same : (i == at) ≡ true = ground arith in
      rw (lt→ltb i limit (omega (arith, here, l))) (
        hits-append x (body i) (strided k limit stride (i + stride) body)
        ∙ omega (
          arith,
          only_at i same,
          missed k limit stride (i + stride) (λ r e'. later i r stride z here e'),
        ))
  found (suc k) limit stride i (suc r) z enough e l =
      let next = one_more i r stride in
      let before : i < at = omega (arith, next, e, z) in
      let other : (i == at) ≡ false = ground arith in
      rw (lt→ltb i limit (omega (arith, before, l))) (
        hits-append x (body i) (strided k limit stride (i + stride) body)
        ∙ omega (
          arith,
          only_else i other,
          found k limit stride (i + stride) r z (omega (arith, enough)) (sym next ∙ e) l,
        ))

quotient-le : (d n : ℕ) → 0 < n → d / n ≤ d
quotient-le d n z = grind arith

-- The loops of `stride` threads, of which thread `t` starts at `base + t`, meet an item from
-- `base` on and below the limit once.
module _ (x c at : ℕ) (body : ℕ → List Visit)
    (only : (k : ℕ) → hits x (body k) ≡ (if k == at then c else 0)) (rounds limit stride base : ℕ)
    (z : 0 < stride) (enough : limit ≤ rounds) where
  one_thread :
      (t : ℕ)
      → t < stride
      → base ≤ at
      → at < limit
      → hits x (strided rounds limit stride (base + t) body)
        ≡ (if t == (at - base) % stride then c else 0)
  one_thread t lt lb ll =
      let d = at - base in
      let all : (d / stride) * stride + d % stride ≡ d = whole stride d in
      elim (Bool-cases (t == d % stride)) [
        | inl e ↦
            let first : t ≡ d % stride = ==-eq t (d % stride) e in
            rw e (
              found x c at body only rounds limit stride (base + t) (d / stride) z
                (omega (arith, quotient-le d stride z, enough, ll, lb))
                (omega (arith, all, first, lb)) ll)
        | inr e ↦ rw e (
            missed x c at body only rounds limit stride (base + t) (λ r e'.
              let same =
                digits stride r (d / stride) t (d % stride) lt (mod-lt d z)
                  (omega (arith, all, e', lb)) in
              absurd (cc (e, ==_refl t, same.1))))
      ]

  early_threads : (t : ℕ) → at < base → hits x (strided rounds limit stride (base + t) body) ≡ 0
  early_threads t before =
      missed x c at body only rounds limit stride (base + t)
        (λ r e. absurd (omega (arith, e, before)))

full : (a n c : ℕ) → a < n → (if ltb a n then c else 0) ≡ c
full a n c l = rw (lt→ltb a n l)

-- The threads together.
pub hits-threads :
    (x c at : ℕ) (body : ℕ → List Visit)
    → ((k : ℕ) → hits x (body k) ≡ (if k == at then c else 0))
    → (rounds limit stride base : ℕ) → 0 < stride
    → limit ≤ rounds
    → hits x (for_each stride (λ t. strided rounds limit stride (base + t) body))
      ≡ (if leb base at then if ltb at limit then c else 0 else 0)
hits-threads x c at body only rounds limit stride base z enough = elim (Bool-cases (leb base at)) [
  | inl e ↦ rw e (elim (Bool-cases (ltb at limit)) [
    | inl l ↦
        let first = (at - base) % stride in
        rw l (
          hits-for_each x c first stride (λ t. strided rounds limit stride (base + t) body)
            (λ t lt.
              one_thread x c at body only rounds limit stride base z enough t lt (leb→le base at e)
                (ltb→lt at limit l))
          ∙ full first stride c (mod-lt (at - base) z))
    | inr l ↦ rw l (
        hits-for_each_none x stride (λ t. strided rounds limit stride (base + t) body)
          (λ t. past x c at body only rounds limit stride (base + t) (ground arith)))
  ])
  | inr e ↦ rw e (
      hits-for_each_none x stride (λ t. strided rounds limit stride (base + t) body)
        (λ t. early_threads x c at body only rounds limit stride base z enough t (ground arith)))
]
