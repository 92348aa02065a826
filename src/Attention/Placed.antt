-- ===== src/Attention/Placed.antt =====
-- The visits of `paged_attention_v1_kernel` are known by their positions.
use cache_flow.Base.{
  ℕ, zero, suc, ◌+◌, ◌-◌, ◌*◌, ◌/◌, ◌%◌, ◌≤◌, ◌<◌, ◌≡◌, ltb, leb, Bool-cases, List, All, All-append,
  inl, inr, arith,
}
use cache_flow.Kernels.Grid.{for_each, strided}
use cache_flow.Attention.{Visit, position, tokens_v1, visits_v1}
use cache_flow.Attention.Softmax.{warp_visits}

-- The visit of a position.
abbrev pub visit_at : ℕ → Visit
visit_at t = record { block = t / 16; off = t % 16 }

abbrev pub IsPlaced : Visit → Type 0
IsPlaced v = v ≡ visit_at (position v)

pub off-IsPlaced : (block off : ℕ) → off < 16 → IsPlaced (record { block = block; off = off })
off-IsPlaced block off l =
    let quotient : block ≡ (block * 16 + off) / 16 = omega (arith, l) in
    let rest : off ≡ (block * 16 + off) % 16 = omega (arith, l) in
    λ i. record { block = quotient i; off = rest i }

tokens_v1-IsPlaced :
    (k ctx_len block off : ℕ) → off + k ≤ 16 → All IsPlaced (tokens_v1 k ctx_len block off)
unfolding tokens_v1
tokens_v1-IsPlaced zero ctx_len block off h = tt
tokens_v1-IsPlaced (suc k) ctx_len block off h =
    elim (Bool-cases (leb ctx_len (block * 16 + off))) [
      | inl e ↦ rw (e, tokens_v1) tt
      | inr e ↦
          rw (e, tokens_v1)
            (
              off-IsPlaced block off (omega (arith, h)),
              tokens_v1-IsPlaced k ctx_len block (suc off) (omega (arith, h)),
            )
    ]

pub strided-All :
    (P : Visit → Type 0) (k limit stride i : ℕ) (body : ℕ → List Visit)
    → ((j : ℕ) → All P (body j))
    → All P (strided k limit stride i body)
unfolding strided
strided-All P zero limit stride i body h = tt
strided-All P (suc k) limit stride i body h = elim (Bool-cases (ltb i limit)) [
  | inl e ↦
      rw (e, strided)
        (All-append P (body i) (strided k limit stride (i + stride) body) (h i)
          (strided-All P k limit stride (i + stride) body h))
  | inr e ↦ rw (e, strided) tt
]

pub warp_visits-IsPlaced : (ctx_len warp : ℕ) → All IsPlaced (warp_visits ctx_len warp)
unfolding warp_visits
warp_visits-IsPlaced ctx_len warp =
    let num_blocks = (ctx_len + 16 - 1) / 16 in
    strided-All IsPlaced num_blocks num_blocks 4 warp (λ block. tokens_v1 16 ctx_len block 0)
      (λ block. tokens_v1-IsPlaced 16 ctx_len block 0 (omega arith))

for_each-IsPlaced :
    (n : ℕ) (body : ℕ → List Visit)
    → ((k : ℕ) → All IsPlaced (body k))
    → All IsPlaced (for_each n body)
unfolding for_each
for_each-IsPlaced zero body h = tt
for_each-IsPlaced (suc n) body h =
    All-append IsPlaced (for_each n body) (body n) (for_each-IsPlaced n body h) (h n)

pub visits_v1-IsPlaced : (ctx_len : ℕ) → All IsPlaced (visits_v1 ctx_len)
unfolding visits_v1 warp_visits
visits_v1-IsPlaced ctx_len =
    for_each-IsPlaced 4 (warp_visits ctx_len) (warp_visits-IsPlaced ctx_len)
