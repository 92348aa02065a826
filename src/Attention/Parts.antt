-- ===== src/Attention/Parts.antt =====
-- The positions of a partition of `paged_attention_v2_kernel`.
use cache_flow.Base.{
  ℕ, zero, suc, ◌+◌, ◌-◌, ◌*◌, ◌/◌, ◌≤◌, ◌<◌, ◌≡◌, refl, sym, ap, ◌∙◌, false, min, ltb, leb, ◌==◌,
  ◌||◌, if◌then◌else◌, Bool-cases, ==-eq, List, [], ◌∷◌, map, All, inl, inr, arith,
}
use cache_flow.Base.Count.{times}
use cache_flow.Base.Sums.{
  IsCommutative, sum, sum-same_elements, times-same_elements, below, times-below,
}
use cache_flow.Kernels.Grid.{for_each}
use cache_flow.Attention.{Visit, position, tokens_v2, partition_v2}
use cache_flow.Attention.Hits.{hits}
use cache_flow.Attention.Visits.{hits-partition_v2}
use cache_flow.Attention.Placed.{IsPlaced, off-IsPlaced, strided-All}
use cache_flow.Attention.Positions.{positions, times-positions, map-for_each, sum-for_each}
use cache_flow.Attention.Running.{part_visits}

-- The positions from `part * 512` on, 512 at most, in the context.
abbrev pub part_positions : (ctx_len part : ℕ) → List ℕ
part_positions ctx_len part =
    map (λ i. part * 512 + i) (below (min (part * 512 + 512) ctx_len - part * 512))

times-shifted :
    (x start : ℕ) (ys : List ℕ)
    → times x (map (λ i. start + i) ys) ≡ (if leb start x then times (x - start) ys else 0)
unfolding times
times-shifted x start [] = ground arith
times-shifted x start (y ∷ ys) = ground (arith, times-shifted x start ys)

times-part_positions :
    (x ctx_len part : ℕ)
    → times x (part_positions ctx_len part)
      ≡ (if part == x / 512 then if ltb x ctx_len then 1 else 0 else 0)
times-part_positions x ctx_len part =
    let size = min (part * 512 + 512) ctx_len - part * 512 in
    times-shifted x (part * 512) (below size) ∙ ground (arith, times-below (x - part * 512) size)

pub part_positions_lt :
    (x ctx_len part : ℕ) → 0 < times x (part_positions ctx_len part) → x < ctx_len
part_positions_lt x ctx_len part h = ground (arith, times-part_positions x ctx_len part, h)

pub part_start :
    (ctx_len part : ℕ) → part * 512 < ctx_len → 0 < times (part * 512) (part_positions ctx_len part)
part_start ctx_len part h = ground (arith, times-part_positions (part * 512) ctx_len part, h)

tokens_v2-IsPlaced :
    (k start_tok end_tok block off : ℕ)
    → off + k ≤ 16
    → All IsPlaced (tokens_v2 k start_tok end_tok block off)
unfolding tokens_v2
tokens_v2-IsPlaced zero start_tok end_tok block off h = tt
tokens_v2-IsPlaced (suc k) start_tok end_tok block off h =
    let tok_pos = block * 16 + off in
    elim (Bool-cases (ltb tok_pos start_tok || leb end_tok tok_pos)) [
      | inl e ↦
          rw (e, tokens_v2)
            (tokens_v2-IsPlaced k start_tok end_tok block (suc off) (omega (arith, h)))
      | inr e ↦
          rw (e, tokens_v2)
            (
              off-IsPlaced block off (omega (arith, h)),
              tokens_v2-IsPlaced k start_tok end_tok block (suc off) (omega (arith, h)),
            )
    ]

pub part_visits-IsPlaced : (ctx_len part warp : ℕ) → All IsPlaced (part_visits ctx_len part warp)
unfolding part_visits
part_visits-IsPlaced ctx_len part warp =
    let start_tok = part * 512 in
    let end_tok = min (start_tok + 512) ctx_len in
    let end_block = (end_tok + 16 - 1) / 16 in
    strided-All IsPlaced end_block end_block 4 (start_tok / 16 + warp)
      (λ block. tokens_v2 16 start_tok end_tok block 0)
      (λ block. tokens_v2-IsPlaced 16 start_tok end_tok block 0 (omega arith))

-- A visit in the context.
abbrev pub IsWithin : ℕ → Visit → Type 0
IsWithin ctx_len v = position v < ctx_len

tokens_v2-IsWithin :
    (k start_tok end_tok block off ctx_len : ℕ)
    → end_tok ≤ ctx_len
    → All (IsWithin ctx_len) (tokens_v2 k start_tok end_tok block off)
unfolding tokens_v2
tokens_v2-IsWithin zero start_tok end_tok block off ctx_len h = tt
tokens_v2-IsWithin (suc k) start_tok end_tok block off ctx_len h =
    let tok_pos = block * 16 + off in
    let rest = tokens_v2-IsWithin k start_tok end_tok block (suc off) ctx_len h in
    elim (Bool-cases (ltb tok_pos start_tok || leb end_tok tok_pos)) [
      | inl e ↦ rw (e, tokens_v2) rest
      | inr e ↦ rw (e, tokens_v2) (ground (arith, e, h), rest)
    ]

pub part_visits-IsWithin :
    (ctx_len part warp : ℕ) → All (IsWithin ctx_len) (part_visits ctx_len part warp)
unfolding part_visits
part_visits-IsWithin ctx_len part warp =
    let start_tok = part * 512 in
    let end_tok = min (start_tok + 512) ctx_len in
    let end_block = (end_tok + 16 - 1) / 16 in
    strided-All (IsWithin ctx_len) end_block end_block 4 (start_tok / 16 + warp)
      (λ block. tokens_v2 16 start_tok end_tok block 0)
      (λ block. tokens_v2-IsWithin 16 start_tok end_tok block 0 ctx_len (ground arith))

pub within_lt :
    (x n : ℕ) (vs : List Visit) → All (IsWithin n) vs → 0 < times x (positions vs) → x < n
unfolding times
within_lt x n [] h l = absurd (omega (arith, l))
within_lt x n (v ∷ vs) h l = elim (Bool-cases (x == position v)) [
  | inl e ↦ omega (arith, ==-eq x (position v) e, h.0)
  | inr e ↦ within_lt x n vs h.1 (ground (arith, e, l))
]

-- The warps of a partition together.
warps_of :
    (ctx_len part : ℕ)
    → part * 512 < ctx_len
    → partition_v2 ctx_len part ≡ for_each 4 (part_visits ctx_len part)
unfolding partition_v2 part_visits
warps_of ctx_len part h =
    let open_part : leb ctx_len (part * 512) ≡ false = ground arith in
    rw (open_part, partition_v2) refl

module _ {ℓ} {A : Type ℓ} (op : A → A → A) (unit : A) (law : IsCommutative A op unit) where
  pub sum-parts :
      (f : ℕ → A) (ctx_len part : ℕ)
      → part * 512 < ctx_len
      → sum op unit (λ warp. sum op unit f (positions (part_visits ctx_len part warp))) (below 4)
        ≡ sum op unit f (part_positions ctx_len part)
  sum-parts f ctx_len part h =
      let all = for_each 4 (λ warp. positions (part_visits ctx_len part warp)) in
      sym (sum-for_each op unit law f 4 (λ warp. positions (part_visits ctx_len part warp)))
      ∙ sum-same_elements op unit law f all (part_positions ctx_len part) (
          times-same_elements all (part_positions ctx_len part) (λ x.
            sym (ap (times x) (map-for_each position 4 (part_visits ctx_len part)))
            ∙ times-positions x (for_each 4 (part_visits ctx_len part))
            ∙ sym (ap (λ vs. hits x vs) (warps_of ctx_len part h))
            ∙ hits-partition_v2 x ctx_len part
            ∙ sym (times-part_positions x ctx_len part)))
