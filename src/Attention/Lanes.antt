-- ===== src/Attention/Lanes.antt =====
-- What each lane of a partition of `paged_attention_v2_kernel` comes to.
use cache_flow.Base.{ℕ, ◌<◌, ◌≡◌, refl, inr, sym, ap, ◌∙◌, List, [], ◌∷◌, All, fun_ext}
use cache_flow.Base.Sums.{sum, sum-ext, below, times-below_lt}
use cache_flow.Base.Repeats.{sum_const}
use cache_flow.Platform.{Platform, max}
use cache_flow.Attention.{PagedAttentionParams, Visit, position}
use cache_flow.Attention.Warp.{warp_reduce_max, warp_reduce-sum}
use cache_flow.Attention.Softmax.{Arrays, dot, value_at}
use cache_flow.Attention.Reference.{score}
use cache_flow.Attention.Totals.{dot-score, max_self}
use cache_flow.Attention.Placed.{visit_at, IsPlaced}
use cache_flow.Attention.Positions.{positions}
use cache_flow.Attention.Running.{Partial, no_partial, part_visits, partial, warp_max}
use cache_flow.Attention.Parts.{
  part_positions, part_visits-IsPlaced, IsWithin, part_visits-IsWithin,
}
use cache_flow.Attention.Online.{
  IsExact, IsProper, HasScore, attend_visits-max, attend_visits-sum, attend_visits-out,
}

module _ (platform : Platform) where
  open platform use {Double, nought, least, plus, minus, times as mul, exp}

  module _ (p : PagedAttentionParams) (arrays : Arrays platform) (seq head ctx_len part : ℕ) where
    -- The greatest score of a partition, and the weights of its positions.
    abbrev pub part_top : Double
    part_top =
        sum (max platform) least (score platform p arrays seq head ctx_len)
          (part_positions ctx_len part)

    abbrev pub part_weight : ℕ → Double
    part_weight t = exp (minus (score platform p arrays seq head ctx_len t) part_top)

module _ (platform : Platform) (exact : IsExact platform) (p : PagedAttentionParams)
    (arrays : Arrays platform) (seq head ctx_len part : ℕ) where
  open platform use {Double, nought, least, plus, minus, times as mul, exp}

  abbrev pub scores : ℕ → Double
  scores t = score platform p arrays seq head ctx_len t

  abbrev pub visited : ℕ → List ℕ
  visited warp = positions (part_visits ctx_len part warp)

  abbrev pub value : ℕ → ℕ → Double
  value d t = value_at platform p arrays seq head (visit_at t) d

  -- The greatest score of a warp.
  abbrev pub top : ℕ → Double
  top warp = sum (max platform) least scores (visited warp)

  abbrev pub held : (warp lane d : ℕ) → Partial platform
  held warp lane d = partial platform p arrays seq head ctx_len part warp lane d

  -- Every score of the context is a score.
  abbrev pub Scored : Type 0
  Scored = (t : ℕ) → t < ctx_len → IsProper platform exact (scores t)

  seen : (lane : ℕ) → lane < 32 → (λ t. dot platform p arrays seq head (visit_at t) lane) ≡ scores
  seen lane l = fun_ext (λ t. dot-score platform exact.sums exact.maxima p arrays seq head t lane l)

  partial-max : (warp lane d : ℕ) → lane < 32 → (held warp lane d).local_max ≡ top warp
  unfolding partial
  partial-max warp lane d l =
      attend_visits-max platform exact p arrays seq head lane d (part_visits ctx_len part warp)
        (no_partial platform) (part_visits-IsPlaced ctx_len part warp)
      ∙ exact.maxima.left (
          sum (max platform) least (λ t. dot platform p arrays seq head (visit_at t) lane)
            (visited warp))
      ∙ ap (λ (g : ℕ → Double). sum (max platform) least g (visited warp)) (seen lane l)

  has_scores :
      (lane : ℕ) (vs : List Visit)
      → lane < 32
      → Scored
      → All IsPlaced vs
      → All (IsWithin ctx_len) vs
      → All (HasScore platform exact p arrays seq head lane 0) vs
  has_scores lane [] l scored h w = tt
  has_scores lane (v ∷ vs) l scored h w = (
    (λ gone. scored (position v) w.0 (
        sym (ap (λ (f : ℕ → Double). f (position v)) (seen lane l))
        ∙ sym (ap (λ (u : Visit). dot platform p arrays seq head u lane) h.0)
        ∙ gone)),
    has_scores lane vs l scored h.1 w.1,
  )

  from_nothing : (a b : Double) → plus (mul nought a) b ≡ b
  from_nothing a b = ap (λ (c : Double). plus c b) (exact.vanish a) ∙ exact.sums.left b

  pub partial-sum :
      (warp lane d : ℕ)
      → lane < 32
      → Scored
      → (held warp lane d).local_sum
        ≡ sum plus nought (λ t. exp (minus (scores t) (top warp))) (visited warp)
  unfolding partial
  partial-sum warp lane d l scored =
      let last = (held warp lane d).local_max in
      let dots : ℕ → Double = λ t. dot platform p arrays seq head (visit_at t) lane in
      attend_visits-sum platform exact p arrays seq head lane d (part_visits ctx_len part warp)
        (no_partial platform) (part_visits-IsPlaced ctx_len part warp)
        (has_scores lane (part_visits ctx_len part warp) l scored
          (part_visits-IsPlaced ctx_len part warp) (part_visits-IsWithin ctx_len part warp))
        (inr refl)
      ∙ from_nothing (exp (minus least last))
          (sum plus nought (λ t. exp (minus (dots t) last)) (visited warp))
      ∙ (λ i.
          sum plus nought (λ t. exp (minus (seen lane l i t) (partial-max warp lane d l i)))
            (visited warp))

  pub partial-out :
      (warp lane d : ℕ)
      → lane < 32
      → Scored
      → (held warp lane d).local_out
        ≡ sum plus nought (λ t. mul (exp (minus (scores t) (top warp))) (value d t)) (visited warp)
  unfolding partial
  partial-out warp lane d l scored =
      let last = (held warp lane d).local_max in
      let dots : ℕ → Double = λ t. dot platform p arrays seq head (visit_at t) lane in
      attend_visits-out platform exact p arrays seq head lane d (part_visits ctx_len part warp)
        (no_partial platform) (part_visits-IsPlaced ctx_len part warp)
        (has_scores lane (part_visits ctx_len part warp) l scored
          (part_visits-IsPlaced ctx_len part warp) (part_visits-IsWithin ctx_len part warp))
        (inr refl)
      ∙ from_nothing (exp (minus least last))
          (sum plus nought (λ t. mul (exp (minus (dots t) last)) (value d t)) (visited warp))
      ∙ (λ i.
          sum plus nought
            (λ t. mul (exp (minus (seen lane l i t) (partial-max warp lane d l i))) (value d t))
            (visited warp))

  pub warp_max-top :
      (warp lane : ℕ)
      → lane < 32
      → warp_max platform p arrays seq head ctx_len part warp lane ≡ top warp
  unfolding warp_max warp_reduce_max
  warp_max-top warp lane l =
      let value' : ℕ → Double = λ k. (held warp k 0).local_max in
      warp_reduce-sum (max platform) least exact.maxima value' lane l
      ∙ sum-ext (max platform) least value' (λ k. top warp) (below 32)
          (λ k h. partial-max warp k 0 (times-below_lt k 32 h))
      ∙ sum_const (max platform) least exact.maxima (top warp) (max_self platform (top warp)) 31
