-- ===== src/Attention/Reference.antt =====
-- The attention of one sequence and one head, to which `paged_attention_v1_kernel` is compared.
use cache_flow.Base.{ℕ}
use cache_flow.Base.Sums.{sum, below}
use cache_flow.Platform.{Platform, max}
use cache_flow.Attention.{PagedAttentionParams}
use cache_flow.Attention.Softmax.{Arrays, query_at, key_at, value_at}
use cache_flow.Attention.Placed.{visit_at}

module _ (platform : Platform) where
  open platform use {Double, nought, least, epsilon, count, plus, minus, times as mul, over, exp}

  -- The attention of one sequence and one head, with no grid, no blocks and no partial sums.
  module _ (p : PagedAttentionParams) (arrays : Arrays platform) (seq head ctx_len : ℕ) where
    abbrev pub score : ℕ → Double
    score t =
        mul
          (sum plus nought
            (λ d.
              mul (query_at platform p arrays seq head d)
                (key_at platform p arrays seq head (visit_at t) d))
            (below p.head_dim))
          arrays.scale

    abbrev pub top_score : Double
    top_score = sum (max platform) least score (below ctx_len)

    abbrev pub weight : ℕ → Double
    weight t = exp (minus (score t) top_score)

    abbrev pub contribution : (d : ℕ) → ℕ → Double
    contribution d t =
        let norm = over (count 1) (plus (sum plus nought weight (below ctx_len)) epsilon) in
        mul (mul (weight t) norm) (value_at platform p arrays seq head (visit_at t) d)

    abbrev pub attention : (d : ℕ) → Double
    attention d = sum plus nought (contribution d) (below ctx_len)
