-- ===== src/Attention/Totals.antt =====
-- src/cacheflow/cuda/paged_attention.cu: what the warps of `paged_attention_v1_kernel` come to
-- together.
use cache_flow.Base.{
  ℕ, ◌≤◌, ◌<◌, ◌≡◌, refl, ap, ◌∙◌, true, ltb, ◌==◌, if◌then◌else◌, Bool-cases, inl, inr, arith,
  fun_ext, List,
}
use cache_flow.Base.Count.{times}
use cache_flow.Base.Sums.{IsCommutative, sum, sum-ext, times-below_lt, below}
use cache_flow.Base.Repeats.{sum_padded, sum_const, sum_first}
use cache_flow.Platform.{Platform, max}
use cache_flow.Attention.{PagedAttentionParams, visits_v1}
use cache_flow.Attention.Warp.{warp_reduce_sum, warp_reduce_max, warp_reduce-sum}
use cache_flow.Attention.Softmax.{
  Arrays, warp_visits, query_at, key_at, value_at, dot, add_strided, lane_max, add_weights,
  local_out, block_max, scores, weights, block_sum, inv_sum,
}
use cache_flow.Attention.Race.{Access, InStep}
use cache_flow.Attention.Positions.{
  positions, indices, sum-threads, sum-warps, times-visits_v1, times-warp_visits,
}
use cache_flow.Attention.Placed.{visit_at, warp_visits-IsPlaced, visits_v1-IsPlaced}
use cache_flow.Attention.Passes.{
  if_true, add_strided-sum, lane_max-sum, local_out-sum, write_qk-at, write_weights-at,
  add_weights-sum,
}
use cache_flow.Attention.Reference.{score, top_score, weight, contribution}

pub max_self : (platform : Platform) (x : platform.Double) → max platform x x ≡ x
max_self platform x = elim (Bool-cases (platform.less x x)) [
  | inl e ↦ rw e refl
  | inr e ↦ rw e refl
]

module _ (platform : Platform)
    (sums : IsCommutative (platform.Double) (platform.plus) (platform.nought))
    (maxima : IsCommutative (platform.Double) (max platform) (platform.least))
    (p : PagedAttentionParams) (arrays : Arrays platform) (seq head : ℕ) where
  open platform use {Double, nought, least, epsilon, count, plus, minus, times as mul, over, exp}

  pub dot-score :
      (t lane : ℕ)
      → lane < 32
      → dot platform p arrays seq head (visit_at t) lane ≡ score platform p arrays seq head 0 t
  unfolding dot warp_reduce_sum
  dot-score t lane l =
      let f : ℕ → Double = λ d.
        mul (query_at platform p arrays seq head d)
          (key_at platform p arrays seq head (visit_at t) d) in
      let thread : ℕ → Double = λ k. add_strided platform p.head_dim p.head_dim 32 k f nought in
      ap (λ (a : Double). mul a arrays.scale)
        (warp_reduce-sum plus nought sums thread lane l
          ∙ ap (λ (g : ℕ → Double). sum plus nought g (below 32))
              (fun_ext (λ k.
                add_strided-sum platform sums p.head_dim p.head_dim 32 k f nought
                ∙ sums.left (sum plus nought f (indices p.head_dim 32 k))))
          ∙ sum-threads plus nought sums f p.head_dim 32 (omega arith))

  module _ (ctx_len : ℕ) where
    warp_max :
        (warp : ℕ)
        → warp_reduce_max platform
            (λ lane. lane_max platform p arrays seq head lane (warp_visits ctx_len warp) least)
            0
          ≡ sum
              (max platform)
              least
              (score platform p arrays seq head ctx_len)
              (positions (warp_visits ctx_len warp))
    unfolding warp_reduce_max
    warp_max warp =
        let visits = warp_visits ctx_len warp in
        let f : ℕ → Double = score platform p arrays seq head ctx_len in
        let value : ℕ → Double = λ lane. lane_max platform p arrays seq head lane visits least in
        warp_reduce-sum (max platform) least maxima value 0 (omega arith)
        ∙ sum-ext (max platform) least value (λ lane. sum (max platform) least f (positions visits))
            (below 32)
            (λ lane l.
              lane_max-sum platform p arrays seq head maxima lane visits least
                (warp_visits-IsPlaced ctx_len warp)
              ∙ maxima.left (
                  sum (max platform) least (λ t. dot platform p arrays seq head (visit_at t) lane)
                    (positions visits))
              ∙ ap (λ (g : ℕ → Double). sum (max platform) least g (positions visits))
                  (fun_ext (λ t. dot-score t lane (times-below_lt lane 32 l))))
        ∙ sum_const (max platform) least maxima (sum (max platform) least f (positions visits))
            (max_self platform (sum (max platform) least f (positions visits))) 31

    block_max-top_score :
        block_max platform p arrays seq head ctx_len ≡ top_score platform p arrays seq head ctx_len
    unfolding block_max warp_reduce_max
    block_max-top_score =
        let f : ℕ → Double = score platform p arrays seq head ctx_len in
        let smem_max : ℕ → Double = λ warp.
          warp_reduce_max platform
            (λ lane. lane_max platform p arrays seq head lane (warp_visits ctx_len warp) least) 0 in
        warp_reduce-sum (max platform) least maxima
          (λ lane. if ltb lane 4 then smem_max lane else least) 0 (omega arith)
        ∙ sum_padded (max platform) least maxima smem_max 4 32 (omega arith)
        ∙ ap (λ (g : ℕ → Double). sum (max platform) least g (below 4)) (fun_ext warp_max)
        ∙ sum-warps (max platform) least maxima f ctx_len

    -- A context that fits in `smem_qk`, and warps whose lanes go in step.
    module _ (fits : ctx_len ≤ 128) (races : ℕ → List Access) (calm : (x : ℕ) → InStep (races x))
        (smem : ℕ → Double) where
      visited : (t : ℕ) → t < ctx_len → ltb 0 (times t (positions (visits_v1 ctx_len))) ≡ true
      visited t l = ground (arith, times-visits_v1 t ctx_len)

      scores-score :
          (t : ℕ)
          → t < ctx_len
          → scores platform p arrays seq head ctx_len smem t
            ≡ score platform p arrays seq head ctx_len t
      unfolding scores
      scores-score t l =
          write_qk-at platform p arrays seq head (visits_v1 ctx_len) smem t (omega (arith, l, fits))
            (visits_v1-IsPlaced ctx_len)
          ∙ if_true (ltb 0 (times t (positions (visits_v1 ctx_len))))
              (dot platform p arrays seq head (visit_at t) 0) (smem t) (visited t l)
          ∙ dot-score t 0 (omega arith)

      scaled :
          (t : ℕ)
          → t < ctx_len
          → exp (
              minus
                (scores platform p arrays seq head ctx_len smem t)
                (block_max platform p arrays seq head ctx_len))
            ≡ weight platform p arrays seq head ctx_len t
      scaled t l = λ i. exp (minus (scores-score t l i) (block_max-top_score i))

      weights-weight :
          (t : ℕ)
          → t < ctx_len
          → weights platform p arrays seq head ctx_len races smem t
            ≡ weight platform p arrays seq head ctx_len t
      unfolding weights
      weights-weight t l =
          let scored = scores platform p arrays seq head ctx_len smem in
          let top = block_max platform p arrays seq head ctx_len in
          write_weights-at platform p arrays seq head races calm top (visits_v1 ctx_len) scored t
            (omega (arith, l, fits)) (λ x. ground (arith, times-visits_v1 x ctx_len))
          ∙ if_true (ltb 0 (times t (positions (visits_v1 ctx_len)))) (exp (minus (scored t) top))
              (scored t) (visited t l)
          ∙ scaled t l

      in_context :
          (x warp : ℕ) → warp < 4 → 0 < times x (positions (warp_visits ctx_len warp)) → x < ctx_len
      in_context x warp l h = ground (arith, times-warp_visits x ctx_len warp l)

      warp_sum :
          (warp : ℕ)
          → warp < 4
          → warp_reduce_sum platform
              (λ lane.
                if lane == 0
                then add_weights platform p arrays seq head races
                    (block_max platform p arrays seq head ctx_len)
                    (warp_visits ctx_len warp)
                    (scores platform p arrays seq head ctx_len smem)
                    nought
                else nought)
              0
            ≡ sum plus nought
                (weight platform p arrays seq head ctx_len)
                (positions (warp_visits ctx_len warp))
      unfolding warp_reduce_sum
      warp_sum warp l =
          let visits = warp_visits ctx_len warp in
          let scored = scores platform p arrays seq head ctx_len smem in
          let top = block_max platform p arrays seq head ctx_len in
          let added = add_weights platform p arrays seq head races top visits scored nought in
          let raw : ℕ → Double = λ t. exp (minus (scored t) top) in
          warp_reduce-sum plus nought sums (λ lane. if lane == 0 then added else nought) 0
            (omega arith)
          ∙ sum_first plus nought sums added 32 (omega arith)
          ∙ add_weights-sum platform p arrays seq head sums races calm top visits scored nought
              (λ x. ground (arith, times-warp_visits x ctx_len warp l))
          ∙ sums.left (sum plus nought raw (positions visits))
          ∙ sum-ext plus nought raw (weight platform p arrays seq head ctx_len) (positions visits)
              (λ x h. scaled x (in_context x warp l h))

      block_sum-weight :
          block_sum platform p arrays seq head ctx_len races smem
          ≡ sum plus nought (weight platform p arrays seq head ctx_len) (below ctx_len)
      unfolding block_sum warp_reduce_sum
      block_sum-weight =
          let f : ℕ → Double = weight platform p arrays seq head ctx_len in
          let smem_sum : ℕ → Double = λ warp.
            warp_reduce_sum platform
              (λ lane.
                if lane == 0
                then add_weights platform p arrays seq head races
                    (block_max platform p arrays seq head ctx_len) (warp_visits ctx_len warp)
                    (scores platform p arrays seq head ctx_len smem) nought
                else nought)
              0 in
          warp_reduce-sum plus nought sums (λ lane. if ltb lane 4 then smem_sum lane else nought) 0
            (omega arith)
          ∙ sum_padded plus nought sums smem_sum 4 32 (omega arith)
          ∙ sum-ext plus nought smem_sum
              (λ warp. sum plus nought f (positions (warp_visits ctx_len warp))) (below 4)
              (λ warp h. warp_sum warp (times-below_lt warp 4 h))
          ∙ sum-warps plus nought sums f ctx_len

      pub warp_out :
          (d warp : ℕ)
          → warp < 4
          → local_out platform p arrays seq head
              (inv_sum platform p arrays seq head ctx_len races smem)
              (weights platform p arrays seq head ctx_len races smem)
              d
              (warp_visits ctx_len warp)
              nought
            ≡ sum plus nought
                (contribution platform p arrays seq head ctx_len d)
                (positions (warp_visits ctx_len warp))
      unfolding inv_sum
      warp_out d warp l =
          let visits = warp_visits ctx_len warp in
          let norm = inv_sum platform p arrays seq head ctx_len races smem in
          let weighed = weights platform p arrays seq head ctx_len races smem in
          let value : ℕ → Double = λ t. value_at platform p arrays seq head (visit_at t) d in
          let raw : ℕ → Double = λ t. mul (mul (weighed t) norm) (value t) in
          local_out-sum platform p arrays seq head sums norm weighed d visits nought
            (warp_visits-IsPlaced ctx_len warp)
          ∙ sums.left (sum plus nought raw (positions visits))
          ∙ sum-ext plus nought raw (contribution platform p arrays seq head ctx_len d)
              (positions visits)
              (λ x h i.
                mul
                  (mul (weights-weight x (in_context x warp l h) i)
                    (over (count 1) (plus (block_sum-weight i) epsilon)))
                  (value x))
