-- ===== src/Attention/Running.antt =====
-- src/cacheflow/cuda/paged_attention.cu: the arithmetic of `paged_attention_v2_kernel`, for one
-- sequence, head and partition, and of `paged_attention_v2_reduce_kernel`.
--
-- The lanes of a warp go in step. The element `d` of `local_out` is held by one lane of each warp.
use cache_flow.Base.{
  ℕ, ◌+◌, ◌-◌, ◌*◌, ◌/◌, ◌%◌, min, leb, if◌then◌else◌, Option, none, some, List, [], ◌∷◌,
}
use cache_flow.Base.Sums.{below}
use cache_flow.Platform.{Platform, max}
use cache_flow.Kernels.Grid.{strided}
use cache_flow.Attention.{
  PagedAttentionParams, Visit, tokens_per_block, num_warps, partition_size, tokens_v2, num_parts,
}
use cache_flow.Attention.Warp.{warp_reduce_sum, warp_reduce_max}
use cache_flow.Attention.Softmax.{Arrays, dot, value_at}

-- The blocks of a warp of a partition, in its order.
unfoldable pub part_visits : (ctx_len part warp : ℕ) → List Visit
unfolding tokens_v2
part_visits ctx_len part warp =
    let start_tok = part * partition_size in
    let end_tok = min (start_tok + partition_size) ctx_len in
    let end_block = (end_tok + tokens_per_block - 1) / tokens_per_block in
    strided end_block end_block num_warps (start_tok / tokens_per_block + warp)
      (λ block. tokens_v2 tokens_per_block start_tok end_tok block 0)

module _ (platform : Platform) where
  open platform use {Double, nought, least, epsilon, plus, minus, times, over, exp}

  -- What a lane keeps: the greatest score, the sum of the weights, and an element of the output,
  -- on which the others do not depend.
  pub record Partial : Type 0 where
    pub local_max : Double
    pub local_sum : Double
    pub local_out : Double

  abbrev pub no_partial : Partial
  no_partial = record { local_max = least; local_sum = nought; local_out = nought }

  -- What a partition leaves in `max_logits`, `exp_sums` and an element of `tmp_output`.
  pub record Merged : Type 0 where
    pub max_logit : Double
    pub exp_sum : Double
    pub tmp_out : Double

  -- `gmax` and `total`: the loops over the warps.
  unfoldable pub fold_warps : (Double → Double → Double) → (ℕ → Double) → List ℕ → Double → Double
  fold_warps op f [] acc = acc
  fold_warps op f (w ∷ ws) acc = fold_warps op f ws (op acc (f w))

  module _ (p : PagedAttentionParams) (arrays : Arrays platform) (seq head : ℕ) where
    -- A round of the loop over the tokens.
    unfoldable pub attend : (lane d : ℕ) → Visit → Partial → Partial
    unfolding dot value_at
    attend lane d v st =
        let score : Double = dot platform p arrays seq head v lane in
        let new_max : Double = max platform st.local_max score in
        let correction : Double = exp (minus st.local_max new_max) in
        let w : Double = exp (minus score new_max) in
        record {
          local_max = new_max;
          local_sum = plus (times st.local_sum correction) w;
          local_out =
              plus (times st.local_out correction)
                (times w (value_at platform p arrays seq head v d));
        }

    unfoldable pub attend_visits : (lane d : ℕ) → List Visit → Partial → Partial
    unfolding attend
    attend_visits lane d [] st = st
    attend_visits lane d (v ∷ vs) st = attend_visits lane d vs (attend lane d v st)

    module _ (ctx_len part : ℕ) where
      -- What a lane holds after the loops.
      unfoldable pub partial : (warp lane d : ℕ) → Partial
      unfolding attend_visits part_visits
      partial warp lane d = attend_visits lane d (part_visits ctx_len part warp) no_partial

      -- `local_max` of a lane after the reduction of its warp.
      unfoldable pub warp_max : (warp lane : ℕ) → Double
      unfolding partial warp_reduce_max
      warp_max warp lane = warp_reduce_max platform (λ l. (partial warp l 0).local_max) lane

      unfoldable pub global_max : Double
      unfolding warp_max fold_warps
      global_max = fold_warps (max platform) (λ warp. warp_max warp 0) (below num_warps) least

      unfoldable pub correction_of : (warp lane : ℕ) → Double
      unfolding global_max
      correction_of warp lane = exp (minus (warp_max warp lane) global_max)

      -- `s_sum` of a warp.
      unfoldable pub warp_sum : (warp : ℕ) → Double
      unfolding correction_of warp_reduce_sum
      warp_sum warp =
          warp_reduce_sum platform (λ l. times (partial warp l 0).local_sum (correction_of warp l))
            0

      -- What the kernel leaves; `warps` is the order of the additions to `tmp_output`, which
      -- holds zeros. A partition past the context leaves nothing.
      unfoldable pub paged_attention_v2 : (warps : List ℕ) → (d : ℕ) → Option Merged
      unfolding warp_sum
      paged_attention_v2 warps d =
          if leb ctx_len (part * partition_size)
          then none
          else some (record {
            max_logit = global_max;
            exp_sum = fold_warps plus warp_sum (below num_warps) nought;
            tmp_out =
                fold_warps plus
                  (λ warp. times (partial warp (d % 32) d).local_out (correction_of warp (d % 32)))
                  warps nought;
          })

  -- The reduction over the partitions, for one element.
  unfoldable pub reduce_max : (ℕ → Merged) → List ℕ → Double
  unfolding fold_warps
  reduce_max parts ps = fold_warps (max platform) (λ p. (parts p).max_logit) ps least

  unfoldable pub reduce_v2 : (parts : ℕ → Merged) → (ctx_len : ℕ) → Double
  unfolding reduce_max
  reduce_v2 parts ctx_len =
      let ps = below (num_parts ctx_len) in
      let weight : ℕ → Double =
        λ p. times (parts p).exp_sum (exp (minus (parts p).max_logit (reduce_max parts ps))) in
      over (fold_warps plus (λ p. times (weight p) (parts p).tmp_out) ps nought)
        (plus (fold_warps plus weight ps nought) epsilon)
