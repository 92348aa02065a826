-- ===== src/Attention/Exact.antt =====
-- src/cacheflow/cuda/paged_attention.cu: `paged_attention_v1_kernel`, beside the attention of the
-- context.
use cache_flow.Base.{ℕ, ◌≤◌, ◌≡◌, ◌∙◌, true, List}
use cache_flow.Base.Sums.{
  IsCommutative, sum, sum-ext, sum-same_elements, times-below_lt, same_elements, below,
}
use cache_flow.Platform.{Platform, max}
use cache_flow.Attention.{PagedAttentionParams}
use cache_flow.Attention.Softmax.{
  Arrays, warp_visits, local_out, weights, inv_sum, paged_attention_v1,
}
use cache_flow.Attention.Race.{Access, InStep}
use cache_flow.Attention.Positions.{positions, sum-warps}
use cache_flow.Attention.Passes.{add_all-sum}
use cache_flow.Attention.Reference.{contribution, attention}
use cache_flow.Attention.Totals.{warp_out}

-- If addition and maximum are associative and commutative, with 0 and -FLT_MAX as units, as they
-- are without rounding where no number is less than -FLT_MAX, the kernel computes for every element of the output the sum of the values
-- of the context, each weighed by the exponential of its score, less the greatest score, over the
-- sum of all exponentials and 1e-8; the score of a position is the scaled product of its key with
-- the query. This holds for a context that fits in `smem_qk`, whatever that held before, for any
-- order in which the four warps add up, and if the lanes of each warp go in step, which the code
-- itself does not ensure: all 32 load a score before any of them stores its weight over it.
pub paged_attention_v1-attention :
    (platform : Platform) (p : PagedAttentionParams) (arrays : Arrays platform)
    (seq head ctx_len d : ℕ) (races : ℕ → List Access) (smem : ℕ → platform.Double) (warps : List ℕ)
    → IsCommutative platform.Double platform.plus platform.nought
    → IsCommutative platform.Double (max platform) platform.least
    → ctx_len ≤ 128
    → ((t : ℕ) → InStep (races t))
    → same_elements warps (below 4) ≡ true
    → paged_attention_v1 platform p arrays seq head ctx_len races smem warps d
      ≡ attention platform p arrays seq head ctx_len d
unfolding paged_attention_v1
paged_attention_v1-attention platform p arrays seq head ctx_len d races smem warps sums maxima fits
      calm order =
    let plus = platform.plus in
    let nought = platform.nought in
    let f : ℕ → platform.Double = contribution platform p arrays seq head ctx_len d in
    let out : ℕ → platform.Double = λ warp.
      local_out platform p arrays seq head (inv_sum platform p arrays seq head ctx_len races smem)
        (weights platform p arrays seq head ctx_len races smem) d (warp_visits ctx_len warp)
        nought in
    add_all-sum platform sums p arrays seq head out warps nought
    ∙ sums.left (sum plus nought out warps)
    ∙ sum-same_elements plus nought sums out warps (below 4) order
    ∙ sum-ext plus nought out (λ warp. sum plus nought f (positions (warp_visits ctx_len warp)))
        (below 4)
        (λ warp h.
          warp_out platform sums maxima p arrays seq head ctx_len fits races calm smem d warp
            (times-below_lt warp 4 h))
    ∙ sum-warps plus nought sums f ctx_len
