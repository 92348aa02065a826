-- ===== src/Attention/Softmax.antt =====
-- src/cacheflow/cuda/paged_attention.cu: the arithmetic of `paged_attention_v1_kernel`, for one
-- sequence and one head.
--
-- Between two barriers the warps touch different elements of the shared memory: it is given as what
-- all of them have written in turn, and a warp reads what it wrote itself. In the second loop all
-- lanes of a warp read and write the same elements, in an order that the code leaves open: `races`
-- gives for each element the order of its accesses, and accesses to different elements commute. A
-- write past the end of `smem_qk` is undefined, and is lost here.
use cache_flow.Base.{
  ℕ, zero, suc, ◌+◌, ◌-◌, ◌*◌, ◌/◌, ◌==◌, ltb, if◌then◌else◌, ◌&&◌, List, [], ◌∷◌,
}
use cache_flow.Platform.{Platform, max}
use cache_flow.Kernels.Grid.{strided}
use cache_flow.Attention.{
  PagedAttentionParams, Visit, position, tokens_per_block, num_warps, tokens_v1, visits_v1,
  vector_offset,
}
use cache_flow.Attention.Race.{Access, race}
use cache_flow.Attention.Warp.{warp_reduce_sum, warp_reduce_max}

-- The size of `smem_qk`, NUM_THREADS.
abbrev pub qk_size : ℕ
qk_size = 128

-- The blocks of a warp of `paged_attention_v1_kernel`, in its order.
unfoldable pub warp_visits : (ctx_len warp : ℕ) → List Visit
unfolding tokens_v1
warp_visits ctx_len warp =
    let num_blocks = (ctx_len + tokens_per_block - 1) / tokens_per_block in
    strided num_blocks num_blocks num_warps warp
      (λ block. tokens_v1 tokens_per_block ctx_len block 0)

module _ (platform : Platform) where
  open platform use {Double, nought, least, epsilon, count, plus, minus, times, over, exp}

  -- The arrays of a launch, and its factor.
  pub record Arrays : Type 0 where
    pub query : ℕ → Double
    pub key_cache : ℕ → Double
    pub value_cache : ℕ → Double
    pub block_tables : ℕ → ℕ
    pub scale : Double

  -- `for (d = i; d < limit; d += stride) acc += f(d)`.
  unfoldable pub add_strided : (rounds limit stride i : ℕ) → (ℕ → Double) → (acc : Double) → Double
  add_strided zero limit stride i f acc = acc
  add_strided (suc k) limit stride i f acc =
      let rest = add_strided k limit stride (i + stride) f (plus acc (f i)) in
      if ltb i limit then rest else acc

  module _ (p : PagedAttentionParams) (arrays : Arrays) (seq head : ℕ) where
    abbrev pub query_at : ℕ → Double
    query_at d = arrays.query ((seq * p.num_heads + head) * p.head_dim + d)

    unfoldable pub key_at : Visit → ℕ → Double
    unfolding vector_offset
    key_at v d = arrays.key_cache (vector_offset p arrays.block_tables seq head v + d)

    unfoldable pub value_at : Visit → ℕ → Double
    unfolding vector_offset
    value_at v d = arrays.value_cache (vector_offset p arrays.block_tables seq head v + d)

    -- `dot`, of the lane `lane`.
    unfoldable pub dot : Visit → (lane : ℕ) → Double
    unfolding add_strided key_at warp_reduce_sum
    dot v lane =
        times
          (warp_reduce_sum platform
            (λ l.
              add_strided p.head_dim p.head_dim 32 l (λ d. times (query_at d) (key_at v d)) nought)
            lane)
          arrays.scale

    unfoldable pub write : ℕ → Double → (ℕ → Double) → ℕ → Double
    write i x smem j = if ltb i qk_size && (i == j) then x else smem j

    -- The first loop: `smem_qk`, and `qk_max` of a lane.
    unfoldable pub write_qk : List Visit → (ℕ → Double) → ℕ → Double
    unfolding write dot
    write_qk [] smem = smem
    write_qk (v ∷ vs) smem = write_qk vs (write (position v) (dot v 0) smem)

    unfoldable pub lane_max : (lane : ℕ) → List Visit → (qk_max : Double) → Double
    unfolding dot
    lane_max lane [] qk_max = qk_max
    lane_max lane (v ∷ vs) qk_max = lane_max lane vs (max platform qk_max (dot v lane))

    -- The second loop: it writes the weights over the scores, and adds them up.
    unfoldable pub write_weights :
        (ℕ → List Access) → (qk_max : Double) → List Visit → (ℕ → Double) → ℕ → Double
    unfolding write race
    write_weights races qk_max [] smem = smem
    write_weights races qk_max (v ∷ vs) smem =
        let t = position v in
        write_weights races qk_max vs
          (write t (race platform qk_max (races t) (smem t)).qk_val smem)

    unfoldable pub add_weights :
        (ℕ → List Access)
        → (qk_max : Double) → List Visit
        → (ℕ → Double)
        → (exp_sum : Double) → Double
    unfolding write race
    add_weights races qk_max [] smem exp_sum = exp_sum
    add_weights races qk_max (v ∷ vs) smem exp_sum =
        let t = position v in
        let raced = race platform qk_max (races t) (smem t) in
        add_weights races qk_max vs (write t raced.qk_val smem) (plus exp_sum (raced.held 0))

    -- The third loop, for the element `d`, which one lane of each warp adds up.
    unfoldable pub local_out :
        (inv_sum : Double) → (ℕ → Double) → (d : ℕ) → List Visit → Double → Double
    unfolding value_at
    local_out inv_sum smem d [] out = out
    local_out inv_sum smem d (v ∷ vs) out =
        local_out inv_sum smem d vs
          (plus out (times (times (smem (position v)) inv_sum) (value_at v d)))

    -- The `atomicAdd`s of the warps, in the order in which they come.
    unfoldable pub add_all : (ℕ → Double) → List ℕ → Double → Double
    add_all f [] out = out
    add_all f (warp ∷ warps) out = add_all f warps (plus out (f warp))

    module _ (ctx_len : ℕ) where
      -- `smem_max[0]`, after each warp and then the first warp have reduced.
      unfoldable pub block_max : Double
      unfolding lane_max warp_reduce_max warp_visits
      block_max =
          let smem_max : ℕ → Double = λ warp.
            warp_reduce_max platform (λ lane. lane_max lane (warp_visits ctx_len warp) least) 0 in
          warp_reduce_max platform (λ lane. if ltb lane num_warps then smem_max lane else least) 0

      unfoldable pub scores : (ℕ → Double) → ℕ → Double
      unfolding write_qk
      scores smem = write_qk (visits_v1 ctx_len) smem

      unfoldable pub weights : (ℕ → List Access) → (ℕ → Double) → ℕ → Double
      unfolding write_weights block_max scores
      weights races smem = write_weights races block_max (visits_v1 ctx_len) (scores smem)

      -- `smem_sum[0]`: only the first lane of a warp adds.
      unfoldable pub block_sum : (ℕ → List Access) → (ℕ → Double) → Double
      unfolding add_weights warp_reduce_sum block_max scores warp_visits
      block_sum races smem =
          let smem_sum : ℕ → Double = λ warp.
            warp_reduce_sum platform
              (λ lane.
                if lane == 0
                then add_weights races block_max (warp_visits ctx_len warp) (scores smem) nought
                else nought)
              0 in
          warp_reduce_sum platform (λ lane. if ltb lane num_warps then smem_sum lane else nought) 0

      unfoldable pub inv_sum : (ℕ → List Access) → (ℕ → Double) → Double
      unfolding block_sum
      inv_sum races smem = over (count 1) (plus (block_sum races smem) epsilon)

      -- `out[d]`. `smem` is what `smem_qk` held before, and `warps` the order of the additions.
      unfoldable pub paged_attention_v1 :
          (races : ℕ → List Access) → (smem : ℕ → Double) → (warps : List ℕ) → (d : ℕ) → Double
      unfolding local_out add_all inv_sum weights warp_visits
      paged_attention_v1 races smem warps d =
          add_all
            (λ warp.
              local_out (inv_sum races smem) (weights races smem) d (warp_visits ctx_len warp)
                nought)
            warps nought
