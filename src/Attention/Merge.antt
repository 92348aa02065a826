-- ===== src/Attention/Merge.antt =====
-- src/cacheflow/cuda/paged_attention.cu: what `paged_attention_v2_kernel` leaves of a partition.
use cache_flow.Base.{
  ℕ, ◌*◌, ◌%◌, ◌<◌, ◌≡◌, sym, ap, ◌∙◌, true, false, leb, some, List, arith, fun_ext,
}
use native.Mathlib.Nat.{mod-lt}
use cache_flow.Base.Count.{times}
use cache_flow.Base.Sums.{sum, sum-ext, sum-same_elements, same_elements, below, times-below_lt}
use cache_flow.Base.Repeats.{sum_repeated}
use cache_flow.Platform.{Platform, max}
use cache_flow.Attention.{PagedAttentionParams, num_parts}
use cache_flow.Attention.Warp.{warp_reduce_sum, warp_reduce-sum}
use cache_flow.Attention.Softmax.{Arrays, value_at}
use cache_flow.Attention.Placed.{visit_at}
use cache_flow.Attention.Running.{
  Partial, part_visits, warp_max, global_max, correction_of, warp_sum, fold_warps,
  paged_attention_v2,
}
use cache_flow.Attention.Parts.{
  part_positions, sum-parts, within_lt, part_visits-IsWithin, part_positions_lt, part_start,
}
use cache_flow.Attention.Reference.{score}
use cache_flow.Attention.Online.{IsExact, IsProper, sum-IsProper, sum-mul, fold_warps-sum}
use cache_flow.Attention.Lanes
use cache_flow.Attention.Lanes.{part_top, part_weight, partial-sum, partial-out, warp_max-top}

module _ (platform : Platform) (exact : IsExact platform) (p : PagedAttentionParams)
    (arrays : Arrays platform) (seq head ctx_len part : ℕ) where
  open platform use {Double, nought, least, plus, minus, times as mul, exp}

  abbrev scores : ℕ → Double
  scores t = Lanes.scores platform exact p arrays seq head ctx_len part t

  abbrev visited : ℕ → List ℕ
  visited warp = Lanes.visited platform exact p arrays seq head ctx_len part warp

  abbrev value : ℕ → ℕ → Double
  value d t = Lanes.value platform exact p arrays seq head ctx_len part d t

  abbrev top : ℕ → Double
  top warp = Lanes.top platform exact p arrays seq head ctx_len part warp

  abbrev held : (warp lane d : ℕ) → Partial platform
  held warp lane d = Lanes.held platform exact p arrays seq head ctx_len part warp lane d

  module _ (inside : part * 512 < ctx_len)
      (scored : Lanes.Scored platform exact p arrays seq head ctx_len part) where
    abbrev part_max : Double
    part_max = part_top platform p arrays seq head ctx_len part

    abbrev weight : ℕ → Double
    weight t = part_weight platform p arrays seq head ctx_len part t

    global_max-part : global_max platform p arrays seq head ctx_len part ≡ part_max
    unfolding global_max
    global_max-part =
        let tops : ℕ → Double = λ warp. warp_max platform p arrays seq head ctx_len part warp 0 in
        fold_warps-sum platform exact (max platform) least exact.maxima tops (below 4) least
        ∙ exact.maxima.left (sum (max platform) least tops (below 4))
        ∙ ap (λ (g : ℕ → Double). sum (max platform) least g (below 4))
            (fun_ext (λ warp.
              warp_max-top platform exact p arrays seq head ctx_len part warp 0 (omega arith)))
        ∙ sum-parts (max platform) least exact.maxima scores ctx_len part inside

    -- The laws of exponentials for a position of a warp.
    chained :
        (warp t : ℕ)
        → 0 < times t (visited warp)
        → mul (exp (minus (scores t) (top warp))) (exp (minus (top warp) part_max)) ≡ weight t
    chained warp t h =
        let here : (x : ℕ) → 0 < times x (visited warp) → IsProper platform exact (scores x) =
          λ x l. scored x (
            within_lt x ctx_len (part_visits ctx_len part warp)
              (part_visits-IsWithin ctx_len part warp) l) in
        let inner : (x : ℕ)
            → 0 < times x (part_positions ctx_len part)
            → IsProper platform exact (scores x) =
          λ x l. scored x (part_positions_lt x ctx_len part l) in
        exact.chain (scores t) (top warp) part_max (here t h)
          (sum-IsProper platform exact scores t (visited warp) here h)
          (sum-IsProper platform exact scores (part * 512) (part_positions ctx_len part) inner
            (part_start ctx_len part inside))

    correction-part :
        (warp lane : ℕ)
        → lane < 32
        → correction_of platform p arrays seq head ctx_len part warp lane
          ≡ exp (minus (top warp) part_max)
    unfolding correction_of
    correction-part warp lane l = λ i. exp (
        minus (warp_max-top platform exact p arrays seq head ctx_len part warp lane l i)
          (global_max-part i))

    -- The sum of a lane, corrected.
    lane_sum :
        (warp lane : ℕ)
        → lane < 32
        → mul
            (held warp lane 0).local_sum
            (correction_of platform p arrays seq head ctx_len part warp lane)
          ≡ sum plus nought weight (visited warp)
    lane_sum warp lane l =
        let f : ℕ → Double = λ t. exp (minus (scores t) (top warp)) in
        (λ i.
          mul (partial-sum platform exact p arrays seq head ctx_len part warp lane 0 l scored i)
            (correction-part warp lane l i))
        ∙ sum-mul platform exact f (exp (minus (top warp) part_max)) (visited warp)
        ∙ sum-ext plus nought (λ t. mul (f t) (exp (minus (top warp) part_max))) weight
            (visited warp) (chained warp)

    lane_out :
        (warp lane d : ℕ)
        → lane < 32
        → mul
            (held warp lane d).local_out
            (correction_of platform p arrays seq head ctx_len part warp lane)
          ≡ sum plus nought (λ t. mul (weight t) (value d t)) (visited warp)
    lane_out warp lane d l =
        let e : ℕ → Double = λ t. exp (minus (scores t) (top warp)) in
        let c = exp (minus (top warp) part_max) in
        (λ i.
          mul (partial-out platform exact p arrays seq head ctx_len part warp lane d l scored i)
            (correction-part warp lane l i))
        ∙ sum-mul platform exact (λ t. mul (e t) (value d t)) c (visited warp)
        ∙ sum-ext plus nought (λ t. mul (mul (e t) (value d t)) c) (λ t. mul (weight t) (value d t))
            (visited warp)
            (λ t h.
              exact.assoc (e t) (value d t) c
              ∙ ap (mul (e t)) (exact.comm (value d t) c)
              ∙ sym (exact.assoc (e t) c (value d t))
              ∙ ap (λ (w : Double). mul w (value d t)) (chained warp t h))

    warp_sum-part :
        (warp : ℕ)
        → warp_sum platform p arrays seq head ctx_len part warp
          ≡ sum plus nought (λ lane. sum plus nought weight (visited warp)) (below 32)
    unfolding warp_sum warp_reduce_sum
    warp_sum-part warp =
        let f : ℕ → Double = λ l.
          mul (held warp l 0).local_sum
            (correction_of platform p arrays seq head ctx_len part warp l) in
        warp_reduce-sum plus nought exact.sums f 0 (omega arith)
        ∙ sum-ext plus nought f (λ lane. sum plus nought weight (visited warp)) (below 32)
            (λ lane h. lane_sum warp lane (times-below_lt lane 32 h))

    exp_sum-part :
        fold_warps platform plus (warp_sum platform p arrays seq head ctx_len part) (below 4) nought
        ≡ sum plus nought (λ lane. sum plus nought weight (part_positions ctx_len part)) (below 32)
    exp_sum-part =
        let per_warp : ℕ → Double = λ warp. sum plus nought weight (visited warp) in
        let f : ℕ → Double = warp_sum platform p arrays seq head ctx_len part in
        fold_warps-sum platform exact plus nought exact.sums f (below 4) nought
        ∙ exact.sums.left (sum plus nought f (below 4))
        ∙ ap (λ (g : ℕ → Double). sum plus nought g (below 4)) (fun_ext warp_sum-part)
        ∙ sum_repeated plus nought exact.sums per_warp (below 4) 32
        ∙ ap (λ (a : Double). sum plus nought (λ lane. a) (below 32))
            (sum-parts plus nought exact.sums weight ctx_len part inside)

    out-part :
        (warps : List ℕ) (d : ℕ)
        → same_elements warps (below 4) ≡ true
        → fold_warps platform plus
            (λ warp.
              mul
                (held warp (d % 32) d).local_out
                (correction_of platform p arrays seq head ctx_len part warp (d % 32)))
            warps
            nought
          ≡ sum plus nought (λ t. mul (weight t) (value d t)) (part_positions ctx_len part)
    out-part warps d order =
        let f : ℕ → Double = λ warp.
          mul (held warp (d % 32) d).local_out
            (correction_of platform p arrays seq head ctx_len part warp (d % 32)) in
        fold_warps-sum platform exact plus nought exact.sums f warps nought
        ∙ exact.sums.left (sum plus nought f warps)
        ∙ sum-same_elements plus nought exact.sums f warps (below 4) order
        ∙ ap (λ (g : ℕ → Double). sum plus nought g (below 4))
            (fun_ext (λ warp. lane_out warp (d % 32) d (mod-lt d (omega arith))))
        ∙ sum-parts plus nought exact.sums (λ t. mul (weight t) (value d t)) ctx_len part inside

-- If the numbers are exact, that is, the laws of sums, products, maxima and exponentials of
-- differences hold without rounding, and no score of the context is -FLT_MAX, a partition that the reduction reads leaves the greatest of
-- its scores, the sum of the values of its positions, each weighed by the exponential of its score
-- less the greatest, and the sum of the weights 32 times, once for each lane: whatever the order
-- in which the four warps add up.
pub paged_attention_v2-part :
    (platform : Platform) (p : PagedAttentionParams) (arrays : Arrays platform)
    (seq head ctx_len part d : ℕ) (warps : List ℕ)
    → IsExact platform
    → ((t : ℕ) → t < ctx_len → ¬ (score platform p arrays seq head ctx_len t ≡ platform.least))
    → part < num_parts ctx_len
    → same_elements warps (below 4) ≡ true
    → paged_attention_v2 platform p arrays seq head ctx_len part warps d
      ≡ some (record {
        max_logit = part_top platform p arrays seq head ctx_len part;
        exp_sum =
            sum platform.plus platform.nought
              (λ lane.
                sum platform.plus platform.nought
                  (part_weight platform p arrays seq head ctx_len part)
                  (part_positions ctx_len part))
              (below 32);
        tmp_out =
            sum platform.plus platform.nought
              (λ t.
                platform.times
                  (part_weight platform p arrays seq head ctx_len part t)
                  (value_at platform p arrays seq head (visit_at t) d))
              (part_positions ctx_len part);
      })
unfolding paged_attention_v2
paged_attention_v2-part platform p arrays seq head ctx_len part d warps exact scored read order =
    let inside : part * 512 < ctx_len = omega (arith, read) in
    let begins : leb ctx_len (part * 512) ≡ false = ground arith in
    rw (begins, paged_attention_v2)
      (λ i. some (record {
        max_logit = global_max-part platform exact p arrays seq head ctx_len part inside scored i;
        exp_sum = exp_sum-part platform exact p arrays seq head ctx_len part inside scored i;
        tmp_out =
            out-part platform exact p arrays seq head ctx_len part inside scored warps d order i;
      }))
