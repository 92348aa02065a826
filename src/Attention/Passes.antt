-- ===== src/Attention/Passes.antt =====
-- src/cacheflow/cuda/paged_attention.cu: what each loop of `paged_attention_v1_kernel` comes to.
use cache_flow.Base.{
  ℕ, zero, suc, ◌+◌, ◌≤◌, ◌<◌, ◌≡◌, refl, sym, ap, ◌∙◌, Bool, true, false, ltb, ◌==◌, if◌then◌else◌,
  Bool-cases, ==-eq, ==_refl, List, [], ◌∷◌, All, inl, inr, arith, lt→ltb,
}
use cache_flow.Base.Count.{times}
use cache_flow.Base.Sums.{IsCommutative, sum, sum-ext, fold-sum}
use cache_flow.Kernels.Grid.{strided}
use cache_flow.Platform.{Platform, max}
use cache_flow.Attention.{PagedAttentionParams, Visit, position}
use cache_flow.Attention.Softmax.{
  Arrays, add_strided, dot, write, write_qk, lane_max, write_weights, add_weights, local_out,
  value_at, add_all,
}
use cache_flow.Attention.Race.{Access, InStep, race-InStep}
use cache_flow.Attention.Positions.{positions}
use cache_flow.Attention.Placed.{visit_at, IsPlaced}

times_here : (t y : ℕ) (ys : List ℕ) → (t == y) ≡ true → ltb 0 (times t (y ∷ ys)) ≡ true
unfolding times
times_here t y ys e = rw e (ground arith)

times_other : (t y : ℕ) (ys : List ℕ) → (t == y) ≡ false → times t (y ∷ ys) ≡ times t ys
unfolding times
times_other t y ys e = rw e (omega arith)

times_once :
    (t y : ℕ) (ys : List ℕ) → times t (y ∷ ys) ≤ 1 → (t == y) ≡ true → ltb 0 (times t ys) ≡ false
unfolding times
times_once t y ys h e = ground arith

times_apart : (x y : ℕ) (ys : List ℕ) → times x (y ∷ ys) ≤ 1 → 0 < times x ys → (x == y) ≡ false
unfolding times
times_apart x y ys h l = ground arith

if_same {ℓ} : {A : Type ℓ} (b : Bool) (x y : A) → x ≡ y → (if b then y else x) ≡ y
if_same true x y e = refl
if_same false x y e = e

pub if_true {ℓ} : {A : Type ℓ} (b : Bool) (x y : A) → b ≡ true → (if b then x else y) ≡ x
if_true b x y e = rw e refl

if_false {ℓ} : {A : Type ℓ} (b : Bool) (x y : A) → b ≡ false → (if b then x else y) ≡ y
if_false b x y e = rw e refl

module _ (platform : Platform) where
  open platform use {Double, nought, least, plus, minus, times as mul, exp}

  pub add_strided-sum :
      IsCommutative Double plus nought
      → (k limit stride i : ℕ) (f : ℕ → Double) (acc : Double)
      → add_strided platform k limit stride i f acc
        ≡ plus acc (sum plus nought f (strided k limit stride i (λ j. j ∷ [])))
  unfolding add_strided strided sum
  add_strided-sum law zero limit stride i f acc = sym (law.comm acc nought ∙ law.left acc)
  add_strided-sum law (suc k) limit stride i f acc = elim (Bool-cases (ltb i limit)) [
    | inl e ↦
        rw (e, add_strided, strided)
          (add_strided-sum law k limit stride (i + stride) f (plus acc (f i))
            ∙ fold-sum plus nought law acc f i (strided k limit stride (i + stride) (λ j. j ∷ [])))
    | inr e ↦ rw (e, add_strided, strided) (sym (law.comm acc nought ∙ law.left acc))
  ]

  pub add_all-sum :
      IsCommutative Double plus nought
      → (p : PagedAttentionParams) (arrays : Arrays platform) (seq head : ℕ)
      → (f : ℕ → Double) (warps : List ℕ) (out : Double)
      → add_all platform p arrays seq head f warps out ≡ plus out (sum plus nought f warps)
  unfolding add_all sum
  add_all-sum law p arrays seq head f [] out = sym (law.comm out nought ∙ law.left out)
  add_all-sum law p arrays seq head f (w ∷ ws) out =
      add_all-sum law p arrays seq head f ws (plus out (f w)) ∙ fold-sum plus nought law out f w ws

  module _ (p : PagedAttentionParams) (arrays : Arrays platform) (seq head : ℕ) where
    pub lane_max-sum :
        IsCommutative Double (max platform) least
        → (lane : ℕ) (vs : List Visit) (top : Double) → All IsPlaced vs
        → lane_max platform p arrays seq head lane vs top
          ≡ max platform top (
              sum
                (max platform)
                least
                (λ t. dot platform p arrays seq head (visit_at t) lane)
                (positions vs))
    unfolding lane_max sum
    lane_max-sum law lane [] top h = sym (law.comm top least ∙ law.left top)
    lane_max-sum law lane (v ∷ vs) top h =
        let f : ℕ → Double = λ t. dot platform p arrays seq head (visit_at t) lane in
        lane_max-sum law lane vs (max platform top (dot platform p arrays seq head v lane)) h.1
        ∙ ap
            (λ (d : Double).
              max platform (max platform top d) (sum (max platform) least f (positions vs)))
            (ap (λ (w : Visit). dot platform p arrays seq head w lane) h.0)
        ∙ fold-sum (max platform) least law top f (position v) (positions vs)

    pub local_out-sum :
        IsCommutative Double plus nought
        → (inv_sum : Double) (smem : ℕ → Double) (d : ℕ) (vs : List Visit) (out : Double)
        → All IsPlaced vs
        → local_out platform p arrays seq head inv_sum smem d vs out
          ≡ plus out (
              sum plus nought
                (λ t.
                  mul (mul (smem t) inv_sum) (value_at platform p arrays seq head (visit_at t) d))
                (positions vs))
    unfolding local_out sum
    local_out-sum law inv_sum smem d [] out h = sym (law.comm out nought ∙ law.left out)
    local_out-sum law inv_sum smem d (v ∷ vs) out h =
        let f : ℕ → Double =
          λ t. mul (mul (smem t) inv_sum) (value_at platform p arrays seq head (visit_at t) d) in
        let here : Visit → Double =
          λ w. mul (mul (smem (position v)) inv_sum) (value_at platform p arrays seq head w d) in
        local_out-sum law inv_sum smem d vs (plus out (here v)) h.1
        ∙ ap (λ (w : Visit). plus (plus out (here w)) (sum plus nought f (positions vs))) h.0
        ∙ fold-sum plus nought law out f (position v) (positions vs)

    write_same :
        (i t : ℕ) (x : Double) (smem : ℕ → Double)
        → t < 128
        → (t == i) ≡ true
        → write platform p arrays seq head i x smem t ≡ x
    unfolding write
    write_same i t x smem l e =
        let same : t ≡ i = ==-eq t i e in
        rw (lt→ltb i 128 (omega (arith, same, l)), ap (λ (k : ℕ). i == k) same ∙ ==_refl i, write)
          refl

    write_other :
        (i t : ℕ) (x : Double) (smem : ℕ → Double)
        → (t == i) ≡ false
        → write platform p arrays seq head i x smem t ≡ smem t
    unfolding write
    write_other i t x smem e = ground arith

    pub write_qk-at :
        (vs : List Visit) (smem : ℕ → Double) (t : ℕ)
        → t < 128
        → All IsPlaced vs
        → write_qk platform p arrays seq head vs smem t ≡ (
            if ltb 0 (times t (positions vs))
            then dot platform p arrays seq head (visit_at t) 0
            else smem t)
    unfolding write_qk times
    write_qk-at [] smem t l h = refl
    write_qk-at (v ∷ vs) smem t l h =
        let d = dot platform p arrays seq head v 0 in
        let next = write platform p arrays seq head (position v) d smem in
        let rest = write_qk-at vs next t l h.1 in
        elim (Bool-cases (t == position v)) [
          | inl e ↦
              let same : t ≡ position v = ==-eq t (position v) e in
              let here : next t ≡ dot platform p arrays seq head (visit_at t) 0 =
                write_same (position v) t d smem l e
                ∙ ap (λ (w : Visit). dot platform p arrays seq head w 0) (h.0)
                ∙ ap (λ (k : ℕ). dot platform p arrays seq head (visit_at k) 0) (sym same) in
              rest
              ∙ if_same (ltb 0 (times t (positions vs))) (next t)
                  (dot platform p arrays seq head (visit_at t) 0) here
              ∙ sym (
                  if_true (ltb 0 (times t (positions (v ∷ vs))))
                    (dot platform p arrays seq head (visit_at t) 0) (smem t)
                    (times_here t (position v) (positions vs) e))
          | inr e ↦ rest ∙ (λ i.
              if ltb 0 (sym (times_other t (position v) (positions vs) e) i)
              then dot platform p arrays seq head (visit_at t) 0
              else write_other (position v) t d smem e i)
        ]

    pub write_weights-at :
        (races : ℕ → List Access) (calm : (x : ℕ) → InStep (races x)) (top : Double)
        (vs : List Visit) (smem : ℕ → Double) (t : ℕ)
        → t < 128
        → ((x : ℕ) → times x (positions vs) ≤ 1)
        → write_weights platform p arrays seq head races top vs smem t
          ≡ (if ltb 0 (times t (positions vs)) then exp (minus (smem t) top) else smem t)
    unfolding write_weights times
    write_weights-at races calm top [] smem t l h = refl
    write_weights-at races calm top (v ∷ vs) smem t l h =
        let w = exp (minus (smem (position v)) top) in
        let next = write platform p arrays seq head (position v) w smem in
        let raced =
          race-InStep platform top (races (position v)) (smem (position v)) (calm (position v)) in
        let rest =
          ap
            (λ (x : Double).
              write_weights platform p arrays seq head races top vs
                (write platform p arrays seq head (position v) x smem) t)
            raced.0
          ∙ write_weights-at races calm top vs next t l (λ x. omega (arith, h x)) in
        elim (Bool-cases (t == position v)) [
          | inl e ↦
              let same : t ≡ position v = ==-eq t (position v) e in
              rest
              ∙ if_false (ltb 0 (times t (positions vs))) (exp (minus (next t) top)) (next t)
                  (times_once t (position v) (positions vs) (h t) e)
              ∙ write_same (position v) t w smem l e
              ∙ ap (λ (k : ℕ). exp (minus (smem k) top)) (sym same)
              ∙ sym (
                  if_true (ltb 0 (times t (positions (v ∷ vs)))) (exp (minus (smem t) top)) (smem t)
                    (times_here t (position v) (positions vs) e))
          | inr e ↦ rest ∙ (λ i.
              if ltb 0 (sym (times_other t (position v) (positions vs) e) i)
              then exp (minus (write_other (position v) t w smem e i) top)
              else write_other (position v) t w smem e i)
        ]

    pub add_weights-sum :
        IsCommutative Double plus nought
        → (races : ℕ → List Access) (calm : (x : ℕ) → InStep (races x)) (top : Double)
        → (vs : List Visit) (smem : ℕ → Double) (acc : Double)
        → ((x : ℕ) → times x (positions vs) ≤ 1)
        → add_weights platform p arrays seq head races top vs smem acc
          ≡ plus acc (sum plus nought (λ t. exp (minus (smem t) top)) (positions vs))
    unfolding add_weights sum times
    add_weights-sum law races calm top [] smem acc h = sym (law.comm acc nought ∙ law.left acc)
    add_weights-sum law races calm top (v ∷ vs) smem acc h =
        let w = exp (minus (smem (position v)) top) in
        let next = write platform p arrays seq head (position v) w smem in
        let raced =
          race-InStep platform top (races (position v)) (smem (position v)) (calm (position v)) in
        (λ i.
          add_weights platform p arrays seq head races top vs
            (write platform p arrays seq head (position v) (raced.0 i) smem) (plus acc (raced.1 i)))
        ∙ add_weights-sum law races calm top vs next (plus acc w) (λ x. omega (arith, h x))
        ∙ ap (plus (plus acc w)) (
            sum-ext plus nought (λ t. exp (minus (next t) top)) (λ t. exp (minus (smem t) top))
              (positions vs)
              (λ x l.
                ap (λ (y : Double). exp (minus y top))
                  (write_other (position v) x w smem
                    (times_apart x (position v) (positions vs) (h x) l))))
        ∙ fold-sum plus nought law acc (λ t. exp (minus (smem t) top)) (position v) (positions vs)
