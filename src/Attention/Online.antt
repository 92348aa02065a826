-- ===== src/Attention/Online.antt =====
-- The running softmax of a lane of `paged_attention_v2_kernel`.
use cache_flow.Base.{ℕ, ◌<◌, ◌≡◌, ◌⊎◌, inl, inr, sym, ap, ◌∙◌, ==_refl, List, [], ◌∷◌, All, arith}
use cache_flow.Base.Count.{times}
use cache_flow.Base.Sums.{IsCommutative, sum, fold-sum}
use cache_flow.Platform.{Platform, max}
use cache_flow.Attention.{PagedAttentionParams, Visit, position}
use cache_flow.Attention.Softmax.{Arrays, dot, value_at}
use cache_flow.Attention.Placed.{visit_at, IsPlaced}
use cache_flow.Attention.Positions.{positions}
use cache_flow.Attention.Totals.{max_self}
use cache_flow.Attention.Running.{Partial, attend, attend_visits, fold_warps}

-- Numbers without rounding: what the running softmax takes from arithmetic. No number is less than
-- -FLT_MAX, which only stands for no score: exponentials of differences obey their laws for all
-- other numbers, and the exponential of -FLT_MAX less a score may be 0, as it is for floats. The
-- numbers from 0 on are an example, with 0 for -FLT_MAX and the score x written as its exponential.
pub record IsExact (platform : Platform) : Type 0 where
  pub sums : IsCommutative platform.Double platform.plus platform.nought
  pub maxima : IsCommutative platform.Double (max platform) platform.least
  pub assoc :
      (a b c : platform.Double)
      → platform.times (platform.times a b) c ≡ platform.times a (platform.times b c)
  pub comm : (a b : platform.Double) → platform.times a b ≡ platform.times b a
  pub spread :
      (a b c : platform.Double)
      → platform.times (platform.plus a b) c
        ≡ platform.plus (platform.times a c) (platform.times b c)
  pub vanish : (a : platform.Double) → platform.times platform.nought a ≡ platform.nought
  pub chain :
      (a b c : platform.Double)
      → ¬ (a ≡ platform.least)
      → ¬ (b ≡ platform.least)
      → ¬ (c ≡ platform.least)
      → platform.times (platform.exp (platform.minus a b)) (platform.exp (platform.minus b c))
        ≡ platform.exp (platform.minus a c)
  pub same :
      (a b : platform.Double)
      → ¬ (b ≡ platform.least)
      → platform.times a (platform.exp (platform.minus b b)) ≡ a

module _ (platform : Platform) (exact : IsExact platform) where
  open platform use {Double, nought, least, plus, minus, times as mul, exp}

  pub sum-mul :
      (f : ℕ → Double) (c : Double) (xs : List ℕ)
      → mul (sum plus nought f xs) c ≡ sum plus nought (λ x. mul (f x) c) xs
  unfolding sum
  sum-mul f c [] = exact.vanish c
  sum-mul f c (x ∷ xs) =
      exact.spread (f x) (sum plus nought f xs) c ∙ ap (plus (mul (f x) c)) (sum-mul f c xs)

  pub fold_warps-sum :
      (op : Double → Double → Double) (unit : Double)
      → IsCommutative Double op unit
      → (f : ℕ → Double) (ws : List ℕ) (acc : Double)
      → fold_warps platform op f ws acc ≡ op acc (sum op unit f ws)
  unfolding fold_warps sum
  fold_warps-sum op unit law f [] acc = sym (law.comm acc unit ∙ law.left acc)
  fold_warps-sum op unit law f (w ∷ ws) acc =
      fold_warps-sum op unit law f ws (op acc (f w)) ∙ fold-sum op unit law acc f w ws

  -- A score, not -FLT_MAX.
  abbrev pub IsProper : Double → Type 0
  IsProper a = ¬ (a ≡ least)

  pub max-IsProper : (a b : Double) → IsProper a → IsProper (max platform a b)
  max-IsProper a b proper gone = proper (
      sym (exact.maxima.comm a least ∙ exact.maxima.left a)
      ∙ ap (max platform a) (sym gone)
      ∙ sym (exact.maxima.assoc a a b)
      ∙ ap (λ (c : Double). max platform c b) (max_self platform a)
      ∙ gone)

  pub sum-IsProper :
      (f : ℕ → Double) (y : ℕ) (xs : List ℕ)
      → ((x : ℕ) → 0 < times x xs → IsProper (f x))
      → 0 < times y xs
      → IsProper (sum (max platform) least f xs)
  unfolding sum times
  sum-IsProper f y [] h l = absurd (omega (arith, l))
  sum-IsProper f y (x ∷ xs) h l =
      max-IsProper (f x) (sum (max platform) least f xs) (h x (rw (==_refl x) (omega arith)))

  -- A total that can be corrected: it belongs to a score, or nothing has been added to it.
  abbrev pub IsReady : (a total : Double) → Type 0
  IsReady a total = IsProper a ⊎ (total ≡ nought)

  rebase :
      (total a b c : Double)
      → IsReady a total
      → IsProper b
      → IsProper c
      → mul (mul total (exp (minus a b))) (exp (minus b c)) ≡ mul total (exp (minus a c))
  rebase total a b c (inl ha) hb hc =
      exact.assoc total (exp (minus a b)) (exp (minus b c))
      ∙ ap (mul total) (exact.chain a b c ha hb hc)
  rebase total a b c (inr zero_total) hb hc =
      let nothing : (x : Double) → mul total x ≡ nought =
        λ x. ap (λ (y : Double). mul y x) zero_total ∙ exact.vanish x in
      ap (λ (y : Double). mul y (exp (minus b c))) (nothing (exp (minus a b)))
      ∙ exact.vanish (exp (minus b c))
      ∙ sym (nothing (exp (minus a c)))

  settle : (total a : Double) → IsReady a total → mul total (exp (minus a a)) ≡ total
  settle total a (inl ha) = exact.same total a ha
  settle total a (inr zero_total) =
      ap (λ (y : Double). mul y (exp (minus a a))) zero_total
      ∙ exact.vanish (exp (minus a a))
      ∙ sym zero_total

  -- A correction of a sum that grows by one weighed item.
  corrected :
      (total w x a b c : Double)
      → IsReady a total
      → IsProper b
      → IsProper c
      → mul (plus (mul total (exp (minus a b))) (mul w x)) (exp (minus b c))
        ≡ plus (mul total (exp (minus a c))) (mul (mul w (exp (minus b c))) x)
  corrected total w x a b c ready hb hc =
      exact.spread (mul total (exp (minus a b))) (mul w x) (exp (minus b c)) ∙ (λ i.
        plus (rebase total a b c ready hb hc i) (
          (exact.assoc w x (exp (minus b c))
              ∙ ap (mul w) (exact.comm x (exp (minus b c)))
              ∙ sym (exact.assoc w (exp (minus b c)) x))
            i))

  corrected_sum :
      (total s a b c : Double)
      → IsReady a total
      → IsProper s
      → IsProper b
      → IsProper c
      → mul (plus (mul total (exp (minus a b))) (exp (minus s b))) (exp (minus b c))
        ≡ plus (mul total (exp (minus a c))) (exp (minus s c))
  corrected_sum total s a b c ready hs hb hc =
      exact.spread (mul total (exp (minus a b))) (exp (minus s b)) (exp (minus b c))
      ∙ (λ i. plus (rebase total a b c ready hb hc i) (exact.chain s b c hs hb hc i))

  module _ (p : PagedAttentionParams) (arrays : Arrays platform) (seq head lane d : ℕ) where
    abbrev score_at : ℕ → Double
    score_at t = dot platform p arrays seq head (visit_at t) lane

    abbrev value : ℕ → Double
    value t = value_at platform p arrays seq head (visit_at t) d

    abbrev final : List Visit → Partial platform → Partial platform
    final vs st = attend_visits platform p arrays seq head lane d vs st

    pub attend_visits-max :
        (vs : List Visit) (st : Partial platform)
        → All IsPlaced vs
        → (final vs st).local_max
          ≡ max platform st.local_max (sum (max platform) least score_at (positions vs))
    unfolding attend_visits attend sum
    attend_visits-max [] st h =
        sym (exact.maxima.comm st.local_max least ∙ exact.maxima.left st.local_max)
    attend_visits-max (v ∷ vs) st h =
        attend_visits-max vs (attend platform p arrays seq head lane d v st) h.1
        ∙ ap
            (λ (s : Double).
              max platform (max platform st.local_max s)
                (sum (max platform) least score_at (positions vs)))
            (ap (λ (w : Visit). dot platform p arrays seq head w lane) h.0)
        ∙ fold-sum (max platform) least exact.maxima st.local_max score_at (position v)
            (positions vs)

    abbrev pub HasScore : Visit → Type 0
    HasScore v = IsProper (dot platform p arrays seq head v lane)

    next-IsProper :
        (v : Visit) (st : Partial platform)
        → HasScore v
        → IsProper (max platform st.local_max (dot platform p arrays seq head v lane))
    next-IsProper v st h gone =
        let s = dot platform p arrays seq head v lane in
        max-IsProper s st.local_max h (exact.maxima.comm s st.local_max ∙ gone)

    final-IsProper :
        (vs : List Visit) (st : Partial platform)
        → All IsPlaced vs
        → IsProper st.local_max
        → IsProper (final vs st).local_max
    final-IsProper vs st h proper gone =
        max-IsProper st.local_max (sum (max platform) least score_at (positions vs)) proper
          (sym (attend_visits-max vs st h) ∙ gone)

    pub attend_visits-sum :
        (vs : List Visit) (st : Partial platform)
        → All IsPlaced vs
        → All HasScore vs
        → IsReady st.local_max st.local_sum
        → (final vs st).local_sum
          ≡ plus (mul st.local_sum (exp (minus st.local_max (final vs st).local_max))) (
              sum plus nought
                (λ t. exp (minus (score_at t) (final vs st).local_max))
                (positions vs))
    unfolding attend_visits attend sum
    attend_visits-sum [] st h k ready = sym (
        exact.sums.comm (mul st.local_sum (exp (minus st.local_max st.local_max))) nought
        ∙ exact.sums.left (mul st.local_sum (exp (minus st.local_max st.local_max)))
        ∙ settle st.local_sum st.local_max ready)
    attend_visits-sum (v ∷ vs) st h k ready =
        let next = attend platform p arrays seq head lane d v st in
        let grown = next-IsProper v st k.0 in
        let top = (final vs next).local_max in
        let f : ℕ → Double = λ t. exp (minus (score_at t) top) in
        let s = dot platform p arrays seq head v lane in
        attend_visits-sum vs next h.1 k.1 (inl grown)
        ∙ ap (λ (a : Double). plus a (sum plus nought f (positions vs)))
            (corrected_sum st.local_sum s st.local_max (max platform st.local_max s) top ready (k.0)
                grown (final-IsProper vs next h.1 grown)
              ∙ ap
                  (λ (w : Visit).
                    plus (mul st.local_sum (exp (minus st.local_max top)))
                      (exp (minus (dot platform p arrays seq head w lane) top)))
                  h.0)
        ∙ fold-sum plus nought exact.sums (mul st.local_sum (exp (minus st.local_max top))) f
            (position v) (positions vs)

    pub attend_visits-out :
        (vs : List Visit) (st : Partial platform)
        → All IsPlaced vs
        → All HasScore vs
        → IsReady st.local_max st.local_out
        → (final vs st).local_out
          ≡ plus (mul st.local_out (exp (minus st.local_max (final vs st).local_max))) (
              sum plus nought
                (λ t. mul (exp (minus (score_at t) (final vs st).local_max)) (value t))
                (positions vs))
    unfolding attend_visits attend sum
    attend_visits-out [] st h k ready = sym (
        exact.sums.comm (mul st.local_out (exp (minus st.local_max st.local_max))) nought
        ∙ exact.sums.left (mul st.local_out (exp (minus st.local_max st.local_max)))
        ∙ settle st.local_out st.local_max ready)
    attend_visits-out (v ∷ vs) st h k ready =
        let next = attend platform p arrays seq head lane d v st in
        let grown = next-IsProper v st k.0 in
        let top = (final vs next).local_max in
        let f : ℕ → Double = λ t. mul (exp (minus (score_at t) top)) (value t) in
        let s = dot platform p arrays seq head v lane in
        let m = max platform st.local_max s in
        let x = value_at platform p arrays seq head v d in
        let kept = mul st.local_out (exp (minus st.local_max top)) in
        attend_visits-out vs next h.1 k.1 (inl grown)
        ∙ ap (λ (a : Double). plus a (sum plus nought f (positions vs)))
            (corrected st.local_out (exp (minus s m)) x st.local_max m top ready grown
                (final-IsProper vs next h.1 grown)
              ∙ ap (λ (w : Double). plus kept (mul w x))
                  (exact.chain s m top k.0 grown (final-IsProper vs next h.1 grown))
              ∙ ap
                  (λ (w : Visit). plus kept (
                    mul (exp (minus (dot platform p arrays seq head w lane) top))
                      (value_at platform p arrays seq head w d)))
                  h.0)
        ∙ fold-sum plus nought exact.sums kept f (position v) (positions vs)
