-- ===== src/Attention/Race.antt =====
-- src/cacheflow/cuda/paged_attention.cu: how the lanes of a warp touch an element of `smem_qk` in
-- the second loop of `paged_attention_v1_kernel`.
--
-- All lanes read the element and write their weight over it, with nothing that orders them: it is
-- left to the hardware in which order that happens. That order, over one element, is given as a
-- list. In the lists in which a lane reads after another one has written, it takes the exponential
-- of a weight in place of a score.
use cache_flow.Base.{
  ℕ, ◌<◌, ◌≡◌, refl, ap, ◌∙◌, false, ltb, ◌==◌, if◌then◌else◌, Bool-cases, inl, inr, List, [], ◌∷◌,
  ◌++◌, map, arith,
}
use cache_flow.Base.Count.{times}
use cache_flow.Platform.{Platform}

pub data Access : Type 0 where
  loads : (lane : ℕ) → Access
  stores : (lane : ℕ) → Access

module _ (platform : Platform) where
  open platform use {Double, nought, minus, exp}

  -- The element, and the `w` of each lane.
  pub record Shared : Type 0 where
    pub qk_val : Double
    pub held : ℕ → Double

  unfoldable pub access : (qk_max : Double) → Access → Shared → Shared
  access qk_max (loads lane) s = record s {
    held = λ l. if l == lane then exp (minus (s.qk_val) qk_max) else s.held l;
  }
  access qk_max (stores lane) s = record s { qk_val = s.held lane }

  unfoldable pub accesses : (qk_max : Double) → List Access → Shared → Shared
  unfolding access
  accesses qk_max [] s = s
  accesses qk_max (a ∷ as') s = accesses qk_max as' (access qk_max a s)

  -- From an element that holds `x`. A lane loads before it stores, so what `held` is does not matter.
  unfoldable pub race : (qk_max : Double) → List Access → (x : Double) → Shared
  unfolding accesses
  race qk_max as' x = accesses qk_max as' (record { qk_val = x; held = λ l. nought })

-- The lanes of a warp go in step: each loads once, before any stores, and each stores once.
pub record InStep (as' : List Access) : Type 0 where
  pub loading : List ℕ
  pub storing : List ℕ
  pub split : as' ≡ map loads loading ++ map stores storing
  pub loaded : (lane : ℕ) → times lane loading ≡ (if ltb lane 32 then 1 else 0)
  pub stored : (lane : ℕ) → times lane storing ≡ (if ltb lane 32 then 1 else 0)

times_or : (x y : ℕ) (ys : List ℕ) → (x == y) ≡ false → 0 < times x (y ∷ ys) → 0 < times x ys
unfolding times
times_or x y ys e h = ground arith

times_self : (y : ℕ) (ys : List ℕ) → 0 < times y (y ∷ ys)
unfolding times
times_self y ys = ground arith

times_more : (x y : ℕ) (ys : List ℕ) → 0 < times x ys → 0 < times x (y ∷ ys)
unfolding times
times_more x y ys h = omega arith

module _ (platform : Platform) (top : platform.Double) where
  open platform use {Double, nought, minus, exp}

  abbrev Held : Double → List ℕ → Shared platform → Type 0
  Held w lanes s = (lane : ℕ) → 0 < times lane lanes → s.held lane ≡ w

  loads-held :
      (rs : List ℕ) (as' : List Access) (s : Shared platform)
      → (t : Shared platform) × (accesses platform top (map loads rs ++ as') s
          ≡ accesses platform top as' t)
        × (t.qk_val ≡ s.qk_val)
        × Held (exp (minus s.qk_val top)) rs t
        × ((lane : ℕ)
            → s.held lane ≡ exp (minus s.qk_val top)
            → t.held lane ≡ exp (minus s.qk_val top))
  unfolding accesses access times
  loads-held [] as' s = (s, refl, refl, (λ lane h. absurd (omega (arith, h))), (λ lane e. e))
  loads-held (r ∷ rs) as' s =
      let w = exp (minus s.qk_val top) in
      let next = access platform top (loads r) s in
      let (t, run, kept, here, later) = loads-held rs as' next in
      (
        t,
        run,
        kept,
        (λ lane h. elim (Bool-cases (lane == r)) [
          | inl e ↦ later lane (rw e refl)
          | inr e ↦ here lane (times_or lane r rs e h)
        ]),
        (λ lane e.
            later lane
              (elim (Bool-cases (lane == r)) [ inl same ↦ rw same refl | inr other ↦ rw other e ])),
      )

  stores-held :
      (ss : List ℕ) (s : Shared platform) → (accesses platform top (map stores ss) s).held ≡ s.held
  unfolding accesses access
  stores-held [] s = refl
  stores-held (l ∷ ss) s = stores-held ss (access platform top (stores l) s)

  stores-qk_val :
      (w : Double) (ss : List ℕ) (s : Shared platform)
      → Held w ss s
      → s.qk_val ≡ w
      → (accesses platform top (map stores ss) s).qk_val ≡ w
  unfolding accesses access
  stores-qk_val w [] s h e = e
  stores-qk_val w (l ∷ ss) s h e =
      stores-qk_val w ss (access platform top (stores l) s)
        (λ lane k. h lane (times_more lane l ss k)) (h l (times_self l ss))

  some_store :
      (w : Double) (ss : List ℕ) (s : Shared platform)
      → 0 < times 0 ss
      → Held w ss s
      → (accesses platform top (map stores ss) s).qk_val ≡ w
  unfolding accesses access times
  some_store w [] s l h = absurd (omega (arith, l))
  some_store w (l ∷ ss) s some_lane h =
      stores-qk_val w ss (access platform top (stores l) s)
        (λ lane k. h lane (times_more lane l ss k)) (h l (times_self l ss))

  -- In step, the element and the first lane end with the weight.
  pub race-InStep :
      (as' : List Access) (x : Double)
      → InStep as'
      → ((race platform top as' x).qk_val ≡ exp (minus x top))
        × ((race platform top as' x).held 0 ≡ exp (minus x top))
  unfolding race
  race-InStep as' x calm =
      let w = exp (minus x top) in
      let s : Shared platform = record { qk_val = x; held = λ l. nought } in
      let (t, run, kept, here, later) = loads-held calm.loading (map stores calm.storing) s in
      let whole = ap (λ (bs : List Access). accesses platform top bs s) calm.split ∙ run in
      let first : 0 < times 0 calm.storing = omega (arith, calm.stored 0) in
      let in_time : Held w calm.storing t =
        λ lane h. here lane (ground (arith, calm.loaded lane, calm.stored lane)) in
      (
        ap (λ (u : Shared platform). u.qk_val) whole ∙ some_store w calm.storing t first in_time,
        ap (λ (u : Shared platform). u.held 0) whole
            ∙ ap (λ (g : ℕ → Double). g 0) (stores-held calm.storing t)
            ∙ here 0 (omega (arith, calm.loaded 0)),
      )
