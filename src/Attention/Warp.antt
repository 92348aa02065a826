-- ===== src/Attention/Warp.antt =====
-- src/cacheflow/cuda/paged_attention.cu: the reductions of a warp.
--
-- A value of a warp is a function from the lane. `__shfl_xor_sync(mask, val, offset)` gives each
-- lane the value of the lane whose number differs in the bit `offset`.
use Prim.Native.Nat.{bit_xor}
use cache_flow.Base.{
  ℕ, zero, suc, ◌/◌, ◌<◌, ◌≡◌, refl, sym, ◌∙◌, Bool, true, ◌&&◌, ltb, if◌then◌else◌, Bool-cases,
  List, [], ◌∷◌, ◌++◌, subst, ◌==◌, ==-eq, inl, inr, arith,
}
use cache_flow.Base.Sums.{
  IsCommutative, sum, sum-append, sum-same_elements, same_elements, below, pick,
}
use cache_flow.Platform.{Platform, max}

-- The loop over the offsets, in `rounds` rounds at most.
unfoldable pub warp_reduce {ℓ} : {A : Type ℓ} → (A → A → A) → (rounds offset : ℕ) → (ℕ → A) → ℕ → A
warp_reduce op zero offset val = val
warp_reduce op (suc k) offset val =
    let next = warp_reduce op k (offset / 2) (λ lane. op (val lane) (val (bit_xor lane offset))) in
    if ltb 0 offset then next else val

-- Half of the warp size comes to 0 after five rounds.
unfoldable pub warp_reduce_sum : (platform : Platform) → (ℕ → platform.Double) → ℕ → platform.Double
unfolding warp_reduce
warp_reduce_sum platform val = warp_reduce platform.plus 6 16 val

unfoldable pub warp_reduce_max : (platform : Platform) → (ℕ → platform.Double) → ℕ → platform.Double
unfolding warp_reduce
warp_reduce_max platform val = warp_reduce (max platform) 6 16 val

-- The way in which a reduction groups the lanes.
data Grouping : Type 0 where
  leaf : ℕ → Grouping
  node : Grouping → Grouping → Grouping

unfoldable lanes : Grouping → List ℕ
lanes (leaf lane) = lane ∷ []
lanes (node s t) = lanes s ++ lanes t

-- Whether a lane comes to the values of all lanes, each once.
unfoldable covers : ℕ → Bool
unfolding lanes same_elements warp_reduce
covers lane = same_elements (lanes (warp_reduce node 6 16 leaf lane)) (below 32)

unfoldable all_lanes : ℕ → Bool
unfolding covers
all_lanes zero = true
all_lanes (suc n) = covers n && all_lanes n

every_lane_covers : all_lanes 32 ≡ true
unfolding all_lanes covers lanes same_elements warp_reduce pick below
every_lane_covers = refl

all_lanes-covers : (n lane : ℕ) → all_lanes n ≡ true → lane < n → covers lane ≡ true
unfolding all_lanes
all_lanes-covers zero lane h l = absurd (omega (arith, l))
all_lanes-covers (suc n) lane h l = elim (Bool-cases (covers n)) [
  | inl e ↦ elim (Bool-cases (lane == n)) [
    | inl last ↦ subst (λ (k : ℕ). covers k ≡ true) (sym (==-eq lane n last)) e
    | inr before ↦ all_lanes-covers n lane (rw (e, all_lanes) at (h)) (ground arith)
  ]
  | inr e ↦ absurd (cc (rw (e, all_lanes) at (h)))
]

module _ {ℓ} {A : Type ℓ} (op : A → A → A) (unit : A) (law : IsCommutative A op unit) where
  unfoldable combine : (ℕ → A) → Grouping → A
  combine val (leaf lane) = val lane
  combine val (node s t) = op (combine val s) (combine val t)

  combine-sum : (val : ℕ → A) (t : Grouping) → combine val t ≡ sum op unit val (lanes t)
  unfolding combine sum lanes
  combine-sum val (leaf lane) = sym (law.comm (val lane) unit ∙ law.left (val lane))
  combine-sum val (node s t) =
      (λ i. op (combine-sum val s i) (combine-sum val t i))
      ∙ sym (sum-append op unit law val (lanes s) (lanes t))

  combine-warp_reduce :
      (val : ℕ → A) (k offset : ℕ) (groups : ℕ → Grouping) (lane : ℕ)
      → combine val (warp_reduce node k offset groups lane)
        ≡ warp_reduce op k offset (λ l. combine val (groups l)) lane
  unfolding combine warp_reduce
  combine-warp_reduce val zero offset groups lane = refl
  combine-warp_reduce val (suc k) offset groups lane = elim (Bool-cases (ltb 0 offset)) [
    | inl e ↦
        rw (e, warp_reduce)
          (combine-warp_reduce val k (offset / 2) (λ l. node (groups l) (groups (bit_xor l offset)))
            lane)
    | inr e ↦ rw (e, warp_reduce) refl
  ]

  -- Every lane comes to the combination of the values of all lanes.
  pub warp_reduce-sum :
      (val : ℕ → A) (lane : ℕ)
      → lane < 32
      → warp_reduce op 6 16 val lane ≡ sum op unit val (below 32)
  unfolding combine covers
  warp_reduce-sum val lane l =
      let group = warp_reduce node 6 16 leaf lane in
      sym (combine-warp_reduce val 6 16 leaf lane)
      ∙ combine-sum val group
      ∙ sum-same_elements op unit law val (lanes group) (below 32)
          (all_lanes-covers 32 lane every_lane_covers l)
