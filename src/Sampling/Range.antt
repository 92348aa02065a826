-- ===== src/Sampling/Range.antt =====
-- The tokens of the candidates, through the loops of `sample`.
use cache_flow.Base.{
  ℕ, zero, suc, ◌+◌, ◌≤◌, ◌<◌, ◌≡◌, refl, ap, ◌∙◌, List, [], ◌∷◌, length, All, arith, Bool-cases,
  inl, inr,
}
use cache_flow.Platform.{Platform}
use cache_flow.Sampling.{
  Scored, take, drop, max_element, greedy, scored_from, insert_scored, in_order, shifted, divided,
  cutoff, reach,
}

pub length-take {ℓ} : {A : Type ℓ} (n : ℕ) (xs : List A) → n ≤ length xs → length (take n xs) ≡ n
length-take zero xs h = refl
length-take (suc n) [] h = absurd (omega arith)
length-take (suc n) (x ∷ xs) h = ap suc (length-take n xs (omega arith))

pub length-drop {ℓ} :
    {A : Type ℓ} (n : ℕ) (xs : List A) → n ≤ length xs → length (drop n xs) + n ≡ length xs
length-drop zero xs h = omega arith
length-drop (suc n) [] h = absurd (omega arith)
length-drop (suc n) (x ∷ xs) h = omega (arith, length-drop n xs (omega arith))

pub take-All {ℓ κ} :
    {A : Type ℓ} (P : A → Type κ) (n : ℕ) (xs : List A) → All P xs → All P (take n xs)
take-All P zero xs h = tt
take-All P (suc n) [] h = tt
take-All P (suc n) (x ∷ xs) h = (h.0, take-All P n xs h.1)

module _ (platform : Platform) where
  open platform use {Double, nought, count, less}

  -- Candidates of a vocabulary.
  abbrev pub InRange : ℕ → List (Scored platform) → Type 0
  InRange vocab_size = All (λ a. a.1 < vocab_size)

  max_element-lt :
      (best : Double) (at i : ℕ) (xs : List Double)
      → at < i
      → max_element platform best at i xs < i + length xs
  unfolding max_element
  max_element-lt best at i [] h = omega arith
  max_element-lt best at i (x ∷ xs) h = elim (Bool-cases (less best x)) [
    | inl e ↦ rw e (omega (arith, max_element-lt x i (suc i) xs (omega arith)))
    | inr e ↦ rw e (omega (arith, max_element-lt best at (suc i) xs (omega arith)))
  ]

  pub greedy-lt : (xs : List Double) → 0 < length xs → greedy platform xs < length xs
  unfolding greedy
  greedy-lt [] h = h
  greedy-lt (x ∷ xs) h = omega (arith, max_element-lt x 0 1 xs (omega arith))

  pub scored_from-InRange :
      (temperature : Double) (v bound : ℕ) (xs : List Double)
      → v + length xs ≤ bound
      → InRange bound (scored_from platform temperature v xs)
  unfolding scored_from
  scored_from-InRange temperature v bound [] h = tt
  scored_from-InRange temperature v bound (x ∷ xs) h =
      (omega arith, scored_from-InRange temperature (suc v) bound xs (omega arith))

  pub length-scored_from :
      (temperature : Double) (v : ℕ) (xs : List Double)
      → length (scored_from platform temperature v xs) ≡ length xs
  unfolding scored_from
  length-scored_from temperature v [] = refl
  length-scored_from temperature v (x ∷ xs) = ap suc (length-scored_from temperature (suc v) xs)

  insert_scored-InRange :
      (bound : ℕ) (a : Scored platform) (bs : List (Scored platform))
      → a.1 < bound
      → InRange bound bs
      → InRange bound (insert_scored platform a bs)
  unfolding insert_scored
  insert_scored-InRange bound a [] h k = (h, tt)
  insert_scored-InRange bound a (b ∷ bs) h k = elim (Bool-cases (less a.0 b.0)) [
    | inl e ↦ rw e (k.0, insert_scored-InRange bound a bs h k.1)
    | inr e ↦ rw e (h, k)
  ]

  length-insert_scored :
      (a : Scored platform) (bs : List (Scored platform))
      → length (insert_scored platform a bs) ≡ suc (length bs)
  unfolding insert_scored
  length-insert_scored a [] = refl
  length-insert_scored a (b ∷ bs) = elim (Bool-cases (less a.0 b.0)) [
    | inl e ↦ rw e (ap suc (length-insert_scored a bs))
    | inr e ↦ rw e refl
  ]

  pub in_order-InRange :
      (bound : ℕ) (as' : List (Scored platform))
      → InRange bound as'
      → InRange bound (in_order platform as')
  unfolding in_order
  in_order-InRange bound [] h = tt
  in_order-InRange bound (a ∷ as') h =
      insert_scored-InRange bound a (in_order platform as') h.0 (in_order-InRange bound as' h.1)

  pub length-in_order : (as' : List (Scored platform)) → length (in_order platform as') ≡ length as'
  unfolding in_order
  length-in_order [] = refl
  length-in_order (a ∷ as') =
      length-insert_scored a (in_order platform as') ∙ ap suc (length-in_order as')

  pub shifted-InRange :
      (bound : ℕ) (top : Double) (as' : List (Scored platform))
      → InRange bound as'
      → InRange bound (shifted platform top as')
  unfolding shifted
  shifted-InRange bound top [] h = tt
  shifted-InRange bound top (a ∷ as') h = (h.0, shifted-InRange bound top as' h.1)

  pub divided-InRange :
      (bound : ℕ) (sum : Double) (as' : List (Scored platform))
      → InRange bound as'
      → InRange bound (divided platform sum as')
  unfolding divided
  divided-InRange bound sum [] h = tt
  divided-InRange bound sum (a ∷ as') h = (h.0, divided-InRange bound sum as' h.1)

  pub cutoff-le :
      (top_p cumsum : Double) (j : ℕ) (as' : List (Scored platform))
      → j ≤ cutoff platform top_p cumsum j as'
  unfolding cutoff
  cutoff-le top_p cumsum j [] = omega arith
  cutoff-le top_p cumsum j (a ∷ as') =
      elim (Bool-cases (platform.at_most top_p (platform.plus cumsum a.0))) [
        | inl e ↦ rw e (omega arith)
        | inr e ↦ rw e (omega (arith, cutoff-le top_p (platform.plus cumsum a.0) (suc j) as'))
      ]

  pub reach-lt :
      (bound : ℕ) (r acc : Double) (chosen : ℕ) (as' : List (Scored platform))
      → chosen < bound
      → InRange bound as'
      → reach platform r acc chosen as' < bound
  unfolding reach
  reach-lt bound r acc chosen [] h k = h
  reach-lt bound r acc chosen (a ∷ as') h k =
      elim (Bool-cases (platform.at_most r (platform.plus acc a.0))) [
        | inl e ↦ rw e k.0
        | inr e ↦ rw e (reach-lt bound r (platform.plus acc a.0) chosen as' h k.1)
      ]
