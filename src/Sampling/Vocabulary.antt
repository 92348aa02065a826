-- ===== src/Sampling/Vocabulary.antt =====
-- src/cacheflow/decode/batch_decode.cpp: the tokens that `sample` may choose.
use cache_flow.Base.{
  ℕ, zero, suc, ◌+◌, ◌*◌, ◌≤◌, ◌<◌, ◌≡◌, refl, ap, ◌&&◌, Bool, true, ltb, List, [], ◌∷◌, length,
  All, some, arith, Bool-cases, inl, inr,
}
use cache_flow.Base.Int.{ℤ, pos, negsuc}
use cache_flow.Platform.{Platform}
use cache_flow.Sampling.{
  ChoiceParams, Scored, take, drop, greedy, scored_from, in_order, agree, each, is_ordered, sort,
  keep_top_k, shifted, total, divided, softmax, cutoff, keep_top_p, reach, draw_token, choose,
  params_at, sample,
}
use cache_flow.Sampling.Range.{
  length-take, length-drop, take-All, InRange, greedy-lt, scored_from-InRange, length-scored_from,
  in_order-InRange, length-in_order, shifted-InRange, divided-InRange, cutoff-le, reach-lt,
}

module _ (platform : Platform) where
  open platform use {Double, nought, count, less}

  -- Candidates of a vocabulary, one at least.
  abbrev Candidates : ℕ → List (Scored platform) → Type 0
  Candidates bound as' = (0 < length as') × InRange platform bound as'

  take-Candidates :
      (bound n : ℕ) (as' : List (Scored platform))
      → 0 < n
      → Candidates bound as'
      → Candidates bound (take n as')
  take-Candidates bound zero as' l h = absurd (omega arith)
  take-Candidates bound (suc n) [] l h = h
  take-Candidates bound (suc n) (a ∷ as') l h =
      (omega arith, (h.1.0, take-All (λ b. b.1 < bound) n as' h.1.1))

  in_order-Candidates :
      (bound : ℕ) (as' : List (Scored platform))
      → Candidates bound as'
      → Candidates bound (in_order platform as')
  in_order-Candidates bound as' h =
      (omega (arith, length-in_order platform as', h.0), in_order-InRange platform bound as' h.1)

  each_always :
      (test : Double → Bool) (as' : List (Scored platform))
      → ((a : Double) → test a ≡ true)
      → each platform test as' ≡ true
  unfolding each
  each_always test [] h = refl
  each_always test (a ∷ as') h = rw (h a.0, each_always test as' h) refl

  -- Without a NaN sorting is defined.
  module _ (ordered : (a b c : Double) → agree platform a b c ≡ true) where
    sort-in_order :
        (as' : List (Scored platform)) → sort platform as' ≡ some (in_order platform as')
    unfolding sort is_ordered
    sort-in_order as' =
        let every : is_ordered platform as' ≡ true =
          each_always (λ a. each platform (λ b. each platform (λ c. agree platform a b c) as') as')
            as'
            (λ a.
              each_always (λ b. each platform (λ c. agree platform a b c) as') as'
                (λ b. each_always (λ c. agree platform a b c) as' (λ c. ordered a b c))) in
        rw every refl

    keep_top_k-Candidates :
        (k : ℤ) (bound : ℕ) (as' : List (Scored platform))
        → Candidates bound as'
        → (bs : List (Scored platform)) × (keep_top_k platform k bound as' ≡ some bs)
          × Candidates bound bs
    unfolding keep_top_k
    keep_top_k-Candidates (pos zero) bound as' h = (as', refl, h)
    keep_top_k-Candidates (pos (suc k)) bound as' h =
        elim (Bool-cases (ltb 0 (suc k) && ltb (suc k) bound)) [
          | inl e ↦ (
            take (suc k) (in_order platform as'),
            rw (e, sort-in_order as') refl,
            take-Candidates bound (suc k) (in_order platform as') (omega arith)
                (in_order-Candidates bound as' h),
          )
          | inr e ↦ (as', rw e refl, h)
        ]
    keep_top_k-Candidates (negsuc k) bound as' h = (as', refl, h)

  softmax-Candidates :
      (bound : ℕ) (as' : List (Scored platform))
      → Candidates bound as'
      → (bs : List (Scored platform)) × (softmax platform as' ≡ some bs) × Candidates bound bs
  unfolding softmax shifted divided
  softmax-Candidates bound [] h = absurd (omega (arith, h.0))
  softmax-Candidates bound (a ∷ as') h =
      let sum = total platform nought (shifted platform a.0 (a ∷ as')) in
      (
        divided platform sum (shifted platform a.0 (a ∷ as')),
        refl,
        (
          omega arith,
          divided-InRange platform bound sum (shifted platform a.0 (a ∷ as'))
              (shifted-InRange platform bound a.0 (a ∷ as') h.1),
        ),
      )

  cutoff_some :
      (top_p : Double) (as' : List (Scored platform))
      → 0 < length as'
      → 0 < cutoff platform top_p nought 0 as'
  unfolding cutoff
  cutoff_some top_p [] h = h
  cutoff_some top_p (a ∷ as') h =
      elim (Bool-cases (platform.at_most top_p (platform.plus nought a.0))) [
        | inl e ↦ rw e (omega arith)
        | inr e ↦ rw e (cutoff-le platform top_p (platform.plus nought a.0) 1 as')
      ]

  keep_top_p-Candidates :
      ((a b c : Double) → agree platform a b c ≡ true)
      → (top_p : Double) (bound : ℕ) (as' : List (Scored platform)) → Candidates bound as'
      → (bs : List (Scored platform)) × (keep_top_p platform top_p as' ≡ some bs)
        × Candidates bound bs
  unfolding keep_top_p
  keep_top_p-Candidates ordered top_p bound as' h =
      let bs = in_order platform as' in
      let sorted = in_order-Candidates bound as' h in
      elim (Bool-cases (less top_p (count 1))) [
        | inl e ↦ (
          take (cutoff platform top_p nought 0 bs) bs,
          rw (e, sort-in_order ordered as') refl,
          take-Candidates bound (cutoff platform top_p nought 0 bs) bs
              (cutoff_some top_p bs sorted.0) sorted,
        )
        | inr e ↦ (as', rw e refl, h)
      ]

  draw_token-lt :
      (draw : Double → Double) (bound : ℕ) (as' : List (Scored platform))
      → Candidates bound as'
      → (token : ℕ) × (draw_token platform draw as' ≡ some token) × (token < bound)
  unfolding draw_token
  draw_token-lt draw bound [] h = absurd (omega (arith, h.0))
  draw_token-lt draw bound (a ∷ as') h =
      let r = draw (total platform nought (a ∷ as')) in
      (
        reach platform r nought a.1 (a ∷ as'),
        refl,
        reach-lt platform bound r nought a.1 (a ∷ as') h.1.0 h.1,
      )

  choose-lt :
      ((a b c : Double) → agree platform a b c ≡ true)
      → (vocab_size : ℕ) (sp : ChoiceParams platform) (draw : Double → Double) (xs : List Double)
      → 0 < vocab_size
      → length xs ≡ vocab_size
      → (token : ℕ) × (choose platform vocab_size sp draw xs ≡ some token) × (token < vocab_size)
  unfolding choose
  choose-lt ordered vocab_size sp draw xs some_token full =
      elim (Bool-cases (less sp.temperature platform.tiny)) [
        | inl e ↦
            rw e (greedy platform xs, refl, omega (arith, greedy-lt platform xs (omega arith)))
        | inr e ↦
            let scored = scored_from platform sp.temperature 0 xs in
            let first : Candidates vocab_size scored = (
              omega (arith, length-scored_from platform sp.temperature 0 xs),
              scored_from-InRange platform sp.temperature 0 vocab_size xs (omega arith),
            ) in
            let kept = keep_top_k-Candidates ordered sp.top_k vocab_size scored first in
            let soft = softmax-Candidates vocab_size kept.0 kept.2 in
            let nucleus = keep_top_p-Candidates ordered sp.top_p vocab_size soft.0 soft.2 in
            rw (e, kept.1, soft.1, nucleus.1) (draw_token-lt draw vocab_size nucleus.0 nucleus.2)
      ]

  length-row :
      (vocab_size i n : ℕ) (logits : List Double)
      → (i + suc n) * vocab_size ≤ length logits
      → length (take vocab_size (drop (i * vocab_size) logits)) ≡ vocab_size
  length-row vocab_size i n logits h =
      length-take vocab_size (drop (i * vocab_size) logits)
        (omega (arith, h, length-drop (i * vocab_size) logits (omega (arith, h))))

  -- If the comparison of numbers is a strict weak order, as it is without NaN, the vocabulary is not
  -- empty and `logits` has a row for every entry, from the `i`th on, `sample` does nothing undefined
  -- and gives a token for each entry, and each token is less than the size of the vocabulary:
  -- whatever the parameters are, and whatever the generator draws.
  pub sample-InVocabulary :
      (vocab_size : ℕ) (logits : List Double) (params : List (ChoiceParams platform))
      (default : ChoiceParams platform) (draw : ℕ → Double → Double) (entries i : ℕ)
      → ((a b c : Double) → agree platform a b c ≡ true)
      → 0 < vocab_size
      → (i + entries) * vocab_size ≤ length logits
      → (tokens : List ℕ) × (sample platform vocab_size logits params default draw entries i
          ≡ some tokens)
        × (length tokens ≡ entries)
        × All (λ token. token < vocab_size) tokens
  unfolding sample
  sample-InVocabulary vocab_size logits params default draw zero i ordered some_token full =
      ([], refl, refl, tt)
  sample-InVocabulary vocab_size logits params default draw (suc n) i ordered some_token full =
      let row =
        choose-lt ordered vocab_size (params_at platform params default i) (draw i)
          (take vocab_size (drop (i * vocab_size) logits)) some_token
          (length-row vocab_size i n logits full) in
      let rest =
        sample-InVocabulary vocab_size logits params default draw n (suc i) ordered some_token
          (omega (arith, full)) in
      (row.0 ∷ rest.0, rw (row.1, rest.1) refl, ap suc rest.2, (row.2, rest.3))
