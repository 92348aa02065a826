-- ===== src/Sampling.antt =====
-- src/cacheflow/decode/batch_decode.cpp: `sample`, the choice of the next token of each entry.
--
-- `logits` has a row for each entry, with a number for each token. `draw` is what the generator
-- gives in the range from 0 to its argument. Where numbers are equal, `std::sort` and
-- `std::partial_sort` may order them in any way; here they keep their order. What is undefined gives
-- `none`: sorting when the comparison is no strict weak order of the keys, as with a NaN among them,
-- and reading the first element of no candidates.
pub mod Range
pub mod Vocabulary
use cache_flow.Base.{
  ℕ, zero, suc, ◌+◌, ◌*◌, ◌<◌, Bool, true, false, not, ◌&&◌, ◌||◌, ltb, if◌then◌else◌, List, [],
  ◌∷◌, ◌++◌, map, length, Option, none, some, get_elem?, ◌>>=◌,
}
use cache_flow.Base.Int.{ℤ, pos, negsuc}
use cache_flow.Platform.{Platform}

abbrev pub take {ℓ} : {A : Type ℓ} → ℕ → List A → List A
take zero xs = []
take (suc n) [] = []
take (suc n) (x ∷ xs) = x ∷ take n xs

abbrev pub drop {ℓ} : {A : Type ℓ} → ℕ → List A → List A
drop zero xs = xs
drop (suc n) [] = []
drop (suc n) (x ∷ xs) = drop n xs

module _ (platform : Platform) where
  open platform use {Double, nought, tiny, count, plus, minus, over, exp, less, at_most}

  -- The parameters that the choice depends on.
  pub record ChoiceParams : Type 0 where
    pub temperature : Double
    pub top_p : Double
    pub top_k : ℤ

  -- A candidate: its number, and its token.
  abbrev pub Scored : Type 0
  Scored = Double × ℕ

  -- `std::max_element`: the first of the greatest numbers. `best` is at the index `at`.
  unfoldable pub max_element : (best : Double) (at i : ℕ) → List Double → ℕ
  max_element best at i [] = at
  max_element best at i (x ∷ xs) =
      max_element (if less best x then x else best) (if less best x then i else at) (suc i) xs

  -- Without a number it is the end of the row, which is its beginning.
  unfoldable pub greedy : List Double → ℕ
  unfolding max_element
  greedy [] = 0
  greedy (x ∷ xs) = max_element x 0 1 xs

  unfoldable pub scored_from : Double → (v : ℕ) → List Double → List Scored
  scored_from temperature v [] = []
  scored_from temperature v (x ∷ xs) = (over x temperature, v) ∷ scored_from temperature (suc v) xs

  -- The greatest first.
  unfoldable pub insert_scored : Scored → List Scored → List Scored
  insert_scored a [] = a ∷ []
  insert_scored a (b ∷ bs) =
      let rest = insert_scored a bs in if less a.0 b.0 then b ∷ rest else a ∷ b ∷ bs

  unfoldable pub in_order : List Scored → List Scored
  unfolding insert_scored
  in_order [] = []
  in_order (a ∷ as') = insert_scored a (in_order as')

  -- Whether the comparison is a strict weak order on three keys: nothing is less than itself, and
  -- being less and being neither less nor greater are passed on.
  unfoldable pub agree : (a b c : Double) → Bool
  agree a b c =
      not (less a a)
      && ((not (less a b && less b c) || less a c)
          && ((less a b || less b a) || ((less b c || less c b) || not (less a c || less c a))))

  unfoldable pub each : (Double → Bool) → List Scored → Bool
  each test [] = true
  each test (a ∷ as') = test a.0 && each test as'

  -- What `std::sort` and `std::partial_sort` need of the keys.
  unfoldable pub is_ordered : List Scored → Bool
  unfolding agree each
  is_ordered scored = each (λ a. each (λ b. each (λ c. agree a b c) scored) scored) scored

  unfoldable pub sort : List Scored → Option (List Scored)
  unfolding in_order is_ordered
  sort scored = if is_ordered scored then some (in_order scored) else none

  unfoldable pub keep_top_k : ℤ → (vocab_size : ℕ) → List Scored → Option (List Scored)
  unfolding sort
  keep_top_k (pos k) vocab_size scored =
      if ltb 0 k && ltb k vocab_size
      then (sort scored >>= λ sorted. some (take k sorted))
      else some scored
  keep_top_k (negsuc k) vocab_size scored = some scored

  unfoldable pub shifted : Double → List Scored → List Scored
  shifted max_logit [] = []
  shifted max_logit ((l, t) ∷ rest) = (exp (minus l max_logit), t) ∷ shifted max_logit rest

  unfoldable pub total : Double → List Scored → Double
  total acc [] = acc
  total acc ((l, t) ∷ rest) = total (plus acc l) rest

  unfoldable pub divided : Double → List Scored → List Scored
  divided sum_exp [] = []
  divided sum_exp ((l, t) ∷ rest) = (over l sum_exp, t) ∷ divided sum_exp rest

  unfoldable pub softmax : List Scored → Option (List Scored)
  unfolding shifted total divided
  softmax [] = none
  softmax ((max_logit, t) ∷ rest) =
      let exps = shifted max_logit ((max_logit, t) ∷ rest) in
      some (divided (total nought exps) exps)

  -- The loop that finds `cutoff`, from the index `j` on.
  unfoldable pub cutoff : Double → (cumsum : Double) → (j : ℕ) → List Scored → ℕ
  cutoff top_p cumsum j [] = j
  cutoff top_p cumsum j ((l, t) ∷ rest) =
      let later = cutoff top_p (plus cumsum l) (suc j) rest in
      if at_most top_p (plus cumsum l) then suc j else later

  unfoldable pub keep_top_p : Double → List Scored → Option (List Scored)
  unfolding sort cutoff
  keep_top_p top_p scored =
      if less top_p (count 1)
      then (sort scored >>= λ sorted. some (take (cutoff top_p nought 0 sorted) sorted))
      else some scored

  -- The loop that takes the first candidate whose sum reaches `r`.
  unfoldable pub reach : (r acc : Double) (chosen : ℕ) → List Scored → ℕ
  reach r acc chosen [] = chosen
  reach r acc chosen ((l, t) ∷ rest) =
      let later = reach r (plus acc l) chosen rest in if at_most r (plus acc l) then t else later

  unfoldable pub draw_token : (Double → Double) → List Scored → Option ℕ
  unfolding reach total
  draw_token draw [] = none
  draw_token draw ((l, t) ∷ rest) =
      some (reach (draw (total nought ((l, t) ∷ rest))) nought t ((l, t) ∷ rest))

  unfoldable pub choose :
      (vocab_size : ℕ) → ChoiceParams → (Double → Double) → List Double → Option ℕ
  unfolding greedy scored_from keep_top_k softmax keep_top_p draw_token
  choose vocab_size sp draw seq_logits =
      if less sp.temperature tiny
      then some (greedy seq_logits)
      else (keep_top_k sp.top_k vocab_size (scored_from sp.temperature 0 seq_logits) >>= λ kept.
          softmax kept >>= λ scored. keep_top_p sp.top_p scored >>= draw_token draw)

  -- `params[i]`, or the defaults.
  unfoldable pub params_at : List ChoiceParams → ChoiceParams → ℕ → ChoiceParams
  params_at params default i = elim (get_elem? params i) [ none ↦ default | some sp ↦ sp ]

  -- The loop over `entries` entries, from the index `i` on.
  unfoldable pub sample :
      (vocab_size : ℕ)
      → List Double
      → List ChoiceParams
      → ChoiceParams
      → (ℕ → Double → Double)
      → (entries i : ℕ) → Option (List ℕ)
  unfolding choose params_at
  sample vocab_size logits params default draw zero i = some []
  sample vocab_size logits params default draw (suc n) i =
      choose vocab_size (params_at params default i) (draw i)
        (take vocab_size (drop (i * vocab_size) logits))
      >>= λ token.
          sample vocab_size logits params default draw n (suc i) >>= λ tokens. some (token ∷ tokens)
