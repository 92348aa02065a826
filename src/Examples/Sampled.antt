-- ===== src/Examples/Sampled.antt =====
-- Two entries over a vocabulary of three tokens: one greedy, one drawn.
use cache_flow.Base.{ℕ, ◌<◌, ◌≡◌, refl, List, [], ◌∷◌, length, All, some, arith}
use cache_flow.Base.Int.{pos}
use cache_flow.Platform.{Platform}
use cache_flow.Sampling.{ChoiceParams, agree, sample}
use cache_flow.Sampling.Vocabulary.{sample-InVocabulary}
use cache_flow.Examples.Profiling.{whole}

-- The drawing is by the exponentials, which are not divided.
abbrev numbers : Platform
numbers = record whole { tiny = 1; over = λ a b. a }

abbrev logits : List ℕ
logits = 3 ∷ 9 ∷ 4 ∷ 8 ∷ 2 ∷ 6 ∷ []

-- Below the temperature 1, and drawn from the best two.
abbrev greedy_params : ChoiceParams numbers
greedy_params = record { temperature = 0; top_p = 1; top_k = pos 0 }

abbrev drawn_params : ChoiceParams numbers
drawn_params = record { temperature = 1; top_p = 1; top_k = pos 2 }

abbrev draw : ℕ → ℕ → ℕ
draw i sum = sum

sampled : sample numbers 3 logits (greedy_params ∷ []) drawn_params draw 2 0 ≡ some (1 ∷ 2 ∷ [])
unfolding sample
sampled = refl

sample-InVocabulary_example :
    (tokens : List ℕ) × (sample numbers 3 logits (greedy_params ∷ []) drawn_params draw 2 0
      ≡ some tokens)
    × (length tokens ≡ 2)
    × All (λ token. token < 3) tokens
unfolding agree
sample-InVocabulary_example =
    sample-InVocabulary numbers 3 logits (greedy_params ∷ []) drawn_params draw 2 0
      (λ a b c. ground arith) (omega arith) (omega arith)
