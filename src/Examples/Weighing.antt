-- ===== src/Examples/Weighing.antt =====
-- The attention of a context of three positions, with heads of two numbers.
use cache_flow.Base.{ℕ, ◌+◌, ◌/◌, ◌%◌, ◌≡◌, refl, List, [], ◌∷◌, ◌++◌, map, arith}
use cache_flow.Base.Sums.{times-below, below, same_elements}
use cache_flow.Platform.{Platform}
use cache_flow.Kernels.Grid.{for_each, strided}
use cache_flow.Attention.{PagedAttentionParams, visits_v1}
use cache_flow.Attention.Race.{Access, loads, stores, InStep, race}
use cache_flow.Attention.Softmax.{Arrays, paged_attention_v1}
use cache_flow.Attention.Reference.{attention}
use cache_flow.Attention.Exact.{paged_attention_v1-attention}
use cache_flow.Examples.Profiling.{whole}
use cache_flow.Examples.Residues.{o, t, residue, residues, exact}

abbrev params : PagedAttentionParams
params = record {
  num_seqs = 1;
  num_heads = 2;
  num_kv_heads = 1;
  head_dim = 2;
  block_size = 16;
  max_context_len = 3;
  max_blocks_per_seq = 1;
}

-- Numbers without rounding.
abbrev numbers : Platform
numbers = record whole { over = λ a b. a }

-- The context is in block 1.
abbrev arrays : Arrays numbers
arrays = record {
  query = λ i. i;
  key_cache = λ i. i;
  value_cache = λ i. i + 1;
  block_tables = λ i. 1;
  scale = 1;
}

abbrev in_step : ℕ → List Access
in_step x = map loads (below 32) ++ map stores (below 32)

calm : (x : ℕ) → InStep (in_step x)
calm x = record {
  loading = below 32;
  storing = below 32;
  split = refl;
  loaded = λ lane. times-below lane 32;
  stored = λ lane. times-below lane 32;
}

-- Lane 1 loads after lane 0 has stored: it takes the double of the double.
late :
    ((race
      (record numbers { exp = λ a. a + a })
      0
      (loads 0 ∷ stores 0 ∷ loads 1 ∷ stores 1 ∷ [])
      5).qk_val)
    ≡ 20
unfolding race
late = refl

-- The scores are 2 * 32 + 3 * 33 = 163, 173 and 183 for the second head, and the weights 1, 1 and 1.
weighed :
    paged_attention_v1 numbers params arrays 0 1 3 in_step (λ i. 9) (2 ∷ 0 ∷ 3 ∷ 1 ∷ []) 1 ≡ 108
unfolding paged_attention_v1 strided visits_v1 for_each below race
weighed = refl

-- Scores and weights that differ.
abbrev mod_arrays : Arrays residues
mod_arrays = record {
  query = λ i. residue (1 + i % 2);
  key_cache = λ i. residue (i / 2);
  value_cache = λ i. residue (i + 1);
  block_tables = λ i. 1;
  scale = o;
}

paged_attention_v1-attention_example :
    paged_attention_v1 residues params mod_arrays 0 1 3 in_step (λ i. t) (2 ∷ 0 ∷ 3 ∷ 1 ∷ []) 1
    ≡ attention residues params mod_arrays 0 1 3 1
unfolding same_elements below
paged_attention_v1-attention_example =
    paged_attention_v1-attention residues params mod_arrays 0 1 3 1 in_step (λ i. t)
      (2 ∷ 0 ∷ 3 ∷ 1 ∷ []) exact.sums exact.maxima (omega arith) calm refl
