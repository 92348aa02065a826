-- ===== src/Examples/Merging.antt =====
-- The second partition of a context of 600 positions, and a context of three.
use cache_flow.Base.{
  ℕ, ◌+◌, ◌-◌, ◌/◌, ◌%◌, ◌<◌, ◌==◌, ◌≡◌, refl, Bool, true, false, Option, none, some, [], ◌∷◌,
  arith,
}
use cache_flow.Base.Sums.{sum, below, same_elements}
use cache_flow.Platform.{Platform}
use cache_flow.Kernels.Grid.{strided}
use cache_flow.Attention.{PagedAttentionParams, vector_offset}
use cache_flow.Attention.Softmax.{Arrays, key_at, value_at}
use cache_flow.Attention.Placed.{visit_at}
use cache_flow.Attention.Reference.{score}
use cache_flow.Attention.Running.{Merged, paged_attention_v2, reduce_v2}
use cache_flow.Attention.Parts.{part_positions}
use cache_flow.Attention.Lanes.{part_top, part_weight}
use cache_flow.Attention.Merge.{paged_attention_v2-part}
use cache_flow.Examples.Profiling.{whole}
use cache_flow.Examples.Residues.{Residue, z, o, t, residues, exact}

abbrev params : PagedAttentionParams
params = record {
  num_seqs = 1;
  num_heads = 2;
  num_kv_heads = 1;
  head_dim = 2;
  block_size = 16;
  max_context_len = 600;
  max_blocks_per_seq = 38;
}

abbrev arrays_of : (platform : Platform) → (ℕ → platform.Double) → Arrays platform
arrays_of platform keys = record {
  query = λ i. platform.count (1 - i % 2);
  key_cache = keys;
  value_cache = λ i. platform.count (i + 1);
  block_tables = λ i. 1;
  scale = platform.count 1;
}

-- All positions weigh the same.
abbrev numbers : Platform
numbers = record whole { exp = λ x. 1 }

-- The values of a context of three are 34, 36 and 38; their average is 36, and the reduction gives
-- their sum.
-- Memory that no partition has written is 0.
abbrev left : Option (Merged numbers) → Merged numbers
left none = record { max_logit = 0; exp_sum = 0; tmp_out = 0 }
left (some m) = m

reduced :
    reduce_v2 numbers
      (λ part.
        left
          (paged_attention_v2 numbers params (arrays_of numbers (λ i. i)) 0 1 3 part (below 4) 1))
      3
    ≡ 108
unfolding reduce_v2 paged_attention_v2 strided below
reduced = refl

-- Scores that are 1 and 2 in turn.
abbrev key_of : Bool → Residue
key_of true = o
key_of false = t

abbrev arrays : Arrays residues
arrays = arrays_of residues (λ i. key_of (i / 2 % 2 == 0))

scored_of :
    (b c : Bool)
    → ¬ (
        residues.times
          (residues.plus
            (residues.times o (key_of b))
            (residues.plus (residues.times z (key_of c)) z))
          o
        ≡ z)
scored_of true true h = absurd (cc h)
scored_of true false h = absurd (cc h)
scored_of false true h = absurd (cc h)
scored_of false false h = absurd (cc h)

scored : (x : ℕ) → x < 600 → ¬ (score residues params arrays 0 1 600 x ≡ z)
unfolding sum below key_at
scored x h =
    let at : ℕ → Bool =
      λ d. (vector_offset params arrays.block_tables 0 1 (visit_at x) + d) / 2 % 2 == 0 in
    scored_of (at 0) (at 1)

paged_attention_v2-part_example :
    paged_attention_v2 residues params arrays 0 1 600 1 (3 ∷ 1 ∷ 0 ∷ 2 ∷ []) 1
    ≡ some (record {
      max_logit = part_top residues params arrays 0 1 600 1;
      exp_sum =
          sum residues.plus residues.nought
            (λ lane.
              sum residues.plus residues.nought
                (part_weight residues params arrays 0 1 600 1)
                (part_positions 600 1))
            (below 32);
      tmp_out =
          sum residues.plus residues.nought
            (λ x.
              residues.times
                (part_weight residues params arrays 0 1 600 1 x)
                (value_at residues params arrays 0 1 (visit_at x) 1))
            (part_positions 600 1);
    })
unfolding same_elements below
paged_attention_v2-part_example =
    paged_attention_v2-part residues params arrays 0 1 600 1 1 (3 ∷ 1 ∷ 0 ∷ 2 ∷ []) exact scored
      (omega arith) refl
