-- ===== src/Examples/Attending.antt =====
-- Heads of 128 numbers over blocks of 16 tokens.
use mathlib.Core.List.Permᴰ
use cache_flow.Base.{ℕ, ◌+◌, ◌≡◌, refl, arith, List, [], ◌∷◌, if◌then◌else◌, ltb}
use cache_flow.Base.Int.{ℤ, pos}
use cache_flow.Kernels.Moves.{copy_from}
use cache_flow.Kernels.Grid.{for_each, strided}
use cache_flow.Kernels.Reshape.{launch_reshape_and_cache, token_offset}
use cache_flow.Attention.{
  PagedAttentionParams, Visit, kv_head, vector_offset, visits_v1, visits_v2, execute_attention,
}
use cache_flow.Attention.Hits.{hits}
use cache_flow.Attention.Visits.{hits-execute_attention}
use cache_flow.Attention.Reads.{shape_of, vector_offset-written}

abbrev params : PagedAttentionParams
params = record {
  num_seqs = 2;
  num_heads = 8;
  num_kv_heads = 2;
  head_dim = 128;
  block_size = 16;
  max_context_len = 9000;
  max_blocks_per_seq = 563;
}

abbrev lens : List ℤ
lens = pos 40 ∷ pos 9000 ∷ []

-- The first sequence is short, but its batch takes the partitioned kernel.
hits-execute_attention_example :
    hits 39 (execute_attention params lens (pos 40)) ≡ (if ltb 39 40 then 1 else 0)
hits-execute_attention_example = hits-execute_attention params lens 0 (pos 40) 39 refl refl refl

v1_hits_once : hits 39 (visits_v1 40) ≡ 1
unfolding hits visits_v1 for_each strided
v1_hits_once = refl

v2_hits_once : hits 600 (visits_v2 2 700) ≡ 1
unfolding hits visits_v2 for_each strided
v2_hits_once = refl

-- The second block of the first sequence is block 6.
abbrev tables : ℕ → ℕ
tables i = i + 5

abbrev visit : Visit
visit = record { block = 1; off = 2 }

vector_offset-written_example :
    copy_from
      (launch_reshape_and_cache (shape_of params) 1 (λ i. 98))
      (λ i. i + 1)
      (λ i. 0)
      (vector_offset params tables 0 5 visit + 3)
    ≡ token_offset (shape_of params) 0 (kv_head params 5) 3 + 1
vector_offset-written_example =
    vector_offset-written params tables 0 5 4 3 visit 1 0 (λ i. 98)
      (launch_reshape_and_cache (shape_of params) 1 (λ i. 98)) (λ i. i + 1) (λ i. 0) refl
      (omega arith) (omega arith) (omega arith) (omega arith) refl (λ i j li lj e. omega arith)
      (Permᴰ.refl _)
