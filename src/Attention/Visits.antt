-- ===== src/Attention/Visits.antt =====
-- Every position of the context is visited once, by whichever kernel is launched.
use cache_flow.Base.{
  ℕ, zero, suc, ◌+◌, ◌-◌, ◌*◌, ◌/◌, ◌≤◌, ◌≡◌, ap, ◌∙◌, fun_ext, ltb, leb, ◌==◌, if◌then◌else◌, min,
  List, [], ◌∷◌, some, get_elem?, Bool-cases, inl, inr, arith,
}
use cache_flow.Base.Int.{ℤ}
use cache_flow.Kernels.Grid.{for_each, strided}
use cache_flow.Attention.{
  PagedAttentionParams, Visit, tokens_v1, tokens_v2, visits_v1, partition_v2, visits_v2,
  launch_paged_attention_v1, launch_paged_attention_v2, execute_attention, max_context, to_len,
}
use cache_flow.Attention.Hits.{hits, hits-tokens_v1, hits-tokens_v2, hits-threads, hits-for_each}

from_zero :
    (x n limit : ℕ) (body : ℕ → List Visit)
    → hits x (for_each n (λ t. strided limit limit n t body))
      ≡ hits x (for_each n (λ t. strided limit limit n (0 + t) body))
from_zero x n limit body =
    ap (λ (f : ℕ → List Visit). hits x (for_each n f))
      (fun_ext (λ (t : ℕ). ap (λ (i : ℕ). strided limit limit n i body) (omega arith)))

tokens_v1_only :
    (x ctx_len block : ℕ)
    → hits x (tokens_v1 16 ctx_len block 0)
      ≡ (if block == x / 16 then if ltb x ctx_len then 1 else 0 else 0)
tokens_v1_only x ctx_len block = hits-tokens_v1 x 16 ctx_len block 0 ∙ ground arith

pub hits-visits_v1 : (x ctx_len : ℕ) → hits x (visits_v1 ctx_len) ≡ (if ltb x ctx_len then 1 else 0)
unfolding visits_v1
hits-visits_v1 x ctx_len =
    let num_blocks = (ctx_len + 16 - 1) / 16 in
    from_zero x 4 num_blocks (λ block. tokens_v1 16 ctx_len block 0)
    ∙ hits-threads x (if ltb x ctx_len then 1 else 0) (x / 16)
        (λ block. tokens_v1 16 ctx_len block 0) (tokens_v1_only x ctx_len) num_blocks num_blocks 4 0
        (omega arith) (omega arith)
    ∙ ground arith

tokens_v2_only :
    (x start_tok end_tok block : ℕ)
    → hits x (tokens_v2 16 start_tok end_tok block 0) ≡ (
        if block == x / 16
        then if leb start_tok x then if ltb x end_tok then 1 else 0 else 0
        else 0)
tokens_v2_only x start_tok end_tok block =
    hits-tokens_v2 x 16 start_tok end_tok block 0 ∙ ground arith

pub hits-partition_v2 :
    (x ctx_len part : ℕ)
    → hits x (partition_v2 ctx_len part)
      ≡ (if part == x / 512 then if ltb x ctx_len then 1 else 0 else 0)
unfolding partition_v2
hits-partition_v2 x ctx_len part =
    let start_tok = part * 512 in
    let end_tok = min (start_tok + 512) ctx_len in
    let end_block = (end_tok + 16 - 1) / 16 in
    elim (Bool-cases (leb ctx_len (part * 512))) [
      | inl e ↦ rw (e, partition_v2) (unfold hits in ground arith)
      | inr e ↦
          rw (e, partition_v2)
            (hits-threads x (if leb start_tok x then if ltb x end_tok then 1 else 0 else 0) (x / 16)
                (λ block. tokens_v2 16 start_tok end_tok block 0)
                (tokens_v2_only x start_tok end_tok) end_block end_block 4 (start_tok / 16)
                (omega arith) (omega arith)
              ∙ ground arith)
    ]

pub hits-visits_v2 :
    (x n ctx_len : ℕ)
    → ctx_len ≤ n * 512
    → hits x (visits_v2 n ctx_len) ≡ (if ltb x ctx_len then 1 else 0)
unfolding visits_v2
hits-visits_v2 x n ctx_len enough =
    hits-for_each x (if ltb x ctx_len then 1 else 0) (x / 512) n (λ part. partition_v2 ctx_len part)
      (λ k l. hits-partition_v2 x ctx_len k)
    ∙ ground arith

len-le-max_context :
    (lens : List ℤ) (i : ℕ) (len : ℤ) → get_elem? lens i ≡ some len → to_len len ≤ max_context lens
unfolding max_context
len-le-max_context [] i len e = absurd (cc (e))
len-le-max_context (l ∷ lens) zero len e = let here : l ≡ len = cc (e) in rw (← here) (omega arith)
len-le-max_context (l ∷ lens) (suc i) len e = omega (arith, len-le-max_context lens i len e)

-- With blocks of 16 tokens and heads of 128 numbers, `execute_attention` reads, for each sequence
-- of the batch and each head, every position of the context once and no position out of it:
-- through the warps of the one kernel, or through the partitions and warps of the other, if a
-- context of the batch is longer than 8192 tokens.
pub hits-execute_attention :
    (p : PagedAttentionParams) (lens : List ℤ) (i : ℕ) (len : ℤ) (x : ℕ)
    → p.block_size ≡ 16
    → p.head_dim ≡ 128
    → get_elem? lens i ≡ some len
    → hits x (execute_attention p lens len) ≡ (if ltb x (to_len len) then 1 else 0)
unfolding execute_attention launch_paged_attention_v1 launch_paged_attention_v2
hits-execute_attention p lens i len x blocks dims e =
    elim (Bool-cases (leb (max_context lens) 8192)) [
      | inl short ↦
          rw (short, execute_attention) (rw (dims, blocks) (hits-visits_v1 x (to_len len)))
      | inr long ↦
          rw (long, execute_attention)
            (rw (dims, blocks)
              (hits-visits_v2 x ((max_context lens + 512 - 1) / 512) (to_len len)
                (omega (arith, len-le-max_context lens i len e))))
    ]
