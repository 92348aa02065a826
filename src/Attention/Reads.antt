-- ===== src/Attention/Reads.antt =====
-- What the attention kernels read is what `reshape_and_cache` wrote.
use mathlib.Core.List.{Permᴰ}
use native.Mathlib.Nat.{mul-div_cancel}
use cache_flow.Base.{ℕ, ◌+◌, ◌*◌, ◌/◌, ◌%◌, ◌<◌, ◌≡◌, refl, ap, ◌∙◌, List, arith}
use cache_flow.Kernels.Moves.{Move, copy_from}
use cache_flow.Kernels.Owner.{IsDistinct}
use cache_flow.Kernels.Reshape.{Shape, cache_offset, token_offset, launch_reshape_and_cache}
use cache_flow.Kernels.Reshape.Writes.{written_at}
use cache_flow.Attention.{PagedAttentionParams, Visit, kv_head, position, vector_offset}

-- The cache of the parameters.
abbrev pub shape_of : PagedAttentionParams → Shape
shape_of p = record { num_kv_heads = p.num_kv_heads; head_dim = p.head_dim; block_size = 16 }

vector_offset-eq :
    (p : PagedAttentionParams) (tables : ℕ → ℕ) (seq head d : ℕ) (v : Visit)
    → vector_offset p tables seq head v + d
      ≡ cache_offset
          (shape_of p)
          (tables (seq * p.max_blocks_per_seq + v.block))
          (kv_head p head)
          v.off
          d
unfolding vector_offset cache_offset
vector_offset-eq p tables seq head d v = refl

kv_head-lt :
    (p : PagedAttentionParams) (head group : ℕ)
    → p.num_heads ≡ group * p.num_kv_heads
    → head < p.num_heads
    → kv_head p head < p.num_kv_heads
kv_head-lt p head group e l =
    let some_kv : 0 < p.num_kv_heads = grind arith in
    let size : p.num_heads / p.num_kv_heads ≡ group =
      ap (λ (n : ℕ). n / p.num_kv_heads) e ∙ mul-div_cancel group some_kv in
    rw size (grind arith)

-- After a run of `reshape_and_cache`, in any order of its threads, a visit of a position of a
-- sequence reads the vector of the token that was written for it, if that token had the slot that
-- the block table gives for the position and no other token had it.
pub vector_offset-written {ℓ} :
    {A : Type ℓ} (p : PagedAttentionParams) (tables : ℕ → ℕ) (seq head group d : ℕ) (v : Visit)
    (num_tokens token : ℕ) (slot_mapping : ℕ → ℕ) (run : List Move) (source cache : ℕ → A)
    → p.num_heads ≡ group * p.num_kv_heads
    → head < p.num_heads
    → d < p.head_dim
    → v.off < 16
    → token < num_tokens
    → slot_mapping token
      ≡ tables (seq * p.max_blocks_per_seq + position v / 16) * 16 + position v % 16
    → IsDistinct num_tokens slot_mapping
    → Permᴰ run (launch_reshape_and_cache (shape_of p) num_tokens slot_mapping)
    → copy_from run source cache (vector_offset p tables seq head v + d)
      ≡ source (token_offset (shape_of p) token (kv_head p head) d)
vector_offset-written p tables seq head group d v num_tokens token slot_mapping run source cache
      groups lh ld lo lt slot distinct order =
    let block : position v / 16 ≡ v.block = omega (arith, lo) in
    let off : position v % 16 ≡ v.off = omega (arith, lo) in
    let named : slot_mapping token ≡ tables (seq * p.max_blocks_per_seq + v.block) * 16 + v.off =
      slot ∙ (λ i. tables (seq * p.max_blocks_per_seq + block i) * 16 + off i) in
    ap (copy_from run source cache) (vector_offset-eq p tables seq head d v)
    ∙ written_at (shape_of p) num_tokens slot_mapping run order (omega arith) distinct source cache
        token (kv_head p head) (tables (seq * p.max_blocks_per_seq + v.block)) v.off d lt
        (kv_head-lt p head group groups lh) lo ld named
