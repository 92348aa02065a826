-- ===== src/Kernels/Reshape.antt =====
-- src/cacheflow/cuda/kv_cache_kernels.cu: `reshape_and_cache`, which writes the keys and values of
-- new tokens to their slots. The same moves are made for the keys and for the values.
pub mod Writes
pub mod Scatter
use native.Mathlib.Nat.{mod-lt}
use mathlib.Core.List.{Memᴰ, Permᴰ}
use mathlib.Core.List.Memᴰ
use mathlib.Core.List.Permᴰ
use cache_flow.Base.{
  ℕ, ◌+◌, ◌*◌, ◌/◌, ◌%◌, ◌<◌, zero, suc, ◌==◌, ==-eq, ==_refl, Bool-cases, Option, Option-cases,
  none, some, inl, ◌≡◌, ◌≢◌, refl, sym, ap, ◌∙◌, inr, if◌then◌else◌, leb, ◌||◌, List, [], ◌∷◌,
  arith,
}
use cache_flow.Base.Digits.{digits}
use cache_flow.Kernels.Moves.{Move, copy_from, copy_from-ne, settled, mem-run}
use cache_flow.Kernels.Grid.{for_each, mem-for_each, for_each-mem}

-- The sizes of a cache of the shape [num_blocks, num_kv_heads, block_size, head_dim].
pub record Shape : Type 0 where
  pub num_kv_heads : ℕ
  pub head_dim : ℕ
  pub block_size : ℕ

unfoldable pub cache_offset : Shape → (block head off d : ℕ) → ℕ
cache_offset s block head off d =
    ((block * s.num_kv_heads + head) * s.block_size + off) * s.head_dim + d

unfoldable pub token_offset : Shape → (token head d : ℕ) → ℕ
token_offset s token head d = (token * s.num_kv_heads + head) * s.head_dim + d

-- The thread `d` of the block of a token and a head.
unfoldable pub reshape_and_cache_kernel :
    Shape → (num_tokens : ℕ) (slot_mapping : ℕ → ℕ) (token head d : ℕ) → List Move
reshape_and_cache_kernel s num_tokens slot_mapping token head d =
    let slot = slot_mapping token in
    if leb num_tokens token || leb s.head_dim d
    then []
    else record {
      dst = cache_offset s (slot / s.block_size) head (slot % s.block_size) d;
      src = token_offset s token head d;
    }
      ∷ []

unfoldable pub launch_reshape_and_cache :
    Shape → (num_tokens : ℕ) (slot_mapping : ℕ → ℕ) → List Move
unfolding reshape_and_cache_kernel
launch_reshape_and_cache s num_tokens slot_mapping = for_each num_tokens (λ token.
    for_each s.num_kv_heads (λ head.
      for_each s.head_dim (λ d. reshape_and_cache_kernel s num_tokens slot_mapping token head d)))

pub cache_offset-injective :
    (s : Shape) (b b' h h' o o' d d' : ℕ)
    → h < s.num_kv_heads
    → h' < s.num_kv_heads
    → o < s.block_size
    → o' < s.block_size
    → d < s.head_dim
    → d' < s.head_dim
    → cache_offset s b h o d ≡ cache_offset s b' h' o' d'
    → (b ≡ b') × (h ≡ h') × (o ≡ o') × (d ≡ d')
unfolding cache_offset
cache_offset-injective s b b' h h' o o' d d' lh lh' lo lo' ld ld' e =
    let (row, ed) =
      digits s.head_dim ((b * s.num_kv_heads + h) * s.block_size + o)
        ((b' * s.num_kv_heads + h') * s.block_size + o') d d' ld ld' e in
    let (plane, eo) =
      digits s.block_size (b * s.num_kv_heads + h) (b' * s.num_kv_heads + h') o o' lo lo' row in
    let (eb, eh) = digits s.num_kv_heads b b' h h' lh lh' plane in (eb, eh, eo, ed)

module _ (s : Shape) (num_tokens : ℕ) (slot_mapping : ℕ → ℕ) where
  -- The move of an element.
  abbrev pub element : (token head d : ℕ) → Move
  element token head d = record {
    dst =
        cache_offset s (slot_mapping token / s.block_size) head (slot_mapping token % s.block_size)
          d;
    src = token_offset s token head d;
  }

  one_element :
      (token head d : ℕ)
      → token < num_tokens
      → d < s.head_dim
      → reshape_and_cache_kernel s num_tokens slot_mapping token head d ≡ element token head d ∷ []
  unfolding reshape_and_cache_kernel
  one_element token head d lt ld = ground arith

  pub mem-launch :
      (token head d : ℕ)
      → token < num_tokens
      → head < s.num_kv_heads
      → d < s.head_dim
      → Memᴰ (element token head d) (launch_reshape_and_cache s num_tokens slot_mapping)
  unfolding launch_reshape_and_cache
  mem-launch token head d lt lh ld = mem-for_each num_tokens token _ (element token head d) lt (
      mem-for_each s.num_kv_heads head _ (element token head d) lh (
        mem-for_each s.head_dim d _ (element token head d) ld
          (rw (one_element token head d lt ld) (Memᴰ.head refl))))

  pub launch-mem :
      (mv : Move)
      → Memᴰ mv (launch_reshape_and_cache s num_tokens slot_mapping)
      → (token : ℕ) × (head : ℕ) × (d : ℕ) × (token < num_tokens)
        × (head < s.num_kv_heads)
        × (d < s.head_dim)
        × (mv ≡ element token head d)
  unfolding launch_reshape_and_cache
  launch-mem mv i =
      let (token, lt, i') = for_each-mem num_tokens _ mv i in
      let (head, lh, i'') = for_each-mem s.num_kv_heads _ mv i' in
      let (d, ld, i''') = for_each-mem s.head_dim _ mv i'' in
      (
        token,
        head,
        d,
        lt,
        lh,
        ld,
        Memᴰ.eq_of_singleton (rw (one_element token head d lt ld) at i'''),
      )
