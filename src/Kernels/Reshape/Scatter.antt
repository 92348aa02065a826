-- ===== src/Kernels/Reshape/Scatter.antt =====
-- The cache after `reshape_and_cache`, element by element.
use native.Mathlib.Nat.{mod-lt}
use mathlib.Core.List.{Permᴰ}
use cache_flow.Base.{
  ℕ, ◌+◌, ◌*◌, ◌/◌, ◌%◌, ◌<◌, Option-cases, none, some, inl, ◌≡◌, sym, ap, ◌∙◌, inr, List,
}
use cache_flow.Base.Digits.{digits}
use cache_flow.Kernels.Moves.{Move, copy_from}
use cache_flow.Kernels.Reshape.{
  Shape, cache_offset, token_offset, launch_reshape_and_cache, cache_offset-injective, element,
}
use cache_flow.Kernels.Owner.{IsDistinct, owner, owner-some, owner-none, whole}
use cache_flow.Kernels.Reshape.Writes.{written, others_kept}

-- The slot, the head and the coordinate of an element of the cache.
abbrev pub row_of : Shape → ℕ → ℕ
row_of s a = a / s.head_dim

abbrev pub plane_of : Shape → ℕ → ℕ
plane_of s a = row_of s a / s.block_size

abbrev pub slot_of : Shape → ℕ → ℕ
slot_of s a = (plane_of s a / s.num_kv_heads) * s.block_size + row_of s a % s.block_size

abbrev pub head_of : Shape → ℕ → ℕ
head_of s a = plane_of s a % s.num_kv_heads

abbrev pub coordinate_of : Shape → ℕ → ℕ
coordinate_of s a = a % s.head_dim

-- What an element of the cache is to hold: that of the token that has its slot, if there is one.
pub expected {ℓ} : {A : Type ℓ} → Shape → ℕ → (ℕ → ℕ) → (source cache : ℕ → A) → ℕ → A
expected s num_tokens slot_mapping source cache a =
    elim (owner num_tokens slot_mapping (slot_of s a)) [
      | none ↦ cache a
      | some token ↦ source (token_offset s token (head_of s a) (coordinate_of s a))
    ]

module _ (s : Shape) (a : ℕ) (some_head : 0 < s.num_kv_heads) (some_row : 0 < s.block_size)
    (some_coordinate : 0 < s.head_dim) where
  place :
      cache_offset s
        (plane_of s a / s.num_kv_heads)
        (head_of s a)
        (row_of s a % s.block_size)
        (coordinate_of s a)
      ≡ a
  unfolding cache_offset
  place =
      rw (whole s.num_kv_heads (plane_of s a), whole s.block_size (row_of s a), whole s.head_dim a)

  pub slot_place :
      cache_offset s
        (slot_of s a / s.block_size)
        (head_of s a)
        (slot_of s a % s.block_size)
        (coordinate_of s a)
      ≡ a
  slot_place =
      let size = s.block_size in
      let (block, off) =
        digits size (slot_of s a / size) (plane_of s a / s.num_kv_heads) (slot_of s a % size)
          (row_of s a % size) (mod-lt (slot_of s a) some_row) (mod-lt (row_of s a) some_row)
          (whole size (slot_of s a)) in
      (λ i. cache_offset s (block i) (head_of s a) (off i) (coordinate_of s a)) ∙ place

  -- The element is that of one slot only.
  pub slot_unique :
      (slot h d : ℕ)
      → h < s.num_kv_heads
      → d < s.head_dim
      → cache_offset s (slot / s.block_size) h (slot % s.block_size) d ≡ a
      → slot ≡ slot_of s a
  slot_unique slot h d lh ld e =
      let size = s.block_size in
      let (block, head, off, d') =
        cache_offset-injective s (slot / size) (plane_of s a / s.num_kv_heads) h (head_of s a)
          (slot % size) (row_of s a % size) d (coordinate_of s a) lh
          (mod-lt (plane_of s a) some_head) (mod-lt slot some_row) (mod-lt (row_of s a) some_row) ld
          (mod-lt a some_coordinate) (e ∙ sym place) in
      sym (whole size slot) ∙ (λ i. block i * size + off i)

-- If no two tokens have the same slot, the launch leaves, in whatever order its threads run, every
-- element of the cache as it is expected: that of the token with its slot, and the old one where
-- there is no such token.
pub reshape_and_cache-expected {ℓ} :
    {A : Type ℓ} (s : Shape) (num_tokens : ℕ) (slot_mapping : ℕ → ℕ) (run : List Move)
    (source cache : ℕ → A) (a : ℕ)
    → 0 < s.num_kv_heads
    → 0 < s.block_size
    → 0 < s.head_dim
    → IsDistinct num_tokens slot_mapping
    → Permᴰ run (launch_reshape_and_cache s num_tokens slot_mapping)
    → copy_from run source cache a ≡ expected s num_tokens slot_mapping source cache a
unfolding expected
reshape_and_cache-expected s num_tokens slot_mapping run source cache a zh zr zd distinct order =
    elim (Option-cases (owner num_tokens slot_mapping (slot_of s a))) [
      | inl free ↦
          rw (free, expected)
            (others_kept s num_tokens slot_mapping run order zr distinct source cache a
              (λ token head d lt lh ld e.
                owner-none num_tokens slot_mapping (slot_of s a) token free lt
                  (slot_unique s a zh zr zd (slot_mapping token) head d lh ld e)))
      | inr (token, found) ↦
          let (lt, at) = owner-some num_tokens slot_mapping (slot_of s a) token found in
          let same : (element s num_tokens slot_mapping token (head_of s a) (coordinate_of s a)).dst
              ≡ a =
            (λ i.
              cache_offset s (at i / s.block_size) (head_of s a) (at i % s.block_size)
                (coordinate_of s a))
            ∙ slot_place s a zh zr zd in
          rw (found, expected)
            (ap (copy_from run source cache) (sym same)
              ∙ written s num_tokens slot_mapping run order zr distinct source cache token
                  (head_of s a) (coordinate_of s a) lt (mod-lt (plane_of s a) zh) (mod-lt a zd))
    ]
