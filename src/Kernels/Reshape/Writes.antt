-- ===== src/Kernels/Reshape/Writes.antt =====
-- Which elements `reshape_and_cache` writes, and with what.
use native.Mathlib.Nat.{mod-lt}
use mathlib.Core.List.{Permᴰ}
use mathlib.Core.List.Permᴰ
use cache_flow.Base.{ℕ, ◌+◌, ◌*◌, ◌/◌, ◌%◌, ◌<◌, ◌≡◌, ◌≢◌, refl, sym, ap, ◌∙◌, inr, List, arith}
use cache_flow.Kernels.Moves.{Move, copy_from, copy_from-ne, settled, mem-run}
use cache_flow.Base.Digits.{digits}
use cache_flow.Kernels.Owner.{IsDistinct, whole}
use cache_flow.Kernels.Reshape.{
  cache_offset, Shape, token_offset, launch_reshape_and_cache, cache_offset-injective, element,
  mem-launch, launch-mem,
}

element_unique :
    (s : Shape) (num_tokens : ℕ) (slot_mapping : ℕ → ℕ) (token head d token' head' d' : ℕ)
    → 0 < s.block_size
    → IsDistinct num_tokens slot_mapping
    → token < num_tokens
    → head < s.num_kv_heads
    → d < s.head_dim
    → token' < num_tokens
    → head' < s.num_kv_heads
    → d' < s.head_dim
    → (element s num_tokens slot_mapping token' head' d').dst
      ≡ (element s num_tokens slot_mapping token head d).dst
    → element s num_tokens slot_mapping token' head' d'
      ≡ element s num_tokens slot_mapping token head d
element_unique s num_tokens slot_mapping token head d token' head' d' z distinct lt lh ld lt' lh'
      ld' e =
    let size = s.block_size in
    let (eb, eh, eo, ed) =
      cache_offset-injective s (slot_mapping token' / size) (slot_mapping token / size) head' head
        (slot_mapping token' % size) (slot_mapping token % size) d' d lh' lh
        (mod-lt (slot_mapping token') z) (mod-lt (slot_mapping token) z) ld' ld e in
    let whole' : (slot_mapping token' / size) * size + slot_mapping token' % size
        ≡ slot_mapping token' =
      grind arith in
    let whole : (slot_mapping token / size) * size + slot_mapping token % size
        ≡ slot_mapping token =
      grind arith in
    let et : token' ≡ token =
      distinct token' token lt' lt (sym whole' ∙ (λ i. eb i * size + eo i) ∙ whole) in
    λ i. element s num_tokens slot_mapping (et i) (eh i) (ed i)

module _ {ℓ} {A : Type ℓ} (s : Shape) (num_tokens : ℕ) (slot_mapping : ℕ → ℕ) (run : List Move)
    (order : Permᴰ run (launch_reshape_and_cache s num_tokens slot_mapping)) (z : 0 < s.block_size)
    (distinct : IsDistinct num_tokens slot_mapping) where
  pub written :
      (source cache : ℕ → A) (token head d : ℕ)
      → token < num_tokens
      → head < s.num_kv_heads
      → d < s.head_dim
      → copy_from run source cache (element s num_tokens slot_mapping token head d).dst
        ≡ source (token_offset s token head d)
  written source cache token head d lt lh ld =
      let mv = element s num_tokens slot_mapping token head d in
      settled run source cache mv.dst (source mv.src)
        (λ other i e.
          let (token', head', d', lt', lh', ld', same) =
            launch-mem s num_tokens slot_mapping other (mem-run order i) in
          let unique =
            element_unique s num_tokens slot_mapping token head d token' head' d' z distinct lt lh
              ld lt' lh' ld' (ap (λ (m : Move). m.dst) (sym same) ∙ e) in
          ap (λ (m : Move). source m.src) (same ∙ unique))
        (inr (
          mv,
          mem-run (Permᴰ.symm order) (mem-launch s num_tokens slot_mapping token head d lt lh ld),
          refl,
        ))

  pub others_kept :
      (source cache : ℕ → A) (a : ℕ)
      → ((token head d : ℕ)
          → token < num_tokens
          → head < s.num_kv_heads
          → d < s.head_dim
          → (element s num_tokens slot_mapping token head d).dst ≢ a)
      → copy_from run source cache a ≡ cache a
  others_kept source cache a untouched = copy_from-ne run source cache a (λ mv i e.
      let (token, head, d, lt, lh, ld, same) =
        launch-mem s num_tokens slot_mapping mv (mem-run order i) in
      untouched token head d lt lh ld (ap (λ (m : Move). m.dst) (sym same) ∙ e))

  -- The slot of a token as a block and an offset in it.
  pub written_at :
      (source cache : ℕ → A) (token head block off d : ℕ)
      → token < num_tokens
      → head < s.num_kv_heads
      → off < s.block_size
      → d < s.head_dim
      → slot_mapping token ≡ block * s.block_size + off
      → copy_from run source cache (cache_offset s block head off d)
        ≡ source (token_offset s token head d)
  written_at source cache token head block off d lt lh lo ld e =
      let size = s.block_size in
      let (eb, eo) =
        digits size (slot_mapping token / size) block (slot_mapping token % size) off
          (mod-lt (slot_mapping token) z) lo (whole size (slot_mapping token) ∙ e) in
      ap (copy_from run source cache) (λ i. cache_offset s (sym eb i) head (sym eo i) d)
      ∙ written source cache token head d lt lh ld
