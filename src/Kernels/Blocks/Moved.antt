-- ===== src/Kernels/Blocks/Moved.antt =====
-- The array after whole blocks were moved.
use native.Mathlib.Nat.{mod-lt}
use mathlib.Core.List.{Memᴰ}
use cache_flow.Base.{
  ℕ, ◌+◌, ◌*◌, ◌/◌, ◌%◌, ◌<◌, ◌≡◌, ◌≢◌, refl, sym, ap, ◌∙◌, List, Option-cases, none, some, inl,
  inr, Bool, true, false, Bool-cases,
}
use cache_flow.Base.Digits.{digits}
use cache_flow.Kernels.Moves.{
  Move, copy_from, copy_within, copy_from-ne, settled, copy_within-eq, IsApart,
}
use cache_flow.Kernels.Owner.{IsDistinct, owner, owner-some, owner-none, whole}
use cache_flow.Kernels.Blocks.{block_move}

-- What an element is to hold once the blocks `src 0`, `src 1`, ... of one array have been copied
-- to the blocks `dst 0`, `dst 1`, ... of another.
pub moved {ℓ} : {A : Type ℓ} → (n elems : ℕ) → (src dst : ℕ → ℕ) → (source cache : ℕ → A) → ℕ → A
moved n elems src dst source cache a = elim (owner n dst (a / elems)) [
  | none ↦ cache a
  | some k ↦ source (src k * elems + a % elems)
]

-- The moves are those of all elements of the blocks, but for pairs that are skipped.
pub record MovesBlocks (n elems : ℕ) (src dst : ℕ → ℕ) (skips : ℕ → Bool) (ms : List Move)
    : Type 0 where
  pub all :
      (k i : ℕ) → k < n → i < elems → skips k ≡ false → Memᴰ (block_move elems (src k) (dst k) i) ms
  pub only :
      (mv : Move)
      → Memᴰ mv ms
      → (k : ℕ) × (i : ℕ) × (k < n)
        × (i < elems)
        × (skips k ≡ false)
        × (mv ≡ block_move elems (src k) (dst k) i)

-- Moves are apart if no pair that is made writes the source of one that is made.
pub MovesBlocks-IsApart :
    (n elems : ℕ) (src dst : ℕ → ℕ) (skips : ℕ → Bool) (ms : List Move)
    → MovesBlocks n elems src dst skips ms
    → ((k j : ℕ) → k < n → j < n → skips k ≡ false → skips j ≡ false → dst k ≢ src j)
    → IsApart ms
MovesBlocks-IsApart n elems src dst skips ms m apart writer reader i j e =
    let (k, x, lk, lx, made_k, same) = m.only writer i in
    let (l, y, ll, ly, made_l, same') = m.only reader j in
    let (block, off) =
      digits elems (dst k) (src l) x y lx ly
        (sym (ap (λ (v : Move). v.dst) same) ∙ e ∙ ap (λ (v : Move). v.src) same') in
    apart k l lk ll made_k made_l block

module _ {ℓ} {A : Type ℓ} (n elems : ℕ) (src dst : ℕ → ℕ) (skips : ℕ → Bool) (ms : List Move)
    (some_elem : 0 < elems) (m : MovesBlocks n elems src dst skips ms)
    (distinct : IsDistinct n dst) where
  untouched :
      (source cache : ℕ → A) (a : ℕ)
      → owner n dst (a / elems) ≡ none
      → copy_from ms source cache a ≡ cache a
  untouched source cache a free = copy_from-ne ms source cache a (λ mv i e.
      let (k, j, lk, lj, kept, same) = m.only mv i in
      let (block, off) =
        digits elems (dst k) (a / elems) j (a % elems) lj (mod-lt a some_elem)
          (sym (ap (λ (v : Move). v.dst) same) ∙ e ∙ sym (whole elems a)) in
      owner-none n dst (a / elems) k free lk block)

  only_source :
      (source : ℕ → A) (k a : ℕ)
      → k < n
      → dst k ≡ a / elems
      → (mv : Move) → Memᴰ mv ms
      → mv.dst ≡ a
      → source mv.src ≡ source (src k * elems + a % elems)
  only_source source k a l at mv i e =
      let (k', j, lk, lj, kept, same) = m.only mv i in
      let (block, off) =
        digits elems (dst k') (a / elems) j (a % elems) lj (mod-lt a some_elem)
          (sym (ap (λ (v : Move). v.dst) same) ∙ e ∙ sym (whole elems a)) in
      let one : k' ≡ k = distinct k' k lk l (block ∙ sym at) in
      ap (λ (v : Move). source v.src) same ∙ (λ i'. source (src (one i') * elems + off i'))

  -- A skipped pair holds the elements of its source at the start.
  pub copy_from-moved :
      (source cache : ℕ → A) (a : ℕ)
      → ((k : ℕ) (i : ℕ)
          → k < n
          → skips k ≡ true
          → source (src k * elems + i) ≡ cache (dst k * elems + i))
      → copy_from ms source cache a ≡ moved n elems src dst source cache a
  unfolding moved
  copy_from-moved source cache a in_place = elim (Option-cases (owner n dst (a / elems))) [
    | inl free ↦ rw (free, moved) (untouched source cache a free)
    | inr (k, found) ↦
        let (l, at) = owner-some n dst (a / elems) k found in
        let here : dst k * elems + a % elems ≡ a =
          (λ i. at i * elems + a % elems) ∙ whole elems a in
        rw (found, moved)
          (elim (Bool-cases (skips k)) [
            | inl skipped ↦
                settled ms source cache a (source (src k * elems + a % elems))
                  (only_source source k a l at)
                  (inl (sym (in_place k (a % elems) l skipped ∙ ap cache here)))
            | inr copied ↦
                settled ms source cache a (source (src k * elems + a % elems))
                  (only_source source k a l at)
                  (inr (
                    block_move elems (src k) (dst k) (a % elems),
                    m.all k (a % elems) l (mod-lt a some_elem) copied,
                    here,
                  ))
          ])
  ]

  -- The same within one array, if no pair writes what another pair reads.
  pub copy_within-moved :
      (cache : ℕ → A) (a : ℕ)
      → ((k : ℕ) → k < n → skips k ≡ true → src k ≡ dst k)
      → IsApart ms
      → copy_within ms cache a ≡ moved n elems src dst cache cache a
  copy_within-moved cache a in_place apart =
      copy_within-eq ms cache cache a apart (λ mv i. refl)
      ∙ copy_from-moved cache cache a
          (λ k i l skipped. ap (λ (b : ℕ). cache (b * elems + i)) (in_place k l skipped))
