-- ===== src/BatchManager/Padding.antt =====
-- The padding of a batch: what is missing to a rectangle of its sequences and positions.
use cache_flow.Base.{
  ℕ, suc, ◌-◌, ◌*◌, ◌≤◌, ◌<◌, ◌≡◌, refl, List, [], ◌∷◌, some, arith, length, true, false,
  Bool-cases, inl, inr, ◌∙◌, ap, sym, All, get_elem?, ◌⊎◌,
}
use cache_flow.Base.Int.{ℤ, pos, negsuc, to_size, ltbℤ}
use cache_flow.BatchManager.{Entry, max_position, padding}

-- `m` is the greatest position among the entries and `low`.
pub record IsGreatest (low : ℕ) (es : List Entry) (m : ℕ) : Type 0 where
  pub runs : max_position (pos low) es ≡ pos m
  pub above : low ≤ m
  pub bounds : All (λ (e : Entry). ltbℤ (pos m) e.position ≡ false) es
  pub reached :
      (m ≡ low) ⊎ ((i : ℕ) × (e : Entry) × (get_elem? es i ≡ some e) × (e.position ≡ pos m))

not_above : (x : ℤ) (low m : ℕ) → ltbℤ (pos low) x ≡ false → low ≤ m → ltbℤ (pos m) x ≡ false
not_above (pos n) low m h k = ground arith
not_above (negsuc n) low m h k = refl

-- A position above `low` is not negative.
above_low : (x : ℤ) (low : ℕ) → ltbℤ (pos low) x ≡ true → (n : ℕ) × (x ≡ pos n) × (low < n)
above_low (pos n) low h = (n, refl, ground arith)
above_low (negsuc n) low h = absurd (cc h)

later :
    (e : Entry) (es : List Entry) (m : ℕ)
    → ((i : ℕ) × (f : Entry) × (get_elem? es i ≡ some f) × (f.position ≡ pos m))
    → (i : ℕ) × (f : Entry) × (get_elem? (e ∷ es) i ≡ some f) × (f.position ≡ pos m)
later e es m (i, f, h, k) = (suc i, f, h, k)

max_position-IsGreatest : (low : ℕ) (es : List Entry) → (m : ℕ) × IsGreatest low es m
unfolding max_position
max_position-IsGreatest low [] =
    (low, record { runs = refl; above = omega arith; bounds = tt; reached = inl refl })
max_position-IsGreatest low (e ∷ es) = elim (Bool-cases (ltbℤ (pos low) e.position)) [
  | inl h ↦
      let (n, at, more) = above_low e.position low h in
      let (m, g) = max_position-IsGreatest n es in
      (
        m,
        record {
          runs = rw (h, max_position) (rw at g.runs);
          above = omega (arith, more, g.above);
          bounds = (rw at (ground (arith, g.above)), g.bounds);
          reached = elim g.reached [
            | inl same ↦ inr (0, e, refl, at ∙ ap pos (sym same))
            | inr found ↦ inr (later e es m found)
          ];
        },
      )
  | inr h ↦
      let (m, g) = max_position-IsGreatest low es in
      (
        m,
        record {
          runs = rw (h, max_position) g.runs;
          above = g.above;
          bounds = (not_above e.position low m h g.above, g.bounds);
          reached = elim g.reached [ inl same ↦ inl same | inr found ↦ inr (later e es m found) ];
        },
      )
]

-- The padding is what the entries fall short of a rectangle of the sequences and of the positions
-- up to the greatest one of an entry, which is at least 0; it is 0 if there is no entry or if the
-- entries are more than the rectangle.
pub padding-IsGreatest :
    (n : ℕ) (es : List Entry)
    → (es ≡ [] × padding n es ≡ 0)
      ⊎ ((m : ℕ) × IsGreatest 0 es m × (padding n es ≡ n * suc m - length es))
unfolding padding to_size
padding-IsGreatest n [] = inl (refl, refl)
padding-IsGreatest n (e ∷ es) =
    let (m, g) = max_position-IsGreatest 0 (e ∷ es) in
    inr (m, g, rw (g.runs, padding) (ground arith))
