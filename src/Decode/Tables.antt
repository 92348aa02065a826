-- ===== src/Decode/Tables.antt =====
-- The layout of the block tables: a row of equal width for every entry.
use cache_flow.Base.{
  ℕ, zero, suc, ◌+◌, ◌*◌, ◌≤◌, ◌<◌, ◌≡◌, refl, List, [], ◌∷◌, some, arith, length, get_elem?, set,
  ◌∙◌, ap, length-set, get_elem?-set_self, get_elem?-set_ne, get_elem?-some, get_elem?-lt, subst,
}
use cache_flow.Base.Int.{ℤ}
use cache_flow.Common.{BlockId}
use cache_flow.BatchManager.{Entry}
use cache_flow.Decode.{max_blocks, zeros, write_row, write_tables}

length-write_row : (k : ℕ) (row : List BlockId) (a : List ℤ) → length (write_row k row a) ≡ length a
unfolding write_row
length-write_row k [] a = refl
length-write_row k (b ∷ bs) a = length-write_row (suc k) bs (set a k b) ∙ length-set a k b

-- What lies before a row stays as it is.
before_row :
    (k j : ℕ) (row : List BlockId) (a : List ℤ)
    → j < k
    → get_elem? (write_row k row a) j ≡ get_elem? a j
unfolding write_row
before_row k j [] a h = refl
before_row k j (b ∷ bs) a h =
    before_row (suc k) j bs (set a k b) (omega (arith, h))
    ∙ get_elem?-set_ne a k j b (omega (arith, h))

in_row :
    (k b : ℕ) (x : BlockId) (row : List BlockId) (a : List ℤ)
    → k + length row ≤ length a
    → get_elem? row b ≡ some x
    → get_elem? (write_row k row a) (k + b) ≡ some x
unfolding write_row
in_row k b x [] a h e = absurd (cc e)
in_row k zero x (y ∷ ys) a h e =
    let (w, old) = get_elem?-some a k (omega (arith, h)) in
    let here : get_elem? (write_row (suc k) ys (set a k y)) k ≡ some x =
      before_row (suc k) k ys (set a k y) (omega arith) ∙ get_elem?-set_self a k y w old ∙ e in
    subst (λ (j : ℕ). get_elem? (write_row (suc k) ys (set a k y)) j ≡ some x) (omega arith) here
in_row k (suc b) x (y ∷ ys) a h e =
    subst (λ (j : ℕ). get_elem? (write_row (suc k) ys (set a k y)) j ≡ some x) (omega arith)
      (in_row (suc k) b x ys (set a k y) (omega (arith, h, length-set a k y)) e)

before_tables :
    (i width j : ℕ) (es : List Entry) (a : List ℤ)
    → j < i * width
    → get_elem? (write_tables i width es a) j ≡ get_elem? a j
unfolding write_tables
before_tables i width j [] a h = refl
before_tables i width j (e ∷ es) a h =
    before_tables (suc i) width j es (write_row (i * width) e.block_table a) (omega (arith, h))
    ∙ before_row (i * width) j e.block_table a h

in_tables :
    (i width k b : ℕ) (e : Entry) (x : BlockId) (es : List Entry) (a : List ℤ)
    → max_blocks es ≤ width
    → (i + length es) * width ≤ length a
    → get_elem? es k ≡ some e
    → get_elem? e.block_table b ≡ some x
    → get_elem? (write_tables i width es a) ((i + k) * width + b) ≡ some x
unfolding write_tables max_blocks
in_tables i width k b e x [] a w h at block = absurd (cc at)
in_tables i width zero b e x (f ∷ fs) a w h at block =
    let same : f ≡ e = cc at in
    let mine : get_elem? f.block_table b ≡ some x =
      ap (λ (g : Entry). get_elem? g.block_table b) same ∙ block in
    let short : length f.block_table ≤ width = omega (arith, w) in
    let inside = get_elem?-lt f.block_table b x mine in
    subst
      (λ (j : ℕ).
        get_elem? (write_tables (suc i) width fs (write_row (i * width) f.block_table a)) j
        ≡ some x)
      (omega arith)
      (before_tables (suc i) width (i * width + b) fs (write_row (i * width) f.block_table a)
          (omega (arith, inside, short))
        ∙ in_row (i * width) b x f.block_table a (omega (arith, h, short)) mine)
in_tables i width (suc k) b e x (f ∷ fs) a w h at block =
    subst
      (λ (j : ℕ).
        get_elem? (write_tables (suc i) width fs (write_row (i * width) f.block_table a))
          (j * width + b)
        ≡ some x)
      (omega arith)
      (in_tables (suc i) width k b e x fs (write_row (i * width) f.block_table a) (omega (arith, w))
        (omega (arith, h, length-write_row (i * width) f.block_table a)) at block)

length-zeros : (n : ℕ) → length (zeros n) ≡ n
length-zeros zero = refl
length-zeros (suc n) = ap suc (length-zeros n)

-- The tables hold the `b`-th block of the `k`-th entry at index `b` of row `k`, whose width is the
-- greatest number of blocks of an entry.
pub write_tables-rows :
    (es : List Entry) (k b : ℕ) (e : Entry) (x : BlockId)
    → get_elem? es k ≡ some e
    → get_elem? e.block_table b ≡ some x
    → get_elem?
        (write_tables 0 (max_blocks es) es (zeros (length es * max_blocks es)))
        (k * max_blocks es + b)
      ≡ some x
write_tables-rows es k b e x at block =
    subst
      (λ (j : ℕ).
        get_elem? (write_tables 0 (max_blocks es) es (zeros (length es * max_blocks es)))
          (j * max_blocks es + b)
        ≡ some x)
      (omega arith)
      (in_tables 0 (max_blocks es) k b e x es (zeros (length es * max_blocks es)) (omega arith)
        (omega (arith, length-zeros (length es * max_blocks es))) at block)
