-- ===== src/Decode/Prepared.antt =====
-- What `prepare_kv_cache_inputs` leaves for the kernel.
use cache_flow.Base.{
  ℕ, zero, suc, length, arith, none, true, ◌≢◌, ◌≤◌, ◌==◌, ==-eq, lt→ltb, Bool-cases, Option-cases,
  inl, inr, ◌+◌, ◌*◌, ◌/◌, ◌≡◌, refl, List, [], ◌∷◌, Option, some, get_elem?, All, ◌∙◌, ap, sym,
}
use cache_flow.Base.Int.{ℤ, pos, succℤ}
use cache_flow.Common.{BlockId}
use cache_flow.BatchManager.{Entry, DecodeBatch}
use cache_flow.Decode.{
  Inputs, slot, slot_at, modulo, plus, scale, slots, context_lens, max_blocks, within, divides,
  prepare_kv_cache_inputs,
}
use cache_flow.Decode.Tables.{write_tables-rows}

-- A position that is not negative.
abbrev pub IsPositioned : Entry → Type 0
IsPositioned e = (p : ℕ) × (e.position ≡ pos p)

slot_at-runs :
    (size n : ℕ) (table : List BlockId) (off : ℤ)
    → (s : Option ℤ) × (slot_at size (pos n) table off ≡ some s)
unfolding slot_at
slot_at-runs size n table off = elim (Option-cases (get_elem? table n)) [
  | inl e ↦ (none, rw (e, slot_at))
  | inr (b, e) ↦ (some (plus (scale b size) off), rw (e, slot_at))
]

slot-runs : (size : ℕ) (e : Entry) → IsPositioned e → (s : Option ℤ) × (slot size e ≡ some s)
unfolding slot
slot-runs size e (p, at) =
    let (s, r) = slot_at-runs size (p / size) e.block_table (modulo (pos p) size) in (s, rw at r)

-- The inputs for the entry `e`, the `k`-th of a batch whose rows have this width.
pub record IsInput (size width k : ℕ) (e : Entry) (i : Inputs) : Type 0 where
  pub context : get_elem? i.context_lens' k ≡ some (succℤ e.position)
  pub place : (s : Option ℤ) × (slot size e ≡ some s) × (get_elem? i.slot_mapping k ≡ some s)
  pub row :
      (b : ℕ) (x : BlockId)
      → get_elem? e.block_table b ≡ some x
      → get_elem? i.block_tables (k * width + b) ≡ some x

context_lens-get_elem? :
    (es : List Entry) (k : ℕ) (e : Entry)
    → get_elem? es k ≡ some e
    → get_elem? (context_lens es) k ≡ some (succℤ e.position)
context_lens-get_elem? [] k e h = absurd (cc h)
context_lens-get_elem? (f ∷ fs) zero e h =
    let same : f ≡ e = cc h in ap (λ (g : Entry). some (succℤ g.position)) same
context_lens-get_elem? (f ∷ fs) (suc k) e h = context_lens-get_elem? fs k e h

abbrev Places : ℕ → List Entry → List (Option ℤ) → Type 0
Places size es ss =
    (k : ℕ) (e : Entry)
    → get_elem? es k ≡ some e
    → (s : Option ℤ) × (slot size e ≡ some s) × (get_elem? ss k ≡ some s)

one_more :
    (size : ℕ) (f : Entry) (fs : List Entry) (s : Option ℤ) (ss : List (Option ℤ))
    → slot size f ≡ some s
    → Places size fs ss
    → Places size (f ∷ fs) (s ∷ ss)
one_more size f fs s ss o p zero e h =
    let same : f ≡ e = cc h in (s, ap (slot size) (sym same) ∙ o, refl)
one_more size f fs s ss o p (suc k) e h = p k e h

slots-Places :
    (size : ℕ) (es : List Entry)
    → All IsPositioned es
    → (ss : List (Option ℤ)) × (slots size es ≡ some ss) × Places size es ss
unfolding slots
slots-Places size [] h = ([], refl, λ k e at. absurd (cc at))
slots-Places size (e ∷ es) (placed, h) =
    let (s, r) = slot-runs size e placed in
    let (ss, rest, p) = slots-Places size es h in
    (s ∷ ss, rw (r, slots) (rw rest), one_more size e es s ss r p)

length-slots :
    (size : ℕ) (es : List Entry) (ss : List (Option ℤ))
    → slots size es ≡ some ss
    → length ss ≡ length es
unfolding slots
length-slots size [] ss e = let none_there : [] ≡ ss = cc e in ap length (sym none_there)
length-slots size (e ∷ es) ss h = elim (Option-cases (slot size e)) [
  | inl z ↦ absurd (cc (rw (z, slots) at h))
  | inr (s, z) ↦ elim (Option-cases (slots size es)) [
    | inl y ↦ absurd (cc (rw (z, y, slots) at h))
    | inr (rest, y) ↦
        let all : s ∷ rest ≡ ss = cc (rw (z, y, slots) at h) in
        ap length (sym all) ∙ ap suc (length-slots size es rest y)
  ]
]

-- A slot for each token of a batch is enough.
length-within :
    (total_tokens i : ℕ) (ss : List (Option ℤ))
    → i + length ss ≤ total_tokens
    → within total_tokens i ss ≡ true
unfolding within
length-within total_tokens i [] h = refl
length-within total_tokens i (none ∷ ss) h =
    length-within total_tokens (suc i) ss (omega (arith, h))
length-within total_tokens i (some s ∷ ss) h =
    rw (lt→ltb i total_tokens (omega (arith, h)), within)
      (length-within total_tokens (suc i) ss (omega (arith, h)))

divides-size : (size : ℕ) (es : List Entry) → size ≢ 0 → divides size es ≡ true
divides-size size [] z = refl
divides-size size (e ∷ es) z = elim (Bool-cases (size == 0)) [
  | inl h ↦ absurd (z (==-eq size 0 h))
  | inr h ↦ rw h refl
]

-- If blocks have a size, every position is not negative, and the batch counts at least as many
-- tokens as it has entries, `prepare_kv_cache_inputs` returns, and writes no slot past the end of
-- its array: the inputs hold for every entry of the batch its length of context, one more than its
-- position, its slot, and its block table as a row, all rows having the width of the longest table.
pub prepare_kv_cache_inputs-IsInput :
    (size : ℕ) (batch : DecodeBatch)
    → size ≢ 0
    → length batch.entries ≤ batch.total_tokens
    → All IsPositioned batch.entries
    → (i : Inputs) × (prepare_kv_cache_inputs size batch ≡ some i)
      × ((k : ℕ) (e : Entry)
          → get_elem? batch.entries k ≡ some e
          → IsInput size (max_blocks batch.entries) k e i)
unfolding prepare_kv_cache_inputs
prepare_kv_cache_inputs-IsInput size batch z room h =
    let (ss, r, p) = slots-Places size batch.entries h in
    let fits : within batch.total_tokens 0 ss ≡ true =
      length-within batch.total_tokens 0 ss
        (omega (arith, room, length-slots size batch.entries ss r)) in
    (
      _,
      rw (r, divides-size size batch.entries z, fits, prepare_kv_cache_inputs),
      λ k e at. record {
        context = context_lens-get_elem? batch.entries k e at;
        place = p k e at;
        row = λ b x block. write_tables-rows batch.entries k b e x at block;
      },
    )
