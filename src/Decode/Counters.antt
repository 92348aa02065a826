-- ===== src/Decode/Counters.antt =====
-- A step of the engine returns, samples a token for every entry, and counts every token once.
use cache_flow.Base.{
  ℕ, suc, ◌+◌, ◌≡◌, ◌≢◌, refl, List, [], ◌∷◌, some, arith, length, ap, inl, inr, Bool-cases, All,
}
use cache_flow.Common.{TokenId}
use cache_flow.BatchManager.{Entry, DecodeBatch}
use cache_flow.Decode.Prepared.{IsPositioned, prepare_kv_cache_inputs-IsInput}
use cache_flow.Decode.{sample, count_entries, EngineStats, StepResult, step, step_with}

-- The total is the sum of the two kinds.
abbrev pub IsCounted : EngineStats → Type 0
IsCounted st = st.total_tokens ≡ st.total_prefill_tokens + st.total_decode_tokens

count_entries-kinds :
    (es : List Entry) (st : EngineStats)
    → ((count_entries es st).total_prefill_tokens + (count_entries es st).total_decode_tokens
        ≡ st.total_prefill_tokens + st.total_decode_tokens + length es)
      × ((count_entries es st).total_tokens ≡ st.total_tokens)
      × ((count_entries es st).total_steps ≡ st.total_steps)
unfolding count_entries
count_entries-kinds [] st = (omega arith, refl, refl)
count_entries-kinds (e ∷ es) st = elim (Bool-cases e.is_prefill) [
  | inl h ↦
      let (k, t, n) =
        count_entries-kinds es (record st { total_prefill_tokens = suc st.total_prefill_tokens }) in
      rw (h, count_entries) (omega (arith, k), t, n)
  | inr h ↦
      let (k, t, n) =
        count_entries-kinds es (record st { total_decode_tokens = suc st.total_decode_tokens }) in
      rw (h, count_entries) (omega (arith, k), t, n)
]

length-sample :
    (chosen : ℕ → TokenId) (i : ℕ) (es : List Entry) → length (sample chosen i es) ≡ length es
unfolding sample
length-sample chosen i [] = refl
length-sample chosen i (e ∷ es) = ap suc (length-sample chosen (suc i) es)

step_with-counts :
    (chosen : ℕ → TokenId) (b : DecodeBatch) (es : List Entry) (st : EngineStats)
    → b.total_tokens ≡ length es
    → IsCounted st
    → (IsCounted ((step_with chosen b es st).0)
        × (length (step_with chosen b es st).1.new_tokens ≡ length es)
        × ((step_with chosen b es st).1.tokens_processed ≡ length es)
        × ((step_with chosen b es st).0.total_tokens ≡ st.total_tokens + length es))
unfolding step_with
step_with-counts chosen b [] st h c = (c, refl, refl, omega arith)
step_with-counts chosen b (e ∷ es) st h c =
    let (k, t, n) = count_entries-kinds (e ∷ es) (record st {
      total_steps = suc st.total_steps;
      total_tokens = st.total_tokens + b.total_tokens;
    }) in
    (omega (arith, k, t, h, c), length-sample chosen 0 (e ∷ es), h, omega (arith, t, h))

-- If blocks have a size, every position is not negative, and the batch counts its entries, a step returns. It gives a
-- token for every entry, and the engine has processed as many tokens more; the total stays the sum
-- of the prompt tokens and the decode tokens.
pub step-counts :
    (size : ℕ) (chosen : ℕ → TokenId) (b : DecodeBatch) (st : EngineStats)
    → size ≢ 0
    → b.total_tokens ≡ length b.entries
    → All IsPositioned b.entries
    → IsCounted st
    → (st' : EngineStats) × (r : StepResult) × (step size chosen b st ≡ some (st', r))
      × IsCounted st'
      × (length r.new_tokens ≡ length b.entries)
      × (r.tokens_processed ≡ length b.entries)
      × (st'.total_tokens ≡ st.total_tokens + length b.entries)
unfolding step
step-counts size chosen b st z h k c =
    let (_, r, _) = prepare_kv_cache_inputs-IsInput size b z (omega (arith, h)) k in
    let (a, n, t, m) = step_with-counts chosen b b.entries st h c in
    (
      (step_with chosen b b.entries st).0,
      (step_with chosen b b.entries st).1,
      rw (r, step),
      a,
      n,
      t,
      m,
    )
