-- ===== src/Examples/Decoding.antt =====
-- A batch of two entries, with blocks of four tokens.
use cache_flow.Base.{
  ℕ, ◌+◌, ◌%◌, ◌≡◌, refl, List, [], ◌∷◌, some, arith, length, get_elem?, All, false,
}
use cache_flow.Base.Int.{pos}
use cache_flow.Common.{BlockId}
use cache_flow.BatchManager.{Entry, DecodeBatch}
use cache_flow.Decode.{
  Inputs, slot, max_blocks, prepare_kv_cache_inputs, EngineStats, StepResult, step,
}
use cache_flow.Decode.Slots.{slot-injective}
use cache_flow.Decode.Counters.{IsCounted, step-counts}
use cache_flow.Decode.Prepared.{IsPositioned, IsInput, prepare_kv_cache_inputs-IsInput}

abbrev entry : ℕ → ℕ → List BlockId → Entry
entry id position blocks = record {
  seq_id = id;
  token = pos 5;
  position = pos position;
  block_table = blocks;
  is_prefill = false;
}

abbrev first : Entry
first = entry 1 6 (pos 3 ∷ pos 8 ∷ [])

abbrev second : Entry
second = entry 2 2 (pos 8 ∷ [])

abbrev batch : DecodeBatch
batch = record { entries = first ∷ second ∷ []; total_tokens = 2 }

positioned : All IsPositioned batch.entries
positioned = ((6, refl), ((2, refl), tt))

prepared :
    prepare_kv_cache_inputs 4 batch
    ≡ some (record {
      block_tables = pos 3 ∷ pos 8 ∷ pos 8 ∷ pos 0 ∷ [];
      context_lens' = pos 7 ∷ pos 3 ∷ [];
      slot_mapping = some (pos 34) ∷ some (pos 34) ∷ [];
    })
unfolding prepare_kv_cache_inputs
prepared = refl

prepare_kv_cache_inputs-IsInput_example :
    (i : Inputs) × (prepare_kv_cache_inputs 4 batch ≡ some i)
    × ((k : ℕ) (e : Entry)
        → get_elem? batch.entries k ≡ some e
        → IsInput 4 (max_blocks batch.entries) k e i)
prepare_kv_cache_inputs-IsInput_example =
    prepare_kv_cache_inputs-IsInput 4 batch (λ e. absurd (omega (arith, e))) (omega arith)
      positioned

-- The two entries are in one block at one offset, so they get one slot.
same_slot : slot 4 first ≡ slot 4 second
unfolding slot
same_slot = refl

slot-injective_example : (◌≡◌ {A = ℕ} 8 8) × (6 % 4 ≡ 2 % 4)
slot-injective_example =
    slot-injective 4 first second 6 2 8 8 (omega arith) (record { at = refl; block = refl })
      (record { at = refl; block = refl }) same_slot

abbrev no_stats : EngineStats
no_stats = record {
  total_steps = 0;
  total_tokens = 0;
  total_prefill_tokens = 0;
  total_decode_tokens = 0;
}

step-counts_example :
    (st : EngineStats) × (r : StepResult) × (step 4 (λ i. pos i) batch no_stats ≡ some (st, r))
    × IsCounted st
    × (length r.new_tokens ≡ length batch.entries)
    × (r.tokens_processed ≡ length batch.entries)
    × (st.total_tokens ≡ no_stats.total_tokens + length batch.entries)
step-counts_example =
    step-counts 4 (λ i. pos i) batch no_stats (λ z. absurd (omega (arith, z))) refl positioned refl
