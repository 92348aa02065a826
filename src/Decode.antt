-- ===== src/Decode.antt =====
-- src/cacheflow/decode/batch_decode.h and batch_decode.cpp: the inputs of the attention kernel, and
-- a step of the engine with its counters.
--
-- Attention and sampling compute with floats and are modelled apart, in Attention and Sampling:
-- here the token that is sampled for an entry is an argument, by the index of the entry.
-- `block_size` is, as the products of `int`, below 2^31. The times of a step are left
-- out.
pub mod Slots
pub mod Counters
pub mod Tables
pub mod Prepared
use cache_flow.Base.{
  ◌==◌, ◌&&◌, ℕ, zero, suc, ◌+◌, ◌-◌, ◌*◌, ◌/◌, ◌%◌, Bool, true, false, List, [], ◌∷◌, Option, none,
  some, length, get_elem?, set, max, ltb, if◌then◌else◌,
}
use cache_flow.Base.Int.{ℤ, pos, negsuc, succℤ}
use cache_flow.Common.{TokenId, BlockId}
use cache_flow.BatchManager.{Entry, DecodeBatch}

-- `-n`.
abbrev pub negate : ℕ → ℤ
negate zero = pos 0
negate (suc n) = negsuc n

-- `x / n` and `x % n` on `int`, which round to zero.
abbrev pub divide : ℤ → ℕ → ℤ
divide (pos a) n = pos (a / n)
divide (negsuc a) n = negate (suc a / n)

abbrev pub modulo : ℤ → ℕ → ℤ
modulo (pos a) n = pos (a % n)
modulo (negsuc a) n = negate (suc a % n)

-- `x * n`.
abbrev pub scale : ℤ → ℕ → ℤ
scale (pos a) n = pos (a * n)
scale (negsuc a) n = negate (suc a * n)

-- `x + y`.
abbrev pub plus : ℤ → ℤ → ℤ
plus (pos a) (pos b) = pos (a + b)
plus (pos a) (negsuc b) = if ltb b a then pos (a - suc b) else negsuc (b - a)
plus (negsuc a) (pos b) = if ltb a b then pos (b - suc a) else negsuc (a - b)
plus (negsuc a) (negsuc b) = negsuc (suc (a + b))

-- The first loop.
unfoldable pub max_blocks : List Entry → ℕ
max_blocks [] = 0
max_blocks (e ∷ es) = max (length e.block_table) (max_blocks es)

abbrev pub zeros : ℕ → List ℤ
zeros zero = []
zeros (suc n) = pos 0 ∷ zeros n

-- The loop over the blocks of an entry, from the index `k` of the table on.
unfoldable pub write_row : ℕ → List BlockId → List ℤ → List ℤ
write_row k [] table = table
write_row k (b ∷ bs) table = write_row (suc k) bs (set table k b)

unfoldable pub write_tables : ℕ → ℕ → List Entry → List ℤ → List ℤ
unfolding write_row
write_tables i width [] table = table
write_tables i width (e ∷ es) table =
    write_tables (suc i) width es (write_row (i * width) e.block_table table)

-- `slots[i]`: `none` is an index below 0, which is undefined behaviour; `some none` is a slot that
-- is not written.
unfoldable pub slot_at : ℕ → ℤ → List BlockId → ℤ → Option (Option ℤ)
slot_at size (negsuc n) table off = none
slot_at size (pos n) table off = elim (get_elem? table n) [
  | none ↦ some none
  | some b ↦ some (some (plus (scale b size) off))
]

unfoldable pub slot : ℕ → Entry → Option (Option ℤ)
unfolding slot_at
slot size e = slot_at size (divide e.position size) e.block_table (modulo e.position size)

unfoldable pub slots : ℕ → List Entry → Option (List (Option ℤ))
unfolding slot
slots size [] = some []
slots size (e ∷ es) = elim (slot size e) [
  | none ↦ none
  | some s ↦ elim (slots size es) [ none ↦ none | some rest ↦ some (s ∷ rest) ]
]

abbrev pub context_lens : List Entry → List ℤ
context_lens [] = []
context_lens (e ∷ es) = succℤ e.position ∷ context_lens es

-- The fields that `prepare_kv_cache_inputs` sets, the pointers into the pool left out.
pub record Inputs : Type 0 where
  pub block_tables : List ℤ
  pub context_lens' : List ℤ
  pub slot_mapping : List (Option ℤ)

-- `slots` has `total_tokens` elements: whether the slots that are written, from the index `i` on,
-- lie in the array.
unfoldable pub within : (total_tokens i : ℕ) → List (Option ℤ) → Bool
within total_tokens i [] = true
within total_tokens i (none ∷ ss) = within total_tokens (suc i) ss
within total_tokens i (some s ∷ ss) =
    let rest = within total_tokens (suc i) ss in if ltb i total_tokens then rest else false

-- Every entry divides by the size of a block.
abbrev pub divides : ℕ → List Entry → Bool
divides size [] = true
divides size (e ∷ es) = if size == 0 then false else true

unfoldable pub prepare_kv_cache_inputs : ℕ → DecodeBatch → Option Inputs
unfolding max_blocks write_tables slots within
prepare_kv_cache_inputs size b = elim (slots size b.entries) [
  | none ↦ none
  | some ss ↦
      if divides size b.entries && within b.total_tokens 0 ss
      then some (record {
        block_tables =
            write_tables 0 (max_blocks b.entries) b.entries
              (zeros (length b.entries * max_blocks b.entries));
        context_lens' = context_lens b.entries;
        slot_mapping = ss;
      })
      else none
]

-- One token for each entry, from the index `i` on.
unfoldable pub sample : (ℕ → TokenId) → ℕ → List Entry → List TokenId
sample chosen i [] = []
sample chosen i (e ∷ es) = chosen i ∷ sample chosen (suc i) es

pub record EngineStats : Type 0 where
  pub total_steps : ℕ
  pub total_tokens : ℕ
  pub total_prefill_tokens : ℕ
  pub total_decode_tokens : ℕ

unfoldable pub count_entries : List Entry → EngineStats → EngineStats
count_entries [] st = st
count_entries (e ∷ es) st = count_entries es (
    if e.is_prefill
    then record st { total_prefill_tokens = suc st.total_prefill_tokens }
    else record st { total_decode_tokens = suc st.total_decode_tokens })

pub record StepResult : Type 0 where
  pub new_tokens : List TokenId
  pub tokens_processed : ℕ

-- A step: an empty batch returns at once.
unfoldable pub step_with :
    (ℕ → TokenId) → DecodeBatch → List Entry → EngineStats → EngineStats × StepResult
unfolding sample count_entries
step_with chosen b [] st = (st, record { new_tokens = []; tokens_processed = 0 })
step_with chosen b (e ∷ es) st = (
  count_entries (e ∷ es) (record st {
    total_steps = suc st.total_steps;
    total_tokens = st.total_tokens + b.total_tokens;
  }),
  record { new_tokens = sample chosen 0 (e ∷ es); tokens_processed = b.total_tokens },
)

unfoldable pub step :
    ℕ → (ℕ → TokenId) → DecodeBatch → EngineStats → Option (EngineStats × StepResult)
unfolding prepare_kv_cache_inputs step_with
step size chosen b st = elim (prepare_kv_cache_inputs size b) [
  | none ↦ none
  | some inputs ↦ some (step_with chosen b b.entries st)
]
