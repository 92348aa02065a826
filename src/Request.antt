-- ===== src/Request.antt =====
-- src/cacheflow/scheduler/request.h: sequences and groups of sequences.
--
-- Times are `ℕ`, read from a clock that is an argument; the floats of the sampling parameters
-- are left out, since no modelled code reads them.
use cache_flow.Base.{
  ℕ, ◌+◌, ◌-◌, ◌/◌, ◌==◌, some, Bool, true, false, List, [], ◌∷◌, ◌++◌, Option, none, length,
  if◌then◌else◌, max,
}
use cache_flow.Base.Int.{ℤ}
use cache_flow.Common.{TokenId, BlockId, SeqId, RequestStatus, waiting, is_finished}

-- `max_tokens` and `top_k` are `int32_t`.
pub record SamplingParams : Type 0 where
  pub top_k : ℤ
  pub max_tokens : ℤ
  pub stream : Bool

pub record SequenceData : Type 0 where
  pub seq_id : SeqId
  pub prompt_tokens : List TokenId
  pub output_tokens : List TokenId
  pub logical_blocks : List BlockId
  pub status : RequestStatus

abbrev pub prompt_len : SequenceData → ℕ
prompt_len s = length s.prompt_tokens

abbrev pub output_len : SequenceData → ℕ
output_len s = length s.output_tokens

abbrev pub total_len : SequenceData → ℕ
total_len s = prompt_len s + output_len s

-- Division by zero is undefined.
unfoldable pub num_blocks_needed : ℕ → SequenceData → Option ℕ
num_blocks_needed block_size s =
    if block_size == 0 then none else some ((total_len s + block_size - 1) / block_size)

abbrev pub append_token : TokenId → SequenceData → SequenceData
append_token t s = record s { output_tokens = s.output_tokens ++ t ∷ [] }

abbrev pub seq_finished : SequenceData → Bool
seq_finished s = is_finished s.status

pub record SequenceGroup : Type 0 where
  pub request_id : SeqId
  pub sequences : List SequenceData
  pub sampling : SamplingParams
  pub arrival_time : ℕ
  pub priority : ℤ
  pub first_token_time : Option ℕ

unfoldable pub new_group : SeqId → List TokenId → SamplingParams → ℤ → ℕ → SequenceGroup
new_group rid prompt sp prio now = record {
  request_id = rid;
  sequences =
      record {
        seq_id = rid;
        prompt_tokens = prompt;
        output_tokens = [];
        logical_blocks = [];
        status = waiting;
      }
      ∷ [];
  sampling = sp;
  arrival_time = now;
  priority = prio;
  first_token_time = none;
}

unfoldable pub all_seqs_finished : List SequenceData → Bool
all_seqs_finished [] = true
all_seqs_finished (s ∷ ss) = if seq_finished s then all_seqs_finished ss else false

abbrev pub all_finished : SequenceGroup → Bool
all_finished g = all_seqs_finished g.sequences

unfoldable pub count_unfinished : List SequenceData → ℕ
count_unfinished [] = 0
count_unfinished (s ∷ ss) = (if seq_finished s then 0 else 1) + count_unfinished ss

abbrev pub num_unfinished : SequenceGroup → ℕ
num_unfinished g = count_unfinished g.sequences

unfoldable pub first_prompt_len : List SequenceData → ℕ
first_prompt_len [] = 0
first_prompt_len (s ∷ ss) = prompt_len s

abbrev pub group_prompt_len : SequenceGroup → ℕ
group_prompt_len g = first_prompt_len g.sequences

unfoldable pub max_len : List SequenceData → ℕ
max_len [] = 0
max_len (s ∷ ss) = max (total_len s) (max_len ss)

abbrev pub max_total_len : SequenceGroup → ℕ
max_total_len g = max_len g.sequences
