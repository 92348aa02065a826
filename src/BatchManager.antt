-- ===== src/BatchManager.antt =====
-- src/cacheflow/scheduler/batch_manager.h and batch_manager.cpp: batches built from the scheduled
-- groups, and the tokens of a step written back. `gpu_utilization_est`, a float that only the
-- statistics report, is left out.
pub mod Build
pub mod Update
pub mod Padding
use cache_flow.Base.{
  ℕ, zero, suc, ◌+◌, ◌-◌, ◌*◌, Bool, true, false, List, [], ◌∷◌, ◌++◌, Option, none, some, length,
  if◌then◌else◌, ltb, ◌==◌, ◌&&◌,
}
use cache_flow.Base.Int.{ℤ, pos, to_int32, to_size, succℤ, ltbℤ}
use cache_flow.Common.{TokenId, BlockId, SeqId, finished_length}
use cache_flow.Request.{
  SequenceData, SequenceGroup, seq_finished, append_token, output_len, total_len,
}
use cache_flow.Scheduler.State.{Ptr, Memory, write}

pub record Entry : Type 0 where
  pub seq_id : SeqId
  pub token : TokenId
  pub position : ℤ
  pub block_table : List BlockId
  pub is_prefill : Bool

pub record DecodeBatch : Type 0 where
  pub entries : List Entry
  pub total_tokens : ℕ

abbrev pub add : Entry → DecodeBatch → DecodeBatch
add e b = record { entries = b.entries ++ e ∷ []; total_tokens = suc b.total_tokens }

pub record BatchStats : Type 0 where
  pub num_prefill_tokens : ℕ
  pub num_decode_tokens : ℕ
  pub num_sequences : ℕ
  pub padding_tokens : ℕ

-- `current_batch_` and `last_stats_`.
pub record Building : Type 0 where
  pub batch : DecodeBatch
  pub stats : BatchStats

abbrev pub cleared : Building
cleared = record {
  batch = record { entries = []; total_tokens = 0 };
  stats = record {
    num_prefill_tokens = 0;
    num_decode_tokens = 0;
    num_sequences = 0;
    padding_tokens = 0;
  };
}

-- The prompt loop, from the token at index `i`.
unfoldable pub add_prompt : SequenceData → ℕ → List TokenId → Building → Building
unfolding to_int32
add_prompt s i [] b = b
add_prompt s i (t ∷ ts) b = add_prompt s (suc i) ts (record {
  batch =
      add
        (record {
          seq_id = s.seq_id;
          token = t;
          position = to_int32 i;
          block_table = s.logical_blocks;
          is_prefill = true;
        })
        b.batch;
  stats = record (b.stats) { num_prefill_tokens = suc b.stats.num_prefill_tokens };
})

-- `output_tokens.back()`, the first token and the rest given apart.
unfoldable pub back : TokenId → List TokenId → TokenId
back t [] = t
back t (u ∷ us) = back u us

-- A sequence without output is prefilled. One with output has a last output token, so the other
-- outcome of the inner `?:` does not occur.
unfoldable pub add_tokens : SequenceData → List TokenId → Building → Building
unfolding add_prompt back to_int32
add_tokens s [] b = add_prompt s 0 s.prompt_tokens b
add_tokens s (t ∷ ts) b = record {
  batch =
      add
        (record {
          seq_id = s.seq_id;
          token = back t ts;
          position = to_int32 (total_len s - 1);
          block_table = s.logical_blocks;
          is_prefill = false;
        })
        b.batch;
  stats = record (b.stats) { num_decode_tokens = suc b.stats.num_decode_tokens };
}

abbrev pub count_sequence : Building → Building
count_sequence b = record b {
  stats = record (b.stats) { num_sequences = suc b.stats.num_sequences };
}

unfoldable pub add_seqs : List SequenceData → Building → Building
unfolding add_tokens
add_seqs [] b = b
add_seqs (s ∷ ss) b =
    add_seqs ss (if seq_finished s then b else count_sequence (add_tokens s s.output_tokens b))

unfoldable pub add_groups : Memory → List Ptr → Building → Building
unfolding add_seqs
add_groups mem [] b = b
add_groups mem (p ∷ ps) b = add_groups mem ps (add_seqs (mem p).sequences b)

unfoldable pub max_position : ℤ → List Entry → ℤ
max_position m [] = m
max_position m (e ∷ es) = max_position (if ltbℤ m e.position then e.position else m) es

-- The early return on an empty batch leaves the zero of the cleared statistics.
unfoldable pub padding : ℕ → List Entry → ℕ
unfolding max_position to_size
padding num_sequences [] = 0
padding num_sequences (e ∷ es) =
    let padded = num_sequences * to_size (succℤ (max_position (pos 0) (e ∷ es))) in
    if ltb (length (e ∷ es)) padded then padded - length (e ∷ es) else 0

unfoldable pub build_batch : Memory → List Ptr → Building
unfolding add_groups padding
build_batch mem ps =
    let b = add_groups mem ps cleared in
    record b {
      stats = record (b.stats) { padding_tokens = padding b.stats.num_sequences b.batch.entries };
    }

-- The sequences of a group with the tokens written, the tokens that are left, `new_tokens` from
-- `tok_idx` on, and the time of the first token.
pub record Written : Type 0 where
  pub seqs : List SequenceData
  pub tokens : List TokenId
  pub first_token_time : Option ℕ

unfoldable pub first_time : ℕ → SequenceData → Option ℕ → Option ℕ
first_time now s none = if output_len s == 1 then some now else none
first_time now s (some t) = some t

-- A token is appended, and the sequence finished if its output is as long as the limit.
unfoldable pub take_token : ℤ → TokenId → SequenceData → SequenceData
unfolding to_int32
take_token limit t s =
    let s' = append_token t s in
    if ltbℤ (to_int32 (output_len s')) limit then s' else record s' { status = finished_length }

abbrev pub prepend : SequenceData → Written → Written
prepend s w = record w { seqs = s ∷ w.seqs }

-- `now` is what `Clock::now()` reads. Out of tokens the loop over the sequences ends.
unfoldable pub update_seqs : ℤ → ℕ → Option ℕ → List SequenceData → List TokenId → Written
unfolding take_token first_time
update_seqs limit now first [] toks = record { seqs = []; tokens = toks; first_token_time = first }
update_seqs limit now first (s ∷ ss) [] =
    let rest = update_seqs limit now first ss [] in
    if seq_finished s
    then prepend s rest
    else record { seqs = s ∷ ss; tokens = []; first_token_time = first }
update_seqs limit now first (s ∷ ss) (t ∷ ts) =
    let skipped = update_seqs limit now first ss (t ∷ ts) in
    let rest = update_seqs limit now (first_time now (append_token t s) first) ss ts in
    if seq_finished s then prepend s skipped else prepend (take_token limit t s) rest

unfoldable pub update_after_decode : ℕ → List Ptr → List TokenId → Memory → Memory
unfolding update_seqs
update_after_decode now [] toks mem = mem
update_after_decode now (p ∷ ps) toks mem =
    let g = mem p in
    let w = update_seqs g.sampling.max_tokens now g.first_token_time g.sequences toks in
    update_after_decode now ps w.tokens
      (write mem p (record g { sequences = w.seqs; first_token_time = w.first_token_time }))
