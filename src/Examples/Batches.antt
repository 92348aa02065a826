-- ===== src/Examples/Batches.antt =====
-- Two groups: one to prefill, and one with output.
use cache_flow.Base.{
  ℕ, suc, ◌+◌, ◌-◌, ◌*◌, ◌≡◌, refl, List, [], ◌∷◌, none, some, arith, length, get_elem?, Bool-cases,
  false, if◌then◌else◌, ◌==◌, ◌⊎◌, inl, inr,
}
use cache_flow.Base.Int.{pos, to_int32}
use cache_flow.Base.Count.{times}
use cache_flow.Common.{TokenId, RequestStatus, running, finished_stopped}
use cache_flow.Request.{SequenceData, SequenceGroup, seq_finished, count_unfinished}
use cache_flow.Scheduler.State.{Memory}
use cache_flow.BatchManager.{
  Entry, build_batch, padding, take_token, update_seqs, update_after_decode,
}
use cache_flow.BatchManager.Build.{Built, build_batch-Built}
use cache_flow.BatchManager.Padding.{IsGreatest, padding-IsGreatest}
use cache_flow.BatchManager.Update.{
  IsLimited, unfinished_before, outputs_of, demand, update_seqs-get_elem?,
  update_after_decode-outputs_of, update_after_decode-IsLimited,
}

abbrev sequence : ℕ → List TokenId → List TokenId → RequestStatus → SequenceData
sequence id prompt output s = record {
  seq_id = id;
  prompt_tokens = prompt;
  output_tokens = output;
  logical_blocks = pos 0 ∷ [];
  status = s;
}

abbrev fresh_sequence : SequenceData
fresh_sequence = sequence 1 (pos 5 ∷ pos 6 ∷ pos 7 ∷ []) [] running

abbrev done_sequence : SequenceData
done_sequence = sequence 2 (pos 5 ∷ []) (pos 9 ∷ []) finished_stopped

abbrev decoded_sequence : SequenceData
decoded_sequence = sequence 3 (pos 5 ∷ pos 6 ∷ []) (pos 8 ∷ []) running

abbrev mixed : List SequenceData
mixed = done_sequence ∷ decoded_sequence ∷ []

abbrev group_of : ℕ → List SequenceData → SequenceGroup
group_of id qs = record {
  request_id = id;
  sequences = qs;
  sampling = record { top_k = pos 40; max_tokens = pos 2; stream = false };
  arrival_time = 0;
  priority = pos 0;
  first_token_time = none;
}

abbrev two_groups : Memory
two_groups p = if p == 0 then group_of 1 (fresh_sequence ∷ []) else group_of 2 mixed

build_batch-Built_example : Built two_groups (0 ∷ 1 ∷ []) (build_batch two_groups (0 ∷ 1 ∷ []))
build_batch-Built_example = build_batch-Built two_groups (0 ∷ 1 ∷ [])

-- Three entries of the prompt and one of the other sequence; the rectangle is 2 by 3.
batch_counts :
    let b = build_batch two_groups (0 ∷ 1 ∷ []) in
    (b.stats.num_prefill_tokens ≡ 3)
    × (b.stats.num_decode_tokens ≡ 1)
    × (b.stats.padding_tokens ≡ 2)
unfolding build_batch
batch_counts = (refl, refl, refl)

abbrev entries : List Entry
entries = (build_batch two_groups (0 ∷ 1 ∷ [])).batch.entries

padding-IsGreatest_example :
    (entries ≡ [] × padding 2 entries ≡ 0)
    ⊎ ((m : ℕ) × IsGreatest 0 entries m × (padding 2 entries ≡ 2 * suc m - length entries))
padding-IsGreatest_example = padding-IsGreatest 2 entries

-- The second sequence gets the first token, since the one before it is finished.
update_seqs-get_elem?_example :
    get_elem? (update_seqs (pos 2) 7 none mixed (pos 11 ∷ pos 12 ∷ [])).seqs 1
    ≡ some (
        if seq_finished decoded_sequence
        then decoded_sequence
        else take_token (pos 2) (pos 11) decoded_sequence)
unfolding unfinished_before
update_seqs-get_elem?_example =
    update_seqs-get_elem? (pos 2) 7 none 1 decoded_sequence (pos 11) mixed (pos 11 ∷ pos 12 ∷ [])
      refl refl

update_after_decode-outputs_of_example :
    outputs_of (update_after_decode 7 (0 ∷ 1 ∷ []) (pos 11 ∷ pos 12 ∷ []) two_groups) (0 ∷ 1 ∷ [])
    ≡ outputs_of two_groups (0 ∷ 1 ∷ []) + demand two_groups (0 ∷ 1 ∷ [])
unfolding times demand count_unfinished
update_after_decode-outputs_of_example =
    update_after_decode-outputs_of 7 (0 ∷ 1 ∷ []) (pos 11 ∷ pos 12 ∷ []) two_groups
      (refl, (refl, tt)) (omega arith)

two_groups-IsLimited : IsLimited two_groups
unfolding to_int32
two_groups-IsLimited p = elim (Bool-cases (p == 0)) [
  | inl e ↦ rw e (inr refl, tt)
  | inr e ↦ rw e (inl refl, (inr refl, tt))
]

update_after_decode-IsLimited_example :
    IsLimited (update_after_decode 7 (0 ∷ 1 ∷ []) (pos 11 ∷ pos 12 ∷ []) two_groups)
update_after_decode-IsLimited_example =
    update_after_decode-IsLimited 7 (0 ∷ 1 ∷ []) (pos 11 ∷ pos 12 ∷ []) two_groups
      two_groups-IsLimited
