-- ===== src/BatchManager/Build.antt =====
-- `build_batch`: the entries of a batch and its statistics.
use mathlib.Core.List.{append_assoc, append-nil}
use cache_flow.Base.{
  ℕ, suc, ◌+◌, ◌-◌, ◌≡◌, refl, List, [], ◌∷◌, ◌++◌, arith, length, true, false, if◌then◌else◌,
  Bool-cases, inl, inr, ◌∙◌, ap, sym, length-append,
}
use cache_flow.Base.Int.{to_int32}
use cache_flow.Common.{TokenId}
use cache_flow.Request.{SequenceData, seq_finished, total_len, count_unfinished}
use cache_flow.Scheduler.State.{Ptr, Memory}
use cache_flow.BatchManager.{
  Entry, Building, cleared, add_prompt, back, add_tokens, count_sequence, add_seqs, add_groups,
  padding, build_batch,
}
use cache_flow.BatchManager.Update.{demand}

-- The entries of the prompt from index `i` on: one for each token, at its index.
pub prompt_entries : SequenceData → ℕ → List TokenId → List Entry
prompt_entries s i [] = []
prompt_entries s i (t ∷ ts) =
    record {
      seq_id = s.seq_id;
      token = t;
      position = to_int32 i;
      block_table = s.logical_blocks;
      is_prefill = true;
    }
    ∷ prompt_entries s (suc i) ts

-- The one entry of a sequence with output: the last output token, at the last position.
pub decode_entry : SequenceData → TokenId → Entry
decode_entry s t = record {
  seq_id = s.seq_id;
  token = t;
  position = to_int32 (total_len s - 1);
  block_table = s.logical_blocks;
  is_prefill = false;
}

pub seq_entries : SequenceData → List TokenId → List Entry
seq_entries s [] = prompt_entries s 0 s.prompt_tokens
seq_entries s (t ∷ ts) = decode_entry s (back t ts) ∷ []

pub seqs_entries : List SequenceData → List Entry
seqs_entries [] = []
seqs_entries (s ∷ ss) =
    (if seq_finished s then [] else seq_entries s s.output_tokens) ++ seqs_entries ss

pub group_entries : Memory → List Ptr → List Entry
group_entries mem [] = []
group_entries mem (p ∷ ps) = seqs_entries (mem p).sequences ++ group_entries mem ps

-- `b` with the entries `es` and `n` sequences more: the tokens are counted, each as one of the
-- prompt or as one of a decode step.
pub record Adds (b : Building) (es : List Entry) (n : ℕ) (b' : Building) : Type 0 where
  pub entries : b'.batch.entries ≡ b.batch.entries ++ es
  pub total : b'.batch.total_tokens ≡ b.batch.total_tokens + length es
  pub kinds :
      b'.stats.num_prefill_tokens + b'.stats.num_decode_tokens
      ≡ b.stats.num_prefill_tokens + b.stats.num_decode_tokens + length es
  pub sequences : b'.stats.num_sequences ≡ b.stats.num_sequences + n
  pub pads : b'.stats.padding_tokens ≡ b.stats.padding_tokens

Adds-refl : (b : Building) → Adds b [] 0 b
Adds-refl b = record {
  entries = sym (append-nil b.batch.entries);
  total = omega arith;
  kinds = omega arith;
  sequences = omega arith;
  pads = refl;
}

Adds-trans :
    (a b c : Building) (es fs : List Entry) (m n : ℕ)
    → Adds a es m b
    → Adds b fs n c
    → Adds a (es ++ fs) (m + n) c
Adds-trans a b c es fs m n h k = record {
  entries = k.entries ∙ ap (λ xs. xs ++ fs) h.entries ∙ append_assoc a.batch.entries es fs;
  total = omega (arith, h.total, k.total, length-append es fs);
  kinds = omega (arith, h.kinds, k.kinds, length-append es fs);
  sequences = omega (arith, h.sequences, k.sequences);
  pads = k.pads ∙ h.pads;
}

add_prompt-Adds :
    (s : SequenceData) (i : ℕ) (ts : List TokenId) (b : Building)
    → Adds b (prompt_entries s i ts) 0 (add_prompt s i ts b)
unfolding add_prompt prompt_entries
add_prompt-Adds s i [] b = Adds-refl b
add_prompt-Adds s i (t ∷ ts) b =
    Adds-trans b _ _ (_ ∷ []) (prompt_entries s (suc i) ts) 0 0
      (record {
        entries = refl;
        total = omega arith;
        kinds = omega arith;
        sequences = omega arith;
        pads = refl;
      })
      (add_prompt-Adds s (suc i) ts _)

add_tokens-Adds :
    (s : SequenceData) (os : List TokenId) (b : Building)
    → Adds b (seq_entries s os) 1 (count_sequence (add_tokens s os b))
unfolding add_tokens seq_entries decode_entry
add_tokens-Adds s [] b =
    let k = add_prompt-Adds s 0 s.prompt_tokens b in
    record {
      entries = k.entries;
      total = k.total;
      kinds = k.kinds;
      sequences = omega (arith, k.sequences);
      pads = k.pads;
    }
add_tokens-Adds s (t ∷ ts) b = record {
  entries = refl;
  total = omega arith;
  kinds = omega arith;
  sequences = omega arith;
  pads = refl;
}

add_seqs-Adds :
    (ss : List SequenceData) (b : Building)
    → Adds b (seqs_entries ss) (count_unfinished ss) (add_seqs ss b)
unfolding add_seqs seqs_entries count_unfinished
add_seqs-Adds [] b = Adds-refl b
add_seqs-Adds (s ∷ ss) b = elim (Bool-cases (seq_finished s)) [
  | inl e ↦
      rw (e, add_seqs, seqs_entries, count_unfinished)
        (Adds-trans b b _ [] (seqs_entries ss) 0 (count_unfinished ss) (Adds-refl b)
          (add_seqs-Adds ss b))
  | inr e ↦
      rw (e, add_seqs, seqs_entries, count_unfinished)
        (Adds-trans b _ _ (seq_entries s s.output_tokens) (seqs_entries ss) 1 (count_unfinished ss)
          (add_tokens-Adds s s.output_tokens b) (add_seqs-Adds ss _))
]

add_groups-Adds :
    (mem : Memory) (ps : List Ptr) (b : Building)
    → Adds b (group_entries mem ps) (demand mem ps) (add_groups mem ps b)
unfolding add_groups group_entries demand
add_groups-Adds mem [] b = Adds-refl b
add_groups-Adds mem (p ∷ ps) b =
    Adds-trans b _ _ (seqs_entries (mem p).sequences) (group_entries mem ps)
      (count_unfinished (mem p).sequences) (demand mem ps) (add_seqs-Adds (mem p).sequences b)
      (add_groups-Adds mem ps _)

-- What a built batch holds.
pub record Built (mem : Memory) (ps : List Ptr) (b : Building) : Type 0 where
  pub entries : b.batch.entries ≡ group_entries mem ps
  pub total : b.batch.total_tokens ≡ length b.batch.entries
  pub kinds : b.stats.num_prefill_tokens + b.stats.num_decode_tokens ≡ b.batch.total_tokens
  pub sequences : b.stats.num_sequences ≡ demand mem ps
  pub pads : b.stats.padding_tokens ≡ padding (demand mem ps) (group_entries mem ps)

-- A batch holds, in the order of the groups and of their unfinished sequences, an entry for each
-- prompt token of a sequence without output, and one for the last token of any other. All entries
-- are counted, as prompt tokens or decode tokens, and so are the unfinished sequences.
pub build_batch-Built : (mem : Memory) (ps : List Ptr) → Built mem ps (build_batch mem ps)
unfolding build_batch
build_batch-Built mem ps =
    let a = add_groups-Adds mem ps cleared in
    let n : (add_groups mem ps cleared).stats.num_sequences ≡ demand mem ps =
      omega (arith, a.sequences) in
    record {
      entries = a.entries;
      total = omega (arith, a.total, ap length a.entries);
      kinds = omega (arith, a.kinds, a.total);
      sequences = n;
      pads =
          ap (λ k. padding k (add_groups mem ps cleared).batch.entries) n
          ∙ ap (padding (demand mem ps)) a.entries;
    }
