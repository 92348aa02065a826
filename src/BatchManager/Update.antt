-- ===== src/BatchManager/Update.antt =====
-- `update_after_decode`: which sequence gets which token.
use cache_flow.Base.{
  ℕ, zero, suc, ◌+◌, ◌-◌, ◌≤◌, ◌≡◌, refl, List, [], ◌∷◌, Option, some, arith, length, true, false,
  if◌then◌else◌, ◌==◌, Bool-cases, inl, inr, ◌∙◌, ap, ==-eq, ==_refl, All, get_elem?, sym,
  length-append, ◌⊎◌,
}
use cache_flow.Base.Int.{ℤ, to_int32, ltbℤ}
use cache_flow.Base.Count.{times}
use cache_flow.Common.{TokenId}
use cache_flow.Request.{
  SequenceData, SequenceGroup, seq_finished, output_len, append_token, count_unfinished,
}
use cache_flow.Scheduler.State.{Ptr, Memory, write}
use cache_flow.BatchManager.{
  Written, update_seqs, take_token, first_time, prepend, update_after_decode,
}

-- The unfinished sequences among the first `i`.
unfoldable pub unfinished_before : ℕ → List SequenceData → ℕ
unfinished_before zero qs = 0
unfinished_before (suc i) [] = 0
unfinished_before (suc i) (q ∷ qs) = (if seq_finished q then 0 else 1) + unfinished_before i qs

pub outputs : List SequenceData → ℕ
outputs [] = 0
outputs (q ∷ qs) = output_len q + outputs qs

-- A sequence is finished or has fewer output tokens than the limit.
abbrev pub IsWithin : ℤ → SequenceData → Type 0
IsWithin limit q = (seq_finished q ≡ true) ⊎ (ltbℤ (to_int32 (output_len q)) limit ≡ true)

take_token-output_len :
    (limit : ℤ) (t : TokenId) (q : SequenceData)
    → output_len (take_token limit t q) ≡ suc (output_len q)
unfolding take_token
take_token-output_len limit t q =
    let longer : output_len (append_token t q) ≡ suc (output_len q) =
      omega (arith, length-append q.output_tokens (t ∷ [])) in
    elim (Bool-cases (ltbℤ (to_int32 (output_len (append_token t q))) limit)) [
      | inl e ↦ rw (e, take_token) longer
      | inr e ↦ rw (e, take_token) longer
    ]

take_token-IsWithin :
    (limit : ℤ) (t : TokenId) (q : SequenceData) → IsWithin limit (take_token limit t q)
unfolding take_token
take_token-IsWithin limit t q =
    elim (Bool-cases (ltbℤ (to_int32 (output_len (append_token t q))) limit)) [
      | inl e ↦ rw (e, take_token) (inr e)
      | inr e ↦ rw (e, take_token) (inl refl)
    ]

-- What the loop over the sequences of a group leaves of the tokens.
pub record Feeds (limit : ℤ) (qs : List SequenceData) (toks : List TokenId) (w : Written)
    : Type 0 where
  pub size : length w.seqs ≡ length qs
  pub left : length w.tokens ≡ length toks - count_unfinished qs
  pub given : outputs w.seqs + length w.tokens ≡ outputs qs + length toks
  pub within : All (IsWithin limit) qs → All (IsWithin limit) w.seqs

module _ (limit : ℤ) (now : ℕ) where
  skips :
      (q : SequenceData) (qs : List SequenceData) (toks : List TokenId) (w : Written)
      → seq_finished q ≡ true
      → Feeds limit qs toks w
      → Feeds limit (q ∷ qs) toks (prepend q w)
  unfolding count_unfinished outputs
  skips q qs toks w e f = record {
    size = ap suc f.size;
    left = rw (e, count_unfinished) (omega (arith, f.left));
    given = omega (arith, f.given);
    within = λ h. (h.0, f.within h.1);
  }

  feeds :
      (q : SequenceData) (qs : List SequenceData) (t : TokenId) (ts : List TokenId) (w : Written)
      → seq_finished q ≡ false
      → Feeds limit qs ts w
      → Feeds limit (q ∷ qs) (t ∷ ts) (prepend (take_token limit t q) w)
  unfolding count_unfinished outputs
  feeds q qs t ts w e f = record {
    size = ap suc f.size;
    left = rw (e, count_unfinished) (omega (arith, f.left));
    given = omega (arith, f.given, take_token-output_len limit t q);
    within = λ h. (take_token-IsWithin limit t q, f.within h.1);
  }

  pub update_seqs-Feeds :
      (first : Option ℕ) (qs : List SequenceData) (toks : List TokenId)
      → Feeds limit qs toks (update_seqs limit now first qs toks)
  unfolding update_seqs count_unfinished outputs
  update_seqs-Feeds first [] toks = record {
    size = refl;
    left = omega arith;
    given = refl;
    within = λ h. tt;
  }
  update_seqs-Feeds first (q ∷ qs) [] = elim (Bool-cases (seq_finished q)) [
    | inl e ↦ rw (e, update_seqs) (skips q qs [] _ e (update_seqs-Feeds first qs []))
    | inr e ↦
        rw (e, update_seqs)
          (record { size = refl; left = omega arith; given = refl; within = λ h. h })
  ]
  update_seqs-Feeds first (q ∷ qs) (t ∷ ts) = elim (Bool-cases (seq_finished q)) [
    | inl e ↦ rw (e, update_seqs) (skips q qs (t ∷ ts) _ e (update_seqs-Feeds first qs (t ∷ ts)))
    | inr e ↦
        rw (e, update_seqs)
          (feeds q qs t ts _ e (update_seqs-Feeds (first_time now (append_token t q) first) qs ts))
  ]

  -- The `i`-th sequence, if it is unfinished, gets the token whose index is the number of
  -- unfinished sequences before it, and a finished one is left as it is.
  pub update_seqs-get_elem? :
      (first : Option ℕ) (i : ℕ) (q : SequenceData) (t : TokenId) (qs : List SequenceData)
      (toks : List TokenId)
      → get_elem? qs i ≡ some q
      → get_elem? toks (unfinished_before i qs) ≡ some t
      → get_elem? (update_seqs limit now first qs toks).seqs i
        ≡ some (if seq_finished q then q else take_token limit t q)
  unfolding update_seqs unfinished_before
  update_seqs-get_elem? first i q t [] toks h k = absurd (cc h)
  update_seqs-get_elem? first i q t (r ∷ qs) [] h k = absurd (cc k)
  update_seqs-get_elem? first zero q t (r ∷ qs) (u ∷ ts) h k =
      let same : r ≡ q = cc h in
      let tok : u ≡ t = cc k in
      elim (Bool-cases (seq_finished r)) [
        | inl e ↦ rw (e, sym same, update_seqs) (rw e)
        | inr e ↦ rw (e, sym same, update_seqs) (rw (e, tok))
      ]
  update_seqs-get_elem? first (suc i) q t (r ∷ qs) (u ∷ ts) h k =
      elim (Bool-cases (seq_finished r)) [
        | inl e ↦
            let here : unfinished_before (suc i) (r ∷ qs) ≡ unfinished_before i qs =
              rw e (omega arith) in
            rw (e, update_seqs)
              (update_seqs-get_elem? first i q t qs (u ∷ ts) h
                (ap (get_elem? (u ∷ ts)) (sym here) ∙ k))
        | inr e ↦
            let here : unfinished_before (suc i) (r ∷ qs) ≡ suc (unfinished_before i qs) =
              rw e (omega arith) in
            rw (e, update_seqs)
              (update_seqs-get_elem? (first_time now (append_token u r) first) i q t qs ts h
                (ap (get_elem? (u ∷ ts)) (sym here) ∙ k))
      ]

pub outputs_of : Memory → List Ptr → ℕ
outputs_of mem [] = 0
outputs_of mem (p ∷ ps) = outputs (mem p).sequences + outputs_of mem ps

-- The unfinished sequences of the groups.
unfoldable pub demand : Memory → List Ptr → ℕ
demand mem [] = 0
demand mem (p ∷ ps) = count_unfinished (mem p).sequences + demand mem ps

abbrev pub IsDistinct : List Ptr → Type 0
IsDistinct [] = Unit
IsDistinct (p ∷ ps) = (times p ps ≡ 0) × IsDistinct ps

outputs_of-write :
    (mem : Memory) (p : Ptr) (g : SequenceGroup) (ps : List Ptr)
    → times p ps ≡ 0
    → outputs_of (write mem p g) ps ≡ outputs_of mem ps
unfolding times outputs_of
outputs_of-write mem p g [] h = refl
outputs_of-write mem p g (q ∷ qs) h =
    let apart : (p == q) ≡ false = ground arith in
    rw apart (omega (arith, outputs_of-write mem p g qs (omega arith)))

demand-write :
    (mem : Memory) (p : Ptr) (g : SequenceGroup) (ps : List Ptr)
    → times p ps ≡ 0
    → demand (write mem p g) ps ≡ demand mem ps
unfolding times demand
demand-write mem p g [] h = refl
demand-write mem p g (q ∷ qs) h =
    let apart : (p == q) ≡ false = ground arith in
    rw apart (omega (arith, demand-write mem p g qs (omega arith)))

module _ (now : ℕ) where
  -- The group at `p` after its loop.
  abbrev fed : Ptr → List TokenId → Memory → SequenceGroup
  unfolding update_seqs
  fed p toks mem =
      let g = mem p in
      let w = update_seqs g.sampling.max_tokens now g.first_token_time g.sequences toks in
      record g { sequences = w.seqs; first_token_time = w.first_token_time }

  other_group :
      (p : Ptr) (ps : List Ptr) (toks : List TokenId) (mem : Memory)
      → times p ps ≡ 0
      → update_after_decode now ps toks mem p ≡ mem p
  unfolding update_after_decode times
  other_group p [] toks mem h = refl
  other_group p (q ∷ qs) toks mem h =
      let apart : (q == p) ≡ false = ground arith in
      other_group p qs _ (write mem q (fed q toks mem)) (omega arith) ∙ rw apart

  -- With a token for every unfinished sequence of the groups, none of them twice, the step adds
  -- as many output tokens as there are unfinished sequences.
  pub update_after_decode-outputs_of :
      (ps : List Ptr) (toks : List TokenId) (mem : Memory)
      → IsDistinct ps
      → demand mem ps ≤ length toks
      → outputs_of (update_after_decode now ps toks mem) ps ≡ outputs_of mem ps + demand mem ps
  unfolding update_after_decode outputs_of demand
  update_after_decode-outputs_of [] toks mem d h = refl
  update_after_decode-outputs_of (p ∷ ps) toks mem d h =
      let g = mem p in
      let f = update_seqs-Feeds g.sampling.max_tokens now g.first_token_time g.sequences toks in
      let w = update_seqs g.sampling.max_tokens now g.first_token_time g.sequences toks in
      let mem' : Memory = write mem p (fed p toks mem) in
      let own : outputs (update_after_decode now ps w.tokens mem' p).sequences ≡ outputs w.seqs =
        ap (λ r. outputs r.sequences) (other_group p ps w.tokens mem' d.0) ∙ rw (==_refl p) in
      let ds = demand-write mem p (fed p toks mem) ps d.0 in
      let rest =
        update_after_decode-outputs_of ps w.tokens mem' d.1 (omega (arith, ds, f.left, h)) in
      omega
        (arith, own, rest, ds, f.given, f.left, h, outputs_of-write mem p (fed p toks mem) ps d.0)

  -- Every group keeps the number of its sequences.
  pub update_after_decode-sizes :
      (ps : List Ptr) (toks : List TokenId) (mem : Memory) (q : Ptr)
      → length (update_after_decode now ps toks mem q).sequences ≡ length (mem q).sequences
  unfolding update_after_decode
  update_after_decode-sizes [] toks mem q = refl
  update_after_decode-sizes (p ∷ ps) toks mem q =
      let g = mem p in
      let f = update_seqs-Feeds g.sampling.max_tokens now g.first_token_time g.sequences toks in
      update_after_decode-sizes ps _ (write mem p (fed p toks mem)) q ∙ elim (Bool-cases (p == q)) [
        | inl e ↦ rw e (f.size ∙ ap (λ r. length (mem r).sequences) (==-eq p q e))
        | inr e ↦ rw e
      ]

-- Every unfinished sequence has fewer output tokens than the limit of its group.
abbrev pub IsLimited : Memory → Type 0
IsLimited mem = (p : Ptr) → All (IsWithin (mem p).sampling.max_tokens) (mem p).sequences

-- A step of decoding keeps every unfinished sequence below the limit of its group.
pub update_after_decode-IsLimited :
    (now : ℕ) (ps : List Ptr) (toks : List TokenId) (mem : Memory)
    → IsLimited mem
    → IsLimited (update_after_decode now ps toks mem)
unfolding update_after_decode
update_after_decode-IsLimited now [] toks mem l = l
update_after_decode-IsLimited now (p ∷ ps) toks mem l =
    let g = mem p in
    let f = update_seqs-Feeds g.sampling.max_tokens now g.first_token_time g.sequences toks in
    update_after_decode-IsLimited now ps _ (write mem p (fed now p toks mem))
      (λ q. elim (Bool-cases (p == q)) [ inl e ↦ rw e (f.within (l p)) | inr e ↦ rw e (l q) ])
