-- ===== src/Profiler/Calls.antt =====
-- src/cacheflow/profiler/profiler.h: the calls that a profiler gets, and what they add up to.
use Prim.Native.String.{String}
use cache_flow.Base.{
  ℕ, suc, ◌+◌, ◌==◌, if◌then◌else◌, Bool, true, false, List, [], ◌∷◌, Option, some, ◌>>=◌,
}
use cache_flow.Common.{SeqId}
use cache_flow.Platform.{Platform}
use cache_flow.BlockManager.{BlockManager}
use cache_flow.Profiler.{
  Moment, Profiler, begin_step, end_step, mark, record_request_start, record_first_token,
  record_request_end, record_prefill, record_decode, reset,
}

module _ (platform : Platform) where
  open platform use {Double}

  pub data Call : Type 0 where
    begin : (m : Moment) (num_tokens : ℕ) → Call
    end : (m : Moment) (bm : Option BlockManager) (step_time_ms : Double) → Call
    label : (m : Moment) (text : String) → Call
    start : (m : Moment) (id : SeqId) → Call
    first : (m : Moment) (id : SeqId) → Call
    finish : (m : Moment) (id : SeqId) (output_tokens : ℕ) → Call
    prefill : (m : Moment) (id : SeqId) (prompt_len : ℕ) (time_ms : Double) → Call
    decode : (m : Moment) (id : SeqId) (time_ms : Double) → Call
    clear : Call

  unfoldable pub act : Profiler platform → Call → Option (Profiler platform)
  act p (begin m num_tokens) = some (begin_step platform m num_tokens p)
  act p (end m bm step_time_ms) = end_step platform m bm step_time_ms p
  act p (label m text) = some (mark platform m text p)
  act p (start m id) = some (record_request_start platform m id p)
  act p (first m id) = some (record_first_token platform m id p)
  act p (finish m id output_tokens) = some (record_request_end platform m id output_tokens p)
  act p (prefill m id prompt_len time_ms) = some (record_prefill platform m id prompt_len time_ms p)
  act p (decode m id time_ms) = some (record_decode platform m id time_ms p)
  act p clear = some (reset platform p)

  unfoldable pub run : Profiler platform → List Call → Option (Profiler platform)
  run p [] = some p
  run p (c ∷ cs) = act p c >>= λ p'. run p' cs

  -- What the calls add up to since the last reset: which requests have started and not ended, how
  -- many have ended, and the tokens and the ended steps.
  pub record Ledger : Type 0 where
    pub is_open : SeqId → Bool
    pub served : ℕ
    pub tokens : ℕ
    pub steps : ℕ

  abbrev pub empty : Ledger
  empty = record { is_open = λ id. false; served = 0; tokens = 0; steps = 0 }

  -- A request that has not started, or has ended, cannot end.
  abbrev pub post : Ledger → Call → Ledger
  post l (begin m num_tokens) = record l { tokens = l.tokens + num_tokens }
  post l (end m bm step_time_ms) = record l { steps = suc l.steps }
  post l (label m text) = l
  post l (start m id) = record l { is_open = λ j. if id == j then true else l.is_open j }
  post l (first m id) = l
  post l (finish m id output_tokens) =
      if l.is_open id
      then record l { is_open = λ j. if id == j then false else l.is_open j; served = suc l.served }
      else l
  post l (prefill m id prompt_len time_ms) = l
  post l (decode m id time_ms) = l
  post l clear = empty

  unfoldable pub post_all : Ledger → List Call → Ledger
  post_all l [] = l
  post_all l (c ∷ cs) = post_all (post l c) cs
