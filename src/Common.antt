-- ===== src/Common.antt =====
-- src/cacheflow/common.h: the aliases, the enumerations and the configurations.
-- Floats that no modelled code reads (watermarks, gpu_memory_utilization) are left out.
use cache_flow.Base.{ℕ, ◌*◌, Bool, true, false}
use cache_flow.Base.Int.{ℤ, pos, negsuc}

-- `BlockId` and `TokenId` are `int32_t`.
abbrev pub BlockId : Type 0
BlockId = ℤ

abbrev pub TokenId : Type 0
TokenId = ℤ

abbrev pub SeqId : Type 0
SeqId = ℕ

abbrev pub kv_block_size : ℕ
kv_block_size = 16

abbrev pub default_gpu_blocks : ℕ
default_gpu_blocks = 8192

abbrev pub default_cpu_blocks : ℕ
default_cpu_blocks = 16384

abbrev pub invalid_block : BlockId
invalid_block = negsuc 0

-- `id == INVALID_BLOCK`.
abbrev pub is_invalid : BlockId → Bool
is_invalid (pos n) = false
is_invalid (negsuc ℕ.zero) = true
is_invalid (negsuc (ℕ.suc n)) = false

pub data RequestStatus : Type 0 where
  waiting running preempted swapped : RequestStatus
  finished_stopped finished_length finished_eos finished_abort : RequestStatus

-- `s >= FINISHED_STOPPED` in the order of the enumeration.
abbrev pub is_finished : RequestStatus → Bool
is_finished RequestStatus.waiting = false
is_finished RequestStatus.running = false
is_finished RequestStatus.preempted = false
is_finished RequestStatus.swapped = false
is_finished RequestStatus.finished_stopped = true
is_finished RequestStatus.finished_length = true
is_finished RequestStatus.finished_eos = true
is_finished RequestStatus.finished_abort = true

pub data SchedulePolicy : Type 0 where
  fcfs shortest_remaining priority : SchedulePolicy

pub data PreemptionMode : Type 0 where
  recompute swap : PreemptionMode

pub data DeviceType : Type 0 where
  cpu cuda : DeviceType

abbrev pub same_device : DeviceType → DeviceType → Bool
same_device DeviceType.cpu DeviceType.cpu = true
same_device DeviceType.cuda DeviceType.cuda = true
same_device DeviceType.cpu DeviceType.cuda = false
same_device DeviceType.cuda DeviceType.cpu = false

-- The members are positive `int32_t` values.
pub record ModelConfig : Type 0 where
  pub n_layers : ℕ
  pub n_heads : ℕ
  pub n_kv_heads : ℕ
  pub head_dim : ℕ
  pub vocab_size : ℕ
  pub max_seq_len : ℕ

pub kv_cache_elem_size : ModelConfig → ℕ
kv_cache_elem_size m = m.head_dim * m.n_kv_heads

-- `sizeof(float)` is 4.
pub block_bytes : ModelConfig → ℕ
block_bytes m = 2 * m.n_layers * kv_cache_elem_size m * kv_block_size * 4

pub record SchedulerConfig : Type 0 where
  pub max_num_seqs : ℕ
  pub max_num_batched_tokens : ℕ
  pub max_paddings : ℕ
  pub policy : SchedulePolicy
  pub preemption_mode : PreemptionMode
  pub swap_space_bytes : ℕ

pub record CacheConfig : Type 0 where
  pub num_gpu_blocks : ℕ
  pub num_cpu_blocks : ℕ
  pub block_size : ℕ
  pub enable_prefix_cache : Bool

-- The defaults of the struct.
abbrev pub default_cache : CacheConfig
default_cache = record {
  num_gpu_blocks = default_gpu_blocks;
  num_cpu_blocks = default_cpu_blocks;
  block_size = kv_block_size;
  enable_prefix_cache = true;
}
