-- ===== src/MemoryPool.antt =====
-- src/cacheflow/kv_cache/memory_pool.h and memory_pool.cpp: the slab allocator and the pair of
-- pools.
--
-- A pointer is an address; `none` is the null pointer. The memory comes from `cudaMalloc` or
-- `aligned_alloc`, whose result is an argument of the constructor. The free stack is written
-- with the back of the vector first.
pub mod Slots
pub mod Lending
pub mod Lifecycle
use cache_flow.Base.{
  ℕ, zero, suc, ◌+◌, ◌-◌, ◌*◌, ◌/◌, ◌%◌, ◌^◌, Bool, List, [], ◌∷◌, Option, none, some, length, ◌==◌,
  if◌then◌else◌,
}
use cache_flow.Base.Int.{to_int32, to_size}
use cache_flow.Common.{BlockId, DeviceType, cpu, cuda}

pub record MemoryPool : Type 0 where
  pub block_size_bytes : ℕ
  pub num_blocks : ℕ
  pub device : DeviceType
  pub base : Option ℕ
  pub free_stack : List ℕ

abbrev pub size_mod : ℕ
size_mod = 2 ^ 64

-- The loop of the constructor and of `reset`: `i` counts down from `num_blocks`. The offset and the
-- address wrap around.
unfoldable pub fill : ℕ → ℕ → ℕ → List ℕ → List ℕ
fill zero base size stack = stack
fill (suc i) base size stack = fill i base size (((base + i * size) % size_mod) ∷ stack)

-- `total_bytes` is a `size_t` product. An allocation that fails throws, here `none`; a pool of no
-- bytes asks for none and has no stack.
unfoldable pub create : ℕ → ℕ → DeviceType → Option ℕ → Option MemoryPool
unfolding fill
create size n d memory =
    let empty : MemoryPool = record {
      block_size_bytes = size;
      num_blocks = n;
      device = d;
      base = none;
      free_stack = [];
    } in
    if (size * n) % size_mod == 0 then some empty else elim memory [
      | none ↦ none
      | some p ↦ some (record empty { base = some p; free_stack = fill n p size [] })
    ]

unfoldable pub allocate : MemoryPool → MemoryPool × Option ℕ
allocate m = elim m.free_stack [
  | [] ↦ (m, none)
  | p ∷ rest ↦ (record m { free_stack = rest }, some p)
]

unfoldable pub deallocate : MemoryPool → Option ℕ → MemoryPool
deallocate m none = m
deallocate m (some p) = record m { free_stack = p ∷ m.free_stack }

-- Address 0 stands for a null base here, from which the C++ computes the same offsets.
abbrev pub address : Option ℕ → ℕ
address none = 0
address (some p) = p

unfoldable pub reset : MemoryPool → MemoryPool
unfolding fill
reset m = record m { free_stack = fill m.num_blocks (address m.base) m.block_size_bytes [] }

unfoldable pub num_free : MemoryPool → ℕ
num_free m = length m.free_stack

-- A difference of two `size_t`.
unfoldable pub num_used : MemoryPool → ℕ
unfolding num_free
num_used m = (m.num_blocks + size_mod - num_free m) % size_mod

-- The offset is converted to `size_t`, divided, and converted to `int32_t`.
unfoldable pub ptr_to_block_id : MemoryPool → ℕ → BlockId
unfolding to_int32
ptr_to_block_id m p = to_int32 (((p + size_mod - address m.base) % size_mod) / m.block_size_bytes)

unfoldable pub block_id_to_ptr : MemoryPool → BlockId → ℕ
unfolding to_size
block_id_to_ptr m id = (address m.base + to_size id * m.block_size_bytes) % size_mod

pub record PoolManager : Type 0 where
  pub gpu_pool : MemoryPool
  pub cpu_pool : MemoryPool

-- Two pools of blocks of one size; the first allocation that fails throws.
unfoldable pub create_pools : ℕ → ℕ → ℕ → Option ℕ → Option ℕ → Option PoolManager
unfolding create
create_pools size gpu_blocks cpu_blocks gpu_memory cpu_memory =
    elim (create size gpu_blocks cuda gpu_memory) [
      | none ↦ none
      | some g ↦ elim (create size cpu_blocks cpu cpu_memory) [
        | none ↦ none
        | some c ↦ some (record { gpu_pool = g; cpu_pool = c })
      ]
    ]

unfoldable pub pool_for : PoolManager → DeviceType → MemoryPool
pool_for m cuda = m.gpu_pool
pool_for m cpu = m.cpu_pool
