-- ===== src/Examples/Pools.antt =====
-- A pool of four blocks of 4096 bytes at address 65536.
use cache_flow.Base.{ℕ, ◌≤◌, ◌<◌, ◌≡◌, refl, [], some, arith}
use cache_flow.Base.Int.{pos}
use cache_flow.Base.Count.{times}
use cache_flow.Common.{cuda}
use cache_flow.MemoryPool.{
  MemoryPool, create, allocate, reset, ptr_to_block_id, block_id_to_ptr, fill,
}
use cache_flow.MemoryPool.Slots.{is_slot, ptr_to_block_id-block_id_to_ptr}
use cache_flow.MemoryPool.Lending.{slot_of, Lends, lend, reset-Lends}
use cache_flow.MemoryPool.Lifecycle.{
  PoolReach, created, stepped, allocated, PoolReach-once, PoolReach-allocate,
}

abbrev pub pool : MemoryPool
pool = record {
  block_size_bytes = 4096;
  num_blocks = 4;
  device = cuda;
  base = some 65536;
  free_stack = fill 4 65536 4096 [];
}

pool_runs : create 4096 4 cuda (some 65536) ≡ some pool
unfolding create
pool_runs = refl

pool-Lends : Lends (λ x. 0) pool
unfolding reset
pool-Lends = (reset-Lends pool (omega arith) (omega arith)).0

-- The first slot is lent first.
abbrev pub lent : MemoryPool
lent = (allocate pool).0

lent_ptr : (allocate pool).1 ≡ some 65536
unfolding allocate fill
lent_ptr = refl

lent-Lends : Lends (lend 65536 (λ x. 0)) lent
unfolding allocate fill times
lent-Lends x = ground (arith, pool-Lends x)

lent_runs : allocate pool ≡ (lent, some 65536)
unfolding allocate fill
lent_runs = refl

second_idle : lend 65536 (λ x. 0) 69632 < slot_of lent 69632
unfolding is_slot allocate fill
second_idle = omega arith

pool-PoolReach : PoolReach 4096 4 (lend 65536 (λ x. 0)) lent
pool-PoolReach = stepped (created cuda 65536 pool_runs (omega arith)) (allocated 65536 lent_runs)

PoolReach-once_example : (lend 65536 (λ x. 0) 65536 ≤ slot_of lent 65536) × (slot_of lent 65536 ≤ 1)
PoolReach-once_example =
    PoolReach-once 4096 4 (lend 65536 (λ x. 0)) lent 65536 (omega arith) (omega arith) (omega arith)
      pool-PoolReach

PoolReach-allocate_example :
    (m' : MemoryPool) × (p : ℕ) × (allocate lent ≡ (m', some p)) × (lend 65536 (λ x. 0) p ≡ 0)
PoolReach-allocate_example =
    PoolReach-allocate 4096 4 (lend 65536 (λ x. 0)) lent 69632 (omega arith) (omega arith)
      (omega arith) pool-PoolReach second_idle

ptr_to_block_id-block_id_to_ptr_example :
    ptr_to_block_id pool (block_id_to_ptr pool (pos 3)) ≡ pos 3
ptr_to_block_id-block_id_to_ptr_example =
    ptr_to_block_id-block_id_to_ptr pool 3 (omega arith) (omega arith) (omega arith)
