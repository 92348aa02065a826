-- ===== src/MemoryPool/Lifecycle.antt =====
-- The calls of the holders of a pool, in any order.
use native.Mathlib.Nat.{mod-eq_of_lt}
use cache_flow.Base.Count.{times}
use cache_flow.Base.{
  ℕ, ◌+◌, ◌*◌, subst, ◌%◌, ◌≤◌, ◌<◌, ◌≡◌, ◌≢◌, sym, ap, ◌∙◌, [], none, some, Option, List, arith,
  inl, inr,
}
use cache_flow.Common.{DeviceType}
use cache_flow.MemoryPool.{MemoryPool, address, size_mod, create, allocate, deallocate, reset}
use cache_flow.MemoryPool.Slots.{is_slot-le}
use cache_flow.MemoryPool.Lending.{
  Lends, Fits, lend, give_back, slot_of, create-Lends, reset-Lends, deallocate-Lends, allocate-Lent,
}

-- A state is a pool with the addresses that are lent, as often. Only what is lent is given back.
pub data PoolStep (used : ℕ → ℕ) (m : MemoryPool) : (ℕ → ℕ) → MemoryPool → Type 0 where
  allocated :
      {m' : MemoryPool} (p : ℕ) → allocate m ≡ (m', some p) → PoolStep used m (lend p used) m'
  exhausted : {m' : MemoryPool} → allocate m ≡ (m', none) → PoolStep used m used m'
  deallocated : (p : ℕ) → used p ≢ 0 → PoolStep used m (give_back p used) (deallocate m (some p))
  cleared : PoolStep used m (λ x. 0) (reset m)

-- What is reached from a new pool of `n` slots of `size` bytes. The memory that the allocator gives
-- for the bytes that the constructor asks for lies within the address space.
pub data PoolReach (size n : ℕ) : (ℕ → ℕ) → MemoryPool → Type 0 where
  created :
      {m : MemoryPool} (d : DeviceType) (p : ℕ)
      → create size n d (some p) ≡ some m
      → p + (size * n) % size_mod ≤ size_mod
      → PoolReach size n (λ x. 0) m
  stepped :
      {used used' : ℕ → ℕ} {m m' : MemoryPool}
      → PoolReach size n used m
      → PoolStep used m used' m'
      → PoolReach size n used' m'

record Kept (size : ℕ) (used : ℕ → ℕ) (m : MemoryPool) : Type 0 where
  lends : Lends used m
  bytes : m.block_size_bytes ≡ size
  fits : Fits m

times_nil : (x : ℕ) (xs : List ℕ) → xs ≡ [] → times x xs ≡ 0
unfolding times
times_nil x xs e = ap (times x) e

allocate-slots :
    (m : MemoryPool)
    → address (allocate m).0.base + (allocate m).0.num_blocks * (allocate m).0.block_size_bytes
      ≡ address m.base + m.num_blocks * m.block_size_bytes
unfolding allocate
allocate-slots m = ground arith

allocate-bytes : (m : MemoryPool) → (allocate m).0.block_size_bytes ≡ m.block_size_bytes
unfolding allocate
allocate-bytes m = ground arith

-- The pool of an allocation, with its address.
allocated-Kept :
    (size p : ℕ) (used : ℕ → ℕ) (m m' : MemoryPool)
    → 0 < size
    → allocate m ≡ (m', some p)
    → Kept size used m
    → Kept size (lend p used) m'
allocated-Kept size p used m m' z e k =
    let z' : 0 < m.block_size_bytes = omega (arith, z, k.bytes) in
    elim (allocate-Lent used m k.lends z') [
      | inl (empty, none_left) ↦ absurd (cc (e, none_left))
      | inr l ↦
          let same_pool : l.after ≡ m' = cc (e, l.runs) in
          let same_ptr : l.ptr ≡ p = cc (e, l.runs) in
          record {
            lends = rw (← same_pool, ← same_ptr) l.lends;
            bytes =
                sym (ap (λ (r : MemoryPool × Option ℕ). r.0.block_size_bytes) e)
                ∙ allocate-bytes m
                ∙ k.bytes;
            fits =
                subst (λ (r : MemoryPool × Option ℕ). Fits (r.0)) e
                  (omega (arith, allocate-slots m, k.fits));
          }
    ]

exhausted-Kept :
    (size : ℕ) (used : ℕ → ℕ) (m m' : MemoryPool)
    → 0 < size
    → allocate m ≡ (m', none)
    → Kept size used m
    → Kept size used m'
exhausted-Kept size used m m' z e k =
    let z' : 0 < m.block_size_bytes = omega (arith, z, k.bytes) in
    elim (allocate-Lent used m k.lends z') [
      | inl (empty, none_left) ↦ let same : m ≡ m' = cc (e, none_left) in rw (← same) k
      | inr l ↦ absurd (cc (e, l.runs))
    ]

deallocated-Kept :
    (size p : ℕ) (used : ℕ → ℕ) (m : MemoryPool)
    → used p ≢ 0
    → Kept size used m
    → Kept size (give_back p used) (deallocate m (some p))
unfolding deallocate
deallocated-Kept size p used m h k = record {
  lends = deallocate-Lends used m k.lends p h;
  bytes = k.bytes;
  fits = k.fits;
}

reset-Kept :
    (size : ℕ) (used : ℕ → ℕ) (m : MemoryPool)
    → 0 < size
    → Kept size used m
    → Kept size (λ x. 0) (reset m)
unfolding reset
reset-Kept size used m z k = record {
  lends = (reset-Lends m k.fits (omega (arith, z, k.bytes))).0;
  bytes = k.bytes;
  fits = k.fits;
}

create-bytes :
    (size n p : ℕ) (d : DeviceType) (m : MemoryPool)
    → create size n d (some p) ≡ some m
    → m.block_size_bytes ≡ size
unfolding create
create-bytes size n p d m e = ground arith

-- A product that is a `size_t` and not 0.
no_wrap : (size n : ℕ) → size * n < size_mod → (size * n) % size_mod ≡ size * n
no_wrap size n h = mod-eq_of_lt h

positive : (size n : ℕ) → 0 < size → 0 < n → 0 < size * n
positive size n z y = grind arith

swap_mul : (a b : ℕ) → a * b ≡ b * a
swap_mul a b = grind arith

create-Fits :
    (size n p : ℕ) (d : DeviceType) (m : MemoryPool)
    → create size n d (some p) ≡ some m
    → (size * n) % size_mod ≢ 0
    → p + n * size ≤ size_mod
    → Fits m
unfolding create
create-Fits size n p d m e some_bytes fits = ground arith

create-Kept :
    (size n p : ℕ) (d : DeviceType) (m : MemoryPool)
    → create size n d (some p) ≡ some m
    → p + (size * n) % size_mod ≤ size_mod
    → 0 < size
    → 0 < n
    → size * n < size_mod
    → Kept size (λ x. 0) m
create-Kept size n p d m e inside z y h =
    let some_bytes : (size * n) % size_mod ≢ 0 =
      λ q. absurd (omega (arith, q, no_wrap size n h, positive size n z y)) in
    let fits : p + n * size ≤ size_mod = omega (arith, inside, no_wrap size n h, swap_mul n size) in
    let (m', made, lends, count) = create-Lends size n d p some_bytes fits z in
    let same : m' ≡ m = cc (made, e) in
    record {
      lends = rw (← same) lends;
      bytes = create-bytes size n p d m e;
      fits = create-Fits size n p d m e some_bytes fits;
    }

PoolStep-Kept :
    (size : ℕ) {used used' : ℕ → ℕ} {m m' : MemoryPool}
    → 0 < size
    → PoolStep used m used' m'
    → Kept size used m
    → Kept size used' m'
PoolStep-Kept size {used} {m = m} {m'} z (allocated p e) k = allocated-Kept size p used m m' z e k
PoolStep-Kept size {used} {m = m} {m'} z (exhausted e) k = exhausted-Kept size used m m' z e k
PoolStep-Kept size {used} {m = m} z (deallocated p h) k = deallocated-Kept size p used m h k
PoolStep-Kept size {used} {m = m} z cleared k = reset-Kept size used m z k

PoolReach-Kept :
    (size n : ℕ) {used : ℕ → ℕ} {m : MemoryPool}
    → 0 < size
    → 0 < n
    → size * n < size_mod
    → PoolReach size n used m
    → Kept size used m
PoolReach-Kept size n {m = m} z y h (created d p e inside) = create-Kept size n p d m e inside z y h
PoolReach-Kept size n z y h (stepped r s) = PoolStep-Kept size z s (PoolReach-Kept size n z y h r)

-- Whatever calls its holders make, a pool lends nothing but slots, and no address twice, if it has
-- slots, of some bytes each, its size in bytes is a `size_t`, and only what is lent is given back.
pub PoolReach-once :
    (size n : ℕ) (used : ℕ → ℕ) (m : MemoryPool) (x : ℕ)
    → 0 < size
    → 0 < n
    → size * n < size_mod
    → PoolReach size n used m
    → (used x ≤ slot_of m x) × (slot_of m x ≤ 1)
PoolReach-once size n used m x z y h r =
    let k = PoolReach-Kept size n z y h r in
    (
      omega (arith, k.lends x),
      is_slot-le x m.num_blocks (address m.base) m.block_size_bytes (omega (arith, z, k.bytes)),
    )

-- If a pool has slots, of some bytes each, and its size in bytes is a `size_t`, whatever calls came
-- before, an allocation succeeds as long as a slot is not lent, and gives an address that is not
-- lent.
pub PoolReach-allocate :
    (size n : ℕ) (used : ℕ → ℕ) (m : MemoryPool) (x : ℕ)
    → 0 < size
    → 0 < n
    → size * n < size_mod
    → PoolReach size n used m
    → used x < slot_of m x
    → (m' : MemoryPool) × (p : ℕ) × (allocate m ≡ (m', some p)) × (used p ≡ 0)
PoolReach-allocate size n used m x z y h r idle =
    let k = PoolReach-Kept size n z y h r in
    elim (allocate-Lent used m k.lends (omega (arith, z, k.bytes))) [
      | inl (empty, none_left) ↦
          let nothing : times x m.free_stack ≡ 0 = times_nil x m.free_stack empty in
          absurd (omega (arith, nothing, k.lends x, idle))
      | inr l ↦ (l.after, l.ptr, l.runs, l.unused)
    ]
