-- ===== src/MemoryPool/Lending.antt =====
-- The accounting of a pool: every slot is on the free stack or lent out, once.
use cache_flow.Base.Count.{times}
use cache_flow.Base.{
  ℕ, suc, ◌+◌, ◌-◌, ◌*◌, ◌%◌, ◌≤◌, ◌<◌, ◌≡◌, ◌≢◌, List, [], ◌∷◌, none, some, arith, length, ◌==◌,
  if◌then◌else◌, List-cases, inl, inr, ◌∙◌, ap, ◌⊎◌,
}
use cache_flow.Common.{DeviceType}
use cache_flow.MemoryPool.{
  MemoryPool, fill, address, size_mod, create, allocate, deallocate, reset, num_free,
}
use cache_flow.MemoryPool.Slots.{is_slot, times-fill, length-fill, is_slot-le, slot_index}

abbrev pub slot_of : MemoryPool → ℕ → ℕ
slot_of m x = is_slot x m.num_blocks (address m.base) m.block_size_bytes

-- `used` says how often an address is lent out.
abbrev pub Lends : (ℕ → ℕ) → MemoryPool → Type 0
Lends used m = (x : ℕ) → times x m.free_stack + used x ≡ slot_of m x

abbrev pub lend : ℕ → (ℕ → ℕ) → ℕ → ℕ
lend p used x = (if x == p then 1 else 0) + used x

abbrev pub give_back : ℕ → (ℕ → ℕ) → ℕ → ℕ
give_back p used x = if x == p then used x - 1 else used x

-- The slots lie within the address space.
abbrev pub Fits : MemoryPool → Type 0
Fits m = address m.base + m.num_blocks * m.block_size_bytes ≤ size_mod

-- After a reset every slot is free, once, and none is lent.
pub reset-Lends :
    (m : MemoryPool)
    → Fits m
    → 0 < m.block_size_bytes
    → Lends (λ x. 0) (reset m) × (num_free (reset m) ≡ m.num_blocks)
unfolding reset num_free times
reset-Lends m fits z = (
  λ x. omega (arith, times-fill x m.num_blocks (address m.base) m.block_size_bytes [] fits z),
  omega (arith, length-fill m.num_blocks (address m.base) m.block_size_bytes []),
)

-- A pool whose size in bytes, modulo 2^64, is not 0 and for which there is memory of its size is
-- created, with every slot free, once, and none lent.
pub create-Lends :
    (size n : ℕ) (d : DeviceType) (p : ℕ)
    → (size * n) % size_mod ≢ 0
    → p + n * size ≤ size_mod
    → 0 < size
    → (m : MemoryPool) × (create size n d (some p) ≡ some m) × Lends (λ x. 0) m × (num_free m ≡ n)
unfolding create num_free times
create-Lends size n d p h fits z = (
  record {
    block_size_bytes = size;
    num_blocks = n;
    device = d;
    base = some p;
    free_stack = fill n p size [];
  },
  ground arith,
  λ x. omega (arith, times-fill x n p size [] fits z),
  omega (arith, length-fill n p size []),
)

-- What an allocation comes to that finds the free stack not empty.
pub record Lent (used : ℕ → ℕ) (m : MemoryPool) : Type 0 where
  pub after : MemoryPool
  pub ptr : ℕ
  pub index : ℕ
  pub runs : allocate m ≡ (after, some ptr)
  pub unused : used ptr ≡ 0
  pub in_pool : index < m.num_blocks
  pub aligned : ptr ≡ address m.base + index * m.block_size_bytes
  pub lends : Lends (lend ptr used) after
  pub fewer : num_free m ≡ suc (num_free after)

module _ (used : ℕ → ℕ) (m : MemoryPool) (v : Lends used m) where
  pop_slot :
      (p : ℕ) (rest : List ℕ) → 0 < m.block_size_bytes → m.free_stack ≡ p ∷ rest → Lent used m
  unfolding allocate times num_free
  pop_slot p rest z e =
      let one : times p m.free_stack ≡ 1 + times p rest = ap (times p) e ∙ ground arith in
      let (i, lt, eq) =
        slot_index p m.num_blocks (address m.base) m.block_size_bytes (omega (arith, v p, one)) in
      record {
        after = record m { free_stack = rest };
        ptr = p;
        index = i;
        runs = rw (e, allocate);
        unused =
            omega
              (arith, v p, one, is_slot-le p m.num_blocks (address m.base) m.block_size_bytes z);
        in_pool = lt;
        aligned = eq;
        lends = λ x. omega (arith, v x, ap (times x) e);
        fewer = ap length e;
      }

  -- An allocation that succeeds gives a slot, the address of a whole block of the pool, that was
  -- not lent, and lends it; one fails only on an empty stack, and changes nothing.
  pub allocate-Lent :
      0 < m.block_size_bytes → ((m.free_stack ≡ []) × (allocate m ≡ (m, none))) ⊎ Lent used m
  unfolding allocate
  allocate-Lent z = elim (List-cases m.free_stack) [
    | inl e ↦ inl (e, ground arith)
    | inr (p, rest, e) ↦ inr (pop_slot p rest z e)
  ]

  -- A slot that is given back is free again.
  pub deallocate-Lends : (p : ℕ) → used p ≢ 0 → Lends (give_back p used) (deallocate m (some p))
  unfolding deallocate times
  deallocate-Lends p h x = ground (arith, v x)
