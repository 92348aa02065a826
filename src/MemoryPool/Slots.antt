-- ===== src/MemoryPool/Slots.antt =====
-- The slots of a pool: the addresses that the constructor and `reset` put on the free stack.
use native.Mathlib.Nat.{mul-div_cancel, mod-eq_of_lt}
use cache_flow.Base.Count.{times}
use cache_flow.Base.{
  ◌≢◌, ◌∙◌, ℕ, zero, suc, ◌+◌, ◌-◌, ◌*◌, ◌%◌, ◌^◌, ◌≤◌, ◌<◌, ◌≡◌, refl, List, ◌∷◌, arith, length,
  ◌==◌, if◌then◌else◌, Bool-cases, inl, inr,
}
use cache_flow.Base.Int.{pos, to_int32_small}
use cache_flow.MemoryPool.{MemoryPool, fill, address, size_mod, ptr_to_block_id, block_id_to_ptr}

-- Whether an address is one of the first `n` slots.
unfoldable pub is_slot : ℕ → ℕ → ℕ → ℕ → ℕ
is_slot x zero base size = 0
is_slot x (suc i) base size = (if x == base + i * size then 1 else 0) + is_slot x i base size

pub times-fill :
    (x n base size : ℕ) (stack : List ℕ)
    → base + n * size ≤ size_mod
    → 0 < size
    → times x (fill n base size stack) ≡ is_slot x n base size + times x stack
unfolding times fill is_slot
times-fill x zero base size stack fits z = omega arith
times-fill x (suc i) base size stack fits z =
    let whole : (base + i * size) % size_mod ≡ base + i * size =
      mod-eq_of_lt (grind (arith, fits, z)) in
    times-fill x i base size (((base + i * size) % size_mod) ∷ stack) (grind (arith, fits)) z
    ∙ ground (arith, whole)

pub length-fill :
    (n base size : ℕ) (stack : List ℕ) → length (fill n base size stack) ≡ n + length stack
unfolding fill
length-fill zero base size stack = omega arith
length-fill (suc i) base size stack =
    omega (arith, length-fill i base size (((base + i * size) % size_mod) ∷ stack))

slot_above : (x n base size : ℕ) → base + n * size ≤ x → 0 < size → is_slot x n base size ≡ 0
unfolding is_slot
slot_above x zero base size h z = refl
slot_above x (suc i) base size h z = ground (arith, slot_above x i base size)

-- No address is two slots.
pub is_slot-le : (x n base size : ℕ) → 0 < size → is_slot x n base size ≤ 1
unfolding is_slot
is_slot-le x zero base size z = omega arith
is_slot-le x (suc i) base size z =
    ground (arith, slot_above x i base size, is_slot-le x i base size z)

-- A slot is a whole number of blocks from the base, and lies below the end of the pool.
pub slot_index :
    (x n base size : ℕ) → is_slot x n base size ≢ 0 → (i : ℕ) × (i < n) × (x ≡ base + i * size)
unfolding is_slot
slot_index x zero base size h = absurd (h refl)
slot_index x (suc i) base size h = elim (Bool-cases (x == base + i * size)) [
  | inl e ↦ (i, omega arith, ground arith)
  | inr e ↦ let (j, lt, eq) = slot_index x i base size (ground arith) in (j, omega arith, eq)
]

-- A block id and the address of its slot determine one another, in a pool that lies within the
-- address space and whose ids are `int32_t`.
pub ptr_to_block_id-block_id_to_ptr :
    (m : MemoryPool) (i : ℕ)
    → 0 < m.block_size_bytes
    → i < 2 ^ 31
    → address m.base + i * m.block_size_bytes < 2 ^ 64
    → ptr_to_block_id m (block_id_to_ptr m (pos i)) ≡ pos i
unfolding ptr_to_block_id block_id_to_ptr
ptr_to_block_id-block_id_to_ptr m i z small fits =
    let off : ((address m.base + i * m.block_size_bytes) % size_mod + size_mod - address m.base)
          % size_mod
        ≡ i * m.block_size_bytes =
      omega arith in
    rw off (rw (mul-div_cancel i z) (to_int32_small i small))
