-- ===== src/Decode/Slots.antt =====
-- The slot of an entry is the place of its position in its block.
use native.Mathlib.Nat.{mod-lt}
use cache_flow.Base.{ℕ, ◌+◌, ◌*◌, ◌/◌, ◌%◌, ◌<◌, ◌≡◌, Option, some, get_elem?, ◌∙◌, sym}
use cache_flow.Base.Digits.{digits}
use cache_flow.Base.Int.{ℤ, pos}
use cache_flow.BatchManager.{Entry}
use cache_flow.Decode.{slot, slot_at}

-- An entry at position `p` whose block there is `n`.
pub record IsPlaced (size : ℕ) (e : Entry) (p n : ℕ) : Type 0 where
  pub at : e.position ≡ pos p
  pub block : get_elem? e.block_table (p / size) ≡ some (pos n)

pub slot-IsPlaced :
    (size : ℕ) (e : Entry) (p n : ℕ)
    → IsPlaced size e p n
    → slot size e ≡ some (some (pos (n * size + p % size)))
unfolding slot slot_at
slot-IsPlaced size e p n h = rw (h.at, h.block, slot_at)

-- Two entries that are placed in blocks of the pool get the same slot only if they have the same
-- block and the same offset in it.
pub slot-injective :
    (size : ℕ) (e f : Entry) (p q m n : ℕ)
    → 0 < size
    → IsPlaced size e p m
    → IsPlaced size f q n
    → slot size e ≡ slot size f
    → (m ≡ n) × (p % size ≡ q % size)
slot-injective size e f p q m n z h k same =
    let places : ◌≡◌ {A = Option (Option ℤ)} (some (some (pos (m * size + p % size))))
        (some (some (pos (n * size + q % size)))) =
      sym (slot-IsPlaced size e p m h) ∙ same ∙ slot-IsPlaced size f q n k in
    digits size m n (p % size) (q % size) (mod-lt p z) (mod-lt q z) (cc places)
