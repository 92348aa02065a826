-- ===== src/BlockManager/Accounts.antt =====
-- The books of a block manager: every reference count is the number of times that sequences own
-- the block, and the references that callers took with `increment_ref`.
use cache_flow.Base.{List, ◌+◌, ◌≡◌, refl, arith, if◌then◌else◌, subst, fun_ext, length}
use cache_flow.Base.Assoc.{IsMap}
use cache_flow.Common.{BlockId, SeqId, DeviceType, cpu, cuda, same_device}
use cache_flow.BlockManager.{Arena, Owned, BlockManager, arena_for, set_arena}
use cache_flow.BlockManager.Refs.{count_map}
use cache_flow.BlockManager.Balance.{Refs, IsBalanced}

-- `ext` counts the references of callers.
abbrev pub held : Refs → BlockManager → Refs
held ext bm d id = count_map d id bm.seq_block_map + ext d id

pub record Accounts (ext : Refs) (bm : BlockManager) : Type 0 where
  pub map : IsMap bm.seq_block_map
  pub balanced : IsBalanced (held ext bm) bm

-- What no operation changes.
pub record IsSame (bm bm' : BlockManager) : Type 0 where
  pub config : bm'.config ≡ bm.config
  pub model_config : bm'.model_config ≡ bm.model_config
  pub gpu_total : length bm'.gpu.blocks ≡ length bm.gpu.blocks
  pub cpu_total : length bm'.cpu.blocks ≡ length bm.cpu.blocks

pub IsSame-refl : (bm : BlockManager) → IsSame bm bm
IsSame-refl bm = record { config = refl; model_config = refl; gpu_total = refl; cpu_total = refl }

pub IsSame-trans : (a b c : BlockManager) → IsSame a b → IsSame b c → IsSame a c
IsSame-trans a b c h k = ground arith

pub set_arena-IsSame :
    (d : DeviceType) (a : Arena) (bm : BlockManager)
    → length a.blocks ≡ length (arena_for d bm).blocks
    → IsSame bm (set_arena d a bm)
set_arena-IsSame cpu a bm h = record {
  config = refl;
  model_config = refl;
  gpu_total = refl;
  cpu_total = h;
}
set_arena-IsSame cuda a bm h = record {
  config = refl;
  model_config = refl;
  gpu_total = h;
  cpu_total = refl;
}

pub map-set_arena :
    (d : DeviceType) (a : Arena) (bm : BlockManager)
    → (set_arena d a bm).seq_block_map ≡ bm.seq_block_map
map-set_arena cpu a bm = refl
map-set_arena cuda a bm = refl

pub arena_for-set_arena :
    (d e : DeviceType) (a : Arena) (bm : BlockManager)
    → arena_for e (set_arena d a bm) ≡ (if same_device d e then a else arena_for e bm)
arena_for-set_arena cpu cpu a bm = refl
arena_for-set_arena cpu cuda a bm = refl
arena_for-set_arena cuda cpu a bm = refl
arena_for-set_arena cuda cuda a bm = refl

-- Books that agree at every block are the same books.
pub IsBalanced-ext :
    (refs refs' : Refs) (bm : BlockManager)
    → ((d : DeviceType) (id : BlockId) → refs d id ≡ refs' d id)
    → IsBalanced refs bm
    → IsBalanced refs' bm
IsBalanced-ext refs refs' bm h =
    subst (λ (q : Refs). IsBalanced q bm) (fun_ext (λ d. fun_ext (h d)))

-- The owner map is no part of the blocks.
pub set_map-IsBalanced :
    (refs : Refs) (bm : BlockManager) (m : List (SeqId × List Owned))
    → IsBalanced refs bm
    → IsBalanced refs (record bm { seq_block_map = m })
set_map-IsBalanced refs bm m v cpu = v cpu
set_map-IsBalanced refs bm m v cuda = v cuda
