-- ===== src/PrefixCache/Books.antt =====
-- `insert` with the books of the block manager: it runs, and takes references of its own.
use cache_flow.Base.{
  length, Bool, ℕ, suc, ◌≤◌, ◌≡◌, ◌≢◌, List, [], ◌∷◌, Option, some, if◌then◌else◌,
}
use cache_flow.Common.{TokenId, BlockId, DeviceType, cuda, is_invalid}
use cache_flow.BlockManager.{BlockManager}
use cache_flow.BlockManager.Balance.{Refs, at_device, more}
use cache_flow.BlockManager.Accounts.{Accounts, held}
use cache_flow.PrefixCache.{PrefixCache, PrefixTrieNode, data_of, ends_block, Inserted}

-- References only ever come on top.
abbrev pub Grows : Refs → BlockManager → Refs → BlockManager → Type 0
Grows ext bm ext' bm' = (d : DeviceType) (id : BlockId) → held ext bm d id ≤ held ext' bm' d id

-- Blocks of the GPU that somebody holds.
abbrev pub IsHeld : Refs → BlockManager → BlockId → Type 0
IsHeld ext bm id = held ext bm cuda id ≢ 0

-- The blocks that the cache takes a reference of: the block that is offered for the end of a block
-- of tokens, where the path had none; `has` is the block of a path.
pub taken : (size i : ℕ) → List TokenId → List BlockId → (List TokenId → BlockId) → List BlockId
taken size i [] bs has = []
taken size i (t ∷ ts) [] has = []
taken size i (t ∷ ts) (b ∷ bs) has =
    let inside : List BlockId = taken size (suc i) ts (b ∷ bs) (λ q. has (t ∷ q)) in
    let further : List BlockId = taken size (suc i) ts bs (λ q. has (t ∷ q)) in
    if ends_block size i then if is_invalid (has (t ∷ [])) then b ∷ further else further else inside

-- One more reference of each block.
pub with_refs : List BlockId → Refs → Refs
with_refs [] ext = ext
with_refs (b ∷ bs) ext = with_refs bs (at_device cuda (more b) ext)

-- A manager with its books after a call.
record Books (ext refs : Refs) (bm : BlockManager) (o : Option BlockManager) : Type 0 where
  after : BlockManager
  runs : o ≡ some after
  accounts : Accounts refs after
  grows : Grows ext bm refs after

-- The references after the node of the last token of a block.
abbrev filled_refs : BlockId → PrefixTrieNode → Refs → Refs
filled_refs b n ext = if is_invalid (data_of n).block_id then at_device cuda (more b) ext else ext

-- A walk that returns, and takes the references of `blocks`.
record Walks (ext : Refs) (bm : BlockManager) (blocks : List BlockId) (o : Option Inserted)
    : Type 0 where
  after : Inserted
  runs : o ≡ some after
  accounts : Accounts (with_refs blocks ext) after.manager
  grows : Grows ext bm (with_refs blocks ext) after.manager
  added : after.added ≡ length blocks

-- The block that is taken at the end of a block of tokens, and those after it.
taken_here : Bool → BlockId → List BlockId → List BlockId
taken_here free b rest = if free then b ∷ rest else rest
