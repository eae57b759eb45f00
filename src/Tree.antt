-- ===== src/Tree.antt =====
-- common/pof_tree.c: the binary trie in which an LPM table keeps its entries. `ptr` is the address
-- of an entry. A value is a buffer of bytes that the walk shifts left bit by bit; `none` is an
-- access through NULL or out of the buffer.
pub mod Bits
pub mod Paths
pub mod Walk
pub mod Removal
pub mod Longest
mod Tests
use pofswitch.Base.{
  ℕ, zero, suc, ◌+◌, ◌-◌, ◌*◌, ◌/◌, ◌^◌, Bool, true, false, not, Option, none, some, List, [], ◌∷◌,
  ◌==◌, ◌&&◌, if◌then◌else◌, ◌>>=◌, u8, u32, ◌<<◌, ◌>>◌, bit_and, bit_or,
}

pub data TreeNode : Type 0 where
  null : TreeNode
  node : Option ℕ → TreeNode → TreeNode → TreeNode

pub record Tree : Type 0 where
  pub root : TreeNode
  pub count : ℕ

-- A new node is zeroed by `memset`.
abbrev pub node_create : TreeNode
node_create = node none null null

unfoldable pub create : Bool → Bool → Option Tree
create true true = some (record { root = node_create; count = 0 })
create _ _ = none

-- `tree_nodeDestroy` reads the node; `none` is its read of NULL.
unfoldable pub node_destroy : TreeNode → Option TreeNode
node_destroy null = none
node_destroy (node p l r) = some null

-- `tree_destroy`, with the node that is left at the root.
unfoldable pub destroy : Option Tree → Option TreeNode
unfolding node_destroy
destroy none = none
destroy (some t) = node_destroy t.root

unfoldable pub clear : Tree → Tree
clear t = record { root = null; count = 0 }

-- The loop of `moveLeft` over the bytes that the rest of the value fills.
unfoldable pub move_bytes : ℕ → List ℕ → Option (List ℕ)
move_bytes zero v = some v
move_bytes (suc n) [] = none
move_bytes (suc zero) (x ∷ xs) = some (u8 (x << 1) ∷ xs)
move_bytes (suc (suc n)) (x ∷ []) = none
move_bytes (suc (suc n)) (x ∷ y ∷ xs) = do
  rest ← move_bytes (suc n) (y ∷ xs)
  some (u8 (bit_or (x << 1) (y >> 7)) ∷ rest)

-- The bytes that `moveLeft` writes. `POF_BITNUM_TO_BYTENUM_CEIL` adds in 32 bits, so that the seven
-- highest numbers of bits are no byte for it, and one less than that is the highest number.
abbrev pub bytes_to_move : ℕ → ℕ
bytes_to_move bit_num = let bytes = u32 (bit_num + 7) / 8 in if bytes == 0 then 2 ^ 32 else bytes

unfoldable pub move_left : List ℕ → ℕ → Option (List ℕ)
unfolding move_bytes
move_left v bit_num = if bit_num == 0 then some v else move_bytes (bytes_to_move bit_num) v

unfoldable pub to_left : List ℕ → Option Bool
to_left [] = none
to_left (x ∷ xs) = some (not (bit_and x 0x80 == 0x80))

abbrev pub is_null : TreeNode → Bool
is_null null = true
is_null (node p l r) = false

abbrev pub is_leaf : TreeNode → TreeNode → Bool
is_leaf l r = is_null l && is_null r

-- One step down: to the son on the side of the next bit.
abbrev pub with_son : Bool → Option ℕ → TreeNode → TreeNode → TreeNode × Bool → TreeNode × Bool
with_son true p l r (son, ok) = (node p son r, ok)
with_son false p l r (son, ok) = (node p l son, ok)

abbrev pub son : Bool → TreeNode → TreeNode → TreeNode
son true l r = l
son false l r = r

-- The node that the walk goes on from: an absent son is created, if `alloc` gives memory.
abbrev pub or_create : Bool → TreeNode → Option TreeNode
or_create alloc (node p l r) = some (node p l r)
or_create true null = some node_create
or_create false null = none

-- The walk of `tree_nodeInsert` below a node, with the new tree and whether it returned POF_OK.
-- `alloc n` tells whether memory is given for the node with `n` bits to go.
unfoldable pub node_insert_at : (ℕ → Bool) → ℕ → ℕ → List ℕ → TreeNode → Option (TreeNode × Bool)
unfolding to_left move_left
node_insert_at alloc bit_num ptr value null = none
node_insert_at alloc zero ptr value (node p l r) = some (node (some ptr) l r, true)
node_insert_at alloc (suc n) ptr value (node p l r) = do
  left ← to_left value
  moved ← move_left value (suc n)
  elim (or_create (alloc n) (son left l r)) [
    | none ↦ some (node p l r, false)
    | some next ↦ do below ← node_insert_at alloc n ptr moved next; some (with_son left p l r below)
  ]

unfoldable pub node_insert : (ℕ → Bool) → Tree → ℕ → List ℕ → ℕ → Option (Tree × Bool)
unfolding node_insert_at
node_insert alloc t ptr value bit_num = do
  (root', ok) ← node_insert_at alloc bit_num ptr value t.root
  some (record { root = root'; count = if ok then u32 (t.count + 1) else t.count }, ok)

-- The walk of `tree_nodeDelete`; the node that it ends at is freed if it is a leaf but not the root.
unfoldable pub node_delete_at : Bool → ℕ → List ℕ → TreeNode → Option (TreeNode × Bool)
unfolding to_left move_left
node_delete_at is_root bit_num value null = if is_root then none else some (null, false)
node_delete_at is_root zero value (node p l r) =
    some ((if is_leaf l r && not is_root then null else node none l r), true)
node_delete_at is_root (suc n) value (node p l r) = do
  left ← to_left value
  moved ← move_left value (suc n)
  below ← node_delete_at false n moved (son left l r)
  some (with_son left p l r below)

unfoldable pub node_delete : Tree → List ℕ → ℕ → Option (Tree × Bool)
unfolding node_delete_at
node_delete t value bit_num = do
  (root', ok) ← node_delete_at true bit_num value t.root
  some (record { root = root'; count = if ok then u32 (t.count + 2 ^ 32 - 1) else t.count }, ok)

abbrev pub or_else : Option ℕ → Option ℕ → Option ℕ
or_else (some p) q = some p
or_else none q = q

-- The loop of `tree_nodeLookup`: `bit_num` goes on falling, and wraps, below the last bit.
unfoldable pub node_lookup_at : TreeNode → List ℕ → ℕ → Option ℕ → Option (Option ℕ)
unfolding to_left move_left
node_lookup_at null value bit_num ptr = some ptr
node_lookup_at (node p l r) value bit_num ptr = do
  left ← to_left value
  moved ← move_left value bit_num
  elim left [
    | true ↦ node_lookup_at l moved (u32 (bit_num + 2 ^ 32 - 1)) (or_else p ptr)
    | false ↦ node_lookup_at r moved (u32 (bit_num + 2 ^ 32 - 1)) (or_else p ptr)
  ]

unfoldable pub node_lookup : Tree → List ℕ → ℕ → Option (Option ℕ)
unfolding node_lookup_at
node_lookup t value bit_num = node_lookup_at t.root value bit_num none
