-- ===== src/Tree/Removal.antt =====
-- `tree_nodeDelete` of common/pof_tree.c on the table that the trie stands for.
use pofswitch.Base.{
  ℕ, zero, suc, ◌*◌, ◌≤◌, ◌<◌, ◌≡◌, refl, ap, ◌∙◌, Bool, true, false, not, Option, none, some, List,
  [], ◌∷◌, arith, length, ◌==◌, ◌&&◌, if◌then◌else◌, u32, ◌+◌, ◌-◌, ◌^◌,
}
use pofswitch.Field.Bits.{bit_at, IsBytes}
use pofswitch.Tree.{
  TreeNode, null, node, Tree, node_delete_at, node_delete, with_son, son, is_null, is_leaf,
}
use pofswitch.Tree.Bits.{move_left-IsMoved, to_left-bit_at}
use pofswitch.Tree.Paths.{ptr_at, same_path, path_of, path_of_ext}
use pofswitch.Tree.Walk.{with_son-pair, with_son-stands}

abbrev removed : List Bool → TreeNode → List Bool → Option ℕ
removed path t q = if same_path q path then none else ptr_at t q

with_son-removed :
    (b ok : Bool) (path : List Bool) (p : Option ℕ) (l r child : TreeNode)
    → ((q : List Bool) → ptr_at child q ≡ removed path (son b l r) q)
    → (q : List Bool)
    → ptr_at (with_son b p l r (child, ok)).0 q ≡ removed (b ∷ path) (node p l r) q
with_son-removed true ok path p l r child h [] = refl
with_son-removed true ok path p l r child h (true ∷ q) = h q
with_son-removed true ok path p l r child h (false ∷ q) = refl
with_son-removed false ok path p l r child h [] = refl
with_son-removed false ok path p l r child h (true ∷ q) = refl
with_son-removed false ok path p l r child h (false ∷ q) = h q

-- The node at the end of the path: a leaf other than the root is freed, another loses its entry.
ended :
    (is_root : Bool) (p : Option ℕ) (l r : TreeNode) (q : List Bool)
    → ptr_at (if is_leaf l r && not is_root then null else node none l r) q
      ≡ removed [] (node p l r) q
ended true p null null [] = refl
ended true p null null (true ∷ q) = refl
ended true p null null (false ∷ q) = refl
ended false p null null [] = refl
ended false p null null (true ∷ q) = refl
ended false p null null (false ∷ q) = refl
ended is_root p (node s u v) r [] = refl
ended is_root p (node s u v) r (true ∷ q) = refl
ended is_root p (node s u v) r (false ∷ q) = refl
ended is_root p null (node s u v) [] = refl
ended is_root p null (node s u v) (true ∷ q) = refl
ended is_root p null (node s u v) (false ∷ q) = refl

nothing : (path q : List Bool) → none ≡ removed path null q
nothing path q = ground arith

root_stands :
    (l r : TreeNode) → is_null (if is_leaf l r && false then null else node none l r) ≡ false
root_stands null null = refl
root_stands null (node p l r) = refl
root_stands (node p l r) t = refl

record IsRemoved (path : List Bool) (is_root : Bool) (t t' : TreeNode) : Type 0 where
  ptrs : (q : List Bool) → ptr_at t' q ≡ removed path t q
  stands : is_root ≡ true → is_null t' ≡ false

delete_at-IsRemoved :
    (is_root : Bool) (n : ℕ) (v : List ℕ) (t : TreeNode)
    → IsBytes v
    → n ≤ 8 * length v
    → n + 7 < 2 ^ 32
    → (is_root ≡ true → is_null t ≡ false)
    → (t' : TreeNode) × (ok : Bool) × (node_delete_at is_root n v t ≡ some (t', ok))
      × IsRemoved (path_of (bit_at v) n) is_root t t'
unfolding node_delete_at
delete_at-IsRemoved true n v null b h w e = let clash : true ≡ false = e refl in cc
delete_at-IsRemoved false n v null b h w e =
    (null, false, refl, record { ptrs = nothing (path_of (bit_at v) n); stands = λ a. cc })
delete_at-IsRemoved true zero v (node p l r) b h w e =
    (_, true, refl, record { ptrs = ended true p l r; stands = λ _. root_stands l r })
delete_at-IsRemoved false zero v (node p l r) b h w e =
    (_, true, refl, record { ptrs = ended false p l r; stands = λ a. cc })
delete_at-IsRemoved is_root (suc n) v (node p l r) b h w e =
    let (moved, moves, m) = move_left-IsMoved n v b h w in
    let left = bit_at v 0 == 0 in
    let turns = to_left-bit_at v b (omega arith) in
    let rest : path_of (bit_at moved) n ≡ path_of (λ j. bit_at v (suc j)) n =
      path_of_ext n (bit_at moved) (λ j. bit_at v (suc j)) m.bits in
    let (child, ok, runs, i) =
      delete_at-IsRemoved false n moved (son left l r) m.keeps_bytes (omega (arith, m.same_length))
        (omega arith) (λ a. cc) in
    (
      (with_son left p l r (child, ok)).0,
      ok,
      rw (turns, moves, runs, with_son-pair left p l r child ok) refl,
      record {
        ptrs =
            with_son-removed left ok _ p l r child
              (λ q. i.ptrs q ∙ ap (λ a. removed a (son left l r) q) rest);
        stands = λ _. with_son-stands left p l r child ok;
      },
    )

-- On a trie with a root and a value that holds all the bits, less than 2 ^ 32 - 7, `tree_nodeDelete` reads in bounds;
-- after it the bit string has no entry, every other bit string has the entry it had, the root
-- stands, and the count falls by one (wrapping) exactly where it returns POF_OK.
pub node_delete-removes :
    (t : Tree) (v : List ℕ) (n : ℕ)
    → IsBytes v
    → n ≤ 8 * length v
    → n + 7 < 2 ^ 32
    → is_null t.root ≡ false
    → (t' : Tree) × (ok : Bool) × (node_delete t v n ≡ some (t', ok))
      × ((q : List Bool)
          → ptr_at t'.root q
            ≡ (if same_path q (path_of (bit_at v) n) then none else ptr_at t.root q))
      × (is_null t'.root ≡ false)
      × (t'.count ≡ (if ok then u32 (t.count + 2 ^ 32 - 1) else t.count))
unfolding node_delete
node_delete-removes t v n b h w e =
    let (root', ok, runs, i) = delete_at-IsRemoved true n v t.root b h w (λ _. e) in
    (_, ok, rw runs refl, i.ptrs, i.stands refl, refl)
