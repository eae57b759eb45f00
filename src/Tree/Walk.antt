-- ===== src/Tree/Walk.antt =====
-- `tree_nodeInsert` of common/pof_tree.c on the table that the trie stands for.
use pofswitch.Base.{
  u32, ◌+◌, ℕ, zero, suc, ◌*◌, ◌^◌, ◌≤◌, ◌<◌, ◌≡◌, refl, ap, ◌∙◌, Bool, true, false, Option, none,
  some, List, [], ◌∷◌, arith, length, ◌==◌, ◌&&◌, if◌then◌else◌, Option-cases, inl, inr,
}
use pofswitch.Field.Bits.{bit_at, IsBytes}
use pofswitch.Tree.{
  Tree, node_insert, TreeNode, null, node, node_insert_at, with_son, son, or_create, node_create,
  is_null,
}
use pofswitch.Tree.Bits.{move_left-IsMoved, to_left-bit_at}
use pofswitch.Tree.Paths.{ptr_at, same_path, path_of, path_of_ext, ptr_at-or_create}

-- What an insertion of an entry at a path leaves, with the value that it returned.
abbrev inserted : Bool → ℕ → List Bool → TreeNode → List Bool → Option ℕ
inserted ok ptr path t q = if ok && same_path q path then some ptr else ptr_at t q

-- The son below the turn `b` was changed as it should be, so the node is.
with_son-inserted :
    (b ok : Bool) (ptr : ℕ) (path : List Bool) (p : Option ℕ) (l r child : TreeNode)
    → ((q : List Bool) → ptr_at child q ≡ inserted ok ptr path (son b l r) q)
    → (q : List Bool)
    → ptr_at (with_son b p l r (child, ok)).0 q ≡ inserted ok ptr (b ∷ path) (node p l r) q
with_son-inserted true ok ptr path p l r child h [] = ground arith
with_son-inserted true ok ptr path p l r child h (true ∷ q) = h q
with_son-inserted true ok ptr path p l r child h (false ∷ q) = ground arith
with_son-inserted false ok ptr path p l r child h [] = ground arith
with_son-inserted false ok ptr path p l r child h (true ∷ q) = ground arith
with_son-inserted false ok ptr path p l r child h (false ∷ q) = h q

record IsInserted (ptr : ℕ) (path : List Bool) (t t' : TreeNode) (ok : Bool) : Type 0 where
  ptrs : (q : List Bool) → ptr_at t' q ≡ inserted ok ptr path t q
  stands : is_null t' ≡ false

pub with_son-pair :
    (b : Bool) (p : Option ℕ) (l r child : TreeNode) (ok : Bool)
    → with_son b p l r (child, ok) ≡ ((with_son b p l r (child, ok)).0, ok)
with_son-pair true p l r child ok = refl
with_son-pair false p l r child ok = refl

pub with_son-stands :
    (b : Bool) (p : Option ℕ) (l r child : TreeNode) (ok : Bool)
    → is_null (with_son b p l r (child, ok)).0 ≡ false
with_son-stands true p l r child ok = refl
with_son-stands false p l r child ok = refl

inserted_son :
    (ok : Bool) (ptr : ℕ) (path path' q : List Bool) (t next child : TreeNode)
    → ptr_at child q ≡ inserted ok ptr path next q
    → ptr_at next q ≡ ptr_at t q
    → path ≡ path'
    → ptr_at child q ≡ inserted ok ptr path' t q
inserted_son ok ptr path path' q t next child h e f =
    h
    ∙ ap (λ a. if ok && same_path q path then some ptr else a) e
    ∙ ap (λ a. inserted ok ptr a t q) f

or_create-stands :
    (alloc : Bool) (t next : TreeNode) → or_create alloc t ≡ some next → is_null next ≡ false
or_create-stands alloc (node p l r) next e = ap is_null {x = next} {y = node p l r} (ground arith)
or_create-stands true null next e = ap is_null {x = next} {y = node_create} (ground arith)
or_create-stands false null next e = cc

no_son : (alloc : Bool) (t : TreeNode) → alloc ≡ true → ¬ (or_create alloc t ≡ none)
no_son alloc (node p l r) a e = cc
no_son true null a e = cc
no_son false null a e = cc

-- At the end of the path the entry is written.
here :
    (ptr : ℕ) (p : Option ℕ) (l r : TreeNode) (q : List Bool)
    → ptr_at (node (some ptr) l r) q ≡ inserted true ptr [] (node p l r) q
here ptr p l r [] = refl
here ptr p l r (true ∷ q) = refl
here ptr p l r (false ∷ q) = refl

module _ (alloc : ℕ → Bool) (ptr : ℕ) where
  insert_at-IsInserted :
      (n : ℕ) (v : List ℕ) (t : TreeNode)
      → IsBytes v
      → n ≤ 8 * length v
      → n + 7 < 2 ^ 32
      → is_null t ≡ false
      → (t' : TreeNode) × (ok : Bool) × (node_insert_at alloc n ptr v t ≡ some (t', ok))
        × IsInserted ptr (path_of (bit_at v) n) t t' ok
        × (((i : ℕ) → alloc i ≡ true) → ok ≡ true)
  unfolding node_insert_at
  insert_at-IsInserted n v null b h w e = cc
  insert_at-IsInserted zero v (node p l r) b h w e =
      (node (some ptr) l r, true, refl, record { ptrs = here ptr p l r; stands = refl }, λ _. refl)
  insert_at-IsInserted (suc n) v (node p l r) b h w e =
      let (moved, moves, m) = move_left-IsMoved n v b h w in
      let left = bit_at v 0 == 0 in
      let turns = to_left-bit_at v b (omega arith) in
      let rest : path_of (bit_at moved) n ≡ path_of (λ j. bit_at v (suc j)) n =
        path_of_ext n (bit_at moved) (λ j. bit_at v (suc j)) m.bits in
      elim (Option-cases (or_create (alloc n) (son left l r))) [
        | inl none_left ↦ (
          node p l r,
          false,
          rw (turns, moves, none_left) refl,
          record { ptrs = λ q. refl; stands = refl },
          λ given. absurd (no_son (alloc n) (son left l r) (given n) none_left),
        )
        | inr (next, some_next) ↦
            let (child, ok, runs, i, total) =
              insert_at-IsInserted n moved next m.keeps_bytes (omega (arith, m.same_length))
                (omega arith) (or_create-stands (alloc n) (son left l r) next some_next) in
            (
              (with_son left p l r (child, ok)).0,
              ok,
              rw (turns, moves, some_next, runs, with_son-pair left p l r child ok) refl,
              record {
                ptrs = with_son-inserted left ok ptr _ p l r child (λ q.
                    inserted_son ok ptr _ _ q _ next child (i.ptrs q)
                      (ptr_at-or_create (alloc n) (son left l r) next q some_next) rest);
                stands = with_son-stands left p l r child ok;
              },
              total,
            )
      ]

-- On a trie with a root and a value that holds all the bits, less than 2 ^ 32 - 7, `tree_nodeInsert` reads in bounds.
-- Where it returns POF_OK the bit string has the new entry and the count has risen by one
-- (wrapping); every other bit string, and all of them where it fails, has the entry it had. It
-- returns POF_OK if memory is given at every step.
pub node_insert-writes :
    (alloc : ℕ → Bool) (t : Tree) (ptr : ℕ) (v : List ℕ) (n : ℕ)
    → IsBytes v
    → n ≤ 8 * length v
    → n + 7 < 2 ^ 32
    → is_null t.root ≡ false
    → (t' : Tree) × (ok : Bool) × (node_insert alloc t ptr v n ≡ some (t', ok))
      × ((q : List Bool)
          → ptr_at t'.root q
            ≡ (if ok && same_path q (path_of (bit_at v) n) then some ptr else ptr_at t.root q))
      × (is_null t'.root ≡ false)
      × (t'.count ≡ (if ok then u32 (t.count + 1) else t.count))
      × (((i : ℕ) → alloc i ≡ true) → ok ≡ true)
unfolding node_insert
node_insert-writes alloc t ptr v n b h w e =
    let (root', ok, runs, i, total) = insert_at-IsInserted alloc ptr n v t.root b h w e in
    (_, ok, rw runs refl, i.ptrs, i.stands, refl, total)
