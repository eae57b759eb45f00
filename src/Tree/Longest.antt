-- ===== src/Tree/Longest.antt =====
-- `tree_nodeLookup` of common/pof_tree.c and the longest prefix of a path in a table.
use pofswitch.Base.{
  ℕ, zero, suc, ◌+◌, ◌-◌, ◌*◌, ◌^◌, ◌≤◌, ◌<◌, ◌≡◌, refl, ap, ◌∙◌, max, Bool, true, false, Option,
  none, some, List, [], ◌∷◌, arith, length, ◌==◌, u32,
}
use pofswitch.Field.Bits.{bit_at, IsBytes}
use pofswitch.Tree.{
  TreeNode, null, node, Tree, node_lookup_at, node_lookup, or_else, move_left, move_bytes,
}
use pofswitch.Tree.Bits.{move_left-IsMoved, to_left-bit_at}
use pofswitch.Tree.Paths.{ptr_at, path_of, path_of_ext}

-- The entry that a table has for the longest prefix of a path that has one, `ptr` if none has.
abbrev pub longest : (List Bool → Option ℕ) → List Bool → Option ℕ → Option ℕ
longest f [] ptr = or_else (f []) ptr
longest f (b ∷ q) ptr = longest (λ p. f (b ∷ p)) q (or_else (f []) ptr)

abbrev pub height : TreeNode → ℕ
height null = 0
height (node p l r) = suc (max (height l) (height r))

longest-null : (q : List Bool) (ptr : Option ℕ) → ptr ≡ longest (λ p. none) q ptr
longest-null [] ptr = refl
longest-null (b ∷ q) ptr = longest-null q ptr

no_bits : (v : List ℕ) → move_left v 0 ≡ some v
unfolding move_left move_bytes
no_bits v = refl

turn :
    (left : Bool) (p : Option ℕ) (l r : TreeNode) (q : List Bool) (ptr : Option ℕ)
    (on_left on_right : Option (Option ℕ))
    → on_left ≡ some (longest (ptr_at l) q ptr)
    → on_right ≡ some (longest (ptr_at r) q ptr)
    → elim left [ true ↦ on_left | false ↦ on_right ]
      ≡ some (longest (λ z. ptr_at (node p l r) (left ∷ z)) q ptr)
turn true p l r q ptr on_left on_right e f = e
turn false p l r q ptr on_left on_right e f = f

lookup_at-longest :
    (t : TreeNode) (v : List ℕ) (n : ℕ) (ptr : Option ℕ)
    → IsBytes v
    → 0 < length v
    → n ≤ 8 * length v
    → n + 7 < 2 ^ 32
    → height t ≤ n + 1
    → node_lookup_at t v n ptr ≡ some (longest (ptr_at t) (path_of (bit_at v) n) ptr)
unfolding node_lookup_at
lookup_at-longest null v n ptr b nonempty h w s = ap some (longest-null (path_of (bit_at v) n) ptr)
lookup_at-longest (node p (node a c d) r) v zero ptr b nonempty h w s = absurd (omega arith)
lookup_at-longest (node p null (node a c d)) v zero ptr b nonempty h w s = absurd (omega arith)
lookup_at-longest (node p null null) v zero ptr b nonempty h w s =
    rw (to_left-bit_at v b nonempty, no_bits v) (either (bit_at v 0 == 0))
  where
    either :
        (left : Bool)
        → elim left [ true ↦ some (or_else p ptr) | false ↦ some (or_else p ptr) ]
          ≡ some (or_else p ptr)
    either true = refl
    either false = refl
lookup_at-longest (node p l r) v (suc n) ptr b nonempty h w s =
    let (moved, moves, m) = move_left-IsMoved n v b h w in
    let rest : path_of (bit_at moved) n ≡ path_of (λ j. bit_at v (suc j)) n =
      path_of_ext n (bit_at moved) (λ j. bit_at v (suc j)) m.bits in
    let falls : u32 (suc n + 2 ^ 32 - 1) ≡ n = omega arith in
    let go : (t : TreeNode)
        → height t ≤ n + 1
        → node_lookup_at t moved n (or_else p ptr)
          ≡ some (longest (ptr_at t) (path_of (bit_at moved) n) (or_else p ptr))
        → node_lookup_at t moved (u32 (suc n + 2 ^ 32 - 1)) (or_else p ptr)
          ≡ some (longest (ptr_at t) (path_of (λ j. bit_at v (suc j)) n) (or_else p ptr)) =
      λ t low found.
        ap (λ m. node_lookup_at t moved m (or_else p ptr)) falls
        ∙ found
        ∙ ap (λ q. some (longest (ptr_at t) q (or_else p ptr))) rest in
    rw (to_left-bit_at v b nonempty, moves)
      (turn (bit_at v 0 == 0) p l r (path_of (λ j. bit_at v (suc j)) n) (or_else p ptr) _ _
        (go l (omega arith) (
          lookup_at-longest l moved n (or_else p ptr) m.keeps_bytes (omega (arith, m.same_length))
            (omega (arith, m.same_length)) (omega arith) (omega arith)))
        (go r (omega arith) (
          lookup_at-longest r moved n (or_else p ptr) m.keeps_bytes (omega (arith, m.same_length))
            (omega (arith, m.same_length)) (omega arith) (omega arith))))

-- On a trie of at most one level more than the value has bits, less than 2 ^ 32 - 7 of them,
-- `tree_nodeLookup` of a non-empty value reads in bounds and returns the entry that the trie has for the longest prefix of the
-- value that has one, and NULL if none has.
pub node_lookup-longest :
    (t : Tree) (v : List ℕ) (n : ℕ)
    → IsBytes v
    → 0 < length v
    → n ≤ 8 * length v
    → n + 7 < 2 ^ 32
    → height t.root ≤ n + 1
    → node_lookup t v n ≡ some (longest (ptr_at t.root) (path_of (bit_at v) n) none)
unfolding node_lookup
node_lookup-longest t v n b nonempty h w s = lookup_at-longest t.root v n none b nonempty h w s
