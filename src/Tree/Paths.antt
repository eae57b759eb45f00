-- ===== src/Tree/Paths.antt =====
-- The trie as a table from bit strings to entries, `true` for a left turn.
use pofswitch.Base.{
  ℕ, zero, suc, ◌<◌, ◌≡◌, refl, ap, ◌∙◌, Bool, true, false, Option, none, some, List, [], ◌∷◌,
  arith, ◌==◌, ◌&&◌,
}
use mathlib.Core.Path.{ap₂}
use pofswitch.Tree.{TreeNode, null, node, node_create, or_create}

abbrev pub ptr_at : TreeNode → List Bool → Option ℕ
ptr_at null q = none
ptr_at (node p l r) [] = p
ptr_at (node p l r) (true ∷ q) = ptr_at l q
ptr_at (node p l r) (false ∷ q) = ptr_at r q

abbrev pub same_turn : Bool → Bool → Bool
same_turn true b = b
same_turn false true = false
same_turn false false = true

abbrev pub same_path : List Bool → List Bool → Bool
same_path [] [] = true
same_path [] (b ∷ q) = false
same_path (a ∷ p) [] = false
same_path (a ∷ p) (b ∷ q) = same_turn a b && same_path p q

-- The turns that the first `n` bits of a stream stand for: a zero goes left.
abbrev pub path_of : (ℕ → ℕ) → ℕ → List Bool
path_of f zero = []
path_of f (suc n) = (f 0 == 0) ∷ path_of (λ j. f (suc j)) n

pub path_of_ext : (n : ℕ) (f g : ℕ → ℕ) → ((j : ℕ) → j < n → f j ≡ g j) → path_of f n ≡ path_of g n
path_of_ext zero f g h = refl
path_of_ext (suc n) f g h =
    ap₂ ◌∷◌ (ap (λ t. t == 0) (h 0 (omega arith)))
      (path_of_ext n (λ j. f (suc j)) (λ j. g (suc j)) (λ j l. h (suc j) (omega arith)))

pub ptr_at-node_create : (q : List Bool) → ptr_at node_create q ≡ none
ptr_at-node_create [] = refl
ptr_at-node_create (true ∷ q) = refl
ptr_at-node_create (false ∷ q) = refl

-- A son that is created on the way holds no entry.
pub ptr_at-or_create :
    (alloc : Bool) (t : TreeNode) (next : TreeNode) (q : List Bool)
    → or_create alloc t ≡ some next
    → ptr_at next q ≡ ptr_at t q
ptr_at-or_create alloc (node p l r) next q e =
    ap (λ t. ptr_at t q) {x = next} {y = node p l r} (ground arith)
ptr_at-or_create true null next q e =
    ap (λ t. ptr_at t q) {x = next} {y = node_create} (ground arith) ∙ ptr_at-node_create q
ptr_at-or_create false null next q e = cc
