-- ===== src/Tree/Tests.antt =====
-- A trie with the prefixes 1 and 11, and the theorems at it.
use pofswitch.Base.{
  ℕ, ◌+◌, ◌-◌, ◌^◌, ◌≡◌, refl, Bool, true, false, none, some, List, [], ◌∷◌, arith, if◌then◌else◌,
  ◌&&◌, u32,
}
use pofswitch.Field.Bits.{bit_at, IsBytes, are_bytes-IsBytes}
use pofswitch.Tree.{
  Tree, null, node, node_insert, node_delete, node_lookup, node_lookup_at, is_null, move_bytes,
  move_left, to_left,
}
use pofswitch.Tree.Longest.{longest, node_lookup-longest}
use pofswitch.Tree.Paths.{ptr_at, path_of, same_path}
use pofswitch.Tree.Removal.{node_delete-removes}
use pofswitch.Tree.Walk.{node_insert-writes}

-- The entry 4 at the prefix 1 and the entry 5 at the prefix 11.
abbrev two_prefixes : Tree
two_prefixes = record {
  root = node none null (node (some 4) null (node (some 5) null null));
  count = 2;
}

abbrev value : List ℕ
value = 0xc0 ∷ []

value-IsBytes : IsBytes value
value-IsBytes = are_bytes-IsBytes value refl

node_lookup_test : node_lookup two_prefixes value 8 ≡ some (some 5)
unfolding node_lookup node_lookup_at move_left move_bytes to_left
node_lookup_test = refl

node_lookup-longest_example :
    node_lookup two_prefixes value 8
    ≡ some (longest (ptr_at two_prefixes.root) (path_of (bit_at value) 8) none)
node_lookup-longest_example =
    node_lookup-longest two_prefixes value 8 value-IsBytes (omega arith) (omega arith) (omega arith)
      (omega arith)

node_insert-writes_example :
    (t' : Tree) × (ok : Bool) × (node_insert (λ i. true) two_prefixes 6 value 3 ≡ some (t', ok))
    × ((q : List Bool)
        → ptr_at t'.root q ≡ (
            if ok && same_path q (path_of (bit_at value) 3)
            then some 6
            else ptr_at two_prefixes.root q))
    × (is_null t'.root ≡ false)
    × (t'.count ≡ (if ok then u32 3 else 2))
    × (((i : ℕ) → true ≡ true) → ok ≡ true)
node_insert-writes_example =
    node_insert-writes (λ i. true) two_prefixes 6 value 3 value-IsBytes (omega arith) (omega arith)
      refl

node_delete-removes_example :
    (t' : Tree) × (ok : Bool) × (node_delete two_prefixes value 2 ≡ some (t', ok))
    × ((q : List Bool)
        → ptr_at t'.root q
          ≡ (if same_path q (path_of (bit_at value) 2) then none else ptr_at two_prefixes.root q))
    × (is_null t'.root ≡ false)
    × (t'.count ≡ (if ok then u32 (2 + 2 ^ 32 - 1) else 2))
node_delete-removes_example =
    node_delete-removes two_prefixes value 2 value-IsBytes (omega arith) (omega arith) refl
