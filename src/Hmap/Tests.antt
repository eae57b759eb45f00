-- ===== src/Hmap/Tests.antt =====
-- The hash map with four buckets and two nodes in one of them, and the theorems at that map.
use pofswitch.Base.{
  ◌+◌, ℕ, zero, suc, ◌^◌, ◌≡◌, refl, none, some, List, [], arith, ◌==◌, if◌then◌else◌, get_or,
  replicate, get_or-replicate,
}
use pofswitch.Hmap.Visit.{visit, flatten, traverse-visit}
use pofswitch.Hmap.{
  traverse, traverse_from, node_first, node_next, first_from, next_in, Node, Hmap, buckets_num,
  node_get_with_hash, node_insert, node_delete, node_write, find_hash,
}
use pofswitch.Hmap.Invariant.{IsHmap, IsKeyed, IsFresh}
use pofswitch.Hmap.Lookup.{get-insert, insert-IsHmap, insert-IsKeyed, get-delete, get-write}

abbrev no_nodes : Hmap ℕ
no_nodes = record { buckets = replicate (2 ^ 2) []; mask = 3; n = 0 }

abbrev first_node : Node ℕ
first_node = record { addr = 10; hash = 1; obj = 7 }

abbrev second_node : Node ℕ
second_node = record { addr = 20; hash = 5; obj = 8 }

one_node : Hmap ℕ
one_node = node_insert no_nodes first_node

two_nodes : Hmap ℕ
unfolding one_node
two_nodes = node_insert one_node second_node

empty_bucket : (i : ℕ) → ◌≡◌ {A = List (Node ℕ)} (get_or (replicate (2 ^ 2) []) i []) []
empty_bucket i = get_or-replicate (2 ^ 2) i []

no_nodes-IsHmap : IsHmap 2 no_nodes
no_nodes-IsHmap = record {
  masked = refl;
  sized = refl;
  placed = λ i. rw (empty_bucket i) tt;
  addrs = λ i. rw (empty_bucket i) tt;
  counted = refl;
}

no_nodes-IsKeyed : IsKeyed no_nodes
no_nodes-IsKeyed i = rw (empty_bucket i) tt

no_nodes-IsFresh : (a : ℕ) → IsFresh a no_nodes
no_nodes-IsFresh a i = rw (empty_bucket i) tt

one_node-IsHmap : IsHmap 2 one_node
unfolding one_node
one_node-IsHmap =
    insert-IsHmap 2 no_nodes first_node no_nodes-IsHmap (no_nodes-IsFresh 10) (omega arith)

one_node-IsFresh : IsFresh 20 one_node
unfolding one_node node_insert
one_node-IsFresh zero = tt
one_node-IsFresh (suc zero) = ((λ e. omega arith), tt)
one_node-IsFresh (suc (suc zero)) = tt
one_node-IsFresh (suc (suc (suc zero))) = tt
one_node-IsFresh (suc (suc (suc (suc i)))) = tt

one_node-n : one_node.n ≡ 1
unfolding one_node node_insert
one_node-n = refl

two_nodes-IsHmap : IsHmap 2 two_nodes
unfolding two_nodes
two_nodes-IsHmap =
    insert-IsHmap 2 one_node second_node one_node-IsHmap one_node-IsFresh
      (omega (arith, one_node-n))

two_nodes-IsKeyed : IsKeyed two_nodes
unfolding two_nodes one_node
two_nodes-IsKeyed =
    insert-IsKeyed 2 one_node second_node one_node-IsHmap
      (insert-IsKeyed 2 no_nodes first_node no_nodes-IsHmap no_nodes-IsKeyed found_none) no_second
  where
    found_none : node_get_with_hash no_nodes 1 ≡ none
    found_none = unfold node_get_with_hash find_hash in refl

    no_second : node_get_with_hash one_node 5 ≡ none
    no_second = unfold node_get_with_hash find_hash node_insert in refl

two_nodes-n : two_nodes.n ≡ 2
unfolding two_nodes one_node node_insert
two_nodes-n = refl

finds_first : node_get_with_hash two_nodes 1 ≡ some first_node
unfolding two_nodes one_node node_insert node_get_with_hash find_hash
finds_first = refl

buckets_num_test : buckets_num 1000 ≡ 512
unfolding buckets_num
buckets_num_test = refl

get-insert_example :
    node_get_with_hash (node_insert one_node second_node) 1
    ≡ (if 5 == 1 then some second_node else node_get_with_hash one_node 1)
get-insert_example = get-insert 2 1 one_node second_node one_node-IsHmap

get-delete_example :
    node_get_with_hash (node_delete two_nodes first_node) 5
    ≡ (if 1 == 5 then none else node_get_with_hash two_nodes 5)
get-delete_example =
    get-delete 2 1 two_nodes first_node two_nodes-IsHmap finds_first 5 two_nodes-IsKeyed

get-write_example :
    node_get_with_hash (node_write two_nodes first_node 9) 1
    ≡ (if 1 == 1 then some (record first_node { obj = 9 }) else node_get_with_hash two_nodes 1)
get-write_example = get-write 2 1 two_nodes first_node two_nodes-IsHmap finds_first 1 9

-- A body that adds up the structures.
abbrev add_up : Hmap ℕ × ℕ → Node ℕ → Hmap ℕ × ℕ
add_up (map, sum) node = (map, sum + node.obj)

add_up_test : (traverse (λ s. s.0) add_up (two_nodes, 0)).1 ≡ 15
unfolding traverse traverse_from node_first node_next first_from next_in two_nodes one_node
    node_insert
add_up_test = refl

traverse-visit_example :
    traverse (λ s. s.0) add_up (two_nodes, 0)
    ≡ visit add_up (flatten two_nodes.buckets) (two_nodes, 0)
traverse-visit_example =
    traverse-visit (λ s. s.0) add_up (λ (map, sum) node. refl) 2 (two_nodes, 0) two_nodes-IsHmap
