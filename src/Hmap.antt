-- ===== src/Hmap.antt =====
-- common/pof_hmap.c: the intrusive hash map in which the switch keeps all its resources.
-- A node is the address of its structure, its hash and the structure that it is embedded in; a
-- bucket is the chain of its nodes in order. Pointers are compared by `addr`.
pub mod Size
pub mod Chain
pub mod Invariant
pub mod Lookup
pub mod Traverse
pub mod Visit
mod Tests
use pofswitch.Base.{
  ℕ, zero, suc, ◌+◌, ◌-◌, ◌*◌, ◌/◌, ◌^◌, Bool, true, false, Option, none, some, List, [], ◌∷◌, ◌++◌,
  ◌==◌, ◌&&◌, if◌then◌else◌, get_or, set, replicate, u32, ◌>>◌, bit_and, bit_or,
}

pub record Node (A : Type 0) : Type 0 where
  pub addr : ℕ
  pub hash : ℕ
  pub obj : A

pub record Hmap (A : Type 0) : Type 0 where
  pub buckets : List (List (Node A))
  pub mask : ℕ
  pub n : ℕ

-- `size |= size >> 1 ... size |= size >> 16`, after `size = size >> 1`.
pub smear : ℕ → ℕ → ℕ
smear size k = bit_or size (size >> k)

unfoldable pub buckets_num : ℕ → ℕ
unfolding smear
buckets_num size = let s = size >> 1 in u32 (smear (smear (smear (smear (smear s 1) 2) 4) 8) 16 + 1)

module _ {A : Type 0} where
  -- Whether each of the two allocations succeeds is the caller's argument.
  pub init : Bool → ℕ → Option (Hmap A)
  init false bkt_size = none
  init true bkt_size = some (record { buckets = replicate bkt_size []; mask = bkt_size - 1; n = 0 })

  unfoldable pub create : Bool → Bool → ℕ → Option (Hmap A)
  unfolding init
  create false buckets_ok size = none
  create true buckets_ok size = init buckets_ok (buckets_num size)

  pub clear_buckets : List (List (Node A)) → List (List (Node A))
  clear_buckets [] = []
  clear_buckets (b ∷ bs) = [] ∷ clear_buckets bs

  unfoldable pub clear : Hmap A → Hmap A
  unfolding clear_buckets
  clear map = record map { buckets = clear_buckets map.buckets; n = 0 }

  pub empty : Hmap A → Bool
  empty map = map.n == 0

  pub nodes_count_max : Hmap A → ℕ
  nodes_count_max map = u32 (2 * map.mask + 1)

  abbrev pub bucket_id : Hmap A → ℕ → ℕ
  bucket_id map hash = bit_and map.mask hash

  abbrev pub bucket_with_hash : Hmap A → ℕ → List (Node A)
  bucket_with_hash map hash = get_or map.buckets (bucket_id map hash) []

  unfoldable pub find_hash : ℕ → List (Node A) → Option (Node A)
  find_hash h [] = none
  find_hash h (x ∷ xs) = if x.hash == h then some x else find_hash h xs

  unfoldable pub node_get_with_hash : Hmap A → ℕ → Option (Node A)
  unfolding find_hash
  node_get_with_hash map hash = find_hash hash (bucket_with_hash map hash)

  pub node_pos_bkt_id : Hmap A → Node A → ℕ
  node_pos_bkt_id map node = bucket_id map node.hash

  -- The place of an address in a chain; `none` is the POF_ERROR at the end of the chain.
  pub depth_of : ℕ → List (Node A) → ℕ → Option ℕ
  depth_of a [] deep = none
  depth_of a (x ∷ xs) deep = if x.addr == a then some deep else depth_of a xs (deep + 1)

  pub node_pos_deep : Hmap A → Node A → Option ℕ
  unfolding depth_of
  node_pos_deep map node = depth_of node.addr (bucket_with_hash map node.hash) 0

  -- `node->next` of the node at an address.
  unfoldable pub next_in : ℕ → List (Node A) → Option (Node A)
  next_in a [] = none
  next_in a (x ∷ []) = none
  next_in a (x ∷ y ∷ xs) = if x.addr == a then some y else next_in a (y ∷ xs)

  -- `BUCKETS_TRAVERSE` from a bucket on, for the first one with a node.
  unfoldable pub first_from : ℕ → List (List (Node A)) → Option (Node A)
  first_from start [] = none
  first_from (suc start) (b ∷ bs) = first_from start bs
  first_from zero ([] ∷ bs) = first_from zero bs
  first_from zero ((x ∷ xs) ∷ bs) = some x

  unfoldable pub node_first : Hmap A → Option (Node A)
  unfolding first_from
  node_first map = first_from 0 map.buckets

  unfoldable pub node_next : Hmap A → Node A → Option (Node A)
  unfolding next_in first_from
  node_next map node = elim (next_in node.addr (bucket_with_hash map node.hash)) [
    | some y ↦ some y
    | none ↦ first_from (bucket_id map node.hash + 1) map.buckets
  ]

  unfoldable pub node_insert : Hmap A → Node A → Hmap A
  node_insert map node =
      let i = bucket_id map node.hash in
      record map {
        buckets = set map.buckets i (node ∷ get_or map.buckets i []);
        n = u32 (map.n + 1);
      }

  unfoldable pub contains_addr : ℕ → List (Node A) → Bool
  contains_addr a [] = false
  contains_addr a (x ∷ xs) = if x.addr == a then true else contains_addr a xs

  unfoldable pub unlink : ℕ → List (Node A) → List (Node A)
  unlink a [] = []
  unlink a (x ∷ xs) = if x.addr == a then xs else x ∷ unlink a xs

  unfoldable pub node_delete : Hmap A → Node A → Hmap A
  unfolding contains_addr unlink
  node_delete map node =
      let i = bucket_id map node.hash in
      let chain = get_or map.buckets i [] in
      if contains_addr node.addr chain
      then record map {
        buckets = set map.buckets i (unlink node.addr chain);
        n = u32 (map.n + 2 ^ 32 - 1);
      }
      else map

  pub node_contain : Hmap A → Node A → Bool
  unfolding contains_addr
  node_contain map node = contains_addr node.addr (bucket_with_hash map node.hash)

  -- A store through the pointer to the structure that a node is embedded in; it leaves the hash.
  unfoldable pub update_chain : ℕ → A → List (Node A) → List (Node A)
  update_chain a o [] = []
  update_chain a o (x ∷ xs) =
      if x.addr == a then record x { obj = o } ∷ xs else x ∷ update_chain a o xs

  unfoldable pub node_write : Hmap A → Node A → A → Hmap A
  unfolding update_chain
  node_write map node o =
      let i = bucket_id map node.hash in
      record map {
        buckets = set map.buckets i (update_chain node.addr o (get_or map.buckets i []));
      }

-- `HMAP_NODES_IN_STRUCT_TRAVERSE`: the next node is read before the body runs, in the state that
-- the body is about to change. `map` finds the hash map in the state.
module _ {A S : Type 0} (map : S → Hmap A) (body : S → Node A → S) where
  unfoldable pub traverse_from : ℕ → Option (Node A) → S → S
  traverse_from zero x s = s
  traverse_from (suc fuel) none s = s
  traverse_from (suc fuel) (some node) s = traverse_from fuel (node_next (map s) node) (body s node)

  -- There are at most `n` nodes to visit.
  unfoldable pub traverse : S → S
  unfolding traverse_from node_first
  traverse s = traverse_from ((map s).n + 1) (node_first (map s)) s
