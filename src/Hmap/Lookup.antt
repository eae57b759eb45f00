-- ===== src/Hmap/Lookup.antt =====
-- Insertion, removal and in place change of common/pof_hmap.c, as seen by a lookup.
use pofswitch.Base.{
  ℕ, ◌+◌, ◌%◌, ◌^◌, ◌<◌, ◌≡◌, refl, sym, ap, ◌∙◌, true, none, some, List, [], ◌∷◌, arith, length,
  get_or, ◌==◌, if◌then◌else◌, length-set,
}
use pofswitch.Hmap.{
  Node, Hmap, find_hash, unlink, contains_addr, update_chain, node_get_with_hash, node_insert,
  node_delete, node_write, bucket_id,
}
use pofswitch.Hmap.Chain.{
  All, DistinctAddrs, DistinctHashes, find_hash-hash, find_hash_absent, contains_addr-find_hash,
  length-unlink, All-unlink, DistinctAddrs-unlink, DistinctHashes-unlink, find_hash-unlink,
  find_hash-update_chain, length-update_chain, All-update_chain, DistinctAddrs-update_chain,
  DistinctHashes-update_chain,
}
use pofswitch.Hmap.Invariant.{
  IsHmap, IsKeyed, IsFresh, total-set, set_all, get_after, get_same_bucket, bucket_id-mod,
  bucket_id-lt,
}

module _ {A : Type 0} where
  -- On a map that obeys its invariant, after an insertion a hash finds the new node, and every other hash what it found before.
  pub get-insert :
      (k h : ℕ) (map : Hmap A) (node : Node A)
      → IsHmap k map
      → node_get_with_hash (node_insert map node) h
        ≡ (if node.hash == h then some node else node_get_with_hash map h)
  get-insert k h map node v =
      get_after k h node.hash map (node_insert map node)
        (node ∷ get_or map.buckets (bucket_id map node.hash) []) v (unfold node_insert in refl)
        (unfold node_insert in refl)
      ∙ unfold find_hash in
        ground
          (arith, ap (λ t. t % 2 ^ k) {x = node.hash} {y = h}, get_same_bucket k h node.hash map v)

  -- An insertion at a new address, where the number of nodes does not wrap, keeps the invariant of the
  -- map.
  pub insert-IsHmap :
      (k : ℕ) (map : Hmap A) (node : Node A)
      → IsHmap k map
      → IsFresh node.addr map
      → map.n + 1 < 2 ^ 32
      → IsHmap k (node_insert map node)
  unfolding node_insert
  insert-IsHmap k map node v fresh room =
      let i = bucket_id map node.hash in
      let c = node ∷ get_or map.buckets i [] in
      let below = bucket_id-lt v node.hash in
      record {
        masked = v.masked;
        sized = length-set map.buckets i c ∙ v.sized;
        placed =
            set_all (λ j. All (λ x. x.hash % 2 ^ k ≡ j)) map.buckets i c below
              (sym (bucket_id-mod v node.hash), v.placed i) v.placed;
        addrs = set_all (λ j. DistinctAddrs) map.buckets i c below (fresh i, v.addrs i) v.addrs;
        counted = omega (arith, v.counted, total-set map.buckets i c below);
      }

  pub insert-IsKeyed :
      (k : ℕ) (map : Hmap A) (node : Node A)
      → IsHmap k map
      → IsKeyed map
      → node_get_with_hash map node.hash ≡ none
      → IsKeyed (node_insert map node)
  unfolding node_insert node_get_with_hash
  insert-IsKeyed k map node v keyed new =
      let i = bucket_id map node.hash in
      set_all (λ j. DistinctHashes) map.buckets i (node ∷ get_or map.buckets i [])
        (bucket_id-lt v node.hash) (find_hash_absent node.hash _ new, keyed i) keyed

  -- What a lookup finds lies in the bucket that its hash selects.
  module _ (k h : ℕ) (map : Hmap A) (node : Node A) (v : IsHmap k map)
      (found : node_get_with_hash map h ≡ some node) where
    pub get-hash : node.hash ≡ h
    unfolding node_get_with_hash
    get-hash = find_hash-hash h (get_or map.buckets (bucket_id map h) []) node found

    abbrev chain : List (Node A)
    chain = get_or map.buckets (bucket_id map node.hash) []

    found_here : find_hash h chain ≡ some node
    found_here = get_same_bucket k h node.hash map v (ap (λ t. t % 2 ^ k) get-hash) ∙ found

    present : contains_addr node.addr chain ≡ true
    present = contains_addr-find_hash h chain node found_here

    -- On a map that obeys its invariant and has one node to a hash, after the removal of the node that
    -- a hash finds, that hash finds nothing and every other hash what it found before.
    pub get-delete :
        (g : ℕ)
        → IsKeyed map
        → node_get_with_hash (node_delete map node) g
          ≡ (if h == g then none else node_get_with_hash map g)
    get-delete g keyed =
        get_after k g node.hash map (node_delete map node) (unlink node.addr chain) v
          (unfold node_delete in rw present) (unfold node_delete in rw present)
        ∙ ground (
          arith,
          get-hash,
          find_hash-unlink h g chain node (v.addrs _) (keyed _) found_here,
          get_same_bucket k g node.hash map v,
          ap (λ t. t % 2 ^ k) {x = h} {y = g},
        )

    length-unlinked : length (unlink node.addr chain) + 1 ≡ length chain
    length-unlinked = length-unlink node.addr chain present

    -- On a map whose number of nodes is below 2 ^ 32, the removal of the node that a hash finds keeps
    -- the invariant of the map.
    pub delete-IsHmap : map.n < 2 ^ 32 → IsHmap k (node_delete map node)
    unfolding node_delete
    delete-IsHmap room =
        let i = bucket_id map node.hash in
        let c = unlink node.addr chain in
        let below = bucket_id-lt v node.hash in
        rw present (record {
          masked = v.masked;
          sized = length-set map.buckets i c ∙ v.sized;
          placed =
              set_all (λ j. All (λ x. x.hash % 2 ^ k ≡ j)) map.buckets i c below
                (All-unlink (λ x. x.hash % 2 ^ k ≡ i) node.addr chain (v.placed i)) v.placed;
          addrs =
              set_all (λ j. DistinctAddrs) map.buckets i c below
                (DistinctAddrs-unlink node.addr chain (v.addrs i)) v.addrs;
          counted = omega (arith, v.counted, total-set map.buckets i c below, length-unlinked);
        })

    pub delete-IsKeyed : IsKeyed map → IsKeyed (node_delete map node)
    unfolding node_delete
    delete-IsKeyed keyed =
        let i = bucket_id map node.hash in
        rw present (
          set_all (λ j. DistinctHashes) map.buckets i (unlink node.addr chain)
            (bucket_id-lt v node.hash) (DistinctHashes-unlink node.addr chain (keyed i)) keyed)

    pub n-delete : map.n < 2 ^ 32 → (node_delete map node).n + 1 ≡ map.n
    unfolding node_delete
    n-delete room =
        let i = bucket_id map node.hash in
        rw present (
          omega (
            arith,
            v.counted,
            total-set map.buckets i [] (bucket_id-lt v node.hash),
            length-unlinked,
          ))

    -- On a map that obeys its invariant, after a store through the node that a hash finds, the hash finds the new structure.
    pub get-write :
        (g : ℕ) (o : A)
        → node_get_with_hash (node_write map node o) g
          ≡ (if h == g then some (record node { obj = o }) else node_get_with_hash map g)
    get-write g o =
        get_after k g node.hash map (node_write map node o) (update_chain node.addr o chain) v
          (unfold node_write in refl) (unfold node_write in refl)
        ∙ ground (
          arith,
          get-hash,
          find_hash-update_chain h g o chain node (v.addrs _) found_here,
          get_same_bucket k g node.hash map v,
          ap (λ t. t % 2 ^ k) {x = h} {y = g},
        )

    pub write-IsHmap : (o : A) → IsHmap k (node_write map node o)
    unfolding node_write
    write-IsHmap o =
        let i = bucket_id map node.hash in
        let c = update_chain node.addr o chain in
        let below = bucket_id-lt v node.hash in
        record {
          masked = v.masked;
          sized = length-set map.buckets i c ∙ v.sized;
          placed =
              set_all (λ j. All (λ x. x.hash % 2 ^ k ≡ j)) map.buckets i c below
                (All-update_chain (λ _ g. g % 2 ^ k ≡ i) node.addr o chain (v.placed i)) v.placed;
          addrs =
              set_all (λ j. DistinctAddrs) map.buckets i c below
                (DistinctAddrs-update_chain node.addr o chain (v.addrs i)) v.addrs;
          counted = omega (
            arith,
            v.counted,
            total-set map.buckets i c below,
            length-update_chain node.addr o chain,
          );
        }

    pub write-IsKeyed : (o : A) → IsKeyed map → IsKeyed (node_write map node o)
    unfolding node_write
    write-IsKeyed o keyed =
        let i = bucket_id map node.hash in
        set_all (λ j. DistinctHashes) map.buckets i (update_chain node.addr o chain)
          (bucket_id-lt v node.hash) (DistinctHashes-update_chain node.addr o chain (keyed i)) keyed
