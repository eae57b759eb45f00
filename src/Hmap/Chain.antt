-- ===== src/Hmap/Chain.antt =====
-- The chains of the map: `find_hash`, `unlink` and `update_chain` on one list of nodes.
use pofswitch.Base.{
  ℕ, ◌+◌, ◌≡◌, ◌≢◌, refl, inl, inr, true, false, none, some, List, [], ◌∷◌, arith, length, ◌==◌,
  if◌then◌else◌, Bool-cases, ==_iff,
}
use mathlib.Core.Path.{subst}
use pofswitch.Hmap.{Node, find_hash, unlink, contains_addr, update_chain}

module _ {A : Type 0} where
  abbrev pub All : (Node A → Type 0) → List (Node A) → Type 0
  All P [] = Unit {0}
  All P (x ∷ xs) = P x × All P xs

  -- No two nodes of a chain have one address.
  abbrev pub DistinctAddrs : List (Node A) → Type 0
  DistinctAddrs [] = Unit {0}
  DistinctAddrs (x ∷ xs) = All (λ y. y.addr ≢ x.addr) xs × DistinctAddrs xs

  -- No two nodes of a chain have one hash.
  abbrev pub DistinctHashes : List (Node A) → Type 0
  DistinctHashes [] = Unit {0}
  DistinctHashes (x ∷ xs) = All (λ y. y.hash ≢ x.hash) xs × DistinctHashes xs

  pub find_hash-All :
      (P : Node A → Type 0) (h : ℕ) (xs : List (Node A)) (node : Node A)
      → All P xs
      → find_hash h xs ≡ some node
      → P node
  unfolding find_hash
  find_hash-All P h [] node a e = cc
  find_hash-All P h (x ∷ xs) node a e = elim (Bool-cases (x.hash == h)) [
    | inl t ↦ subst P (ground arith) a.0
    | inr f ↦ find_hash-All P h xs node a.1 (ground arith)
  ]

  pub find_hash-hash :
      (h : ℕ) (xs : List (Node A)) (node : Node A) → find_hash h xs ≡ some node → node.hash ≡ h
  unfolding find_hash
  find_hash-hash h [] node e = cc
  find_hash-hash h (x ∷ xs) node e = ground (arith, find_hash-hash h xs node)

  pub find_hash-none :
      (h : ℕ) (xs : List (Node A)) → All (λ y. y.hash ≢ h) xs → find_hash h xs ≡ none
  unfolding find_hash
  find_hash-none h [] a = refl
  find_hash-none h (x ∷ xs) a = ground (arith, find_hash-none h xs a.1, ==_iff x.hash h)

  pub find_hash_absent :
      (h : ℕ) (xs : List (Node A)) → find_hash h xs ≡ none → All (λ y. y.hash ≢ h) xs
  unfolding find_hash
  find_hash_absent h [] e = tt
  find_hash_absent h (x ∷ xs) e = ground (arith, find_hash_absent h xs)

  pub contains_addr-find_hash :
      (h : ℕ) (xs : List (Node A)) (node : Node A)
      → find_hash h xs ≡ some node
      → contains_addr node.addr xs ≡ true
  unfolding find_hash contains_addr
  contains_addr-find_hash h [] node e = cc
  contains_addr-find_hash h (x ∷ xs) node e = ground (arith, contains_addr-find_hash h xs node)

  pub length-unlink :
      (a : ℕ) (xs : List (Node A))
      → contains_addr a xs ≡ true
      → length (unlink a xs) + 1 ≡ length xs
  unfolding unlink contains_addr
  length-unlink a [] e = cc
  length-unlink a (x ∷ xs) e = ground (arith, length-unlink a xs)

  pub All-unlink :
      (P : Node A → Type 0) (a : ℕ) (xs : List (Node A)) → All P xs → All P (unlink a xs)
  unfolding unlink
  All-unlink P a [] h = tt
  All-unlink P a (x ∷ xs) h =
      elim (x.addr == a) as (λ b. All P (if b then xs else x ∷ unlink a xs)) [
        | true ↦ h.1
        | false ↦ (h.0, All-unlink P a xs h.1)
      ]

  pub DistinctAddrs-unlink :
      (a : ℕ) (xs : List (Node A)) → DistinctAddrs xs → DistinctAddrs (unlink a xs)
  unfolding unlink
  DistinctAddrs-unlink a [] h = tt
  DistinctAddrs-unlink a (x ∷ xs) h =
      elim (x.addr == a) as (λ b. DistinctAddrs (if b then xs else x ∷ unlink a xs)) [
        | true ↦ h.1
        | false ↦ (All-unlink (λ y. y.addr ≢ x.addr) a xs h.0, DistinctAddrs-unlink a xs h.1)
      ]

  pub DistinctHashes-unlink :
      (a : ℕ) (xs : List (Node A)) → DistinctHashes xs → DistinctHashes (unlink a xs)
  unfolding unlink
  DistinctHashes-unlink a [] h = tt
  DistinctHashes-unlink a (x ∷ xs) h =
      elim (x.addr == a) as (λ b. DistinctHashes (if b then xs else x ∷ unlink a xs)) [
        | true ↦ h.1
        | false ↦ (All-unlink (λ y. y.hash ≢ x.hash) a xs h.0, DistinctHashes-unlink a xs h.1)
      ]

  -- Unlinking what a hash finds takes that hash out and leaves the others.
  pub find_hash-unlink :
      (h k : ℕ) (xs : List (Node A)) (node : Node A)
      → DistinctAddrs xs
      → DistinctHashes xs
      → find_hash h xs ≡ some node
      → find_hash k (unlink node.addr xs) ≡ (if h == k then none else find_hash k xs)
  unfolding find_hash unlink
  find_hash-unlink h k [] node da dh e = cc
  find_hash-unlink h k (x ∷ xs) node da dh e = elim (Bool-cases (x.hash == h)) [
    | inl t ↦ ground (arith, find_hash-none x.hash xs dh.0)
    | inr f ↦
        let there : find_hash h xs ≡ some node = ground arith in
        let other : node.addr ≢ x.addr =
          find_hash-All (λ y. y.addr ≢ x.addr) h xs node da.0 there in
        ground (arith, find_hash-unlink h k xs node da.1 dh.1 there)
  ]

  pub find_hash-update_chain :
      (h k : ℕ) (o : A) (xs : List (Node A)) (node : Node A)
      → DistinctAddrs xs
      → find_hash h xs ≡ some node
      → find_hash k (update_chain node.addr o xs)
        ≡ (if h == k then some (record node { obj = o }) else find_hash k xs)
  unfolding find_hash update_chain
  find_hash-update_chain h k o [] node da e = cc
  find_hash-update_chain h k o (x ∷ xs) node da e = elim (Bool-cases (x.hash == h)) [
    | inl t ↦ ground arith
    | inr f ↦
        let there : find_hash h xs ≡ some node = ground arith in
        let other : node.addr ≢ x.addr =
          find_hash-All (λ y. y.addr ≢ x.addr) h xs node da.0 there in
        ground (arith, find_hash-update_chain h k o xs node da.1 there)
  ]

  pub length-update_chain :
      (a : ℕ) (o : A) (xs : List (Node A)) → length (update_chain a o xs) ≡ length xs
  unfolding update_chain
  length-update_chain a o [] = refl
  length-update_chain a o (x ∷ xs) = ground (arith, length-update_chain a o xs)

  -- A store to a structure changes neither addresses nor hashes.
  pub All-update_chain :
      (P : ℕ → ℕ → Type 0) (a : ℕ) (o : A) (xs : List (Node A))
      → All (λ x. P x.addr x.hash) xs
      → All (λ x. P x.addr x.hash) (update_chain a o xs)
  unfolding update_chain
  All-update_chain P a o [] h = tt
  All-update_chain P a o (x ∷ xs) h =
      elim (x.addr == a)
        as (λ b.
          All (λ x. P x.addr x.hash)
            (if b then record x { obj = o } ∷ xs else x ∷ update_chain a o xs)) [
              | true ↦ h
              | false ↦ (h.0, All-update_chain P a o xs h.1)
            ]

  pub DistinctAddrs-update_chain :
      (a : ℕ) (o : A) (xs : List (Node A)) → DistinctAddrs xs → DistinctAddrs (update_chain a o xs)
  unfolding update_chain
  DistinctAddrs-update_chain a o [] h = tt
  DistinctAddrs-update_chain a o (x ∷ xs) h =
      elim (x.addr == a)
        as (λ b. DistinctAddrs (if b then record x { obj = o } ∷ xs else x ∷ update_chain a o xs)) [
          | true ↦ h
          | false ↦ (
            All-update_chain (λ b _. b ≢ x.addr) a o xs h.0,
            DistinctAddrs-update_chain a o xs h.1,
          )
        ]

  pub DistinctHashes-update_chain :
      (a : ℕ) (o : A) (xs : List (Node A))
      → DistinctHashes xs
      → DistinctHashes (update_chain a o xs)
  unfolding update_chain
  DistinctHashes-update_chain a o [] h = tt
  DistinctHashes-update_chain a o (x ∷ xs) h =
      elim (x.addr == a)
        as (λ b.
          DistinctHashes (if b then record x { obj = o } ∷ xs else x ∷ update_chain a o xs)) [
            | true ↦ h
            | false ↦ (
              All-update_chain (λ _ b. b ≢ x.hash) a o xs h.0,
              DistinctHashes-update_chain a o xs h.1,
            )
          ]
