-- ===== src/Hmap/Traverse.antt =====
-- The traversal of common/pof_hmap.c while its nodes are deleted.
use pofswitch.Base.{
  ℕ, zero, suc, ◌+◌, ◌%◌, ◌^◌, ◌<◌, ◌≡◌, refl, sym, ap, ◌∙◌, Option, none, some, List, [], ◌∷◌,
  arith, get_or, set, ==-refl,
}
use pofswitch.Hmap.{
  Node, Hmap, first_from, next_in, node_first, node_next, node_delete, node_get_with_hash,
  find_hash, unlink, contains_addr, bucket_id,
}
use pofswitch.Hmap.Invariant.{IsHmap, total, bucket_id-mod}

module _ {A : Type 0} where
  pub first_from-total : (bs : List (List (Node A))) → total bs ≡ 0 → first_from 0 bs ≡ none
  unfolding first_from
  first_from-total [] e = refl
  first_from-total ([] ∷ bs) e = first_from-total bs (omega arith)
  first_from-total ((x ∷ xs) ∷ bs) e = absurd (omega arith)

  pub total-empty : (bs : List (List (Node A))) (i : ℕ) → total bs ≡ 0 → get_or bs i [] ≡ []
  total-empty [] i e = refl
  total-empty ([] ∷ bs) zero e = refl
  total-empty ([] ∷ bs) (suc i) e = total-empty bs i (omega arith)
  total-empty ((x ∷ xs) ∷ bs) i e = absurd (omega arith)

  -- The head of a chain, or what comes after it.
  abbrev pub head_or : List (Node A) → Option (Node A) → Option (Node A)
  head_or [] o = o
  head_or (x ∷ xs) o = some x

  record IsFirst (bs : List (List (Node A))) : Type 0 where
    i : ℕ
    x : Node A
    xs : List (Node A)
    first : first_from 0 bs ≡ some x
    chain : get_or bs i [] ≡ x ∷ xs
    after : (c : List (Node A)) → first_from 0 (set bs i c) ≡ head_or c (first_from (suc i) bs)

  IsFirst-exists : (bs : List (List (Node A))) → 0 < total bs → IsFirst bs
  unfolding first_from
  IsFirst-exists [] h = absurd (omega arith)
  IsFirst-exists ([] ∷ bs) h =
      let f = IsFirst-exists bs (omega arith) in
      record { i = suc f.i; x = f.x; xs = f.xs; first = f.first; chain = f.chain; after = f.after }
  IsFirst-exists ((x ∷ xs) ∷ bs) h = record {
    i = 0;
    x = x;
    xs = xs;
    first = refl;
    chain = refl;
    after = at_head;
  }
    where
      at_head : (c : List (Node A)) → first_from 0 (c ∷ bs) ≡ head_or c (first_from 0 bs)
      at_head [] = refl
      at_head (y ∷ ys) = refl

  pub next_of_head :
      (x : Node A) (xs : List (Node A)) (o : Option (Node A))
      → elim (next_in x.addr (x ∷ xs)) [ some y ↦ some y | none ↦ o ] ≡ head_or xs o
  unfolding next_in
  next_of_head x [] o = refl
  next_of_head x (y ∷ ys) o = rw (==-refl x.addr) refl

  next_known :
      (map : Hmap A) (x : Node A) (xs : List (Node A)) (i : ℕ)
      → bucket_id map x.hash ≡ i
      → get_or map.buckets i [] ≡ x ∷ xs
      → node_next map x ≡ head_or xs (first_from (suc i) map.buckets)
  unfolding node_next
  next_known map x xs i here chain =
      let next : ℕ → List (Node A) → Option (Node A) = λ j c. elim (next_in x.addr c) [
        | some y ↦ some y
        | none ↦ first_from (j + 1) map.buckets
      ] in
      ap (λ j. next j (get_or map.buckets j [])) here
      ∙ ap (next i) chain
      ∙ next_of_head x xs (first_from (i + 1) map.buckets)
      ∙ ap (λ j. head_or xs (first_from j map.buckets)) {x = i + 1} {y = suc i} (omega arith)

  pub record IsDeletable (map : Hmap A) : Type 0 where
    pub node : Node A
    pub first : node_first map ≡ some node
    pub found : node_get_with_hash map node.hash ≡ some node
    pub next : node_next map node ≡ node_first (node_delete map node)

  -- A map that obeys its invariant and is not empty has a first node: a lookup of its hash finds it,
  -- and the node that follows it is the first one of the map that its removal leaves.
  pub first-IsDeletable : (k : ℕ) (map : Hmap A) → IsHmap k map → 0 < map.n → IsDeletable map
  unfolding node_first node_next node_delete node_get_with_hash find_hash unlink contains_addr
  first-IsDeletable k map v h =
      let f = IsFirst-exists map.buckets (omega (arith, v.counted)) in
      let placed : f.x.hash % 2 ^ k ≡ f.i = (rw f.chain at (v.placed f.i)).0 in
      let here : bucket_id map f.x.hash ≡ f.i = bucket_id-mod v f.x.hash ∙ placed in
      record {
        node = f.x;
        first = f.first;
        found = rw (here, f.chain, ==-refl f.x.hash) refl;
        next =
            next_known map f.x f.xs f.i here f.chain
            ∙ sym (f.after f.xs)
            ∙ sym (rw (here, f.chain, ==-refl f.x.addr) refl);
      }
