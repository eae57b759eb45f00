-- ===== src/Hmap/Visit.antt =====
-- The traversal of common/pof_hmap.c with a body that leaves the map alone.
use pofswitch.Base.{
  ℕ, zero, suc, ◌+◌, ◌%◌, ◌^◌, ◌<◌, ◌≡◌, ◌≢◌, refl, sym, ap, ◌∙◌, Option, none, some, List, [], ◌∷◌,
  ◌++◌, arith, length, length-append, get_or, ◌==◌, false, inl, inr, Option-cases,
}
use mathlib.Core.Path.{subst}
use pofswitch.Hmap.{Node, Hmap, first_from, next_in, node_first, node_next, traverse_from, traverse}
use pofswitch.Hmap.Chain.{All, DistinctAddrs}
use pofswitch.Hmap.Invariant.{IsHmap, total, bucket_id-mod}
use pofswitch.Hmap.Traverse.{head_or, next_of_head}

module _ {A : Type 0} where
  abbrev pub flatten : List (List (Node A)) → List (Node A)
  flatten [] = []
  flatten (b ∷ bs) = b ++ flatten bs

  -- The nodes of the buckets from one on.
  abbrev rest_from : ℕ → List (List (Node A)) → List (Node A)
  rest_from j [] = []
  rest_from zero (b ∷ bs) = b ++ flatten bs
  rest_from (suc j) (b ∷ bs) = rest_from j bs

  rest_from-zero : (bs : List (List (Node A))) → rest_from zero bs ≡ flatten bs
  rest_from-zero [] = refl
  rest_from-zero (b ∷ bs) = refl

  All-middle :
      (P : Node A → Type 0) (pre : List (Node A)) (x : Node A) (xs : List (Node A))
      → All P (pre ++ (x ∷ xs))
      → P x
  All-middle P [] x xs a = a.0
  All-middle P (p ∷ pre) x xs a = All-middle P pre x xs a.1

  next_in-append :
      (pre : List (Node A)) (x : Node A) (xs : List (Node A)) (o : Option (Node A))
      → DistinctAddrs (pre ++ (x ∷ xs))
      → elim (next_in x.addr (pre ++ (x ∷ xs))) [ some y ↦ some y | none ↦ o ] ≡ head_or xs o
  unfolding next_in
  next_in-append [] x xs o d = next_of_head x xs o
  next_in-append (p ∷ []) x xs o (a, d) =
      let other : (p.addr == x.addr) ≡ false = ground (arith, a.0) in
      rw other (next_in-append [] x xs o d)
  next_in-append (p ∷ q ∷ pre) x xs o (a, d) =
      let differs = All-middle (λ y. y.addr ≢ p.addr) (q ∷ pre) x xs a in
      let other : (p.addr == x.addr) ≡ false = ground (arith, differs) in
      rw other (next_in-append (q ∷ pre) x xs o d)

  record IsPlaced (j : ℕ) (bs : List (List (Node A))) (y : Node A) : Type 0 where
    i : ℕ
    ys : List (Node A)
    chain : get_or bs i [] ≡ y ∷ ys
    rest : rest_from j bs ≡ (y ∷ ys) ++ rest_from (suc i) bs

  first_from-IsPlaced :
      (j : ℕ) (bs : List (List (Node A))) (y : Node A) → first_from j bs ≡ some y → IsPlaced j bs y
  unfolding first_from
  first_from-IsPlaced j [] y e = cc
  first_from-IsPlaced (suc j) (b ∷ bs) y e =
      let p = first_from-IsPlaced j bs y e in
      record { i = suc p.i; ys = p.ys; chain = p.chain; rest = p.rest }
  first_from-IsPlaced zero ([] ∷ bs) y e =
      let p = first_from-IsPlaced zero bs y e in
      record { i = suc p.i; ys = p.ys; chain = p.chain; rest = sym (rest_from-zero bs) ∙ p.rest }
  first_from-IsPlaced zero ((x ∷ xs) ∷ bs) y e =
      let same : x ≡ y = cc in
      record {
        i = 0;
        ys = xs;
        chain = ap (λ t. t ∷ xs) same;
        rest =
            ap (λ t. (t ∷ xs) ++ flatten bs) same
            ∙ ap (λ t. (y ∷ xs) ++ t) (sym (rest_from-zero bs));
      }

  first_from-rest :
      (j : ℕ) (bs : List (List (Node A))) → first_from j bs ≡ none → rest_from j bs ≡ []
  unfolding first_from
  first_from-rest j [] e = refl
  first_from-rest (suc j) (b ∷ bs) e = first_from-rest j bs e
  first_from-rest zero ([] ∷ bs) e = sym (rest_from-zero bs) ∙ first_from-rest zero bs e
  first_from-rest zero ((x ∷ xs) ∷ bs) e = cc

module _ {A : Type 0} where
  snoc_append :
      (pre : List (Node A)) (x : Node A) (xs : List (Node A))
      → pre ++ (x ∷ xs) ≡ (pre ++ (x ∷ [])) ++ xs
  snoc_append [] x xs = refl
  snoc_append (p ∷ pre) x xs = ap (λ l. p ∷ l) (snoc_append pre x xs)

  next_inside :
      (k i : ℕ) (m : Hmap A) (pre : List (Node A)) (x : Node A) (xs : List (Node A))
      → IsHmap k m
      → get_or m.buckets i [] ≡ pre ++ (x ∷ xs)
      → node_next m x ≡ head_or xs (first_from (suc i) m.buckets)
  unfolding node_next
  next_inside k i m pre x xs v chain =
      let next : ℕ → List (Node A) → Option (Node A) =
        λ j c. elim (next_in x.addr c) [ some y ↦ some y | none ↦ first_from (j + 1) m.buckets ] in
      let placed : x.hash % 2 ^ k ≡ i =
        All-middle (λ y. y.hash % 2 ^ k ≡ i) pre x xs
          (subst (All (λ y. y.hash % 2 ^ k ≡ i)) chain (v.placed i)) in
      ap (λ j. next j (get_or m.buckets j [])) (bucket_id-mod v x.hash ∙ placed)
      ∙ ap (next i) chain
      ∙ next_in-append pre x xs (first_from (i + 1) m.buckets)
          (subst DistinctAddrs chain (v.addrs i))
      ∙ ap (λ j. head_or xs (first_from j m.buckets)) {x = i + 1} {y = suc i} (omega arith)

module _ {A S : Type 0} (body : S → Node A → S) where
  abbrev pub visit : List (Node A) → S → S
  visit [] s = s
  visit (x ∷ xs) s = visit xs (body s x)

module _ {A S : Type 0} (map : S → Hmap A) (body : S → Node A → S)
    (keeps : (s : S) (x : Node A) → map (body s x) ≡ map s) where
  ends : (fuel : ℕ) (s : S) → traverse_from map body fuel none s ≡ s
  unfolding traverse_from
  ends zero s = refl
  ends (suc fuel) s = refl

  -- The traversal from inside of a bucket.
  visits_from :
      (k fuel i : ℕ) (m : Hmap A) (pre : List (Node A)) (x : Node A) (xs : List (Node A)) (s : S)
      → IsHmap k m
      → map s ≡ m
      → get_or m.buckets i [] ≡ pre ++ (x ∷ xs)
      → length (xs ++ rest_from (suc i) m.buckets) + 1 < fuel
      → traverse_from map body fuel (some x) s
        ≡ visit body (x ∷ (xs ++ rest_from (suc i) m.buckets)) s
  unfolding traverse_from
  visits_from k zero i m pre x xs s v e f w = absurd (omega arith)
  visits_from k (suc fuel) i m pre x (y ∷ ys) s v e f w =
      ap (λ o. traverse_from map body fuel o (body s x))
        (ap (λ t. node_next t x) e ∙ next_inside k i m pre x (y ∷ ys) v f)
      ∙ visits_from k fuel i m (pre ++ (x ∷ [])) y ys (body s x) v (keeps s x ∙ e)
          (f ∙ snoc_append pre x (y ∷ ys)) (omega arith)
  visits_from k (suc fuel) i m pre x [] s v e f w =
      ap (λ o. traverse_from map body fuel o (body s x))
        (ap (λ t. node_next t x) e ∙ next_inside k i m pre x [] v f)
      ∙ elim (Option-cases (first_from (suc i) m.buckets)) [
        | inl none_left ↦
            ap (λ o. traverse_from map body fuel o (body s x)) none_left
            ∙ ends fuel (body s x)
            ∙ ap (λ l. visit body l (body s x)) (sym (first_from-rest (suc i) m.buckets none_left))
        | inr (y, found) ↦
            let p = first_from-IsPlaced (suc i) m.buckets y found in
            ap (λ o. traverse_from map body fuel o (body s x)) found
            ∙ visits_from k fuel p.i m [] y p.ys (body s x) v (keeps s x ∙ e) p.chain
                (omega (arith, ap length p.rest))
            ∙ ap (λ l. visit body l (body s x)) (sym p.rest)
      ]

  flatten-total : (bs : List (List (Node A))) → length (flatten bs) ≡ total bs
  flatten-total [] = refl
  flatten-total (b ∷ bs) = omega (arith, length-append b (flatten bs), flatten-total bs)

  -- On a map that obeys its invariant, a traversal whose body leaves the map alone ends, and runs its
  -- body on every node once, bucket after bucket and from the head of each chain.
  pub traverse-visit :
      (k : ℕ) (s : S)
      → IsHmap k (map s)
      → traverse map body s ≡ visit body (flatten (map s).buckets) s
  unfolding traverse node_first
  traverse-visit k s v = elim (Option-cases (first_from 0 (map s).buckets)) [
    | inl none_left ↦
        ap (λ o. traverse_from map body ((map s).n + 1) o s) none_left
        ∙ ends ((map s).n + 1) s
        ∙ ap (λ l. visit body l s)
            (sym
              (sym (rest_from-zero (map s).buckets) ∙ first_from-rest 0 (map s).buckets none_left))
    | inr (y, found) ↦
        let p = first_from-IsPlaced 0 (map s).buckets y found in
        let all : flatten (map s).buckets ≡ (y ∷ p.ys) ++ rest_from (suc p.i) (map s).buckets =
          sym (rest_from-zero (map s).buckets) ∙ p.rest in
        ap (λ o. traverse_from map body ((map s).n + 1) o s) found
        ∙ visits_from k ((map s).n + 1) p.i (map s) [] y p.ys s v refl p.chain
            (omega (arith, v.counted, flatten-total (map s).buckets, ap length all))
        ∙ ap (λ l. visit body l s) (sym all)
  ]
