-- ===== src/Hmap/Invariant.antt =====
-- The invariant of the map, and what a change of one bucket means.
use pofswitch.Base.{
  ℕ, zero, suc, ◌+◌, ◌-◌, ◌%◌, ◌^◌, ◌<◌, ◌≡◌, ◌≢◌, sym, ap, ◌∙◌, inl, inr, List, [], ◌∷◌, arith,
  length, get_or, set, ◌==◌, if◌then◌else◌, Bool-cases, ==_iff, get_or-set_self, get_or-set_ne,
  bit_and-mask, two-pow_pos,
}
use mathlib.Core.Path.{subst}
use native.Mathlib.Nat.{mod-lt}
use pofswitch.Hmap.{Node, Hmap, find_hash, node_get_with_hash, bucket_id}
use pofswitch.Hmap.Chain.{All, DistinctAddrs, DistinctHashes}

module _ {A : Type 0} where
  abbrev pub total : List (List (Node A)) → ℕ
  total [] = 0
  total (b ∷ bs) = length b + total bs

  pub total-set :
      (bs : List (List (Node A))) (i : ℕ) (c : List (Node A))
      → i < length bs
      → total (set bs i c) + length (get_or bs i []) ≡ total bs + length c
  total-set [] i c h = absurd (omega arith)
  total-set (b ∷ bs) zero c h = omega arith
  total-set (b ∷ bs) (suc i) c h = omega (arith, total-set bs i c (omega arith))

  -- A map of `2 ^ k` buckets: each node in the bucket of its hash, no address twice in a bucket,
  -- and `n` the number of nodes.
  pub record IsHmap (k : ℕ) (map : Hmap A) : Type 0 where
    pub masked : map.mask ≡ 2 ^ k - 1
    pub sized : length map.buckets ≡ 2 ^ k
    pub placed : (i : ℕ) → All (λ x. x.hash % 2 ^ k ≡ i) (get_or map.buckets i [])
    pub addrs : (i : ℕ) → DistinctAddrs (get_or map.buckets i [])
    pub counted : map.n ≡ total map.buckets

  -- A map with one node to a hash, as the maps keyed by an id are.
  abbrev pub IsKeyed : Hmap A → Type 0
  IsKeyed map = (i : ℕ) → DistinctHashes (get_or map.buckets i [])

  -- An address that no node of the map has, such as that of a new allocation.
  abbrev pub IsFresh : ℕ → Hmap A → Type 0
  IsFresh a map = (i : ℕ) → All (λ y. y.addr ≢ a) (get_or map.buckets i [])

  pub bucket_id-mod : {k : ℕ} {map : Hmap A} → IsHmap k map → (h : ℕ) → bucket_id map h ≡ h % 2 ^ k
  bucket_id-mod {k} {map} v h = rw v.masked (bit_and-mask k h)

  pub bucket_id-lt :
      {k : ℕ} {map : Hmap A} → IsHmap k map → (h : ℕ) → bucket_id map h < length map.buckets
  bucket_id-lt {k} {map} v h = rw (bucket_id-mod v h, v.sized) (mod-lt h (two-pow_pos k))

  get_or-set :
      (bs : List (List (Node A))) (i j : ℕ) (c : List (Node A))
      → i < length bs
      → get_or (set bs i c) j [] ≡ (if i == j then c else get_or bs j [])
  get_or-set bs i j c h = elim (Bool-cases (i == j)) [
    | inl e ↦
        rw e (
          ap (λ t. get_or (set bs i c) t []) (sym ((==_iff i j).0 e)) ∙ get_or-set_self bs i c [] h)
    | inr e ↦ rw e (get_or-set_ne bs i j c [] (ground arith))
  ]

  -- What holds of the new bucket and of all old ones holds of all new ones.
  pub set_all :
      (P : ℕ → List (Node A) → Type 0) (bs : List (List (Node A))) (i : ℕ) (c : List (Node A))
      → i < length bs
      → P i c
      → ((j : ℕ) → P j (get_or bs j []))
      → (j : ℕ) → P j (get_or (set bs i c) j [])
  set_all P bs i c h new old j = elim (Bool-cases (i == j)) [
    | inl e ↦
        let same : i ≡ j = (==_iff i j).0 e in
        subst (λ t. P t (get_or (set bs i c) t [])) same (rw (get_or-set_self bs i c [] h) new)
    | inr e ↦ rw (get_or-set_ne bs i j c [] (ground arith)) (old j)
  ]

  -- The chain that a lookup reads after one bucket was replaced by a chain `c`.
  pub get_after :
      (k h g : ℕ) (map map' : Hmap A) (c : List (Node A))
      → IsHmap k map
      → map'.mask ≡ map.mask
      → map'.buckets ≡ set map.buckets (bucket_id map g) c
      → node_get_with_hash map' h
        ≡ (if g % 2 ^ k == h % 2 ^ k then find_hash h c else node_get_with_hash map h)
  unfolding node_get_with_hash
  get_after k h g map map' c v e f =
      rw (e, f, bucket_id-mod v h, bucket_id-mod v g)
        (ground (
          arith,
          get_or-set map.buckets (g % 2 ^ k) (h % 2 ^ k) c,
          bucket_id-lt v g,
          bucket_id-mod v g,
        ))

  pub get_same_bucket :
      (k h g : ℕ) (map : Hmap A)
      → IsHmap k map
      → g % 2 ^ k ≡ h % 2 ^ k
      → find_hash h (get_or map.buckets (bucket_id map g) []) ≡ node_get_with_hash map h
  unfolding node_get_with_hash
  get_same_bucket k h g map v e =
      ap (λ t. find_hash h (get_or map.buckets t []))
        (bucket_id-mod v g ∙ e ∙ sym (bucket_id-mod v h))
