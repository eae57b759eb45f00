-- ===== src/Flow/Masked.antt =====
-- `entryLookup_MM` of local_resource/pof_flow_table.c: which entry it prefers.
use pofswitch.Base.{
  ℕ, ◌≤◌, ◌≡◌, refl, sym, ap, ◌∙◌, ◌⊎◌, inl, inr, Bool, true, false, Option, none, some, List, [],
  ◌∷◌, arith, length, ltb, Bool-cases, if◌then◌else◌,
}
use mathlib.Core.Path.{subst}
use pofswitch.Field.Bits.{IsBytes}
use pofswitch.Hmap.{Node, Hmap}
use pofswitch.Hmap.Chain.{All}
use pofswitch.Hmap.Invariant.{IsHmap}
use pofswitch.Hmap.Visit.{visit, flatten, traverse-visit}
use pofswitch.Flow.{bytes_of_bits, mask_match}
use pofswitch.Flow.Mask.{Agree, mask_match-Agree}
use pofswitch.Flow.Table.{EntryInfo, TableInfo, mm_step, prefer, entry_lookup_mm}

true-false : ¬ (true ≡ false)
true-false e = cc

some_eq : (a b : Node EntryInfo) → some a ≡ some b → a ≡ b
some_eq a b e = cc

keeps_map :
    (key : List ℕ) (key_len : ℕ) (s : Hmap EntryInfo × Option (Option (Node EntryInfo)))
    (x : Node EntryInfo)
    → (mm_step key key_len s x).0 ≡ s.0
keeps_map key key_len (map, none) x = refl
keeps_map key key_len (map, some best) x = kept (mask_match x.obj.mask x.obj.value key key_len)
  where
    kept :
        (o : Option Bool)
        → (elim o as (λ t. Hmap EntryInfo × Option (Option (Node EntryInfo))) [
          | none ↦ (map, none)
          | some false ↦ (map, some best)
          | some true ↦ (map, some (prefer best x))
        ]).0
          ≡ map
    kept none = refl
    kept (some false) = refl
    kept (some true) = refl

abbrev pub In : Node EntryInfo → List (Node EntryInfo) → Type 0
In x [] = true ≡ false
In x (y ∷ ys) = (x ≡ y) ⊎ In x ys

module _ (key : List ℕ) (key_len : ℕ) where
  -- The key has the bits of the entry's value wherever the entry's mask has a one.
  abbrev pub Matches : Node EntryInfo → Type 0
  Matches node = Agree (bytes_of_bits key_len) node.obj.mask node.obj.value key

  -- The buffers of the entry hold a key.
  abbrev pub Comparable : Node EntryInfo → Type 0
  Comparable node =
      IsBytes node.obj.mask
      × (bytes_of_bits key_len ≤ length node.obj.mask)
      × (bytes_of_bits key_len ≤ length node.obj.value)

  abbrev pub AtMost : Option (Node EntryInfo) → Node EntryInfo → Type 0
  AtMost none node = true ≡ false
  AtMost (some best) node = node.obj.priority ≤ best.obj.priority

  -- An entry that a search from `start` on through the nodes ends with.
  pub record IsBest (nodes : List (Node EntryInfo)) (start best : Option (Node EntryInfo))
      : Type 0 where
    pub highest : All (λ node. Matches node → AtMost best node) nodes
    pub above_start : (a : Node EntryInfo) → start ≡ some a → AtMost best a
    pub origin : (b : Node EntryInfo) → best ≡ some b → (start ≡ some b) ⊎ (Matches b × In b nodes)

  priority_of : (b a : Node EntryInfo) → some b ≡ some a → b.obj.priority ≡ a.obj.priority
  priority_of b a e = let same : b ≡ a = cc in ap (λ n. n.obj.priority) same

  prefer-AtMost :
      (start : Option (Node EntryInfo)) (x : Node EntryInfo)
      → AtMost (prefer start x) x
        × ((a : Node EntryInfo) → start ≡ some a → AtMost (prefer start x) a)
        × ((prefer start x ≡ some x) ⊎ (prefer start x ≡ start))
  prefer-AtMost none x = (omega arith, (λ a e. cc), inl refl)
  prefer-AtMost (some b) x = elim (Bool-cases (ltb b.obj.priority x.obj.priority)) [
    | inl e ↦ rw e (omega arith, (λ a f. ground (arith, priority_of b a f)), inl refl)
    | inr e ↦ rw e (ground arith, (λ a f. omega (arith, priority_of b a f)), inr refl)
  ]

  AtMost-through :
      (p best : Option (Node EntryInfo)) (n : Node EntryInfo)
      → AtMost p n
      → ((a : Node EntryInfo) → p ≡ some a → AtMost best a)
      → AtMost best n
  AtMost-through none best n h above = absurd (true-false h)
  AtMost-through (some w) none n h above = above w refl
  AtMost-through (some w) (some b) n h above = omega (arith, above w refl)

  AtMost-same :
      (start : Option (Node EntryInfo)) (a : Node EntryInfo) → start ≡ some a → AtMost start a
  AtMost-same none a e = cc
  AtMost-same (some b) a e = omega (arith, priority_of b a e)

  mm_step-runs :
      (map : Hmap EntryInfo) (start : Option (Node EntryInfo)) (x : Node EntryInfo) (b : Bool)
      → mask_match x.obj.mask x.obj.value key key_len ≡ some b
      → mm_step key key_len (map, some start) x ≡ (map, some (if b then prefer start x else start))
  mm_step-runs map start x b e = ap stepped e ∙ chosen b
    where
      stepped : Option Bool → Hmap EntryInfo × Option (Option (Node EntryInfo))
      stepped o = elim o [
        | none ↦ (map, none)
        | some false ↦ (map, some start)
        | some true ↦ (map, some (prefer start x))
      ]

      chosen : (b : Bool) → stepped (some b) ≡ (map, some (if b then prefer start x else start))
      chosen true = refl
      chosen false = refl

  visit-IsBest :
      (map : Hmap EntryInfo) (nodes : List (Node EntryInfo)) (start : Option (Node EntryInfo))
      → bytes_of_bits key_len ≤ length key
      → All Comparable nodes
      → (best : Option (Node EntryInfo)) × (visit (mm_step key key_len) nodes (map, some start)
          ≡ (map, some best))
        × IsBest nodes start best
  visit-IsBest map [] start h c =
      (start, refl, record { highest = tt; above_start = AtMost-same start; origin = λ b e. inl e })
  visit-IsBest map (x ∷ nodes) start h ((bytes, in_mask, in_value), c) =
      let (b, runs, (to, from)) =
        mask_match-Agree x.obj.mask x.obj.value key key_len bytes in_mask in_value h in
      elim (Bool-cases b) [
        | inl matched ↦
            let (best, rest, i) = visit-IsBest map nodes (prefer start x) h c in
            let (above_x, above, from_start) = prefer-AtMost start x in
            (
              best,
              ap (visit (mm_step key key_len) nodes)
                    (mm_step-runs map start x true (runs ∙ ap some matched))
                  ∙ rest,
              record {
                highest = (
                  (λ m. AtMost-through (prefer start x) best x above_x i.above_start),
                  i.highest,
                );
                above_start =
                    λ a e. AtMost-through (prefer start x) best a (above a e) i.above_start;
                origin = λ n e. elim (i.origin n e) [
                  | inr (m, inside) ↦ inr (m, inr inside)
                  | inl preferred ↦ elim from_start [
                    | inr kept ↦ inl (sym kept ∙ preferred)
                    | inl new ↦
                        let same : x ≡ n = some_eq x n (sym new ∙ preferred) in
                        inr (subst Matches same (to matched), inl (sym same))
                  ]
                ];
              },
            )
        | inr other ↦
            let (best, rest, i) = visit-IsBest map nodes start h c in
            (
              best,
              ap (visit (mm_step key key_len) nodes)
                    (mm_step-runs map start x false (runs ∙ ap some other))
                  ∙ rest,
              record {
                highest = ((λ m. absurd (true-false (sym (from m) ∙ other))), i.highest);
                above_start = i.above_start;
                origin = λ n e. elim (i.origin n e) [
                  | inl kept ↦ inl kept
                  | inr (m, inside) ↦ inr (m, inr inside)
                ];
              },
            )
      ]

-- In a table whose map obeys its invariant and whose entries, like the key, have buffers that hold a
-- key, `entryLookup_MM` ends, and returns an entry of the map that matches the key and has at least
-- the priority of every entry that matches, or NULL if none matches.
pub entry_lookup_mm-IsBest :
    (k : ℕ) (map : Hmap EntryInfo) (table : TableInfo) (key : List ℕ)
    → table.entry_map ≡ some map
    → IsHmap k map
    → bytes_of_bits table.key_len ≤ length key
    → All (Comparable key table.key_len) (flatten map.buckets)
    → (best : Option (Node EntryInfo)) × (entry_lookup_mm key table ≡ some best)
      × IsBest key table.key_len (flatten map.buckets) none best
unfolding entry_lookup_mm
entry_lookup_mm-IsBest k map table key e v h c =
    let (best, runs, i) = visit-IsBest key table.key_len map (flatten map.buckets) none h c in
    (
      best,
      rw e (
          ap (λ s. s.1)
            (traverse-visit (λ s. s.0) (mm_step key table.key_len) (keeps_map key table.key_len) k
                (map, some none) v
              ∙ runs)),
      i,
    )
