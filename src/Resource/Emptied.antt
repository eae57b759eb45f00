-- ===== src/Resource/Emptied.antt =====
-- `poflr_empty_counter`, `poflr_empty_meter` and `poflr_empty_group` of local_resource/: the traversal
-- that deletes as it goes.
use pofswitch.Base.{
  ℕ, zero, suc, ◌+◌, ◌-◌, ◌^◌, ◌<◌, ◌≡◌, refl, sym, ap, ◌∙◌, none, some, arith, u32,
}
use mathlib.Core.Path.{subst}
use pofswitch.Hmap.{
  Node, Hmap, node_first, node_delete, node_get_with_hash, find_hash, traverse, traverse_from,
  bucket_id,
}
use pofswitch.Hmap.Invariant.{IsHmap, IsKeyed}
use pofswitch.Hmap.Lookup.{delete-IsHmap, delete-IsKeyed, n-delete}
use pofswitch.Hmap.Traverse.{first-IsDeletable, first_from-total, total-empty}
use pofswitch.Resource.{Registry}
use pofswitch.Resource.Steps.{delete_step, empty}
use pofswitch.Resource.Valid.{IsRegistry, IsStep}

plus_one : (n : ℕ) → n + 1 ≡ suc n
plus_one n = omega arith

module _ {A : Type 0} where
  record IsEmptied (k : ℕ) (s : Hmap A × ℕ) : Type 0 where
    valid : IsHmap k (s.0)
    keyed : IsKeyed (s.0)
    no_nodes : s.0.n ≡ 0
    num : s.1 ≡ 0

  no_first : (k : ℕ) (map : Hmap A) → IsHmap k map → map.n ≡ 0 → node_first map ≡ none
  unfolding node_first
  no_first k map v e = first_from-total map.buckets (omega (arith, v.counted))

  traverse-IsEmptied :
      (k fuel : ℕ) (map : Hmap A) (num : ℕ)
      → IsHmap k map
      → IsKeyed map
      → map.n ≡ fuel
      → fuel < 2 ^ 32
      → num ≡ fuel
      → IsEmptied k (traverse_from (λ s. s.0) delete_step (suc fuel) (node_first map) (map, num))
  unfolding traverse_from
  traverse-IsEmptied k zero map num v keyed e w same =
      rw (no_first k map v e) (record { valid = v; keyed = keyed; no_nodes = e; num = same })
  traverse-IsEmptied k (suc fuel) map num v keyed e w same =
      let d = first-IsDeletable k map v (omega arith) in
      let less = n-delete k d.node.hash map d.node v d.found (omega arith) in
      let rest =
        traverse-IsEmptied k fuel (node_delete map d.node) (u32 (num + 2 ^ 32 - 1))
          (delete-IsHmap k d.node.hash map d.node v d.found (omega arith))
          (delete-IsKeyed k d.node.hash map d.node v d.found keyed) (omega (arith, less))
          (omega arith) (omega (arith, same)) in
      rw d.first (
        subst
          (λ o.
            IsEmptied k
              (traverse_from (λ s. s.0) delete_step (suc fuel) o (delete_step (map, num) d.node)))
          (sym d.next) rest)

  some-none : (x : Node A) → ¬ (none ≡ some x)
  some-none x e = cc

  nothing_found :
      (k : ℕ) (map : Hmap A) → IsHmap k map → map.n ≡ 0 → (h : ℕ) → node_get_with_hash map h ≡ none
  unfolding node_get_with_hash find_hash
  nothing_found k map v e h =
      ap (find_hash h) (total-empty map.buckets (bucket_id map h) (omega (arith, v.counted)))

-- The traversal of a valid map by `map_..Delete` ends: it visits every node, leaves a valid map in
-- which no id has a structure, and the number 0.
pub empty-IsStep :
    {A : Type 0} (id_of : A → ℕ) (r : Registry A)
    → IsRegistry id_of r
    → IsStep id_of r (empty r) (λ id. none) × ((empty r).num ≡ 0)
unfolding empty traverse
empty-IsStep {A} id_of r v = rw runs (step, e.num)
  where
    s : Hmap A × ℕ
    s = traverse (λ s. s.0) delete_step (v.map, r.num)

    e : IsEmptied v.k s
    e =
        rw (plus_one v.map.n)
          (traverse-IsEmptied v.k v.map.n v.map r.num v.valid v.keyed refl v.small v.counted)

    nothing : (id : ℕ) → node_get_with_hash (s.0) id ≡ none
    nothing = nothing_found v.k (s.0) e.valid e.no_nodes

    runs : empty r ≡ record r { map = some (s.0); num = s.1 }
    runs = rw v.stands refl

    step : IsStep id_of r (record r { map = some (s.0); num = s.1 }) (λ id. none)
    step = record {
      keeps = record {
        k = v.k;
        map = s.0;
        stands = refl;
        valid = e.valid;
        keyed = e.keyed;
        counted = e.num ∙ sym e.no_nodes;
        small = omega (arith, e.no_nodes);
        ids = λ id x h. absurd (some-none x (sym (nothing id) ∙ h));
      };
      views = λ id. rw (nothing id) refl;
      same_max = refl;
    }
