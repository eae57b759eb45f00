-- ===== src/Resource/Steps.antt =====
-- The steps that pof_counter.c, pof_meter.c and pof_group.c of local_resource/ each have for their
-- own map: `map_..Insert`, `map_..Delete`, `poflr_get_.._with_ID`, `poflr_init_..` and
-- `poflr_empty_..`. `none` is an access through a NULL map.
use pofswitch.Base.{none, ℕ, ◌+◌, ◌-◌, ◌^◌, Option, some, Bool, u32, ◌>>=◌}
use pofswitch.Hmap.{
  Node, node_get_with_hash, node_insert, node_delete, node_write, traverse, Hmap, create,
}
use pofswitch.Error.{Outcome, fault}
use pofswitch.Resource.{Registry}

-- `hmap_hashForLinear`.
abbrev pub hash_for_linear : ℕ → ℕ
hash_for_linear id = id

module _ {A : Type 0} where
  unfoldable pub get_with_id : ℕ → Registry A → Option (Option (Node A))
  get_with_id id r = do map ← r.map; some (node_get_with_hash map (hash_for_linear id))

  unfoldable pub insert : Node A → Registry A → Option (Registry A)
  insert node r = do
    map ← r.map
    some (record r { map = some (node_insert map node); num = u32 (r.num + 1) })

  unfoldable pub delete : Node A → Registry A → Option (Registry A)
  delete node r = do
    map ← r.map
    some (record r { map = some (node_delete map node); num = u32 (r.num + 2 ^ 32 - 1) })

  -- A store through the pointer to a structure of the map.
  unfoldable pub write : Node A → A → Registry A → Option (Registry A)
  write node obj r = do map ← r.map; some (record r { map = some (node_write map node obj) })

  -- Whether memory is given for the map and for its buckets.
  unfoldable pub init : Bool → Bool → Registry A → Registry A
  init map_ok buckets_ok r = record r { map = create map_ok buckets_ok r.num_max }

  -- `HMAP_NODES_IN_STRUCT_TRAVERSE` with `map_..Delete` for its body; a NULL map returns at once.
  abbrev pub delete_step : Hmap A × ℕ → Node A → Hmap A × ℕ
  delete_step (map, num) node = (node_delete map node, u32 (num + 2 ^ 32 - 1))

  unfoldable pub empty : Registry A → Registry A
  empty r = elim r.map [
    | none ↦ r
    | some map ↦
        let (map', num') = traverse (λ s. s.0) delete_step (map, r.num) in
        record r { map = some map'; num = num' }
  ]

-- The rest of an operation after a step that may fault.
abbrev pub or_fault {ℓ} : {A : Type ℓ} {S : Type 0} → Option A → (A → Outcome S) → Outcome S
or_fault none f = fault
or_fault (some a) f = f a
