-- ===== src/Flow/Tables.antt =====
-- The operations of local_resource/pof_flow_table.c on the tables of a slot and on their entries.
-- The part of `struct pof_local_resource` that they use is the record `Slot`.
use pofswitch.Base.{
  ℕ, zero, suc, ◌+◌, ◌-◌, ◌^◌, Bool, Option, none, some, List, [], ◌∷◌, ◌==◌, ltb, leb,
  if◌then◌else◌, ◌>>=◌, get_or, u16, replicate,
}
use pofswitch.Error.{
  Ret, Outcome, done, fault, pof_ok, failed, table_mod_failed, flow_mod_failed, software_failed,
  TableModCode, FlowModCode, SoftCode,
}
use pofswitch.Hmap.{Node, node_insert, node_delete, create}
use pofswitch.Tree
use pofswitch.Flow.{Match, table_id_to_global}
use pofswitch.Flow.Table.{
  PofFlowEntry, TableInfo, EntryInfo, lpm_table, entry_insert, entry_delete, entry_get_with_index,
}
use pofswitch.Resource.{Registry, LocalResource}
use pofswitch.Resource.Counter.{counter_init, counter_delete}
use pofswitch.Resource.Steps.{get_with_id, write, or_fault, hash_for_linear}

pub record Slot : Type 0 where
  pub resource : LocalResource
  pub tables : Registry TableInfo
  pub num_max_each_type : List ℕ
  pub size_max : ℕ
  pub key_len_each_type : List ℕ

abbrev pub table_error : TableModCode → Ret
table_error code = failed (table_mod_failed code)

abbrev pub flow_error : FlowModCode → Ret
flow_error code = failed (flow_mod_failed code)

-- `map_tableInsert`; the number of tables has 16 bits.
unfoldable pub map_table_insert : Node TableInfo → Slot → Option Slot
map_table_insert node slot = do
  map ← slot.tables.map
  some (record slot {
    tables = record (slot.tables) {
      map = some (node_insert map node);
      num = u16 (slot.tables.num + 1);
    };
  })

unfoldable pub map_table_delete : Node TableInfo → Slot → Option Slot
map_table_delete node slot = do
  map ← slot.tables.map
  some (record slot {
    tables = record (slot.tables) {
      map = some (node_delete map node);
      num = u16 (slot.tables.num + 2 ^ 16 - 1);
    };
  })

unfoldable pub get_table_with_id : ℕ → Slot → Option (Option (Node TableInfo))
get_table_with_id id slot = get_with_id id slot.tables

-- `memcpy` of the first `n` fields to the array of the table.
unfoldable pub copy_fields : ℕ → List Match → List Match → Option (List Match)
copy_fields zero src dst = some dst
copy_fields (suc n) (a ∷ src) (b ∷ dst) = do rest ← copy_fields n src dst; some (a ∷ rest)
copy_fields (suc n) src dst = none

-- `strncpy` to an array of `n` characters: up to the NUL, which fills the rest; `none` is a read
-- behind the end of the source.
unfoldable pub strncpy : ℕ → List ℕ → Option (List ℕ)
strncpy zero src = some []
strncpy (suc n) [] = none
strncpy (suc n) (zero ∷ src) = some (replicate (suc n) 0)
strncpy (suc n) (suc c ∷ src) = do rest ← strncpy n src; some (suc c ∷ rest)

abbrev pub table_name_len : ℕ
table_name_len = 64

abbrev pub zero_field : Match
zero_field = record { field_id = 0; offset = 0; len = 0 }

-- `struct pof_flow_table`, the request to create a table, and the memory that is given for it.
pub record PofFlowTable : Type 0 where
  pub id : ℕ
  pub kind : ℕ
  pub key_len : ℕ
  pub size : ℕ
  pub name : List ℕ
  pub match_field_num : ℕ
  pub match : List Match

pub record Memory : Type 0 where
  pub table : Option ℕ
  pub map : Bool
  pub buckets : Bool
  pub tree : Bool
  pub root : Bool

-- The checks of the type and the number that every operation on a table begins with, with the
-- errors that it reports for them; the rest is given the node of the table.
unfoldable pub with_table :
    ℕ → ℕ → Ret → Ret → Slot → (Option (Node TableInfo) → ℕ → Outcome Slot) → Outcome Slot
with_table id kind bad_type bad_id slot body =
    if leb 4 kind
    then done bad_type slot
    else if leb (get_or slot.num_max_each_type kind 0) id
    then done bad_id slot
    else or_fault (table_id_to_global slot.num_max_each_type kind id)
        (λ global. or_fault (get_table_with_id global slot) (λ found. body found global))

abbrev pub new_table : Memory → PofFlowTable → ℕ → List ℕ → List Match → TableInfo
new_table memory pof_table global name match = record {
  id = global;
  kind = pof_table.kind;
  name = name;
  entry_map = create memory.map memory.buckets pof_table.size;
  entry_num = 0;
  size = pof_table.size;
  key_len = pof_table.key_len;
  tree = if pof_table.kind == lpm_table then Tree.create memory.tree memory.root else none;
  match_field_num = pof_table.match_field_num;
  match = match;
}

-- The part of `poflr_create_flow_table` behind its checks.
unfoldable pub fill_table : Memory → PofFlowTable → ℕ → Slot → Outcome Slot
unfolding map_table_insert copy_fields strncpy
fill_table memory pof_table global slot = elim (memory.table) [
  | none ↦ done (failed (software_failed SoftCode.allocate_resource_failure)) slot
  | some addr ↦ or_fault (strncpy table_name_len pof_table.name) (λ name.
      or_fault (copy_fields pof_table.match_field_num pof_table.match (replicate 8 zero_field))
        (λ match.
          or_fault
            (map_table_insert
              (record {
                addr = addr;
                hash = hash_for_linear global;
                obj = new_table memory pof_table global name match;
              })
              slot)
            (λ slot'. done pof_ok slot')))
]

unfoldable pub create_flow_table : Memory → PofFlowTable → Slot → Outcome Slot
unfolding with_table fill_table
create_flow_table memory pof_table slot =
    with_table pof_table.id pof_table.kind (table_error TableModCode.bad_table_type)
      (table_error TableModCode.bad_table_id) slot
      (λ found global. elim found [
        | some node ↦ done (table_error TableModCode.table_exist) slot
        | none ↦
            if ltb slot.size_max pof_table.size
            then done (table_error TableModCode.bad_table_size) slot
            else if ltb (get_or slot.key_len_each_type pof_table.kind 0) pof_table.key_len
            then done (table_error TableModCode.bad_key_len) slot
            else fill_table memory pof_table global slot
      ])

-- `hmap_destroy` and `tree_destroy` read through the pointers of the table, which may be NULL. The
-- table is freed with what they free, so that nothing else is left of it.
unfoldable pub free_entries : TableInfo → Option TableInfo
unfolding Tree.destroy
free_entries table = do
  entry_map ← table.entry_map
  if table.kind == lpm_table then Tree.destroy table.tree >>= (λ root. some table) else some table

unfoldable pub delete_flow_table : ℕ → ℕ → Slot → Outcome Slot
unfolding with_table map_table_delete free_entries
delete_flow_table id kind slot =
    with_table id kind (table_error TableModCode.bad_table_type)
      (table_error TableModCode.bad_table_id) slot
      (λ found global. elim found [
        | none ↦ done (table_error TableModCode.table_unexist) slot
        | some node ↦
            if node.obj.entry_num == 0
            then or_fault (free_entries node.obj)
                (λ table. or_fault (map_table_delete node slot) (λ slot'. done pof_ok slot'))
            else done (table_error TableModCode.table_unempty) slot
      ])

-- The table of an entry, whose index is checked against its size.
unfoldable pub with_entry_table :
    PofFlowEntry → Slot → (Node TableInfo → Outcome Slot) → Outcome Slot
unfolding with_table
with_entry_table flow slot body =
    with_table flow.table_id flow.table_type (flow_error FlowModCode.bad_table_type)
      (flow_error FlowModCode.bad_table_id) slot
      (λ found global. elim found [
        | none ↦ done (flow_error FlowModCode.bad_table_id) slot
        | some node ↦
            if leb node.obj.size flow.index
            then done (flow_error FlowModCode.bad_entry_id) slot
            else body node
      ])

-- A store through the pointer to a table.
unfoldable pub store_table : Node TableInfo → TableInfo → Slot → Option Slot
store_table node table slot = do
  tables' ← write node table slot.tables
  some (record slot { tables = tables' })

-- An operation on the counters of the slot.
abbrev pub on_counters : Slot → Outcome LocalResource → (Slot → Outcome Slot) → Outcome Slot
on_counters slot fault rest = fault
on_counters slot (done pof_ok lr) rest = rest (record slot { resource = lr })
on_counters slot (done (failed e) lr) rest = done (failed e) (record slot { resource = lr })

-- `entryInsert` on a table, and the report of its failure.
unfoldable pub insert_entry :
    Option ℕ
    → (ℕ → Bool)
    → PofFlowEntry
    → Node TableInfo
    → TableInfo
    → Slot
    → (Slot → Outcome Slot)
    → Outcome Slot
unfolding store_table
insert_entry alloc nodes flow node table slot rest =
    or_fault (entry_insert alloc nodes flow table) (λ (table', ok).
      or_fault (store_table node table' slot)
        (λ slot'. if ok then rest slot' else done (flow_error FlowModCode.unknown) slot'))

-- The entry stays in the table when its counter cannot be initialised.
unfoldable pub add_flow_entry :
    Option ℕ → Option ℕ → (ℕ → Bool) → PofFlowEntry → Slot → Outcome Slot
unfolding with_entry_table insert_entry
add_flow_entry counter_alloc alloc nodes flow slot = with_entry_table flow slot (λ node.
    insert_entry alloc nodes flow node node.obj slot (λ slot'.
      on_counters slot' (counter_init counter_alloc flow.counter_id slot'.resource)
        (λ slot''. done pof_ok slot'')))

-- The old entry is gone when the new one cannot be inserted.
unfoldable pub replace_entry :
    Option ℕ → (ℕ → Bool) → PofFlowEntry → Node TableInfo → Node EntryInfo → Slot → Outcome Slot
unfolding insert_entry
replace_entry alloc nodes flow node entry slot =
    or_fault (entry_delete entry node.obj)
      (λ table. insert_entry alloc nodes flow node table slot (λ slot'. done pof_ok slot'))

unfoldable pub modify_flow_entry :
    Option ℕ → Option ℕ → (ℕ → Bool) → PofFlowEntry → Slot → Outcome Slot
unfolding with_entry_table replace_entry
modify_flow_entry counter_alloc alloc nodes flow slot = with_entry_table flow slot (λ node.
    or_fault (entry_get_with_index flow.index node.obj) (λ found. elim found [
      | none ↦ done (flow_error FlowModCode.entry_unexist) slot
      | some entry ↦
          if entry.obj.counter_id == flow.counter_id
          then replace_entry alloc nodes flow node entry slot
          else on_counters slot (counter_init counter_alloc flow.counter_id slot.resource)
              (replace_entry alloc nodes flow node entry)
    ]))

-- The counter that is deleted is that of the entry.
unfoldable pub delete_flow_entry : PofFlowEntry → Slot → Outcome Slot
unfolding with_entry_table store_table
delete_flow_entry flow slot = with_entry_table flow slot (λ node.
    or_fault (entry_get_with_index flow.index node.obj) (λ found. elim found [
      | none ↦ done (flow_error FlowModCode.entry_unexist) slot
      | some entry ↦ on_counters slot (counter_delete entry.obj.counter_id slot.resource) (λ slot'.
          or_fault (entry_delete entry node.obj)
            (λ table. or_fault (store_table node table slot') (λ slot''. done pof_ok slot'')))
    ]))

-- The sum of the sizes of the types, in 16 bits.
unfoldable pub sum_sizes : List ℕ → ℕ → ℕ
sum_sizes [] num = num
sum_sizes (m ∷ sizes) num = sum_sizes sizes (u16 (num + m))

unfoldable pub init_flow_table : Bool → Bool → ℕ → Slot → Outcome Slot
unfolding sum_sizes
init_flow_table map_ok buckets_ok key_len slot =
    let num_max' = sum_sizes slot.num_max_each_type 0 in
    let map' = create map_ok buckets_ok num_max' in
    let slot' = record slot {
      key_len_each_type = replicate 4 (u16 key_len);
      tables = record (slot.tables) { map = map'; num_max = num_max' };
    } in
    elim map' [
      | none ↦ done (failed (software_failed SoftCode.allocate_resource_failure)) slot'
      | some map ↦ done pof_ok slot'
    ]
