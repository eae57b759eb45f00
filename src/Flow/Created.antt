-- ===== src/Flow/Created.antt =====
-- The creation and the deletion of a table as operations on a finite map from global numbers.
use pofswitch.Base.{
  ℕ, zero, suc, ◌+◌, ◌-◌, ◌^◌, ◌≤◌, ◌<◌, ◌≡◌, refl, sym, ap, ◌∙◌, inl, inr, false, Option, none,
  some, List, [], ◌∷◌, arith, length, get_or, ◌==◌, ltb, leb, if◌then◌else◌, Bool-cases,
  Option-cases, u16, u32,
}
use pofswitch.Error.{
  Ret, Outcome, done, fault, pof_ok, failed, software_failed, TableModCode, SoftCode,
}
use pofswitch.Hmap.{Node, node_insert, node_delete}
use pofswitch.Flow.Asked.{
  IsName, asked_table, is_whole, strncpy_lem, copy_fields_lem, free_entries-cases,
}
use pofswitch.Flow.{table_id_to_global}
use pofswitch.Flow.Number.{before, table_id_to_global-before}
use pofswitch.Flow.Table.{TableInfo}
use pofswitch.Flow.Tables.{
  Slot, Memory, PofFlowTable, table_error, map_table_insert, map_table_delete, get_table_with_id,
  with_table, fill_table, create_flow_table, delete_flow_table,
}
use pofswitch.Resource.{Registry}
use pofswitch.Resource.Steps.{insert, delete}
use pofswitch.Resource.Refines.{is_some}
use pofswitch.Resource.Valid.{
  IsRegistry, IsStep, IsNew, view, lookup-cases, insert-IsStep, delete-IsStep,
}

before_le :
    (n : ℕ) (sizes : List ℕ)
    → n < length sizes
    → before n sizes + get_or sizes n 0 ≤ before (length sizes) sizes
before_le n [] h = absurd (omega arith)
before_le zero (m ∷ sizes) h = omega arith
before_le (suc n) (m ∷ sizes) h = omega (arith, before_le n sizes (omega arith))

pub some_eq : {A : Type 0} (a b : A) → some a ≡ some b → a ≡ b
some_eq a b e = cc

-- The steps on the numbered map, with their 16-bit number.
map_table_insert_lem :
    (node : Node TableInfo) (slot : Slot) (r : Registry TableInfo)
    → IsRegistry TableInfo.id slot.tables
    → slot.tables.num + 1 < 2 ^ 16
    → insert node slot.tables ≡ some r
    → map_table_insert node slot ≡ some (record slot { tables = r })
unfolding map_table_insert insert
map_table_insert_lem node slot r v w e =
    let num_eq : u16 (slot.tables.num + 1) ≡ u32 (slot.tables.num + 1) = omega arith in
    let made : Registry TableInfo = record (slot.tables) {
      map = some (node_insert v.map node);
      num = u32 (slot.tables.num + 1);
    } in
    let runs : insert node slot.tables ≡ some made = rw v.stands refl in
    rw v.stands (
      ap
        (λ n. some (record slot {
          tables = record (slot.tables) { map = some (node_insert v.map node); num = n };
        }))
        num_eq
      ∙ ap (λ t. some (record slot { tables = t })) (some_eq made r (sym runs ∙ e)))

map_table_delete_lem :
    (node : Node TableInfo) (slot : Slot) (r : Registry TableInfo)
    → IsRegistry TableInfo.id slot.tables
    → 0 < slot.tables.num
    → slot.tables.num < 2 ^ 16
    → delete node slot.tables ≡ some r
    → map_table_delete node slot ≡ some (record slot { tables = r })
unfolding map_table_delete delete
map_table_delete_lem node slot r v p w e =
    let num_eq : u16 (slot.tables.num + 2 ^ 16 - 1) ≡ u32 (slot.tables.num + 2 ^ 32 - 1) =
      omega arith in
    let made : Registry TableInfo = record (slot.tables) {
      map = some (node_delete v.map node);
      num = u32 (slot.tables.num + 2 ^ 32 - 1);
    } in
    let runs : delete node slot.tables ≡ some made = rw v.stands refl in
    rw v.stands (
      ap
        (λ n. some (record slot {
          tables = record (slot.tables) { map = some (node_delete v.map node); num = n };
        }))
        num_eq
      ∙ ap (λ t. some (record slot { tables = t })) (some_eq made r (sym runs ∙ e)))

abbrev pub TableTable : Type 0
TableTable = ℕ → Option TableInfo

abbrev pub global_of : Slot → ℕ → ℕ → ℕ
global_of slot kind id = before kind slot.num_max_each_type + id

-- The specifications: what an operation returns and the finite map that it leaves, or `none` for an
-- access through NULL.
abbrev pub create_spec : Memory → PofFlowTable → Slot → TableTable → Ret × TableTable
create_spec memory req slot t =
    let g = global_of slot req.kind req.id in
    if leb 4 req.kind
    then (table_error TableModCode.bad_table_type, t)
    else if leb (get_or slot.num_max_each_type req.kind 0) req.id
    then (table_error TableModCode.bad_table_id, t)
    else if is_some (t g)
    then (table_error TableModCode.table_exist, t)
    else if ltb slot.size_max req.size
    then (table_error TableModCode.bad_table_size, t)
    else if ltb (get_or slot.key_len_each_type req.kind 0) req.key_len
    then (table_error TableModCode.bad_key_len, t)
    else if is_some memory.table
    then (pof_ok, λ x. if g == x then some (asked_table memory req g) else t x)
    else (failed (software_failed SoftCode.allocate_resource_failure), t)

abbrev pub delete_spec : ℕ → ℕ → Slot → TableTable → Option (Ret × TableTable)
delete_spec id kind slot t =
    let g = global_of slot kind id in
    if leb 4 kind
    then some (table_error TableModCode.bad_table_type, t)
    else if leb (get_or slot.num_max_each_type kind 0) id
    then some (table_error TableModCode.bad_table_id, t)
    else elim (t g) [
      | none ↦ some (table_error TableModCode.table_unexist, t)
      | some table ↦
          if table.entry_num == 0
          then if is_whole table then some (pof_ok, λ x. if g == x then none else t x) else none
          else some (table_error TableModCode.table_unempty, t)
    ]

-- Valid tables of four types, whose global numbers fit in a byte.
pub record IsSlot (slot : Slot) : Type 0 where
  pub tables : IsRegistry TableInfo.id slot.tables
  pub four_types : length slot.num_max_each_type ≡ 4
  pub total : before (length slot.num_max_each_type) slot.num_max_each_type ≡ slot.tables.num_max
  pub byte : slot.tables.num_max ≤ 256
  pub few : slot.tables.num + 1 < 2 ^ 16

-- The operation ends, with the value and the finite map of tables that are given; the tables that it
-- leaves are valid, and nothing else is touched.
pub record IsRefined (slot : Slot) (out : Outcome Slot) (spec : Ret × TableTable) : Type 0 where
  pub after : Slot
  pub runs : out ≡ done (spec.0) after
  pub step : IsStep TableInfo.id slot.tables after.tables (spec.1)
  pub frame : after ≡ record slot { tables = after.tables }

-- The operation does what the specification says, or ends in the access that it says.
abbrev pub Implements : Slot → Outcome Slot → Option (Ret × TableTable) → Type 0
Implements slot out none = out ≡ fault
Implements slot out (some spec) = IsRefined slot out spec

module _ (slot : Slot) (v : IsSlot slot) where
  stays :
      (out : Outcome Slot) (ret : Ret)
      → out ≡ done ret slot
      → IsRefined slot out (ret, view slot.tables)
  stays out ret runs = record {
    after = slot;
    runs = runs;
    step = record { keeps = v.tables; views = λ g. refl; same_max = refl };
    frame = refl;
  }

  moves :
      (out : Outcome Slot) (r : Registry TableInfo) (t : TableTable)
      → out ≡ done pof_ok (record slot { tables = r })
      → IsStep TableInfo.id slot.tables r t
      → IsRefined slot out (pof_ok, t)
  moves out r t runs s = record {
    after = record slot { tables = r };
    runs = runs;
    step = s;
    frame = refl;
  }

  numbered :
      (kind id : ℕ)
      → leb 4 kind ≡ false
      → leb (get_or slot.num_max_each_type kind 0) id ≡ false
      → (table_id_to_global slot.num_max_each_type kind id ≡ some (global_of slot kind id))
        × (global_of slot kind id < slot.tables.num_max)
  numbered kind id e f =
      let inside : kind < length slot.num_max_each_type = ground (arith, v.four_types) in
      let small : id < get_or slot.num_max_each_type kind 0 = ground arith in
      let below : global_of slot kind id < slot.tables.num_max =
        omega (arith, before_le kind slot.num_max_each_type inside, v.total) in
      (
        table_id_to_global-before slot.num_max_each_type kind id inside (omega (arith, v.byte)),
        below,
      )

  -- `poflr_delete_flow_table` on valid tables returns and leaves what `delete_spec` says; an empty table
  -- whose map of entries, or whose trie, is missing ends in an access through NULL.
  pub delete_flow_table-refines :
      (id kind : ℕ)
      → Implements slot
          (delete_flow_table id kind slot)
          (delete_spec id kind slot (view slot.tables))
  unfolding delete_flow_table with_table get_table_with_id
  delete_flow_table-refines id kind = elim (Bool-cases (leb 4 kind)) [
    | inl e ↦ rw e (stays _ _ refl)
    | inr e ↦ elim (Bool-cases (leb (get_or slot.num_max_each_type kind 0) id)) [
      | inl f ↦ rw (e, f) (stays _ _ refl)
      | inr f ↦
          let (number, below) = numbered kind id e f in
          elim (lookup-cases TableInfo.id slot.tables v.tables (global_of slot kind id)) [
            | inl (absent, unseen) ↦ rw (e, f, number, absent, unseen) (stays _ _ refl)
            | inr (node, found) ↦ elim (Bool-cases (node.obj.entry_num == 0)) [
              | inr g ↦ rw (e, f, number, found.gets, found.viewed, g) (stays _ _ refl)
              | inl g ↦ elim (free_entries-cases (node.obj)) [
                | inl (lost, torn) ↦ rw (e, f, number, found.gets, found.viewed, g, lost, torn) refl
                | inr (freed, whole) ↦
                    let (r, runs, step, less) =
                      delete-IsStep TableInfo.id slot.tables v.tables (global_of slot kind id) node
                        found in
                    rw (e, f, number, found.gets, found.viewed, g, freed, whole)
                      (moves _ r _
                        (rw
                          (map_table_delete_lem node slot r v.tables (omega (arith, less))
                            (omega (arith, v.few)) runs)
                          refl)
                        step)
              ]
            ]
          ]
    ]
  ]

  -- `poflr_create_flow_table` on valid tables, of a request whose name is 64 characters or ends in a NUL
  -- and whose fields, all of them given, fit in the array of the table, with memory for the table at a new address if any, returns and leaves what `create_spec` says.
  pub create_flow_table-refines :
      (memory : Memory) (req : PofFlowTable)
      → ((a : ℕ) → memory.table ≡ some a → IsNew a slot.tables)
      → IsName 64 req.name
      → req.match_field_num ≤ 8
      → req.match_field_num ≤ length req.match
      → IsRefined slot
          (create_flow_table memory req slot)
          (create_spec memory req slot (view slot.tables))
  unfolding create_flow_table with_table get_table_with_id fill_table
  create_flow_table-refines memory req new is_name eight given =
      elim (Bool-cases (leb 4 req.kind)) [
        | inl e ↦ rw e (stays _ _ refl)
        | inr e ↦ elim (Bool-cases (leb (get_or slot.num_max_each_type req.kind 0) req.id)) [
          | inl f ↦ rw (e, f) (stays _ _ refl)
          | inr f ↦
              let (number, below) = numbered req.kind req.id e f in
              let g = global_of slot req.kind req.id in
              elim (lookup-cases TableInfo.id slot.tables v.tables g) [
                | inr (node, found) ↦ rw (e, f, number, found.gets, found.viewed) (stays _ _ refl)
                | inl (absent, unseen) ↦ elim (Bool-cases (ltb slot.size_max req.size)) [
                  | inl h ↦ rw (e, f, number, absent, unseen, h) (stays _ _ refl)
                  | inr h ↦
                      elim (Bool-cases
                        (ltb (get_or slot.key_len_each_type req.kind 0) req.key_len)) [
                          | inl i ↦ rw (e, f, number, absent, unseen, h, i) (stays _ _ refl)
                          | inr i ↦ elim (Option-cases memory.table) [
                            | inl j ↦ rw (e, f, number, absent, unseen, h, i, j) (stays _ _ refl)
                            | inr (a, j) ↦
                                let named = strncpy_lem 64 64 req.name (omega arith) is_name in
                                let copied =
                                  copy_fields_lem req.match_field_num 8 req.match eight given in
                                let table = asked_table memory req g in
                                let node : Node TableInfo = record {
                                  addr = a;
                                  hash = g;
                                  obj = table;
                                } in
                                let (r, runs, step, _) =
                                  insert-IsStep TableInfo.id slot.tables v.tables node absent
                                    (new a j) (omega (arith, v.few)) refl below in
                                rw (e, f, number, absent, unseen, h, i, j, named, copied)
                                  (moves _ r _
                                    (rw (map_table_insert_lem node slot r v.tables v.few runs) refl)
                                    step)
                          ]
                        ]
                ]
              ]
        ]
      ]
