-- ===== src/Flow/Table.antt =====
-- The entries of one table of local_resource/pof_flow_table.c: how an entry is filled, inserted,
-- deleted and looked up. A trie holds the addresses of the entries. Words are read from a buffer with
-- the low byte first.
use pofswitch.Base.{
  ℕ, zero, suc, ◌+◌, ◌-◌, ◌*◌, ◌^◌, Bool, true, false, Option, none, some, List, ◌∷◌, ◌==◌, ltb,
  if◌then◌else◌, ◌>>=◌, replicate, u32, ◌>>◌, bit_xor,
}
use pofswitch.Hmap.{Node, Hmap, node_get_with_hash, traverse}
use pofswitch.Hmap
use pofswitch.Tree.{Tree, node_lookup}
use pofswitch.Tree
use pofswitch.Flow.{
  Match, MatchX, bytes_of_bits, key_assemble, value_mask_assemble, mask_match,
  get_1s_count_in_bytes,
}

-- `hmap_hashForUint32`.
unfoldable pub hash_for_uint32 : ℕ → ℕ
hash_for_uint32 value =
    let v = u32 (value + 3 * (value >> 8) + 7 * (value >> 16) + 13 * (value >> 24)) in
    u32 (v * 0x9e3779b9)

abbrev pub word : ℕ → ℕ → ℕ → ℕ → ℕ
word a b c d = a + 2 ^ 8 * b + 2 ^ 16 * c + 2 ^ 24 * d

-- `hmap_hashForBytes` of the first `n` bytes.
unfoldable pub hash_for_bytes : ℕ → List ℕ → ℕ → Option ℕ
hash_for_bytes zero value hash = some hash
hash_for_bytes (suc (suc (suc (suc n)))) (a ∷ b ∷ c ∷ d ∷ value) hash =
    hash_for_bytes n value (bit_xor hash (hash_for_uint32 (word a b c d)))
hash_for_bytes (suc zero) (a ∷ value) hash = some (bit_xor hash (hash_for_uint32 (word a 0 0 0)))
hash_for_bytes (suc (suc zero)) (a ∷ b ∷ value) hash =
    some (bit_xor hash (hash_for_uint32 (word a b 0 0)))
hash_for_bytes (suc (suc (suc zero))) (a ∷ b ∷ c ∷ value) hash =
    some (bit_xor hash (hash_for_uint32 (word a b c 0)))
hash_for_bytes (suc n) value hash = none

-- `struct pof_instruction`, whose parts the tables only copy.
pub record Instruction : Type 0 where
  pub kind : ℕ
  pub len : ℕ
  pub instruction_data : List ℕ

-- `struct pof_flow_entry`, the request, without what the tables do not read.
pub record PofFlowEntry : Type 0 where
  pub match_field_num : ℕ
  pub instruction_num : ℕ
  pub counter_id : ℕ
  pub table_id : ℕ
  pub table_type : ℕ
  pub priority : ℕ
  pub index : ℕ
  pub match : List MatchX
  pub instruction : List Instruction

pub record EntryInfo : Type 0 where
  pub index : ℕ
  pub counter_id : ℕ
  pub instruction_num : ℕ
  pub instruction : List Instruction
  pub priority : ℕ
  pub key_len : ℕ
  pub match_field_num : ℕ
  pub match : List MatchX
  pub value : List ℕ
  pub mask : List ℕ

-- `hmap_create` and `tree_create` may have returned NULL.
pub record TableInfo : Type 0 where
  pub id : ℕ
  pub kind : ℕ
  pub name : List ℕ
  pub entry_map : Option (Hmap EntryInfo)
  pub entry_num : ℕ
  pub size : ℕ
  pub key_len : ℕ
  pub tree : Option Tree
  pub match_field_num : ℕ
  pub match : List Match

abbrev pub mm_table : ℕ
mm_table = 0

abbrev pub lpm_table : ℕ
lpm_table = 1

abbrev pub em_table : ℕ
em_table = 2

abbrev pub linear_table : ℕ
linear_table = 3

-- A zeroed entry with the parts of the request that `entryFill` copies.
abbrev pub copied_entry : PofFlowEntry → EntryInfo
copied_entry pof_entry = record {
  index = pof_entry.index;
  counter_id = pof_entry.counter_id;
  instruction_num = pof_entry.instruction_num;
  instruction = pof_entry.instruction;
  priority = 0;
  key_len = 0;
  match_field_num = pof_entry.match_field_num;
  match = pof_entry.match;
  value = replicate 128 0;
  mask = replicate 128 0;
}

abbrev pub keyed_entry : PofFlowEntry → TableInfo → EntryInfo
keyed_entry pof_entry table = record (copied_entry pof_entry) {
  priority = pof_entry.priority;
  key_len = table.key_len;
}

abbrev pub mask_or : Option (List ℕ) → List ℕ → List ℕ
mask_or none mask = mask
mask_or (some mask') mask = mask'

-- The cases of `entryFill` for the types MM and LPM, and for EM.
unfoldable pub fill_masked : PofFlowEntry → TableInfo → Option (EntryInfo × ℕ × Bool)
fill_masked pof_entry table =
    let entry = keyed_entry pof_entry table in
    value_mask_assemble pof_entry.match_field_num pof_entry.match entry.value (some entry.mask)
      table.key_len
    >>= (λ (value', mask', ok).
        some
          (record entry { value = value'; mask = mask_or mask' entry.mask }, pof_entry.index, ok))

unfoldable pub fill_exact : PofFlowEntry → TableInfo → Option (EntryInfo × ℕ × Bool)
fill_exact pof_entry table =
    let entry = keyed_entry pof_entry table in
    value_mask_assemble pof_entry.match_field_num pof_entry.match entry.value none table.key_len
    >>= (λ (value', mask', ok).
        let filled = record entry { value = value' } in
        if ok
        then hash_for_bytes (bytes_of_bits table.key_len) value' 0
          >>= (λ hash. some (filled, hash, true))
        else some (filled, 0, false))

-- `entryFill` of a zeroed entry: the entry, its hash, and whether it returned POF_OK.
unfoldable pub entry_fill : PofFlowEntry → TableInfo → Option (EntryInfo × ℕ × Bool)
unfolding fill_masked fill_exact
entry_fill pof_entry table =
    if ltb table.kind 2
    then fill_masked pof_entry table
    else if table.kind == em_table
    then fill_exact pof_entry table
    else if table.kind == linear_table
    then some (copied_entry pof_entry, pof_entry.index, true)
    else some (copied_entry pof_entry, 0, true)

-- `lpmInsert` ignores whether memory is given, as `entryInsert` ignores what it returns.
unfoldable pub lpm_insert : (ℕ → Bool) → ℕ → EntryInfo → TableInfo → Option TableInfo
lpm_insert alloc addr entry table = do
  tree ← table.tree
  bit_num ← get_1s_count_in_bytes (bytes_of_bits table.key_len) entry.mask 0
  (tree', ok) ← Tree.node_insert alloc tree addr entry.value bit_num
  some (record table { tree = some tree' })

unfoldable pub lpm_delete : EntryInfo → TableInfo → Option TableInfo
lpm_delete entry table = do
  tree ← table.tree
  bit_num ← get_1s_count_in_bytes (bytes_of_bits table.key_len) entry.mask 0
  (tree', ok) ← Tree.node_delete tree entry.value bit_num
  some (record table { tree = some tree' })

-- The node in the map, and in the trie of an LPM table.
unfoldable pub insert_node : (ℕ → Bool) → Node EntryInfo → TableInfo → Option TableInfo
unfolding lpm_insert
insert_node nodes node table = do
  map ← table.entry_map
  let table' = record table {
    entry_map = some (Hmap.node_insert map node);
    entry_num = u32 (table.entry_num + 1);
  } in
      if table.kind == lpm_table then lpm_insert nodes node.addr node.obj table' else some table'

-- `entryInsert`: the table, and whether it returned POF_OK. `alloc` is the memory for the entry.
unfoldable pub entry_insert :
    Option ℕ → (ℕ → Bool) → PofFlowEntry → TableInfo → Option (TableInfo × Bool)
unfolding insert_node
entry_insert none nodes pof_entry table = some (table, false)
entry_insert (some addr) nodes pof_entry table =
    entry_fill pof_entry table >>= (λ (entry, hash, ok).
      if ok
      then insert_node nodes (record { addr = addr; hash = hash; obj = entry }) table
        >>= (λ table'. some (table', true))
      else some (table, false))

unfoldable pub entry_delete : Node EntryInfo → TableInfo → Option TableInfo
unfolding lpm_delete
entry_delete node table = do
  map ← table.entry_map
  let table' = record table {
    entry_map = some (Hmap.node_delete map node);
    entry_num = u32 (table.entry_num + 2 ^ 32 - 1);
  } in
      if table.kind == lpm_table then lpm_delete node.obj table' else some table'

-- The body of the traversal of `poflr_entry_get_with_index`: the first entry with the index stays.
abbrev pub index_step :
    ℕ
    → Hmap EntryInfo × Option (Node EntryInfo)
    → Node EntryInfo
    → Hmap EntryInfo × Option (Node EntryInfo)
index_step index (map, some found) node = (map, some found)
index_step index (map, none) node = (map, if node.obj.index == index then some node else none)

unfoldable pub entry_get_with_index : ℕ → TableInfo → Option (Option (Node EntryInfo))
entry_get_with_index index table = do
  map ← table.entry_map
  some ((traverse (λ s. s.0) (index_step index) (map, none)).1)

-- The body of `entryLookup_MM`: the first of the matching entries of the highest priority stays; the
-- inner `none` is no match yet.
abbrev pub prefer : Option (Node EntryInfo) → Node EntryInfo → Option (Node EntryInfo)
prefer none node = some node
prefer (some best) node = if ltb best.obj.priority node.obj.priority then some node else some best

abbrev pub mm_step :
    List ℕ
    → ℕ
    → Hmap EntryInfo × Option (Option (Node EntryInfo))
    → Node EntryInfo
    → Hmap EntryInfo × Option (Option (Node EntryInfo))
mm_step key key_len (map, none) node = (map, none)
mm_step key key_len (map, some best) node =
    elim (mask_match node.obj.mask node.obj.value key key_len) [
      | none ↦ (map, none)
      | some false ↦ (map, some best)
      | some true ↦ (map, some (prefer best node))
    ]

unfoldable pub entry_lookup_mm : List ℕ → TableInfo → Option (Option (Node EntryInfo))
entry_lookup_mm key table = do
  map ← table.entry_map
  (traverse (λ s. s.0) (mm_step key table.key_len) (map, some none)).1

unfoldable pub entry_lookup_em : List ℕ → TableInfo → Option (Option (Node EntryInfo))
entry_lookup_em key table = do
  map ← table.entry_map
  hash ← hash_for_bytes (bytes_of_bits table.key_len) key 0
  some (node_get_with_hash map hash)

unfoldable pub entry_lookup_linear : ℕ → TableInfo → Option (Option (Node EntryInfo))
entry_lookup_linear index table = do map ← table.entry_map; some (node_get_with_hash map index)

-- The address of the entry, or NULL.
unfoldable pub entry_lookup_lpm : List ℕ → TableInfo → Option (Option ℕ)
entry_lookup_lpm key table = do tree ← table.tree; node_lookup tree key table.key_len

-- The address of the entry found, or NULL.
abbrev pub address : Option (Option (Node EntryInfo)) → Option (Option ℕ)
address none = none
address (some none) = some none
address (some (some node)) = some (some node.addr)

-- `poflr_entry_lookup`, with whether memory is given for the key: the address of the entry that the
-- packet matches. The pointer that it returns for a table of another type is not set.
unfoldable pub entry_lookup : Bool → List ℕ → List ℕ → TableInfo → Option (Option ℕ)
unfolding entry_lookup_mm entry_lookup_em entry_lookup_lpm
entry_lookup false packet metadata table = some none
entry_lookup true packet metadata table = do
  key ←
      key_assemble packet metadata table.match_field_num table.match
        (replicate (bytes_of_bits table.key_len) 0) 0
  if table.kind == mm_table
      then address (entry_lookup_mm key table)
      else if table.kind == lpm_table
      then entry_lookup_lpm key table
      else if table.kind == em_table
      then address (entry_lookup_em key table)
      else none
