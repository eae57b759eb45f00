-- ===== src/Flow/Tests.antt =====
-- A table that matches on 16 bits of the packet and 8 bits of the metadata, and the theorems at it.
use pofswitch.Base.{
  Option, ◌%◌, ◌^◌, ◌≤◌, zero, suc, get_or, none, ℕ, ◌<◌, ◌≡◌, ◌↔◌, sym, ◌∙◌, refl, inr, Bool, true,
  some, List, [], ◌∷◌, arith, ◌==◌, length,
}
use pofswitch.Field.Bits.{are_bytes-IsBytes}
use pofswitch.Flow.Masked.{Comparable, IsBest, entry_lookup_mm-IsBest}
use pofswitch.Hmap.{Node, Hmap, node_get_with_hash, create, buckets_num, node_insert}
use mathlib.Core.Path.{subst}
use pofswitch.Error.{fault}
use pofswitch.Tree.{null, node}
use pofswitch.Hmap.Chain.{All, DistinctAddrs}
use pofswitch.Hmap.Invariant.{IsHmap}
use pofswitch.Hmap.Visit.{flatten}
use pofswitch.Flow.{
  bytes_of_bits, Match, MatchX, value_mask_assemble, mask_match, mask_match_bytes,
  table_id_to_global, table_global_to_id, add_sizes,
}
use pofswitch.Flow.Entry.{IsAssembled, lengths, value_mask_assemble-IsAssembled}
use pofswitch.Flow.Created.{
  some_eq, IsSlot, IsRefined, Implements, create_spec, delete_spec, create_flow_table-refines,
  delete_flow_table-refines,
}
use pofswitch.Flow.Exact.{two_words, entry_lookup_em-exchanged}
use pofswitch.Flow.Table.{TableInfo, EntryInfo, entry_lookup_em, entry_lookup_mm}
use pofswitch.Flow.Tables.{
  Slot, Memory, PofFlowTable, create_flow_table, delete_flow_table, with_table, get_table_with_id,
  free_entries,
}
use pofswitch.Resource.Created.{init-IsStep, init-IsNew}
use pofswitch.Resource.Steps.{init, insert, get_with_id}
use pofswitch.Resource.Valid.{IsRegistry, IsNew, view, insert-IsStep}
use pofswitch.Flow.Mask.{Agree, mask_match-Agree}
use pofswitch.Flow.Number.{table_global_to_id-table_id_to_global}

abbrev packet : List ℕ
packet = 0x12 ∷ 0x34 ∷ 0x56 ∷ 0x78 ∷ []

abbrev metadata : List ℕ
metadata = 0x9a ∷ 0xbc ∷ 0xde ∷ []

abbrev packet_field : Match
packet_field = record { field_id = 1; offset = 4; len = 16 }

abbrev metadata_field : Match
metadata_field = record { field_id = 0xffff; offset = 0; len = 8 }

abbrev fields : List Match
fields = packet_field ∷ metadata_field ∷ []

abbrev zeros : List ℕ
zeros = 0 ∷ 0 ∷ 0 ∷ []

abbrev match : List MatchX
match =
    record { field = packet_field; value = 0x23 ∷ 0x45 ∷ 0 ∷ []; mask = 0xff ∷ 0xf0 ∷ 0 ∷ [] }
    ∷ record { field = metadata_field; value = 0x9a ∷ 0 ∷ []; mask = 0xff ∷ 0 ∷ [] }
    ∷ []

value_mask_assemble-IsAssembled_example :
    (value' mask' : List ℕ) × (value_mask_assemble 2 match zeros (some zeros) 24
      ≡ some (value', some mask', lengths 2 match == 24))
    × IsAssembled 2 match 0 zeros zeros value' mask'
value_mask_assemble-IsAssembled_example =
    value_mask_assemble-IsAssembled 2 match zeros zeros 24 (omega arith) refl (
      omega arith,
      inr (omega arith),
      (are_bytes-IsBytes (0x23 ∷ 0x45 ∷ 0 ∷ []) refl, omega arith, λ j h l. absurd (omega arith)),
      (are_bytes-IsBytes (0xff ∷ 0xf0 ∷ 0 ∷ []) refl, omega arith, λ j h l. absurd (omega arith)),
      omega arith,
      (
        omega arith,
        inr (omega arith),
        (are_bytes-IsBytes (0x9a ∷ 0 ∷ []) refl, omega arith, λ j h l. absurd (omega arith)),
        (are_bytes-IsBytes (0xff ∷ 0 ∷ []) refl, omega arith, λ j h l. absurd (omega arith)),
        omega arith,
        omega arith,
      ),
    )

abbrev key : List ℕ
key = 0x23 ∷ 0x4f ∷ 0x9a ∷ []

abbrev value : List ℕ
value = 0x23 ∷ 0x45 ∷ 0x9a ∷ []

abbrev mask : List ℕ
mask = 0xff ∷ 0xf0 ∷ 0xff ∷ []

mask_match_test : mask_match mask value key 24 ≡ some true
unfolding mask_match mask_match_bytes
mask_match_test = refl

mask_match-Agree_example :
    (b : Bool) × (mask_match mask value key 24 ≡ some b) × ((b ≡ true) ↔ Agree 3 mask value key)
mask_match-Agree_example =
    mask_match-Agree mask value key 24 (are_bytes-IsBytes mask refl) (omega arith) (omega arith)
      (omega arith)

abbrev sizes : List ℕ
sizes = 10 ∷ 20 ∷ 30 ∷ 40 ∷ []

table_id_to_global_test : table_id_to_global sizes 2 5 ≡ some 35
unfolding table_id_to_global add_sizes
table_id_to_global_test = refl

table_global_to_id-table_id_to_global_example :
    (global : ℕ) × (table_id_to_global sizes 2 5 ≡ some global)
    × (global < 256)
    × (table_global_to_id sizes global ≡ some (2, 5))
table_global_to_id-table_id_to_global_example =
    table_global_to_id-table_id_to_global sizes 2 5 (omega arith) (omega arith) (omega arith)

-- A slot with one table of each type.
slot : Slot
slot = record {
  resource = record {
    slot_id = 0;
    groups = record { map = none; num_max = 0; num = 0 };
    meters = record { map = none; num_max = 0; num = 0 };
    counters = record { map = none; num_max = 0; num = 0 };
  };
  tables = init true true (record { map = none; num_max = 4; num = 0 });
  num_max_each_type = 1 ∷ 1 ∷ 1 ∷ 1 ∷ [];
  size_max = 100;
  key_len_each_type = 160 ∷ 160 ∷ 160 ∷ 160 ∷ [];
}

slot-IsSlot : IsSlot slot
unfolding slot
slot-IsSlot = record {
  tables =
      (init-IsStep TableInfo.id 2 (record { map = none; num_max = 4; num = 0 }) (omega arith)
        (omega arith) (omega arith) refl).keeps;
  four_types = refl;
  total = unfold init in refl;
  byte = unfold init in omega arith;
  few = unfold init in omega arith;
}

slot-IsNew : (a : ℕ) → IsNew a slot.tables
unfolding slot
slot-IsNew a = init-IsNew a true true (record { map = none; num_max = 4; num = 0 })

memory : Memory
memory = record { table = some 256; map = true; buckets = true; tree = true; root = true }

new_request : PofFlowTable
new_request = record {
  id = 0;
  kind = 1;
  key_len = 24;
  size = 10;
  name = 0x61 ∷ 0x62 ∷ 0 ∷ 0x63 ∷ [];
  match_field_num = 2;
  match = fields;
}

create_flow_table-refines_example :
    IsRefined slot
      (create_flow_table memory new_request slot)
      (create_spec memory new_request slot (view slot.tables))
create_flow_table-refines_example =
    create_flow_table-refines slot slot-IsSlot memory new_request (λ a e. slot-IsNew a)
      (inr (unfold new_request in omega arith)) (unfold new_request in omega arith)
      (unfold new_request in omega arith)

-- The slot with a table of longest prefixes, which has no entries.
abbrev prefix_table : TableInfo
prefix_table = record {
  id = 1;
  kind = 1;
  name = [];
  entry_map = some (record { buckets = [] ∷ []; mask = 0; n = 0 });
  entry_num = 0;
  size = 1;
  key_len = 8;
  tree = some (record { root = node none null null; count = 0 });
  match_field_num = 0;
  match = [];
}

abbrev prefix_node : Node TableInfo
prefix_node = record { addr = 256; hash = 1; obj = prefix_table }

abbrev holding : Slot
holding = record slot {
  tables = record {
    map = some (record { buckets = [] ∷ (prefix_node ∷ []) ∷ [] ∷ [] ∷ []; mask = 3; n = 1 });
    num_max = 4;
    num = 1;
  };
}

holding-tables : IsRegistry TableInfo.id holding.tables
unfolding slot init insert get_with_id node_get_with_hash create buckets_num node_insert
holding-tables =
    let (r, runs, step, _) =
      insert-IsStep TableInfo.id slot.tables slot-IsSlot.tables prefix_node refl (slot-IsNew 256)
        (omega arith) refl (omega arith) in
    subst (λ t. IsRegistry TableInfo.id t) (some_eq r holding.tables (sym runs ∙ inserted))
      step.keeps
  where
    inserted : insert prefix_node slot.tables ≡ some holding.tables
    inserted = refl

holding-IsSlot : IsSlot holding
unfolding slot
holding-IsSlot = record {
  tables = holding-tables;
  four_types = refl;
  total = refl;
  byte = omega arith;
  few = omega arith;
}

delete_flow_table-refines_example :
    Implements holding
      (delete_flow_table 0 1 holding)
      (delete_spec 0 1 holding (view holding.tables))
delete_flow_table-refines_example = delete_flow_table-refines holding holding-IsSlot 0 1

-- The same table when memory was lacking for its trie.
abbrev torn : Slot
torn = record holding {
  tables = record (holding.tables) {
    map = some (record {
      buckets =
          []
          ∷ (record prefix_node { obj = record prefix_table { tree = none } } ∷ [])
          ∷ []
          ∷ []
          ∷ [];
      mask = 3;
      n = 1;
    });
  };
}

torn_test : delete_flow_table 0 1 torn ≡ fault
unfolding slot delete_flow_table with_table table_id_to_global add_sizes get_table_with_id
    get_with_id node_get_with_hash free_entries
torn_test = refl

exact_table : TableInfo
exact_table = record {
  id = 2;
  kind = 2;
  name = [];
  entry_map = some (record { buckets = [] ∷ []; mask = 0; n = 0 });
  entry_num = 0;
  size = 1;
  key_len = 64;
  tree = none;
  match_field_num = 0;
  match = [];
}

exact_key_len : exact_table.key_len ≡ 64
unfolding exact_table
exact_key_len = refl

entry_lookup_em-exchanged_example :
    entry_lookup_em (two_words 1 2 3 4 5 6 7 8) exact_table
    ≡ entry_lookup_em (two_words 5 6 7 8 1 2 3 4) exact_table
entry_lookup_em-exchanged_example =
    entry_lookup_em-exchanged exact_table 1 2 3 4 5 6 7 8 exact_key_len

entry : EntryInfo
entry = record {
  index = 0;
  counter_id = 0;
  instruction_num = 0;
  instruction = [];
  priority = 7;
  key_len = 24;
  match_field_num = 2;
  match = match;
  value = value;
  mask = mask;
}

entry_node : Node EntryInfo
entry_node = record { addr = 512; hash = 0; obj = entry }

one_entry : Hmap EntryInfo
one_entry = record { buckets = (entry_node ∷ []) ∷ []; mask = 0; n = 1 }

one_entry-IsHmap : IsHmap 0 one_entry
unfolding one_entry entry_node
one_entry-IsHmap = record {
  masked = refl;
  sized = refl;
  placed = placed;
  addrs = addrs;
  counted = refl;
}
  where
    placed : (i : ℕ) → All (λ x. x.hash % 2 ^ 0 ≡ i) (get_or one_entry.buckets i [])
    placed zero = (refl, tt)
    placed (suc i) = tt

    addrs : (i : ℕ) → DistinctAddrs (get_or one_entry.buckets i [])
    addrs zero = (tt, tt)
    addrs (suc i) = tt

masked_table : TableInfo
masked_table = record {
  id = 0;
  kind = 0;
  name = [];
  entry_map = some one_entry;
  entry_num = 1;
  size = 1;
  key_len = 24;
  tree = none;
  match_field_num = 2;
  match = fields;
}

masked_map : masked_table.entry_map ≡ some one_entry
unfolding masked_table
masked_map = refl

masked_key : bytes_of_bits masked_table.key_len ≤ length key
unfolding masked_table
masked_key = omega arith

one_entry-Comparable : All (Comparable key masked_table.key_len) (flatten one_entry.buckets)
unfolding masked_table one_entry entry_node entry
one_entry-Comparable = ((are_bytes-IsBytes mask refl, omega arith, omega arith), tt)

entry_lookup_mm-IsBest_example :
    (best : Option (Node EntryInfo)) × (entry_lookup_mm key masked_table ≡ some best)
    × IsBest key masked_table.key_len (flatten one_entry.buckets) none best
entry_lookup_mm-IsBest_example =
    entry_lookup_mm-IsBest 0 one_entry masked_table key masked_map one_entry-IsHmap masked_key
      one_entry-Comparable
