-- ===== src/Datapath/Instructions.antt =====
-- datapath/pof_instruction.c: the instructions, but for the one that applies actions. An instruction
-- reads its operands from the bytes of its data.
use pofswitch.Base.{
  ℕ, zero, suc, ◌+◌, ◌-◌, ◌*◌, ◌^◌, true, Option, none, some, List, [], ◌∷◌, ◌==◌, ltb,
  if◌then◌else◌, ◌>>=◌, u16, u32, replicate, take, drop, get_or, bit_and, bit_or, bit_xor, ◌<<◌,
  ◌>>◌,
}
use pofswitch.ByteOrder.{load16, load32}
use pofswitch.Error.{
  Outcome, done, fault, and_then, pof_ok, failed, meter_mod_failed, MeterModCode, bad_instruction,
  bad_action_inst, SoftCode, BadInstructionCode,
}
use pofswitch.Field.{copy_bit}
use pofswitch.Hmap.{Node}
use pofswitch.Flow.{table_id_to_global, table_global_to_id}
use pofswitch.Flow.Table.{EntryInfo, TableInfo, linear_table, entry_lookup, entry_lookup_linear}
use pofswitch.Flow.Tables.{get_table_with_id}
use pofswitch.Resource.Counter.{counter_increase}
use pofswitch.Resource.Meter.{get_meter_with_id}
use pofswitch.Resource.Steps.{or_fault}
use pofswitch.Datapath.{Packet, Machine, World, read, soft_error, window, cover_metadata, rel_len}
use pofswitch.Datapath.Value.{
  load_match, get_32value, get_32value_from_field, write_32value_to_field,
}
use pofswitch.Datapath.Move.{move_packet_buf_offset, ins_jump, instruction_update}
use pofswitch.Datapath.Send.{send_packet_in, whole_packet}
use pofswitch.Datapath.Actions.{put_packet, on_packet, on_resource}

abbrev pub instructed : Machine → Packet → Outcome Machine
instructed m p = done pof_ok (record m { packet = instruction_update p })

abbrev pub inst_error : BadInstructionCode → Machine → Outcome Machine
inst_error code m = done (failed (bad_instruction code)) m

abbrev pub table_error : BadInstructionCode → Machine → Outcome Machine
table_error code m = done (failed (bad_action_inst code)) m

-- `execute_METER`.
unfoldable pub execute_meter : List ℕ → Machine → Outcome Machine
execute_meter p m = or_fault (get_meter_with_id (load32 p 0) m.slot.resource) (λ found. elim found [
  | none ↦ done (failed (meter_mod_failed MeterModCode.unknown_meter)) m
  | some meter ↦ instructed m (record (m.packet) { rate = meter.obj.rate })
])

-- `execute_WRITE_METADATA`.
unfoldable pub execute_write_metadata : List ℕ → Machine → Outcome Machine
execute_write_metadata p m =
    or_fault (cover_metadata (drop 4 p) (load16 p 0) (load16 p 2) m.packet) (instructed m)

-- `execute_WRITE_METADATA_FROM_PACKET`.
unfoldable pub execute_write_metadata_from_packet : List ℕ → Machine → Outcome Machine
execute_write_metadata_from_packet p m =
    let len = load16 p 4 in
    if ltb (m.packet.left_len * 8) (len + load16 p 2)
    then soft_error SoftCode.packet_len_error m
    else or_fault (copy_bit (some (window m.packet)) (replicate 128 0) (load16 p 2) len)
        (λ v. or_fault (cover_metadata v (load16 p 0) len m.packet) (instructed m))

-- The structure that a pointer to a node of the map points to.
abbrev in_bucket : {A : Type 0} → ℕ → List (Node A) → Option A → Option A
in_bucket addr [] rest = rest
in_bucket addr (x ∷ xs) rest = if x.addr == addr then some (x.obj) else in_bucket addr xs rest

abbrev in_buckets : {A : Type 0} → ℕ → List (List (Node A)) → Option A
in_buckets addr [] = none
in_buckets addr (b ∷ bs) = in_bucket addr b (in_buckets addr bs)

unfoldable pub entry_at : ℕ → TableInfo → Option EntryInfo
entry_at addr table = do map ← table.entry_map; in_buckets addr map.buckets

-- The instructions of the matched entry are the next to be executed.
abbrev pub load_entry : EntryInfo → Packet → Packet
load_entry entry p = record p {
  ins_array = entry.instruction;
  ins = 0;
  ins_todo_num = entry.instruction_num;
  ins_done_num = 0;
}

abbrev pub on_done : Outcome Machine → (Machine → Machine) → Outcome Machine
on_done (done r m) f = done r (f m)
on_done fault f = fault

-- `pofdp_entry_nomatch` in the configuration POF_NOMATCH_PACKET_IN; POFR_NO_MATCH is 0.
unfoldable pub entry_nomatch : World → Machine → Outcome Machine
entry_nomatch w m =
    or_fault (table_id_to_global m.slot.num_max_each_type m.packet.table_type m.packet.table_id)
      (λ table_id. send_packet_in w (whole_packet m.packet) 0 table_id m)

abbrev finished : Machine → Machine
finished m = record m { packet = record (m.packet) { packet_done = true } }

abbrev pub loaded : EntryInfo → Machine → Machine
loaded entry m = record m { packet = load_entry entry (m.packet) }

-- The count of a matched packet.
abbrev pub count_entry : EntryInfo → Machine → Outcome Machine
count_entry entry m =
    on_resource m (counter_increase m.spare entry.counter_id (rel_len m.packet) m.slot.resource)

-- The lookup of `execute_GOTO_TABLE`, whose two branches go on after an error and then return it.
unfoldable pub match_table : World → TableInfo → Machine → Outcome Machine
unfolding entry_nomatch
match_table w table m =
    or_fault (entry_lookup w.memory (window m.packet) m.packet.metadata table) (λ found.
      elim found [
        | none ↦ on_done (entry_nomatch w m) finished
        | some addr ↦
            or_fault (entry_at addr table) (λ entry. on_done (count_entry entry m) (loaded entry))
      ])

-- The movement and the numbers of the table, with which both table instructions begin.
unfoldable pub enter_table : ℕ → ℕ → Machine → (Machine → Outcome Machine) → Outcome Machine
enter_table table_id packet_offset m rest =
    and_then (on_packet m (move_packet_buf_offset (u16 packet_offset) m.packet)) (λ m'.
      elim (table_global_to_id m'.slot.num_max_each_type table_id) [
        | none ↦ soft_error SoftCode.bad_table_id m'
        | some (type, id) ↦
            rest (put_packet m' (record (m'.packet) { table_type = type; table_id = id }))
      ])

-- `execute_GOTO_TABLE`: behind the numbers of the table, and as a whole.
unfoldable pub goto_next : World → List ℕ → Machine → Outcome Machine
unfolding match_table
goto_next w p m = or_fault (get_table_with_id (get_or p 0 0) m.slot) (λ found. elim found [
  | none ↦ table_error BadInstructionCode.bad_table_id m
  | some table ↦ match_table w table.obj m
])

unfoldable pub execute_goto_table : World → List ℕ → Machine → Outcome Machine
unfolding enter_table goto_next
execute_goto_table w p m = enter_table (get_or p 0 0) (load16 p 2) m (goto_next w p)

-- The part of `execute_GOTO_DIRECT_TABLE` that follows the reading of the index.
unfoldable pub direct_entry : ℕ → TableInfo → Machine → Outcome Machine
direct_entry index table m =
    if m.packet.table_type == linear_table
    then or_fault (entry_lookup_linear index table) (λ found. elim found [
      | none ↦ table_error BadInstructionCode.entry_unexist m
      | some entry ↦ and_then (count_entry entry.obj m) (λ m'. done pof_ok (loaded entry.obj m'))
    ])
    else table_error BadInstructionCode.bad_table_type m

-- `execute_GOTO_DIRECT_TABLE`: behind the numbers of the table, and as a whole. The local variable
-- that takes the index is not initialised.
unfoldable pub goto_direct_next : World → List ℕ → Machine → Outcome Machine
unfolding direct_entry
goto_direct_next w p m = read (get_32value (take 4 w.junk) (get_or p 1 0) p 8 m.packet) m (λ index.
    or_fault (get_table_with_id (get_or p 0 0) m.slot) (λ found. elim found [
      | none ↦ table_error BadInstructionCode.bad_table_id m
      | some table ↦ direct_entry index table.obj m
    ]))

unfoldable pub execute_goto_direct_table : World → List ℕ → Machine → Outcome Machine
unfolding enter_table goto_direct_next
execute_goto_direct_table w p m = enter_table (get_or p 0 0) (load16 p 2) m (goto_direct_next w p)

-- The three jumps of `execute_CONDITIONAL_JMP`: where the type, the direction and the offset stand.
abbrev jump_at : ℕ → ℕ → ℕ × ℕ × ℕ
jump_at value1 value2 =
    if ltb value1 value2 then (2, 1, 24) else if value1 == value2 then (4, 3, 32) else (6, 5, 40)

-- `execute_CONDITIONAL_JMP`.
unfoldable pub execute_conditional_jmp : World → List ℕ → Machine → Outcome Machine
execute_conditional_jmp w p m =
    let tmp = take 4 w.junk in
    read (get_32value_from_field tmp (load_match p 8) m.packet) m (λ value1.
      read (get_32value tmp (get_or p 0 0) p 16 m.packet) m (λ value2.
        let (type, direction, at) = jump_at value1 value2 in
        read (get_32value tmp (get_or p type 0) p at m.packet) m
          (λ offset. on_packet m (ins_jump (get_or p direction 0) offset m.packet))))

-- The functions `calculate_..` by their number; a shift by 32 bits or more is undefined.
unfoldable pub calculate : ℕ → ℕ → ℕ → Option (Option ℕ)
calculate zero v operand = some (some (u32 (v + operand)))
calculate (suc zero) v operand = some (some (u32 (v + 2 ^ 32 - operand)))
calculate (suc (suc zero)) v operand =
    if ltb operand 32 then some (some (u32 (v << operand))) else none
calculate (suc (suc (suc zero))) v operand =
    if ltb operand 32 then some (some (v >> operand)) else none
calculate (suc (suc (suc (suc zero)))) v operand = some (some (bit_and v operand))
calculate (suc (suc (suc (suc (suc zero))))) v operand = some (some (bit_or v operand))
calculate (suc (suc (suc (suc (suc (suc zero)))))) v operand = some (some (bit_xor v operand))
calculate (suc (suc (suc (suc (suc (suc (suc zero))))))) v operand =
    some (some (2 ^ 32 - 1 - bit_or v operand))
calculate (suc (suc (suc (suc (suc (suc (suc (suc n)))))))) v operand = some none

-- `execute_CALCULATE_FIELD`.
unfoldable pub execute_calculate_field : World → List ℕ → Machine → Outcome Machine
unfolding calculate
execute_calculate_field w p m =
    let tmp = take 4 w.junk in
    read (get_32value_from_field tmp (load_match p 8) m.packet) m (λ value1.
      read (get_32value tmp (get_or p 2 0) p 16 m.packet) m (λ operand.
        or_fault (calculate (load16 p 0) value1 operand) (λ result. elim result [
          | none ↦ inst_error BadInstructionCode.unknown_inst m
          | some v ↦ read (write_32value_to_field v (load_match p 8) m.packet) m (instructed m)
        ])))

-- The movement as an `int16_t`; direction 0 is forward.
abbrev pub movement : ℕ → ℕ → ℕ
movement direction v = if direction == 0 then u16 v else u16 (2 ^ 16 - u16 v)

-- `execute_MOVE_PACKET_OFFSET`.
unfoldable pub execute_move_packet_offset : World → List ℕ → Machine → Outcome Machine
execute_move_packet_offset w p m =
    read (get_32value (take 4 w.junk) (get_or p 1 0) p 8 m.packet) m (λ v.
      and_then (on_packet m (move_packet_buf_offset (movement (get_or p 0 0) v) m.packet))
        (λ m'. instructed m' m'.packet))

-- `execute_WRITE_ACTIONS`, `execute_CLEAR_ACTIONS` and `execute_EXPERIMENTER`.
unfoldable pub execute_unsupported : Machine → Outcome Machine
execute_unsupported m = inst_error BadInstructionCode.unsup_inst m
