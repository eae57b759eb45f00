-- ===== src/Datapath/Execute.antt =====
-- datapath/: the loops over the actions and the instructions of a packet, and how a packet enters.
-- A loop spends one unit of fuel in each round, and `none` is that the fuel does not suffice. A group
-- action runs the loop over the actions of the group before the loop that it stands in goes on.
use pofswitch.Base.{
  ℕ, zero, suc, Option, none, some, List, [], ◌∷◌, ◌==◌, if◌then◌else◌, u8, replicate, take, drop,
  get_or, get_elem?, set, ◌||◌,
}
use pofswitch.ByteOrder.{load16, load32}
use pofswitch.Error.{
  Outcome, done, fault, pof_ok, failed, bad_action, group_mod_failed, GroupModCode, BadActionCode,
  BadInstructionCode,
}
use pofswitch.Resource.{Action}
use pofswitch.Resource.Counter.{counter_increase}
use pofswitch.Resource.Group.{get_group_with_id}
use pofswitch.Flow.Table.{Instruction}
use pofswitch.Datapath.{Packet, Machine, World, rel_len, set_rel_len}
use pofswitch.Datapath.Kind.{ActionType, InstructionType, action_type, instruction_type}
use pofswitch.Datapath.Actions.{
  put_packet, on_resource, execute_output, execute_set_field, execute_set_field_from_metadata,
  execute_modify_field, execute_add_field, execute_delete_field, execute_calculate_checksum,
  execute_drop, execute_packet_in, execute_counter, execute_experimenter,
}
use pofswitch.Datapath.Instructions.{
  inst_error, instructed, execute_goto_table, execute_write_metadata, execute_meter,
  execute_write_metadata_from_packet, execute_goto_direct_table, execute_conditional_jmp,
  execute_calculate_field, execute_move_packet_offset, execute_unsupported,
}

-- What runs out of fuel, or ends with an outcome.
abbrev pub Run : Type 0
Run = Option (Outcome Machine)

abbrev pub then_run : Outcome Machine → (Machine → Run) → Run
then_run (done pof_ok m) k = k m
then_run (done (failed e) m) k = some (done (failed e) m)
then_run fault k = some fault

abbrev pub and_run : Run → (Machine → Run) → Run
and_run none k = none
and_run (some o) k = then_run o k

-- An action other than a group action.
unfoldable pub execute_action : World → ActionType → List ℕ → Machine → Outcome Machine
execute_action w ActionType.output p m = execute_output w p m
execute_action w ActionType.set_field p m = execute_set_field p m
execute_action w ActionType.set_field_from_metadata p m = execute_set_field_from_metadata w p m
execute_action w ActionType.modify_field p m = execute_modify_field w p m
execute_action w ActionType.add_field p m = execute_add_field w p m
execute_action w ActionType.delete_field p m = execute_delete_field w p m
execute_action w ActionType.calculate_checksum p m = execute_calculate_checksum w p m
execute_action w ActionType.drop p m = execute_drop m
execute_action w ActionType.packet_in p m = execute_packet_in w p m
execute_action w ActionType.counter p m = execute_counter p m
execute_action w _ p m = execute_experimenter m

abbrev pub bad_type : Machine → Outcome Machine
bad_type m = done (failed (bad_action BadActionCode.bad_type)) m

abbrev pub put_actions : List Action → ℕ → Machine → Machine
put_actions act act_num m = record m { packet = record (m.packet) { act = act; act_num = act_num } }

-- `execute_GROUP`, with `run` for `pofdp_action_execute`.
unfoldable pub execute_group : (Machine → Run) → List ℕ → Machine → Run
execute_group run p m = elim (get_group_with_id (load32 p 0) m.slot.resource) [
  | none ↦ some fault
  | some none ↦ some (done (failed (group_mod_failed GroupModCode.unknown_group)) m)
  | some (some group) ↦
      then_run
        (on_resource m
          (counter_increase m.spare group.obj.counter_id (rel_len m.packet) m.slot.resource))
        (λ m'. run (put_actions group.obj.action group.obj.action_number m'))
]

-- One round of the loop of `pofdp_action_execute`.
unfoldable pub action_round : World → (Machine → Run) → Action → Machine → Run
unfolding execute_action execute_group
action_round w run a m = elim (action_type a.kind) [
  | none ↦ some (bad_type m)
  | some ActionType.group ↦ execute_group run a.action_data m
  | some t ↦ some (execute_action w t a.action_data m)
]

-- `pofdp_action_execute`.
unfoldable pub action_execute : World → ℕ → Machine → Run
unfolding action_round
action_execute w zero m = none
action_execute w (suc fuel) m =
    let again = action_execute w fuel in
    if m.packet.packet_done || m.packet.act_num == 0
    then some (done pof_ok m)
    else elim (m.packet.act) [ [] ↦ some fault | a ∷ _ ↦ and_run (action_round w again a m) again ]

-- The array of actions in the data of an instruction, 48 bytes for each.
unfoldable pub load_actions : ℕ → List ℕ → List Action
load_actions zero p = []
load_actions (suc n) p =
    record { kind = load16 p 0; len = load16 p 2; action_data = take 44 (drop 4 p) }
    ∷ load_actions n (drop 48 p)

-- `execute_APPLY_ACTIONS`.
unfoldable pub execute_apply_actions : World → ℕ → List ℕ → Machine → Run
unfolding action_execute load_actions
execute_apply_actions w fuel p m =
    and_run (action_execute w fuel (put_actions (load_actions 6 (drop 8 p)) (get_or p 0 0) m))
      (λ m'. some (instructed m' m'.packet))

-- An instruction that does not apply actions.
unfoldable pub execute_instruction : World → InstructionType → List ℕ → Machine → Outcome Machine
execute_instruction w InstructionType.goto_table p m = execute_goto_table w p m
execute_instruction w InstructionType.write_metadata p m = execute_write_metadata p m
execute_instruction w InstructionType.meter p m = execute_meter p m
execute_instruction w InstructionType.write_metadata_from_packet p m =
    execute_write_metadata_from_packet p m
execute_instruction w InstructionType.goto_direct_table p m = execute_goto_direct_table w p m
execute_instruction w InstructionType.conditional_jmp p m = execute_conditional_jmp w p m
execute_instruction w InstructionType.calculate_field p m = execute_calculate_field w p m
execute_instruction w InstructionType.move_packet_offset p m = execute_move_packet_offset w p m
execute_instruction w _ p m = execute_unsupported m

-- One round of the loop of `pofdp_instruction_execute`.
unfoldable pub instruction_round : World → ℕ → Instruction → Machine → Run
unfolding execute_instruction execute_apply_actions
instruction_round w fuel i m = elim (instruction_type i.kind) [
  | none ↦ some (inst_error BadInstructionCode.unknown_inst m)
  | some InstructionType.apply_actions ↦ execute_apply_actions w fuel i.instruction_data m
  | some t ↦ some (execute_instruction w t i.instruction_data m)
]

-- `pofdp_instruction_execute`.
unfoldable pub instruction_execute : World → ℕ → Machine → Run
unfolding instruction_round
instruction_execute w zero m = none
instruction_execute w (suc fuel) m =
    let again = instruction_execute w fuel in
    if m.packet.packet_done
    then some (done pof_ok m)
    else elim (get_elem? m.packet.ins_array m.packet.ins) [
      | none ↦ some fault
      | some i ↦ and_run (instruction_round w fuel i m) again
    ]

-- `set_goto_first_table_instruction` of a zeroed instruction; the length is that of a pointer.
unfoldable pub first_instruction : Instruction
first_instruction = record { kind = 1; len = 8; instruction_data = replicate 296 0 }

-- `init_packet_metadata`, of an array of 128 bytes.
unfoldable pub init_packet_metadata : Packet → Packet
init_packet_metadata p =
    let zeroed = record p { metadata = replicate 128 0; metadata_len = 128 } in
    let sized = set_rel_len p.ori_len zeroed in
    record sized { metadata = set sized.metadata 2 (u8 p.ori_port_id) }

-- `pofdp_forward`.
unfoldable pub pofdp_forward : World → ℕ → Machine → Run
unfolding init_packet_metadata first_instruction instruction_execute
pofdp_forward w fuel m =
    let p = init_packet_metadata (m.packet) in
    instruction_execute w fuel
      (put_packet m (record p { ins_array = first_instruction ∷ []; ins = 0; ins_todo_num = 1 }))
