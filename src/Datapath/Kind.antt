-- ===== src/Datapath/Kind.antt =====
-- include/pof_global.h: the numbers of the actions and of the instructions in the configuration POF_SD2N.
use pofswitch.Base.{ℕ, Option, none, some, List, [], ◌∷◌, ◌==◌, if◌then◌else◌, get_or, get_elem?}

-- `enum pof_action_type`, and `enum pof_instruction_type`.
pub data ActionType : Type 0 where
  output set_field set_field_from_metadata modify_field add_field delete_field : ActionType
  calculate_checksum group drop packet_in counter experimenter : ActionType

pub data InstructionType : Type 0 where
  goto_table write_metadata write_actions apply_actions clear_actions meter : InstructionType
  write_metadata_from_packet goto_direct_table conditional_jmp calculate_field : InstructionType
  move_packet_offset experimenter : InstructionType

abbrev pub action_types : List ActionType
action_types =
    output ∷ set_field ∷ set_field_from_metadata ∷ modify_field ∷ add_field ∷ delete_field
    ∷ calculate_checksum ∷ group ∷ drop ∷ packet_in ∷ counter ∷ []

-- The type of a number, or `none`, for which the loop reports an error.
unfoldable pub action_type : ℕ → Option ActionType
action_type n = if n == 0xffff then some ActionType.experimenter else get_elem? action_types n

abbrev instruction_types : List (Option InstructionType)
instruction_types =
    none
    ∷ some goto_table
    ∷ some write_metadata
    ∷ some write_actions
    ∷ some apply_actions
    ∷ some clear_actions
    ∷ some meter
    ∷ some write_metadata_from_packet
    ∷ some goto_direct_table
    ∷ some conditional_jmp
    ∷ some calculate_field
    ∷ some move_packet_offset
    ∷ []

unfoldable pub instruction_type : ℕ → Option InstructionType
instruction_type n =
    if n == 0xffff then some InstructionType.experimenter else get_or instruction_types n none
