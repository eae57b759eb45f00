-- ===== src/Transfer/Instructions.antt =====
-- common/pof_byte_transfer.c: the conversion of an instruction, a `pof_instruction` of 304 bytes
-- whose data starts at 8, and of the messages that hold instructions or actions.
use pofswitch.Base.{
  ℕ, zero, suc, Option, none, some, List, [], ◌∷◌, ◌++◌, ◌>>=◌, get_or, take, drop,
}
use pofswitch.ByteOrder.{load16}
use pofswitch.Datapath.Kind.{InstructionType, instruction_type}
use pofswitch.Transfer.{Field, short, long, wide, run, match, array, value}
use pofswitch.Transfer.Actions.{actions}

-- A conversion of what stands from a place on.
abbrev pub from_place : ℕ → (List ℕ → Option (List ℕ)) → List ℕ → Option (List ℕ)
from_place at f p = do rest ← f (drop at p); some (take at p ++ rest)

unfoldable pub instruction_goto_direct_table : List ℕ → Option (List ℕ)
unfolding value run
instruction_goto_direct_table p = value 9 16 p >>= run (short 10 ∷ [])

abbrev pub instruction_meter : List Field
instruction_meter = long 8 ∷ []

abbrev pub instruction_write_metadata : List Field
instruction_write_metadata = short 8 ∷ short 10 ∷ []

abbrev pub instruction_write_metadata_from_packet : List Field
instruction_write_metadata_from_packet = short 8 ∷ short 10 ∷ short 12 ∷ []

abbrev pub instruction_goto_table : List Field
instruction_goto_table = short 10 ∷ array 8 8 16 match

unfoldable pub instruction_apply_actions : List ℕ → Option (List ℕ)
unfolding actions
instruction_apply_actions p = from_place 16 (actions (get_or p 8 0)) p

unfoldable pub instruction_conditional_jmp : List ℕ → Option (List ℕ)
unfolding value run
instruction_conditional_jmp p =
    run (match 16) p >>= value 8 24 >>= value 10 32 >>= value 12 40 >>= value 14 48

unfoldable pub instruction_calculate_field : List ℕ → Option (List ℕ)
unfolding value run
instruction_calculate_field p = run (short 8 ∷ match 16) p >>= value 10 24

unfoldable pub instruction_move_packet_offset : List ℕ → Option (List ℕ)
unfolding value
instruction_move_packet_offset p = value 9 16 p

-- The `switch` on the type in the order of the machine, of the types that it knows. Three of them only
-- log that they are not supported.
unfoldable pub instruction_data : InstructionType → List ℕ → Option (List ℕ)
unfolding instruction_goto_direct_table instruction_apply_actions instruction_conditional_jmp
    instruction_calculate_field instruction_move_packet_offset
instruction_data InstructionType.goto_table p = run instruction_goto_table p
instruction_data InstructionType.write_metadata p = run instruction_write_metadata p
instruction_data InstructionType.apply_actions p = instruction_apply_actions p
instruction_data InstructionType.meter p = run instruction_meter p
instruction_data InstructionType.write_metadata_from_packet p =
    run instruction_write_metadata_from_packet p
instruction_data InstructionType.goto_direct_table p = instruction_goto_direct_table p
instruction_data InstructionType.conditional_jmp p = instruction_conditional_jmp p
instruction_data InstructionType.calculate_field p = instruction_calculate_field p
instruction_data InstructionType.move_packet_offset p = instruction_move_packet_offset p
instruction_data _ p = some p

abbrev pub instruction_head : List Field
instruction_head = short 0 ∷ short 2 ∷ []

-- `instruction_HtoN`, which leaves an instruction of an unknown type as it is, and `instruction_NtoH`,
-- which converts its type and length. What they return is not looked at.
unfoldable pub instruction_to_net : List ℕ → Option (List ℕ)
unfolding instruction_data
instruction_to_net p = elim (instruction_type (load16 p 0)) [
  | none ↦ some p
  | some t ↦ instruction_data t p >>= run instruction_head
]

abbrev pub known_data : Option InstructionType → List ℕ → Option (List ℕ)
known_data none q = some q
known_data (some t) q = instruction_data t q

unfoldable pub instruction_to_host : List ℕ → Option (List ℕ)
unfolding instruction_data
instruction_to_host p =
    run instruction_head p >>= (λ q. known_data (instruction_type (load16 q 0)) q)

-- A conversion of each of `n` instructions, one after the other.
unfoldable pub instructions : (List ℕ → Option (List ℕ)) → ℕ → List ℕ → Option (List ℕ)
instructions f zero p = some p
instructions f (suc n) p = do
  first ← f (take 304 p)
  rest ← instructions f n (drop 304 p)
  some (first ++ rest)

-- The fields of a `pof_flow_entry` in front of its matches.
abbrev pub flow_entry_head : List Field
flow_entry_head =
    long 4 ∷ wide 8 ∷ wide 16 ∷ short 26 ∷ short 28 ∷ short 30 ∷ long 32 ∷ short 36 ∷ []

abbrev flow_entry : (List ℕ → Option (List ℕ)) → List ℕ → Option (List ℕ)
flow_entry f p =
    run flow_entry_head p
    >>= (λ q. run (array (get_or q 1 0) 40 40 match) q)
    >>= (λ q. from_place 360 (instructions f (get_or q 2 0)) q)

-- `pof_HtoN_transfer_flow_entry` and `pof_NtoH_transfer_flow_entry`.
unfoldable pub flow_entry_to_net : List ℕ → Option (List ℕ)
unfolding instruction_to_net instructions
flow_entry_to_net p = flow_entry instruction_to_net p

unfoldable pub flow_entry_to_host : List ℕ → Option (List ℕ)
unfolding instruction_to_host instructions
flow_entry_to_host p = flow_entry instruction_to_host p

-- `pof_NtoH_transfer_group`: all four actions, whatever their number.
unfoldable pub group : List ℕ → Option (List ℕ)
unfolding actions run
group p = run (long 4 ∷ long 8 ∷ short 12 ∷ []) p >>= from_place 16 (actions 4)

-- `pof_NtoH_transfer_packet_out`.
unfoldable pub packet_out : List ℕ → Option (List ℕ)
unfolding actions run
packet_out p =
    run (long 0 ∷ long 4 ∷ long 12 ∷ []) p >>= (λ q. from_place 16 (actions (get_or q 8 0)) q)
