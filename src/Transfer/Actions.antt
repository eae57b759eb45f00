-- ===== src/Transfer/Actions.antt =====
-- common/pof_byte_transfer.c: the conversion of an action, a `pof_action` of 48 bytes whose data
-- starts at 4. The places are those in the action.
use pofswitch.Base.{
  ℕ, zero, suc, Option, none, some, List, [], ◌∷◌, ◌++◌, ltb, if◌then◌else◌, ◌>>=◌, take, drop,
}
use pofswitch.ByteOrder.{load16}
use pofswitch.Datapath.Kind.{ActionType, action_type}
use pofswitch.Transfer.{Field, short, long, run, match, value}

-- `action_OUTPUT`.
unfoldable pub action_output : List ℕ → Option (List ℕ)
unfolding value run
action_output p = value 4 12 p >>= run (short 6 ∷ short 8 ∷ short 10 ∷ [])

abbrev pub action_add_field : List Field
action_add_field = short 6 ∷ short 4 ∷ long 8 ∷ []

-- `action_DROP`, `action_PACKET_IN`, `action_COUNTER` and `action_GROUP`.
abbrev pub action_number : List Field
action_number = long 4 ∷ []

-- `action_DELETE_FIELD`.
unfoldable pub action_delete_field : List ℕ → Option (List ℕ)
unfolding value run
action_delete_field p = run (short 4 ∷ []) p >>= value 6 12

abbrev pub action_calculate_checksum : List Field
action_calculate_checksum = short 6 ∷ short 8 ∷ short 10 ∷ short 12 ∷ []

abbrev pub action_set_field : List Field
action_set_field = match 4

abbrev pub action_set_field_from_metadata : List Field
action_set_field_from_metadata = match 4 ++ short 12 ∷ []

abbrev pub action_modify_field : List Field
action_modify_field = match 4 ++ long 12 ∷ []

-- The `switch` of `action`, on the type in the order of the machine. An unknown type is only logged.
unfoldable pub action_data : Option ActionType → List ℕ → Option (List ℕ)
unfolding action_output action_delete_field
action_data (some ActionType.output) p = action_output p
action_data (some ActionType.set_field) p = run action_set_field p
action_data (some ActionType.set_field_from_metadata) p = run action_set_field_from_metadata p
action_data (some ActionType.modify_field) p = run action_modify_field p
action_data (some ActionType.add_field) p = run action_add_field p
action_data (some ActionType.delete_field) p = action_delete_field p
action_data (some ActionType.calculate_checksum) p = run action_calculate_checksum p
action_data (some ActionType.group) p = run action_number p
action_data (some ActionType.drop) p = run action_number p
action_data (some ActionType.packet_in) p = run action_number p
action_data (some ActionType.counter) p = run action_number p
action_data (some ActionType.experimenter) p = some p
action_data none p = some p

-- The type and the length.
abbrev pub action_head : List Field
action_head = short 0 ∷ short 2 ∷ []

-- `action`: a length above 255 is taken for one in the order of the network.
unfoldable pub action : List ℕ → Option (List ℕ)
unfolding action_data
action p =
    if ltb 0x00ff (load16 p 2)
    then run action_head p >>= (λ q. action_data (action_type (load16 q 0)) q)
    else action_data (action_type (load16 p 0)) p >>= run action_head

-- `action` on each of `n` actions that stand at the front, one after the other.
unfoldable pub actions : ℕ → List ℕ → Option (List ℕ)
unfolding action
actions zero p = some p
actions (suc n) p = do
  first ← action (take 48 p)
  rest ← actions n (drop 48 p)
  some (first ++ rest)
