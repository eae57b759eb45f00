-- ===== src/Datapath/Tests.antt =====
-- A packet of 4 bytes that no entry of the first table matches, a few fields and numbers, and the
-- theorems at them.
use pofswitch.Base.{
  ℕ, ◌+◌, ◌/◌, ◌^◌, ◌<◌, ◌≤◌, ◌%◌, ◌≡◌, ◌⊎◌, refl, inr, true, false, none, some, List, [], ◌∷◌,
  ◌++◌, arith, replicate,
}
use pofswitch.Field.{store, copy_bit, copy_loop, copy_tail, cover_bit}
use pofswitch.ByteOrder.{load16, load32, load64, htonl, hton64}
use pofswitch.Field.Bits.{bit_at, are_bytes-IsBytes}
use pofswitch.Error.{Outcome, done, pof_ok, and_then}
use pofswitch.Hmap.{node_get_with_hash, traverse}
use pofswitch.Resource.Steps.{get_with_id}
use pofswitch.Resource.Counter.{counter_increase}
use pofswitch.Resource.{Action}
use pofswitch.Flow.Table.{Instruction, TableInfo, entry_lookup}
use pofswitch.Flow.{key_assemble, table_global_to_id, table_id_to_global}
use pofswitch.Flow.Tables.{Slot, get_table_with_id}
use pofswitch.Datapath.{Packet, Machine, packet_in, World}
use pofswitch.Datapath.Value.{get_32value_from_field, get_32value_from_buf, shifted_bytes}
use pofswitch.Datapath.Move.{ins_jump, move_packet_buf_offset, action_update}
use pofswitch.Datapath.Kind.{action_type, instruction_type}
use pofswitch.Datapath.Send.{send_packet_in}
use pofswitch.Datapath.Actions.{execute_counter, execute_drop}
use pofswitch.Datapath.Instructions.{execute_goto_table}
use pofswitch.Datapath.Checksum.{checksum, checksum_loop, complement_at, add_carry, double}
use pofswitch.Datapath.Execute.{
  Run, pofdp_forward, action_execute, execute_group, instruction_execute,
}
use pofswitch.Datapath.Receive.{Receiver, Arrival, received, recv_raw, recv_raw_round}
use pofswitch.Datapath.Received.{Receives, recv_raw-Receives}
use pofswitch.Datapath.Invariant.{IsStep}
use pofswitch.Datapath.Runs.{pofdp_forward-IsStep}
use pofswitch.Datapath.Finish.{action_execute-ends, action_execute-execute_group}
use pofswitch.Datapath.Jumps.{
  IsPositioned, JumpEnds, opposite, ins_jump-JumpEnds, ins_jump-ins_jump, move-move,
  instruction_execute-runs_forever,
}
use pofswitch.Datapath.ReadWrite.{
  IsNumber, get_32value_from_buf-IsNumber, get_32value-shifted_bytes,
}
use pofswitch.Datapath.Sums.{SumsTo, checksum-SumsTo}

abbrev bytes : List ℕ
bytes = 0x12 ∷ 0x34 ∷ 0x56 ∷ 0x78 ∷ []

abbrev junk : List ℕ
junk = 0 ∷ 0 ∷ 0 ∷ 0 ∷ []

abbrev first_table : TableInfo
first_table = record {
  id = 0;
  kind = 0;
  name = [];
  entry_map = some (record { buckets = [] ∷ []; mask = 0; n = 0 });
  entry_num = 0;
  size = 4;
  key_len = 8;
  tree = none;
  match_field_num = 0;
  match = [];
}

abbrev slot : Slot
slot = record {
  resource = record {
    slot_id = 0;
    groups = record { map = none; num_max = 0; num = 0 };
    meters = record { map = none; num_max = 0; num = 0 };
    counters = record {
      map = some (record { buckets = [] ∷ []; mask = 0; n = 0 });
      num_max = 4;
      num = 0;
    };
  };
  tables = record {
    map = some (record {
      buckets = (record { addr = 1; hash = 0; obj = first_table } ∷ []) ∷ [];
      mask = 0;
      n = 1;
    });
    num_max = 4;
    num = 1;
  };
  num_max_each_type = 1 ∷ 1 ∷ 1 ∷ 1 ∷ [];
  size_max = 8;
  key_len_each_type = 64 ∷ 64 ∷ 64 ∷ 64 ∷ [];
}

abbrev world : World
world = record {
  memory = true;
  sendto = λ port bytes. true;
  reply = true;
  junk = junk;
  dev_id = 7;
  local_port_index = 1;
}

abbrev entering : Packet
entering = received 2 4 (replicate 128 0 ++ bytes ++ replicate 1916 0)

abbrev port : Receiver
port = record { port_id = 2; of_enable = 1; accepts = λ frame. true }

abbrev arrival : Arrival
arrival = record { frame = some bytes; outgoing = false }

abbrev start : Machine
start = record {
  packet = entering;
  slot = slot;
  ports = record { buckets = [] ∷ []; mask = 0; n = 0 };
  sent = [];
  spare = some 512;
}

abbrev end_of : Run → Machine → Machine
end_of (some (done r m)) _ = m
end_of _ m = m

missed_test :
    (end_of (pofdp_forward world 3 start) start).sent
    ≡ packet_in (record {
      buffer_id = 0xffffffff;
      total_len = 4;
      reason = 0;
      table_id = 0;
      cookie = 0;
      device_id = 7;
      slot_id = 0;
      port_id = 2;
      bytes = bytes;
    })
      ∷ []
unfolding pofdp_forward instruction_type execute_goto_table move_packet_buf_offset load16
    table_global_to_id get_table_with_id get_with_id node_get_with_hash entry_lookup key_assemble
    traverse table_id_to_global send_packet_in received
missed_test = refl

pofdp_forward-IsStep_example : IsStep start (end_of (pofdp_forward world 3 start) start)
pofdp_forward-IsStep_example =
    pofdp_forward-IsStep world 3 start (end_of (pofdp_forward world 3 start) start) pof_ok (
      unfold pofdp_forward instruction_type execute_goto_table move_packet_buf_offset load16
        table_global_to_id get_table_with_id get_with_id node_get_with_hash entry_lookup
        key_assemble traverse table_id_to_global send_packet_in received in
      refl)

recv_raw_test : recv_raw port arrival slot ≡ some (some entering)
unfolding recv_raw get_table_with_id get_with_id node_get_with_hash
recv_raw_test = refl

recv_raw_round_test : recv_raw_round world 3 port arrival start ≡ pofdp_forward world 3 start
unfolding recv_raw_round recv_raw get_table_with_id get_with_id node_get_with_hash received
recv_raw_round_test = refl

recv_raw-Receives_example :
    Receives port false bytes
      (some (record { addr = 1; hash = 0; obj = first_table }))
      (recv_raw port arrival slot)
recv_raw-Receives_example =
    recv_raw-Receives port false bytes slot
      (some (record { addr = 1; hash = 0; obj = first_table })) (are_bytes-IsBytes bytes refl)
      (unfold get_table_with_id get_with_id node_get_with_hash in refl)

abbrev counted : Action
counted = record { kind = 10; len = 8; action_data = replicate 44 0 }

abbrev dropped : Action
dropped = record { kind = 8; len = 8; action_data = replicate 44 0 }

abbrev of_group : Action
of_group = record { kind = 7; len = 8; action_data = replicate 44 0 }

-- The packet with a list of actions.
abbrev acting : List Action → ℕ → Machine
acting act act_num = record start {
  packet = record (entering) {
    act = act;
    act_num = act_num;
    metadata = replicate 128 0;
    metadata_len = 128;
  };
}

abbrev counts : Machine
counts = acting (counted ∷ counted ∷ dropped ∷ []) 3

counts_test : (end_of (action_execute world 4 counts) counts).packet.packet_done ≡ true
unfolding action_execute action_type execute_counter counter_increase load32 action_update
    execute_drop received
counts_test = refl

action_execute-ends_example : (o : Outcome Machine) × (action_execute world 4 counts ≡ some o)
action_execute-ends_example = action_execute-ends world 3 counts (omega arith) refl refl

action_execute-execute_group_example :
    action_execute world 3 (acting (of_group ∷ dropped ∷ []) 2)
    ≡ execute_group
        (action_execute world 2)
        of_group.action_data
        (acting (of_group ∷ dropped ∷ []) 2)
action_execute-execute_group_example =
    action_execute-execute_group world 1 (acting (of_group ∷ dropped ∷ []) 2) of_group
      (dropped ∷ []) refl refl (unfold received in refl) (omega arith)

-- A packet in the second of three instructions.
abbrev second : Packet
second = record (entering) { ins = 1; ins_done_num = 1; ins_todo_num = 2 }

second-IsPositioned : IsPositioned second
second-IsPositioned = record { at = refl; few = omega arith }

ins_jump-JumpEnds_example : JumpEnds 1 1 second (ins_jump 1 1 second)
ins_jump-JumpEnds_example = ins_jump-JumpEnds 1 1 second second-IsPositioned

ins_jump-ins_jump_example : and_then (ins_jump 0 1 second) (ins_jump 1 1) ≡ done pof_ok second
ins_jump-ins_jump_example = ins_jump-ins_jump 1 second second-IsPositioned (omega arith)

-- 3 bytes forward, and back.
move-move_example :
    and_then (move_packet_buf_offset 3 (entering)) (move_packet_buf_offset (opposite 3))
    ≡ done pof_ok (entering)
move-move_example =
    move-move 3 (entering) (omega arith) (omega arith) (unfold received in omega arith)
      (unfold received in omega arith) (unfold received in omega arith) (unfold received in refl)

-- A jump that compares the first 8 bits of the packet.
abbrev self_jump : Instruction
self_jump = record {
  kind = 9;
  len = 296;
  instruction_data = replicate 8 0 ++ (1 ∷ 0 ∷ 0 ∷ 0 ∷ 8 ∷ 0 ∷ 0 ∷ 0 ∷ replicate 280 0);
}

abbrev jumps : Machine
jumps = record start { packet = record (entering) { ins_array = self_jump ∷ []; ins_todo_num = 1 } }

instruction_execute-runs_forever_example : instruction_execute world 1000 jumps ≡ none
instruction_execute-runs_forever_example =
    instruction_execute-runs_forever world 1000 self_jump jumps 0x12
      (record {
        jumps = refl;
        immediate = refl;
        forward1 = refl;
        immediate1 = refl;
        forward2 = refl;
        immediate2 = refl;
        forward3 = refl;
        immediate3 = refl;
        by1 = unfold load32 in refl;
        by2 = unfold load32 in refl;
        by3 = unfold load32 in refl;
      })
      (record { at = unfold received in refl; few = unfold received in omega arith })
      (unfold received get_32value_from_field get_32value_from_buf copy_bit copy_loop copy_tail
          store load16 load32 htonl in
        refl)
      (unfold received in refl) (unfold received in refl)

get_32value_from_buf-IsNumber_example :
    (v : ℕ) × (get_32value_from_buf bytes junk 4 12 ≡ some v) × IsNumber bytes 4 12 v
get_32value_from_buf-IsNumber_example =
    get_32value_from_buf-IsNumber bytes junk 4 12 (are_bytes-IsBytes bytes refl)
      (are_bytes-IsBytes junk refl) refl (omega arith) (omega arith) (omega arith)

get_32value_from_buf_test : get_32value_from_buf bytes junk 4 12 ≡ some 0x234
unfolding get_32value_from_buf copy_bit copy_loop copy_tail store load32 htonl
get_32value_from_buf_test = refl

get_32value-shifted_bytes_example :
    (out : List ℕ) × (cover_bit bytes (shifted_bytes 0xabc 12) 4 12 ≡ some out)
    × (get_32value_from_buf out junk 4 12 ≡ some (0xabc % 2 ^ 12))
    × ((j : ℕ) → (j < 4) ⊎ (4 + 12 ≤ j) → bit_at out j ≡ bit_at bytes j)
get_32value-shifted_bytes_example =
    get_32value-shifted_bytes bytes junk 4 12 0xabc (are_bytes-IsBytes bytes refl)
      (are_bytes-IsBytes junk refl) refl (omega arith) (omega arith) (inr (omega arith))
      (omega arith)

abbrev summed : List ℕ
summed = 0x12 ∷ 0x34 ∷ 0xff ∷ 0xff ∷ 0x01 ∷ 0x02 ∷ 0 ∷ []

checksum_test : checksum summed 0 48 16 ≡ some 0xecc9
unfolding checksum checksum_loop complement_at add_carry double copy_bit copy_loop copy_tail store
    load32 load64 hton64
checksum_test = refl

checksum-SumsTo_example : SumsTo summed 0 16 (48 / 16) 0 0 0xecc9
checksum-SumsTo_example =
    checksum-SumsTo summed 0 48 16 0xecc9 (omega arith) (omega arith) checksum_test
