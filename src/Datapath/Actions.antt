-- ===== src/Datapath/Actions.antt =====
-- datapath/pof_action.c: the actions, but for the group action, which runs others. An action reads its
-- operands from the bytes of its data.
use pofswitch.Base.{
  ℕ, zero, suc, ◌+◌, ◌-◌, ◌*◌, ◌/◌, ◌^◌, Bool, true, some, List, [], ◌∷◌, ◌++◌, ◌==◌, ltb,
  if◌then◌else◌, u16, u32, replicate, take, drop, get_or, bit_and,
}
use pofswitch.ByteOrder.{load16, load32}
use pofswitch.Error.{
  Outcome, done, fault, and_then, pof_ok, failed, bad_action, SoftCode, BadActionCode,
}
use pofswitch.Field.{copy_bit}
use pofswitch.Flow.{bytes_of_bits, table_id_to_global}
use pofswitch.Resource.{LocalResource}
use pofswitch.Resource.Counter.{counter_increase}
use pofswitch.Resource.Steps.{or_fault}
use pofswitch.Datapath.{Packet, Output, Machine, World, read, soft_error, cover_packet}
use pofswitch.Datapath.Value.{
  load_match, get_32value, get_32value_from_field, write_32value_to_field,
}
use pofswitch.Datapath.Move.{action_update}
use pofswitch.Datapath.Send.{pofdp_send_raw, flood, send_packet_in, whole_packet}
use pofswitch.Datapath.Checksum.{cal_checksum}
use pofswitch.Datapath.Tag.{insert_tag_to_packet, delete_tag}

abbrev pub put_packet : Machine → Packet → Machine
put_packet m p = record m { packet = p }

-- The end of an action that succeeds.
abbrev pub acted : Machine → Packet → Outcome Machine
acted m p = done pof_ok (record m { packet = action_update p })

-- An operation on the packet, within the machine.
abbrev pub on_packet : Machine → Outcome Packet → Outcome Machine
on_packet m (done r p) = done r (record m { packet = p })
on_packet m fault = fault

-- An operation on the counters of the slot, within the machine.
abbrev pub on_resource : Machine → Outcome LocalResource → Outcome Machine
on_resource m (done r lr) = done r (record m { slot = record (m.slot) { resource = lr } })
on_resource m fault = fault

-- `execute_COUNTER`.
unfoldable pub execute_counter : List ℕ → Machine → Outcome Machine
execute_counter p m =
    and_then (on_resource m (counter_increase m.spare (load32 p 0) 0 m.slot.resource))
      (λ m'. acted m' m'.packet)

-- `execute_PACKET_IN`.
unfoldable pub execute_packet_in : World → List ℕ → Machine → Outcome Machine
execute_packet_in w p m =
    or_fault (table_id_to_global m.slot.num_max_each_type m.packet.table_type m.packet.table_id)
      (λ table_id.
        and_then (send_packet_in w (whole_packet m.packet) (load32 p 0) table_id m)
          (λ m'. acted m' m'.packet))

-- `execute_DROP`.
unfoldable pub execute_drop : Machine → Outcome Machine
execute_drop m = acted m (record (m.packet) { packet_done = true })

-- The value of a `struct pof_match_x` under its mask.
unfoldable pub masked_value : ℕ → List ℕ → List ℕ
masked_value zero p = []
masked_value (suc n) p =
    bit_and (get_or p (24 - suc n) 0) (get_or p (40 - suc n) 0) ∷ masked_value n p

-- `execute_SET_FIELD`.
unfoldable pub execute_set_field : List ℕ → Machine → Outcome Machine
unfolding masked_value
execute_set_field p m =
    let pm = load_match p 0 in
    if ltb (m.packet.left_len * 8) (pm.offset + pm.len)
    then soft_error SoftCode.packet_len_error m
    else or_fault
        (cover_packet (masked_value 16 p ++ replicate (2048 - 16) 0) pm.offset pm.len m.packet)
        (acted m)

-- `execute_SET_FIELD_FROM_METADATA`; the array `value` is not initialised.
unfoldable pub execute_set_field_from_metadata : World → List ℕ → Machine → Outcome Machine
execute_set_field_from_metadata w p m =
    let pm = load_match p 0 in
    if ltb (m.packet.left_len * 8) (pm.offset + pm.len)
    then soft_error SoftCode.packet_len_error m
    else or_fault (copy_bit (some (m.packet.metadata)) (take 16 w.junk) (load16 p 8) pm.len)
        (λ v. or_fault (cover_packet v pm.offset pm.len m.packet) (acted m))

-- `execute_MODIFY_FIELD`; the local variable that takes the value is not initialised.
unfoldable pub execute_modify_field : World → List ℕ → Machine → Outcome Machine
execute_modify_field w p m =
    let pm = load_match p 0 in
    read (get_32value_from_field (take 4 w.junk) pm m.packet) m
      (λ v. read (write_32value_to_field (u32 (v + load32 p 8)) pm m.packet) m (acted m))

-- `execute_CALCULATE_CHECKSUM`.
unfoldable pub execute_calculate_checksum : World → List ℕ → Machine → Outcome Machine
execute_calculate_checksum w p m =
    let cs_len_b = load16 p 4 in
    if ltb 64 cs_len_b
    then done (failed (bad_action BadActionCode.bad_len)) m
    else or_fault
        (cal_checksum w (get_or p 0 0) (get_or p 1 0) (load16 p 6) (load16 p 8) (load16 p 2)
          cs_len_b m.packet)
        (λ (p', ok). if ok then acted m p' else soft_error SoftCode.pof_error (put_packet m p'))

-- The output part that `execute_OUTPUT` fills for port and slot `v`.
abbrev pub output_of : List ℕ → ℕ → Packet → Output
output_of p v dpp =
    let packet_len = u16 (dpp.left_len - load16 p 6) in
    let metadata_len = u16 (bytes_of_bits (load16 p 4)) in
    record {
      port_id = u16 v;
      slot_id = u16 (v / 2 ^ 16);
      packet_len = packet_len;
      packet_offset = load16 p 6;
      metadata_len = metadata_len;
      metadata_offset = load16 p 2;
      whole_len = u16 (packet_len + metadata_len);
      packet_buf = dpp.buf_offset;
      buf_out = dpp.output.buf_out;
    }

-- `pofdp_get_local_resource`; the datapath has one slot.
abbrev pub has_slot : ℕ → Machine → Bool
has_slot slot_id m = slot_id == m.slot.resource.slot_id

-- The part of `execute_OUTPUT` behind its guards; port 255 is the flood.
unfoldable pub output_to : World → List ℕ → ℕ → Machine → Outcome Machine
output_to w p v m =
    let o = output_of p v m.packet in
    let ids = record (m.packet.output) { port_id = o.port_id; slot_id = o.slot_id } in
    let m' = put_packet m (record (m.packet) { output = o }) in
    if has_slot o.slot_id m
    then and_then (if o.port_id == 255 then flood w m' else pofdp_send_raw w m')
        (λ m''. acted m'' m''.packet)
    else soft_error SoftCode.invalid_slot_id (put_packet m (record (m.packet) { output = ids }))

-- `execute_OUTPUT`.
unfoldable pub execute_output : World → List ℕ → Machine → Outcome Machine
unfolding output_to
execute_output w p m =
    if ltb m.packet.left_len (load16 p 6)
    then soft_error SoftCode.packet_len_error m
    else if ltb m.packet.metadata_len (bytes_of_bits (load16 p 4 + load16 p 2))
    then soft_error SoftCode.metadata_len_error m
    else read (get_32value (0 ∷ 0 ∷ 0 ∷ 0 ∷ []) (get_or p 0 0) p 8 m.packet) m
        (λ v. output_to w p v m)

-- `execute_ADD_FIELD`.
unfoldable pub execute_add_field : World → List ℕ → Machine → Outcome Machine
execute_add_field w p m =
    let tag_len_b = load32 p 4 in
    if ltb 128 tag_len_b
    then soft_error SoftCode.field_len_error m
    else and_then (on_packet m (insert_tag_to_packet w (load16 p 2) tag_len_b (drop 8 p) m.packet))
        (λ m'. acted m' m'.packet)

-- `execute_DELETE_FIELD`; the local variable that takes the length is not initialised.
unfoldable pub execute_delete_field : World → List ℕ → Machine → Outcome Machine
execute_delete_field w p m =
    read (get_32value (take 4 w.junk) (get_or p 2 0) p 8 m.packet) m (λ tag_len_b.
      and_then (on_packet m (delete_tag (load16 p 0) tag_len_b m.packet))
        (λ m'. acted m' m'.packet))

unfoldable pub execute_experimenter : Machine → Outcome Machine
execute_experimenter m = done (failed (bad_action BadActionCode.bad_type)) m
