-- ===== src/Datapath/Move.antt =====
-- datapath/pof_instruction.c and pof_action.c: how the pointer to the packet data moves, and how the
-- instructions and the actions are counted.
use pofswitch.Base.{ℕ, ◌+◌, ◌-◌, ◌^◌, Bool, true, ◌==◌, ltb, ◌||◌, if◌then◌else◌, u8, u16, drop}
use pofswitch.Error.{
  Outcome, done, pof_ok, failed, software_failed, bad_instruction, SoftCode, BadInstructionCode,
}
use pofswitch.Datapath.{Packet}

-- The number that the pattern of an `int16_t` stands for, plus `2 ^ 15`.
abbrev pub biased : ℕ → ℕ
biased x = if ltb x (2 ^ 15) then x + 2 ^ 15 else x - 2 ^ 15

-- The guard of `movePacketBufOffset`: the movement, an `int16_t`, exceeds what is left, or goes back
-- past the start of `buf`; the terms of the second comparison stand on one side.
abbrev pub is_move_out : ℕ → Packet → Bool
is_move_out offset p =
    ltb (2 ^ 15 + p.left_len) (biased offset)
    || ltb (biased offset + biased p.offset + 128) (2 ^ 16)

-- The movement is a number of two signs, so it is added with the bias, which is then taken away.
unfoldable pub move_packet_buf_offset : ℕ → Packet → Outcome Packet
move_packet_buf_offset offset p =
    if is_move_out offset p
    then done (failed (software_failed SoftCode.packet_len_error)) p
    else done pof_ok (record p {
      offset = u16 (p.offset + offset);
      left_len = p.left_len + 2 ^ 15 - biased offset;
      buf_offset = p.buf_offset + biased offset - 2 ^ 15;
    })

-- `insJumpForward`; the counts have 8 bits.
unfoldable pub ins_jump_forward : ℕ → Packet → Packet
ins_jump_forward n p = record p {
  ins = p.ins + n;
  ins_todo_num = u8 (p.ins_todo_num + 2 ^ 32 - n);
  ins_done_num = u8 (p.ins_done_num + n);
}

abbrev jump_error : Packet → Outcome Packet
jump_error p = done (failed (bad_instruction BadInstructionCode.jum_to_invalid_inst)) p

-- `insJump`; direction 0 is forward.
unfoldable pub ins_jump : ℕ → ℕ → Packet → Outcome Packet
unfolding ins_jump_forward
ins_jump direction n p =
    if direction == 0
    then if ltb p.ins_todo_num n then jump_error p else done pof_ok (ins_jump_forward n p)
    else if ltb p.ins_done_num n
    then jump_error p
    else done pof_ok (record p {
      ins = p.ins - n;
      ins_done_num = u8 (p.ins_done_num - n);
      ins_todo_num = u8 (p.ins_todo_num + n);
    })

-- `instruction_update`.
unfoldable pub instruction_update : Packet → Packet
unfolding ins_jump_forward
instruction_update p =
    if p.ins_todo_num == 1 then record p { packet_done = true } else ins_jump_forward 1 p

-- `action_update`.
unfoldable pub action_update : Packet → Packet
action_update p =
    let act_num' = u8 (p.act_num + 2 ^ 8 - 1) in
    if ltb act_num' 1
    then record p { act_num = act_num' }
    else record p { act_num = act_num'; act = drop 1 p.act }
