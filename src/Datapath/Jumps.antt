-- ===== src/Datapath/Jumps.antt =====
-- `insJump` and `movePacketBufOffset` of datapath/pof_instruction.c: what a jump or a movement
-- does, that the opposite one takes it back, and a jump that never ends.
use pofswitch.Base.{
  ℕ, zero, suc, ◌+◌, ◌-◌, ◌^◌, ◌<◌, ◌≤◌, ◌≡◌, ◌≢◌, refl, ap, ◌∙◌, false, none, some, List, arith,
  get_elem?, get_or, take, ltb-false, Bool-cases, inl, inr, u8, u16, ltb, leb, not, ◌==◌,
  if◌then◌else◌,
}
use pofswitch.ByteOrder.{load32}
use pofswitch.Error.{
  Outcome, done, fault, pof_ok, failed, and_then, bad_instruction, BadInstructionCode,
}
use pofswitch.Flow.Table.{Instruction}
use pofswitch.Datapath.{Packet, Machine, World, value, read}
use pofswitch.Datapath.Kind.{instruction_type, InstructionType}
use pofswitch.Datapath.Move.{
  biased, is_move_out, move_packet_buf_offset, ins_jump, ins_jump_forward,
}
use pofswitch.Datapath.Value.{load_match, get_32value, get_32value_from_field}
use pofswitch.Datapath.Instructions.{execute_conditional_jmp, inst_error}
use pofswitch.Datapath.Actions.{on_packet}
use pofswitch.Datapath.Finish.{if_false}
use pofswitch.Datapath.Execute.{
  and_run, execute_apply_actions, execute_instruction, instruction_round, instruction_execute,
}

-- The position in the array is the number of the instructions done, and the counts have 8 bits.
pub record IsPositioned (p : Packet) : Type 0 where
  pub at : p.ins ≡ p.ins_done_num
  pub few : p.ins_done_num + p.ins_todo_num < 2 ^ 8

-- A packet at another position.
abbrev pub placed_at : Packet → ℕ → ℕ → ℕ → Packet
placed_at p ins ins_todo_num ins_done_num = record p {
  ins = ins;
  ins_todo_num = ins_todo_num;
  ins_done_num = ins_done_num;
}

-- Where a jump lands.
abbrev pub landing : ℕ → ℕ → Packet → Packet
landing direction n p =
    if direction == 0
    then placed_at p (p.ins + n) (p.ins_todo_num - n) (p.ins_done_num + n)
    else placed_at p (p.ins - n) (p.ins_todo_num + n) (p.ins_done_num - n)

-- What `insJump` ends in: the packet jumps, by no more than what is ahead of it, and the position still
-- agrees with the numbers; or nothing changes and the jump is reported as invalid.
abbrev pub JumpEnds : ℕ → ℕ → Packet → Outcome Packet → Type 0
JumpEnds direction n p o =
    if leb n (if direction == 0 then p.ins_todo_num else p.ins_done_num)
    then (o ≡ done pof_ok (landing direction n p)) × IsPositioned (landing direction n p)
    else o ≡ done (failed (bad_instruction BadInstructionCode.jum_to_invalid_inst)) p

leb-not-ltb : (n m : ℕ) → leb n m ≡ not (ltb m n)
leb-not-ltb n m = ground arith

placed_eq :
    (p : Packet) (ins todo did ins' todo' did' : ℕ)
    → ins ≡ ins'
    → todo ≡ todo'
    → did ≡ did'
    → done pof_ok (placed_at p ins todo did) ≡ done pof_ok (placed_at p ins' todo' did')
placed_eq p ins todo did ins' todo' did' a b c =
    ap (λ t. done pof_ok (placed_at p t todo did)) a
    ∙ ap (λ t. done pof_ok (placed_at p ins' t did)) b
    ∙ ap (λ t. done pof_ok (placed_at p ins' todo' t)) c

placed_ext :
    (p : Packet) (ins todo did : ℕ)
    → ins ≡ p.ins
    → todo ≡ p.ins_todo_num
    → did ≡ p.ins_done_num
    → done pof_ok (placed_at p ins todo did) ≡ done pof_ok p
placed_ext p ins todo did a b c = placed_eq p ins todo did _ _ _ a b c

-- From a position that agrees with the numbers of the instructions done and to be done, `insJump`
-- forward by `n` instructions, with that many to be done, lands `n` places on, where the numbers have
-- moved by `n`, and for all of them that is just behind the last; backward by no more than those
-- done, it lands `n` places back. Any other jump is reported as invalid and leaves the packet as it was.
pub ins_jump-JumpEnds :
    (direction n : ℕ) (p : Packet)
    → IsPositioned p
    → JumpEnds direction n p (ins_jump direction n p)
unfolding ins_jump ins_jump_forward
ins_jump-JumpEnds direction n p h = elim (Bool-cases (direction == 0)) [
  | inl d ↦ rw d (elim (Bool-cases (ltb p.ins_todo_num n)) [
    | inl e ↦ rw (e, leb-not-ltb n p.ins_todo_num, e) refl
    | inr e ↦
        rw (e, leb-not-ltb n p.ins_todo_num, e)
          (
            placed_eq p _ _ _ _ _ _ refl (ground (arith, h.few)) (ground (arith, h.few)),
            record { at = ap (λ t. t + n) h.at; few = ground (arith, h.few) },
          )
  ])
  | inr d ↦ rw d (elim (Bool-cases (ltb p.ins_done_num n)) [
    | inl e ↦ rw (e, leb-not-ltb n p.ins_done_num, e) refl
    | inr e ↦
        rw (e, leb-not-ltb n p.ins_done_num, e)
          (
            placed_eq p _ _ _ _ _ _ refl (ground (arith, h.few)) (ground (arith, h.few)),
            record { at = ap (λ t. t - n) h.at; few = ground (arith, h.few) },
          )
  ])
]

-- A jump forward within the instructions to be done, and then the same number back, leads to the
-- packet as it was.
pub ins_jump-ins_jump :
    (n : ℕ) (p : Packet)
    → IsPositioned p
    → n ≤ p.ins_todo_num
    → and_then (ins_jump 0 n p) (ins_jump 1 n) ≡ done pof_ok p
unfolding ins_jump ins_jump_forward
ins_jump-ins_jump n p h l = rw (ltb-false p.ins_todo_num n l) (
    rw (ltb-false (u8 (p.ins_done_num + n)) n (omega (arith, h.few))) (
      placed_ext p (p.ins + n - n) (u8 (u8 (p.ins_todo_num + 2 ^ 32 - n) + n))
        (u8 (u8 (p.ins_done_num + n) - n)) (omega arith) (omega (arith, h.few))
        (omega (arith, h.few))))

-- A packet that is moved by `offset` and then by its opposite.
abbrev pub opposite : ℕ → ℕ
opposite offset = u16 (2 ^ 16 - offset)

-- A packet with another pointer to its data.
abbrev moved_to : Packet → ℕ → ℕ → ℕ → Packet
moved_to p offset left_len buf_offset = record p {
  offset = offset;
  left_len = left_len;
  buf_offset = buf_offset;
}

moved_ext :
    (p : Packet) (offset left_len buf_offset : ℕ)
    → offset ≡ p.offset
    → left_len ≡ p.left_len
    → buf_offset ≡ p.buf_offset
    → done pof_ok (moved_to p offset left_len buf_offset) ≡ done pof_ok p
moved_ext p offset left_len buf_offset a b c =
    ap (λ t. done pof_ok (moved_to p t left_len buf_offset)) a
    ∙ ap (λ t. done pof_ok (moved_to p p.offset t buf_offset)) b
    ∙ ap (λ t. done pof_ok (moved_to p p.offset p.left_len t)) c

-- From a pointer that is `offset` behind the start of the packet, with what is left of it within
-- the buffer, a movement that `movePacketBufOffset` accepts, other than by `- 2 ^ 15`, and then
-- the opposite one are both accepted and lead to the packet as it was.
pub move-move :
    (offset : ℕ) (p : Packet)
    → offset < 2 ^ 16
    → offset ≢ 2 ^ 15
    → p.offset < 2 ^ 16
    → p.buf_offset + 2 ^ 15 ≡ biased p.offset + 128
    → p.buf_offset + p.left_len ≤ 2048
    → is_move_out offset p ≡ false
    → and_then (move_packet_buf_offset offset p) (move_packet_buf_offset (opposite offset))
      ≡ done pof_ok p
unfolding move_packet_buf_offset
move-move offset p small ne h q fits e = rw e (
    rw back (
      moved_ext p (u16 (u16 (p.offset + offset) + opposite offset))
        (p.left_len + 2 ^ 15 - biased offset + 2 ^ 15 - biased (opposite offset))
        (p.buf_offset + biased offset - 2 ^ 15 + biased (opposite offset) - 2 ^ 15) (ground arith)
        (ground arith) (ground arith)))
  where
    back :
        is_move_out (opposite offset) (
          moved_to p
            (u16 (p.offset + offset))
            (p.left_len + 2 ^ 15 - biased offset)
            (p.buf_offset + biased offset - 2 ^ 15))
        ≡ false
    back = ground arith

-- A conditional jump to itself: every jump is 0 instructions forward, an immediate number.
pub record IsSelfJump (i : Instruction) : Type 0 where
  pub jumps : i.kind ≡ 9
  pub immediate : get_or i.instruction_data 0 0 ≡ 0
  pub forward1 : get_or i.instruction_data 1 0 ≡ 0
  pub immediate1 : get_or i.instruction_data 2 0 ≡ 0
  pub forward2 : get_or i.instruction_data 3 0 ≡ 0
  pub immediate2 : get_or i.instruction_data 4 0 ≡ 0
  pub forward3 : get_or i.instruction_data 5 0 ≡ 0
  pub immediate3 : get_or i.instruction_data 6 0 ≡ 0
  pub by1 : load32 i.instruction_data 24 ≡ 0
  pub by2 : load32 i.instruction_data 32 ≡ 0
  pub by3 : load32 i.instruction_data 40 ≡ 0

jump_by_0 : (p : Packet) → IsPositioned p → ins_jump 0 0 p ≡ done pof_ok p
unfolding ins_jump ins_jump_forward
jump_by_0 p h = rw (ltb-false p.ins_todo_num 0 (omega arith)) (
    placed_ext p (p.ins + 0) (u8 (p.ins_todo_num + 2 ^ 32 - 0)) (u8 (p.ins_done_num + 0))
      (omega arith) (omega (arith, h.few)) (omega (arith, h.few)))

stays :
    (w : World) (i : Instruction) (m : Machine) (v : ℕ)
    → IsSelfJump i
    → IsPositioned m.packet
    → get_32value_from_field (take 4 w.junk) (load_match i.instruction_data 8) m.packet ≡ value v
    → execute_conditional_jmp w i.instruction_data m ≡ done pof_ok m
unfolding execute_conditional_jmp get_32value
stays w i m v s h e =
    rw (e, s.immediate)
      (elim (Bool-cases (ltb v (load32 p 16))) [
        | inl b ↦ rw b (zero_at 2 1 24 s.immediate1 s.forward1 s.by1)
        | inr b ↦ rw b (elim (Bool-cases (v == load32 p 16)) [
          | inl c ↦ rw c (zero_at 4 3 32 s.immediate2 s.forward2 s.by2)
          | inr c ↦ rw c (zero_at 6 5 40 s.immediate3 s.forward3 s.by3)
        ])
      ])
  where
    p : List ℕ
    p = i.instruction_data

    zero_at :
        (type direction at : ℕ)
        → get_or p type 0 ≡ 0
        → get_or p direction 0 ≡ 0
        → load32 p at ≡ 0
        → read
            (get_32value (take 4 w.junk) (get_or p type 0) p at m.packet)
            m
            (λ offset. on_packet m (ins_jump (get_or p direction 0) offset m.packet))
          ≡ done pof_ok m
    zero_at type direction at a b c = rw (a, b, c) (ap (on_packet m) (jump_by_0 m.packet h))

jump_round :
    (w : World) (fuel : ℕ) (i : Instruction) (m : Machine)
    → IsSelfJump i
    → instruction_round w fuel i m ≡ some (execute_conditional_jmp w i.instruction_data m)
unfolding instruction_round instruction_type execute_instruction
jump_round w fuel i m s =
    ap
      (λ n. elim (instruction_type n) [
        | none ↦ some (inst_error BadInstructionCode.unknown_inst m)
        | some InstructionType.apply_actions ↦ execute_apply_actions w fuel i.instruction_data m
        | some t ↦ some (execute_instruction w t i.instruction_data m)
      ])
      s.jumps

-- A conditional jump with an immediate second value and three immediate jumps by 0 forward, whose
-- first field can be read, at which a packet stands that is within its instructions and not done,
-- is executed again and again: whatever the fuel, the loop over the instructions does not end.
pub instruction_execute-runs_forever :
    (w : World) (fuel : ℕ) (i : Instruction) (m : Machine) (v : ℕ)
    → IsSelfJump i
    → IsPositioned m.packet
    → get_32value_from_field (take 4 w.junk) (load_match i.instruction_data 8) m.packet ≡ value v
    → get_elem? m.packet.ins_array m.packet.ins ≡ some i
    → m.packet.packet_done ≡ false
    → instruction_execute w fuel m ≡ none
unfolding instruction_execute
instruction_execute-runs_forever w zero i m v s h e a d = refl
instruction_execute-runs_forever w (suc fuel) i m v s h e a d =
    if_false m.packet.packet_done _ _ d
    ∙ ap
        (λ o. elim o [
          | none ↦ some fault
          | some j ↦ and_run (instruction_round w fuel j m) (instruction_execute w fuel)
        ])
        a
    ∙ ap (λ r. and_run r (instruction_execute w fuel)) (round_stays fuel)
    ∙ instruction_execute-runs_forever w fuel i m v s h e a d
  where
    round_stays : (fuel : ℕ) → instruction_round w fuel i m ≡ some (done pof_ok m)
    round_stays fuel = jump_round w fuel i m s ∙ ap some (stays w i m v s h e)
