-- ===== src/Datapath/Runs.antt =====
-- The loops over actions and instructions: what every run of a packet keeps.
use mathlib.Core.Path.{subst}
use pofswitch.Base.{
  ℕ, zero, suc, ◌/◌, ◌^◌, ◌≡◌, ◌∙◌, Bool, true, false, Option, none, some, List, [], ◌∷◌, drop,
  get_or, get_elem?, set, replicate, u8, ◌==◌, ◌||◌, if◌then◌else◌, length-replicate, length-set,
}
use pofswitch.ByteOrder.{load32}
use pofswitch.Error.{
  Ret, Outcome, done, fault, pof_ok, failed, group_mod_failed, GroupModCode, BadInstructionCode,
}
use pofswitch.Hmap.{Node}
use pofswitch.Field.Bits.{IsBytes-replicate, IsBytes-set, u8-byte}
use pofswitch.Resource.{Action, GroupInfo}
use pofswitch.Resource.Group.{get_group_with_id}
use pofswitch.Flow.Table.{Instruction}
use pofswitch.Datapath.{Packet, Machine, World, rel_len}
use pofswitch.Datapath.Kind.{ActionType, InstructionType, action_type, instruction_type}
use pofswitch.Datapath.Actions.{put_packet, on_resource}
use pofswitch.Resource.Counter.{counter_increase}
use pofswitch.Datapath.Execute.{
  Run, then_run, and_run, bad_type, put_actions, execute_action, execute_instruction, execute_group,
  action_round, action_execute, load_actions, execute_apply_actions, instruction_round,
  instruction_execute, init_packet_metadata, first_instruction, pofdp_forward,
}
use pofswitch.Datapath.Instructions.{inst_error}
use pofswitch.Datapath.Invariant.{
  IsPacket, IsStep, IsStep-refl, IsStep-trans, Keeps-IsStep, Frame-refl, Frame-packet,
  KeepsPacket-refl,
}
use pofswitch.Datapath.Ends.{Ends, ends, faulted, Ends-map}
use pofswitch.Datapath.Sends.{count-Keeps}
use pofswitch.Datapath.Acts.{Acts, succeeds, fails, breaks, execute_action-Acts}
use pofswitch.Datapath.Steps.{execute_instruction-Keeps, instructed-Keeps}

-- A run that has not ended yet, or that ends as wanted.
pub data Runs (P : Machine → Type 0) : Run → Type 0 where
  goes_on : Runs P none
  ended : {o : Outcome Machine} → Ends P o → Runs P (some o)

Runs-if :
    {P : Machine → Type 0} (b : Bool) {x y : Run}
    → Runs P x
    → Runs P y
    → Runs P (if b then x else y)
Runs-if true p q = p
Runs-if false p q = q

module _ {m : Machine} where
  and_run-IsStep :
      {o : Run} {k : Machine → Run}
      → Runs (IsStep m) o
      → ((n : Machine) → Runs (IsStep n) (k n))
      → Runs (IsStep m) (and_run o k)
  and_run-IsStep goes_on k = goes_on
  and_run-IsStep (ended (ends {r = pof_ok} {s} p)) k = later p (k s)
    where
      later : {n : Machine} {o : Run} → IsStep m n → Runs (IsStep n) o → Runs (IsStep m) o
      later p goes_on = goes_on
      later p (ended e) = ended (Ends-map e (λ n q. IsStep-trans p q))
  and_run-IsStep (ended (ends {r = failed e} p)) k = ended (ends p)
  and_run-IsStep (ended faulted) k = ended faulted

  Acts-Ends : {o : Outcome Machine} → Acts m o → Ends (IsStep m) o
  Acts-Ends (succeeds s c) = ends s
  Acts-Ends (fails s) = ends s
  Acts-Ends breaks = faulted

put_actions-IsStep : (act : List Action) (n : ℕ) (m : Machine) → IsStep m (put_actions act n m)
put_actions-IsStep act n m = record {
  frame = Frame-packet (record (m.packet) { act = act; act_num = n }) (Frame-refl {m = m});
  valid = λ v. v;
}

execute_group-IsStep :
    (run : Machine → Run) (p : List ℕ) (m : Machine)
    → ((n : Machine) → Runs (IsStep n) (run n))
    → Runs (IsStep m) (execute_group run p m)
unfolding execute_group
execute_group-IsStep run p m k = go (get_group_with_id (load32 p 0) m.slot.resource)
  where
    go :
        (found : Option (Option (Node GroupInfo)))
        → Runs (IsStep m) (elim found [
          | none ↦ some fault
          | some none ↦ some (done (failed (group_mod_failed GroupModCode.unknown_group)) m)
          | some (some group) ↦
              then_run
                (on_resource m (
                  counter_increase m.spare group.obj.counter_id (rel_len m.packet) m.slot.resource))
                (λ m'. run (put_actions group.obj.action group.obj.action_number m'))
        ])
    go none = ended faulted
    go (some none) = ended (ends IsStep-refl)
    go (some (some group)) =
        and_run-IsStep
          (ended (
            Ends-map (count-Keeps m.spare group.obj.counter_id (rel_len m.packet) m)
              (λ n l. Keeps-IsStep l)))
          (λ n.
            and_run-IsStep
              (ended
                (ends {r = pof_ok} (put_actions-IsStep group.obj.action group.obj.action_number n)))
              k)

action_round-IsStep :
    (w : World) (run : Machine → Run) (a : Action) (m : Machine)
    → ((n : Machine) → Runs (IsStep n) (run n))
    → Runs (IsStep m) (action_round w run a m)
unfolding action_round
action_round-IsStep w run a m k = go (action_type a.kind)
  where
    other : (t : ActionType) → Runs (IsStep m) (some (execute_action w t a.action_data m))
    other t = ended (Acts-Ends (execute_action-Acts w t a.action_data m))

    go :
        (t : Option ActionType)
        → Runs (IsStep m) (elim t [
          | none ↦ some (bad_type m)
          | some ActionType.group ↦ execute_group run a.action_data m
          | some t ↦ some (execute_action w t a.action_data m)
        ])
    go none = ended (ends IsStep-refl)
    go (some ActionType.output) = other ActionType.output
    go (some ActionType.set_field) = other ActionType.set_field
    go (some ActionType.set_field_from_metadata) = other ActionType.set_field_from_metadata
    go (some ActionType.modify_field) = other ActionType.modify_field
    go (some ActionType.add_field) = other ActionType.add_field
    go (some ActionType.delete_field) = other ActionType.delete_field
    go (some ActionType.calculate_checksum) = other ActionType.calculate_checksum
    go (some ActionType.group) = execute_group-IsStep run a.action_data m k
    go (some ActionType.drop) = other ActionType.drop
    go (some ActionType.packet_in) = other ActionType.packet_in
    go (some ActionType.counter) = other ActionType.counter
    go (some ActionType.experimenter) = other ActionType.experimenter

action_execute-IsStep :
    (w : World) (fuel : ℕ) (m : Machine) → Runs (IsStep m) (action_execute w fuel m)
unfolding action_execute
action_execute-IsStep w zero m = goes_on
action_execute-IsStep w (suc fuel) m =
    Runs-if (m.packet.packet_done || m.packet.act_num == 0) (ended (ends IsStep-refl))
      (go (action_execute-IsStep w fuel) (m.packet.act))
  where
    go :
        ((n : Machine) → Runs (IsStep n) (action_execute w fuel n))
        → (act : List Action)
        → Runs (IsStep m) (elim act [
          | [] ↦ some fault
          | a ∷ _ ↦ and_run (action_round w (action_execute w fuel) a m) (action_execute w fuel)
        ])
    go k [] = ended faulted
    go k (a ∷ _) = and_run-IsStep (action_round-IsStep w (action_execute w fuel) a m k) k

apply_actions-IsStep :
    (w : World) (fuel : ℕ) (p : List ℕ) (m : Machine)
    → Runs (IsStep m) (execute_apply_actions w fuel p m)
unfolding execute_apply_actions
apply_actions-IsStep w fuel p m =
    and_run-IsStep
      (and_run-IsStep
        (ended
          (ends {r = pof_ok} (put_actions-IsStep (load_actions 6 (drop 8 p)) (get_or p 0 0) m)))
        (action_execute-IsStep w fuel))
      (λ n. ended (Ends-map (instructed-Keeps n n.packet KeepsPacket-refl) (λ o k. Keeps-IsStep k)))

instruction_round-IsStep :
    (w : World) (fuel : ℕ) (i : Instruction) (m : Machine)
    → Runs (IsStep m) (instruction_round w fuel i m)
unfolding instruction_round
instruction_round-IsStep w fuel i m = go (instruction_type i.kind)
  where
    other :
        (t : InstructionType)
        → Runs (IsStep m) (some (execute_instruction w t i.instruction_data m))
    other t =
        ended
          (Ends-map (execute_instruction-Keeps w t i.instruction_data m) (λ n k. Keeps-IsStep k))

    go :
        (t : Option InstructionType)
        → Runs (IsStep m) (elim t [
          | none ↦ some (inst_error BadInstructionCode.unknown_inst m)
          | some InstructionType.apply_actions ↦ execute_apply_actions w fuel i.instruction_data m
          | some t ↦ some (execute_instruction w t i.instruction_data m)
        ])
    go none = ended (ends IsStep-refl)
    go (some InstructionType.goto_table) = other InstructionType.goto_table
    go (some InstructionType.write_metadata) = other InstructionType.write_metadata
    go (some InstructionType.write_actions) = other InstructionType.write_actions
    go (some InstructionType.apply_actions) = apply_actions-IsStep w fuel i.instruction_data m
    go (some InstructionType.clear_actions) = other InstructionType.clear_actions
    go (some InstructionType.meter) = other InstructionType.meter
    go (some InstructionType.write_metadata_from_packet) =
        other InstructionType.write_metadata_from_packet
    go (some InstructionType.goto_direct_table) = other InstructionType.goto_direct_table
    go (some InstructionType.conditional_jmp) = other InstructionType.conditional_jmp
    go (some InstructionType.calculate_field) = other InstructionType.calculate_field
    go (some InstructionType.move_packet_offset) = other InstructionType.move_packet_offset
    go (some InstructionType.experimenter) = other InstructionType.experimenter

instruction_execute-IsStep :
    (w : World) (fuel : ℕ) (m : Machine) → Runs (IsStep m) (instruction_execute w fuel m)
unfolding instruction_execute
instruction_execute-IsStep w zero m = goes_on
instruction_execute-IsStep w (suc fuel) m =
    Runs-if m.packet.packet_done (ended (ends IsStep-refl))
      (go (instruction_execute-IsStep w fuel) (get_elem? m.packet.ins_array m.packet.ins))
  where
    go :
        ((n : Machine) → Runs (IsStep n) (instruction_execute w fuel n))
        → (i : Option Instruction)
        → Runs (IsStep m) (elim i [
          | none ↦ some fault
          | some i ↦ and_run (instruction_round w fuel i m) (instruction_execute w fuel)
        ])
    go k none = ended faulted
    go k (some i) = and_run-IsStep (instruction_round-IsStep w fuel i m) k

init_packet_metadata-IsPacket : (p : Packet) → IsPacket p → IsPacket (init_packet_metadata p)
unfolding init_packet_metadata
init_packet_metadata-IsPacket p v = record {
  buf_length = v.buf_length;
  buf_bytes = v.buf_bytes;
  metadata_length =
      length-set (set (set zeros 0 a) 1 b) 2 c
      ∙ length-set (set zeros 0 a) 1 b
      ∙ length-set zeros 0 a
      ∙ length-replicate {A = ℕ} 128 0;
  metadata_bytes = IsBytes-set (set (set zeros 0 a) 1 b) 2 c (u8-byte p.ori_port_id) (
      IsBytes-set (set zeros 0 a) 1 b (u8-byte p.ori_len)
        (IsBytes-set zeros 0 a (u8-byte (p.ori_len / 2 ^ 8)) (IsBytes-replicate 128)));
  out_length = v.out_length;
  small = v.small;
  placed = v.placed;
}
  where
    zeros : List ℕ
    zeros = replicate 128 0

    a : ℕ
    a = u8 (p.ori_len / 2 ^ 8)

    b : ℕ
    b = u8 p.ori_len

    c : ℕ
    c = u8 p.ori_port_id

forwarded : (w : World) (fuel : ℕ) (m : Machine) → Runs (IsStep m) (pofdp_forward w fuel m)
unfolding pofdp_forward
forwarded w fuel m =
    let p = init_packet_metadata (m.packet) in
    let start : IsStep m (
        put_packet m (record p { ins_array = first_instruction ∷ []; ins = 0; ins_todo_num = 1 })) =
      record {
        frame = Frame-packet _ (Frame-refl {m = m});
        valid = λ v. init_packet_metadata-IsPacket (m.packet) v;
      } in
    and_run-IsStep (ended (ends {r = pof_ok} start)) (instruction_execute-IsStep w fuel)

-- Whatever its tables, groups and meters hold and the packet carries, and however long the run is: a
-- packet that enters with buffers of their lengths and its pointers in place ends so, if no access
-- was out of a buffer; the run changes nothing of the slot but its counters, and takes back nothing
-- that was sent.
pub pofdp_forward-IsStep :
    (w : World) (fuel : ℕ) (m n : Machine) (r : Ret)
    → pofdp_forward w fuel m ≡ some (done r n)
    → IsStep m n
pofdp_forward-IsStep w fuel m n r e = out (subst (Runs (IsStep m)) e (forwarded w fuel m))
  where
    out : Runs (IsStep m) (some (done r n)) → IsStep m n
    out (ended (ends s)) = s
