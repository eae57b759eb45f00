-- ===== src/Datapath/Steps.antt =====
-- Every instruction but the one that applies actions keeps the frame and the invariant.
use pofswitch.Base.{
  ℕ, ◌+◌, ◌*◌, ◌^◌, ◌<◌, ◌≡◌, refl, true, Option, none, some, List, arith, take, drop, get_or,
  replicate, Bool-cases, inl, inr, u16, ltb, ◌==◌,
}
use pofswitch.ByteOrder.{load16, load32}
use pofswitch.Error.{Outcome, SoftCode}
use pofswitch.Field.{copy_bit}
use pofswitch.Flow.{table_id_to_global, table_global_to_id}
use pofswitch.Flow.Table.{EntryInfo, TableInfo, linear_table, entry_lookup, entry_lookup_linear}
use pofswitch.Flow.Tables.{get_table_with_id}
use pofswitch.Resource.Meter.{get_meter_with_id}
use pofswitch.Datapath.{Packet, Machine, World, window, rel_len, soft_error}
use pofswitch.Datapath.Kind.{InstructionType}
use pofswitch.Datapath.Move.{instruction_update, ins_jump_forward}
use pofswitch.Datapath.Value.{load_match, get_32value, get_32value_from_field}
use pofswitch.Datapath.Send.{whole_packet}
use pofswitch.Datapath.Actions.{put_packet}
use pofswitch.Datapath.Instructions.{
  instructed, loaded, load_entry, on_done, count_entry, movement, execute_meter,
  execute_write_metadata, execute_write_metadata_from_packet, entry_at, match_table, entry_nomatch,
  enter_table, execute_goto_table, goto_next, goto_direct_next, direct_entry,
  execute_goto_direct_table, execute_conditional_jmp, execute_calculate_field, calculate,
  execute_move_packet_offset, execute_unsupported,
}
use pofswitch.Datapath.Execute.{execute_instruction}
use pofswitch.Datapath.Invariant.{
  IsPacket, KeepsPacket, KeepsPacket-refl, KeepsPacket-trans, Keeps, Keeps-refl, Keeps-trans,
  cover_metadata-keeps,
}
use pofswitch.Datapath.Ends.{
  Ends, ends, faulted, packet-Keeps, on_packet-Keeps, Ends-if, Ends-map, Ends-and_then,
  Ends-or_fault, Ends-any, Ends-read, Ends-read_any,
}
use pofswitch.Datapath.Parts.{write_32value-keeps, move-keeps, ins_jump-keeps}
use pofswitch.Datapath.Sends.{send_packet_in-Keeps, count-Keeps}

-- A packet of which neither the buffers and pointers nor the actions are changed.
abbrev plain :
    {p q : Packet}
    → (IsPacket p → IsPacket q)
    → q.act ≡ p.act
    → q.act_num ≡ p.act_num
    → KeepsPacket p q
plain v a n = record { valid = v; same_act = a; same_act_num = n }

update-keeps : (p : Packet) → KeepsPacket p (instruction_update p)
unfolding instruction_update ins_jump_forward
update-keeps p = elim (Bool-cases (p.ins_todo_num == 1)) [
  | inl e ↦ rw e (plain (λ v. v) refl refl)
  | inr e ↦ rw e (plain (λ v. v) refl refl)
]

pub instructed-Keeps :
    (m : Machine) (p : Packet) → KeepsPacket m.packet p → Ends (Keeps m) (instructed m p)
instructed-Keeps m p k =
    ends (packet-Keeps m (instruction_update p) (KeepsPacket-trans k (update-keeps p)))

meter_lem : (p : List ℕ) (m : Machine) → Ends (Keeps m) (execute_meter p m)
unfolding execute_meter
meter_lem p m = Ends-any (get_meter_with_id (load32 p 0) m.slot.resource) (elim [
  | none ↦ ends Keeps-refl
  | some meter ↦
      instructed-Keeps m (record (m.packet) { rate = meter.obj.rate }) (plain (λ v. v) refl refl)
])

write_metadata_lem : (p : List ℕ) (m : Machine) → Ends (Keeps m) (execute_write_metadata p m)
unfolding execute_write_metadata
write_metadata_lem p m =
    Ends-or_fault (cover_metadata-keeps (drop 4 p) (load16 p 0) (load16 p 2) m.packet)
      (instructed-Keeps m)

write_metadata_from_packet_lem :
    (p : List ℕ) (m : Machine) → Ends (Keeps m) (execute_write_metadata_from_packet p m)
unfolding execute_write_metadata_from_packet
write_metadata_from_packet_lem p m =
    Ends-if (ltb (m.packet.left_len * 8) (load16 p 4 + load16 p 2)) (ends Keeps-refl) (
      Ends-any (copy_bit (some (window m.packet)) (replicate 128 0) (load16 p 2) (load16 p 4)) (λ v.
        Ends-or_fault (cover_metadata-keeps v (load16 p 0) (load16 p 4) m.packet)
          (instructed-Keeps m)))

u16-lt : (n : ℕ) → u16 n < 2 ^ 16
u16-lt n = omega arith

enter_table-Keeps :
    (table_id packet_offset : ℕ) (m : Machine) (rest : Machine → Outcome Machine)
    → ((n : Machine) → Ends (Keeps n) (rest n))
    → Ends (Keeps m) (enter_table table_id packet_offset m rest)
unfolding enter_table
enter_table-Keeps table_id packet_offset m rest k =
    Ends-and_then
      (on_packet-Keeps m (move-keeps (u16 packet_offset) (u16-lt packet_offset) m.packet))
      (λ n l. l) (λ n l. found n l (table_global_to_id n.slot.num_max_each_type table_id))
  where
    found :
        (n : Machine)
        → Keeps m n
        → (o : Option (ℕ × ℕ))
        → Ends (Keeps m) (elim o [
          | none ↦ soft_error SoftCode.bad_table_id n
          | some (type, id) ↦
              rest (put_packet n (record (n.packet) { table_type = type; table_id = id }))
        ])
    found n l none = ends l
    found n l (some (type, id)) =
        let put =
          packet-Keeps n (record (n.packet) { table_type = type; table_id = id })
            (plain (λ v. v) refl refl) in
        Ends-map (k _) (λ o j. Keeps-trans l (Keeps-trans put j))

loaded_lem : (entry : EntryInfo) (m n : Machine) → Keeps m n → Keeps m (loaded entry n)
loaded_lem entry m n k =
    Keeps-trans k (packet-Keeps n (load_entry entry (n.packet)) (plain (λ v. v) refl refl))

on_done-Keeps :
    (m : Machine) {o : Outcome Machine} {f : Machine → Machine}
    → Ends (Keeps m) o
    → ((n : Machine) → Keeps m n → Keeps m (f n))
    → Ends (Keeps m) (on_done o f)
on_done-Keeps m (ends {s} k) f = ends (f s k)
on_done-Keeps m faulted f = faulted

count_entry-Keeps : (entry : EntryInfo) (m : Machine) → Ends (Keeps m) (count_entry entry m)
count_entry-Keeps entry m = count-Keeps m.spare entry.counter_id (rel_len m.packet) m

match_table-Keeps :
    (w : World) (table : TableInfo) (m : Machine) → Ends (Keeps m) (match_table w table m)
unfolding match_table entry_nomatch
match_table-Keeps w table m =
    Ends-any (entry_lookup w.memory (window m.packet) m.packet.metadata table) (elim [
      | none ↦
          on_done-Keeps m
            (Ends-any
              (table_id_to_global m.slot.num_max_each_type m.packet.table_type m.packet.table_id)
              (λ table_id. send_packet_in-Keeps w (whole_packet m.packet) 0 table_id m))
            (λ n k. Keeps-trans k (
              packet-Keeps n (record (n.packet) { packet_done = true }) (plain (λ v. v) refl refl)))
      | some addr ↦
          Ends-any (entry_at addr table)
            (λ entry. on_done-Keeps m (count_entry-Keeps entry m) (loaded_lem entry m))
    ])

goto_table_lem : (w : World) (p : List ℕ) (m : Machine) → Ends (Keeps m) (execute_goto_table w p m)
unfolding execute_goto_table goto_next
goto_table_lem w p m = enter_table-Keeps (get_or p 0 0) (load16 p 2) m (goto_next w p) (λ n.
    Ends-any (get_table_with_id (get_or p 0 0) n.slot)
      (elim [ none ↦ ends Keeps-refl | some table ↦ match_table-Keeps w table.obj n ]))

direct_entry-Keeps :
    (index : ℕ) (table : TableInfo) (m : Machine) → Ends (Keeps m) (direct_entry index table m)
unfolding direct_entry
direct_entry-Keeps index table m =
    Ends-if (m.packet.table_type == linear_table)
      (Ends-any (entry_lookup_linear index table) (elim [
        | none ↦ ends Keeps-refl
        | some entry ↦
            Ends-and_then (count_entry-Keeps entry.obj m) (λ n k. k)
              (λ n k. ends (loaded_lem entry.obj m n k))
      ]))
      (ends Keeps-refl)

goto_direct_table_lem :
    (w : World) (p : List ℕ) (m : Machine) → Ends (Keeps m) (execute_goto_direct_table w p m)
unfolding execute_goto_direct_table goto_direct_next
goto_direct_table_lem w p m =
    enter_table-Keeps (get_or p 0 0) (load16 p 2) m (goto_direct_next w p) (λ n.
      Ends-read_any (get_32value (take 4 w.junk) (get_or p 1 0) p 8 n.packet) n Keeps-refl (λ index.
        Ends-any (get_table_with_id (get_or p 0 0) n.slot)
          (elim [ none ↦ ends Keeps-refl | some table ↦ direct_entry-Keeps index table.obj n ])))

conditional_jmp_lem :
    (w : World) (p : List ℕ) (m : Machine) → Ends (Keeps m) (execute_conditional_jmp w p m)
unfolding execute_conditional_jmp
conditional_jmp_lem w p m =
    let tmp = take 4 w.junk in
    Ends-read_any (get_32value_from_field tmp (load_match p 8) m.packet) m Keeps-refl (λ value1.
      Ends-read_any (get_32value tmp (get_or p 0 0) p 16 m.packet) m Keeps-refl (λ value2.
        Ends-read_any _ m Keeps-refl
          (λ offset. on_packet-Keeps m (ins_jump-keeps _ offset m.packet))))

calculate_field_lem :
    (w : World) (p : List ℕ) (m : Machine) → Ends (Keeps m) (execute_calculate_field w p m)
unfolding execute_calculate_field
calculate_field_lem w p m =
    let tmp = take 4 w.junk in
    Ends-read_any (get_32value_from_field tmp (load_match p 8) m.packet) m Keeps-refl (λ value1.
      Ends-read_any (get_32value tmp (get_or p 2 0) p 16 m.packet) m Keeps-refl (λ operand.
        Ends-any (calculate (load16 p 0) value1 operand) (elim [
          | none ↦ ends Keeps-refl
          | some v ↦
              Ends-read m (write_32value-keeps v (load_match p 8) m.packet) Keeps-refl
                (instructed-Keeps m)
        ])))

move_packet_offset_lem :
    (w : World) (p : List ℕ) (m : Machine) → Ends (Keeps m) (execute_move_packet_offset w p m)
unfolding execute_move_packet_offset
move_packet_offset_lem w p m =
    Ends-read_any (get_32value (take 4 w.junk) (get_or p 1 0) p 8 m.packet) m Keeps-refl (λ v.
      Ends-and_then
        (on_packet-Keeps m
          (move-keeps (movement (get_or p 0 0) v) (movement-lt (get_or p 0 0) v) m.packet))
        (λ n k. k)
        (λ n k. Ends-map (instructed-Keeps n n.packet KeepsPacket-refl) (λ o l. Keeps-trans k l)))
  where
    movement-lt : (direction v : ℕ) → movement direction v < 2 ^ 16
    movement-lt direction v = ground arith

unsupported_lem : (m : Machine) → Ends (Keeps m) (execute_unsupported m)
unfolding execute_unsupported
unsupported_lem m = ends Keeps-refl

pub execute_instruction-Keeps :
    (w : World) (t : InstructionType) (p : List ℕ) (m : Machine)
    → Ends (Keeps m) (execute_instruction w t p m)
unfolding execute_instruction
execute_instruction-Keeps w InstructionType.goto_table p m = goto_table_lem w p m
execute_instruction-Keeps w InstructionType.write_metadata p m = write_metadata_lem p m
execute_instruction-Keeps w InstructionType.write_actions p m = unsupported_lem m
execute_instruction-Keeps w InstructionType.apply_actions p m = unsupported_lem m
execute_instruction-Keeps w InstructionType.clear_actions p m = unsupported_lem m
execute_instruction-Keeps w InstructionType.meter p m = meter_lem p m
execute_instruction-Keeps w InstructionType.write_metadata_from_packet p m =
    write_metadata_from_packet_lem p m
execute_instruction-Keeps w InstructionType.goto_direct_table p m = goto_direct_table_lem w p m
execute_instruction-Keeps w InstructionType.conditional_jmp p m = conditional_jmp_lem w p m
execute_instruction-Keeps w InstructionType.calculate_field p m = calculate_field_lem w p m
execute_instruction-Keeps w InstructionType.move_packet_offset p m = move_packet_offset_lem w p m
execute_instruction-Keeps w InstructionType.experimenter p m = unsupported_lem m
