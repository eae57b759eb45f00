-- ===== src/Datapath/Acts.antt =====
-- Every action but a group action: it keeps the frame and the invariant, and when it succeeds it is
-- counted as done.
use pofswitch.Base.{
  ℕ, ◌+◌, ◌-◌, ◌*◌, ◌^◌, ◌≡◌, refl, ap, ◌∙◌, ◌⊎◌, Bool, true, false, Option, none, some, List, [],
  ◌∷◌, arith, length, take, drop, get_or, Bool-cases, inl, inr, u8, u32, ltb, ◌==◌, if◌then◌else◌,
}
use pofswitch.ByteOrder.{load16, load32}
use pofswitch.Error.{Outcome, done, fault, pof_ok, failed, and_then, Error}
use pofswitch.Field.{copy_bit}
use pofswitch.Field.Keep.{Gives, nothing, gives}
use pofswitch.Flow.{table_id_to_global, bytes_of_bits}
use pofswitch.Resource.Steps.{or_fault}
use pofswitch.Datapath.{Packet, Output, Machine, World, Read, value, refused, wild, read}
use pofswitch.Datapath.Kind.{ActionType}
use pofswitch.Datapath.Move.{action_update}
use pofswitch.Datapath.Value.{load_match, get_32value, get_32value_from_field}
use pofswitch.Datapath.Send.{whole_packet, flood, pofdp_send_raw}
use pofswitch.Datapath.Actions.{
  acted, put_packet, execute_counter, execute_packet_in, execute_drop, execute_set_field,
  execute_set_field_from_metadata, execute_modify_field, execute_calculate_checksum, execute_output,
  output_to, output_of, has_slot, execute_add_field, execute_delete_field, execute_experimenter,
}
use pofswitch.Datapath.Execute.{execute_action}
use pofswitch.Datapath.Invariant.{
  IsPacket, KeepsPacket, Keeps, Keeps-trans, Frame-packet, cover_packet-keeps, IsStep, IsStep-refl,
  Keeps-IsStep,
}
use pofswitch.Datapath.Ends.{
  Ends, ends, faulted, packet-Keeps, on_packet-Keeps, Ends-if, Ends-map, IsValue, is_value,
  is_refused, is_wild,
}
use pofswitch.Datapath.Parts.{
  write_32value-keeps, cal_checksum-keeps, insert_tag-keeps, delete_tag-keeps,
}
use pofswitch.Datapath.Sends.{pofdp_send_raw-Keeps, send_packet_in-Keeps, flood-Keeps, count-Keeps}

-- One action less is to be done; the next one is the next of the array, unless there is none.
pub record IsCounted (p q : Packet) : Type 0 where
  pub one_less : q.act_num ≡ u8 (p.act_num + 2 ^ 8 - 1)
  pub next : (q.act_num ≡ 0) ⊎ (q.act ≡ drop 1 p.act)

pub data Acts (m : Machine) : Outcome Machine → Type 0 where
  succeeds : {n : Machine} → IsStep m n → IsCounted m.packet n.packet → Acts m (done pof_ok n)
  fails : {e : Error} {n : Machine} → IsStep m n → Acts m (done (failed e) n)
  breaks : Acts m fault

update_valid : (p : Packet) → IsPacket p → IsPacket (action_update p)
unfolding action_update
update_valid p v = elim (Bool-cases (ltb (u8 (p.act_num + 2 ^ 8 - 1)) 1)) [
  | inl e ↦ rw e v
  | inr e ↦ rw e v
]

update-IsCounted : (p : Packet) → IsCounted p (action_update p)
unfolding action_update
update-IsCounted p = elim (Bool-cases (ltb (u8 (p.act_num + 2 ^ 8 - 1)) 1)) [
  | inl e ↦ rw e (record { one_less = refl; next = inl (ground arith) })
  | inr e ↦ rw e (record { one_less = refl; next = inr refl })
]

module _ {m : Machine} where
  Acts-and_then :
      {o : Outcome Machine} {f : Machine → Outcome Machine}
      → Ends (Keeps m) o
      → ((n : Machine) → Keeps m n → Acts m (f n))
      → Acts m (and_then o f)
  Acts-and_then (ends {r = pof_ok} {s} k) f = f s k
  Acts-and_then (ends {r = failed e} {s} k) f = fails (Keeps-IsStep k)
  Acts-and_then faulted f = breaks

  Acts-or_fault :
      {A : Type 0} {Q : A → Type 0} {o : Option A} {f : A → Outcome Machine}
      → Gives Q o
      → ((a : A) → Q a → Acts m (f a))
      → Acts m (or_fault o f)
  Acts-or_fault nothing k = breaks
  Acts-or_fault (gives {a} q) k = k a q

  Acts-any :
      {A : Type 0} (o : Option A) {f : A → Outcome Machine}
      → ((a : A) → Acts m (f a))
      → Acts m (or_fault o f)
  Acts-any none k = breaks
  Acts-any (some a) k = k a

  Acts-read :
      {A : Type 0} {Q : A → Type 0} {r : Read A} {f : A → Outcome Machine}
      → IsValue Q r
      → ((a : A) → Q a → Acts m (f a))
      → Acts m (read r m f)
  Acts-read (is_value {a} q) k = k a q
  Acts-read is_refused k = fails IsStep-refl
  Acts-read is_wild k = breaks

  Acts-read_any :
      {A : Type 0} (r : Read A) {f : A → Outcome Machine}
      → ((a : A) → Acts m (f a))
      → Acts m (read r m f)
  Acts-read_any (value a) k = k a
  Acts-read_any (refused e) k = fails IsStep-refl
  Acts-read_any wild k = breaks

  Acts-if : (b : Bool) {x y : Outcome Machine} → Acts m x → Acts m y → Acts m (if b then x else y)
  Acts-if true p q = p
  Acts-if false p q = q

  -- `action_update` at the end of an action.
  Acts-acted : (n : Machine) (p : Packet) → Keeps m (record n { packet = p }) → Acts m (acted n p)
  Acts-acted n p k =
      let counted = update-IsCounted p in
      succeeds
        (record {
          frame = Frame-packet (action_update p) k.frame;
          valid = λ v. update_valid p (k.packet.valid v);
        })
        (record {
          one_less = counted.one_less ∙ ap (λ (t : ℕ). u8 (t + 2 ^ 8 - 1)) (k.packet.same_act_num);
          next = elim (counted.next) [
            | inl z ↦ inl z
            | inr e ↦ inr (e ∙ ap (drop 1) (k.packet.same_act))
          ];
        })

  Acts-packet : (p : Packet) → KeepsPacket m.packet p → Acts m (acted m p)
  Acts-packet p k = Acts-acted m p (packet-Keeps m p k)

counter_lem : (p : List ℕ) (m : Machine) → Acts m (execute_counter p m)
unfolding execute_counter
counter_lem p m =
    Acts-and_then (count-Keeps m.spare (load32 p 0) 0 m) (λ n k. Acts-acted n n.packet k)

packet_in_lem : (w : World) (p : List ℕ) (m : Machine) → Acts m (execute_packet_in w p m)
unfolding execute_packet_in
packet_in_lem w p m =
    Acts-any (table_id_to_global m.slot.num_max_each_type m.packet.table_type m.packet.table_id)
      (λ table_id.
        Acts-and_then (send_packet_in-Keeps w (whole_packet m.packet) (load32 p 0) table_id m)
          (λ n k. Acts-acted n n.packet k))

drop_lem : (m : Machine) → Acts m (execute_drop m)
unfolding execute_drop
drop_lem m =
    Acts-packet (record (m.packet) { packet_done = true })
      (record { valid = λ v. v; same_act = refl; same_act_num = refl })

set_field_lem : (p : List ℕ) (m : Machine) → Acts m (execute_set_field p m)
unfolding execute_set_field
set_field_lem p m =
    let pm = load_match p 0 in
    Acts-if (ltb (m.packet.left_len * 8) (pm.offset + pm.len)) (fails IsStep-refl)
      (Acts-or_fault (cover_packet-keeps _ pm.offset pm.len m.packet) Acts-packet)

set_field_from_metadata_lem :
    (w : World) (p : List ℕ) (m : Machine) → Acts m (execute_set_field_from_metadata w p m)
unfolding execute_set_field_from_metadata
set_field_from_metadata_lem w p m =
    let pm = load_match p 0 in
    Acts-if (ltb (m.packet.left_len * 8) (pm.offset + pm.len)) (fails IsStep-refl) (
      Acts-any (copy_bit (some (m.packet.metadata)) (take 16 w.junk) (load16 p 8) pm.len)
        (λ v. Acts-or_fault (cover_packet-keeps v pm.offset pm.len m.packet) Acts-packet))

modify_field_lem : (w : World) (p : List ℕ) (m : Machine) → Acts m (execute_modify_field w p m)
unfolding execute_modify_field
modify_field_lem w p m =
    let pm = load_match p 0 in
    Acts-read_any (get_32value_from_field (take 4 w.junk) pm m.packet)
      (λ v. Acts-read (write_32value-keeps (u32 (v + load32 p 8)) pm m.packet) Acts-packet)

calculate_checksum_lem :
    (w : World) (p : List ℕ) (m : Machine) → Acts m (execute_calculate_checksum w p m)
unfolding execute_calculate_checksum
calculate_checksum_lem w p m = Acts-if (ltb 64 (load16 p 4)) (fails IsStep-refl) (
    Acts-or_fault (cal_checksum-keeps w _ _ _ _ _ _ m.packet)
      (λ (q, ok) k. Acts-if ok (Acts-packet q k) (fails (Keeps-IsStep (packet-Keeps m q k)))))

output_lem : (w : World) (p : List ℕ) (m : Machine) → Acts m (execute_output w p m)
unfolding execute_output output_to
output_lem w p m = Acts-if (ltb m.packet.left_len (load16 p 6)) (fails IsStep-refl) (
    Acts-if (ltb m.packet.metadata_len (bytes_of_bits (load16 p 4 + load16 p 2)))
      (fails IsStep-refl)
      (Acts-read_any (get_32value (0 ∷ 0 ∷ 0 ∷ 0 ∷ []) (get_or p 0 0) p 8 m.packet) (λ v.
        let o = output_of p v m.packet in
        let ids = record (m.packet.output) { port_id = o.port_id; slot_id = o.slot_id } in
        Acts-if (has_slot o.slot_id m)
          (Acts-and_then (sent_on o refl) (λ n k. Acts-acted n n.packet k))
          (fails (
            Keeps-IsStep
              (packet-Keeps m (record (m.packet) { output = ids }) (out_keeps ids refl)))))))
  where
    out_keeps :
        (o : Output)
        → o.buf_out ≡ m.packet.output.buf_out
        → KeepsPacket m.packet (record (m.packet) { output = o })
    out_keeps o e = record {
      valid = λ v. record {
        buf_length = v.buf_length;
        buf_bytes = v.buf_bytes;
        metadata_length = v.metadata_length;
        metadata_bytes = v.metadata_bytes;
        out_length = ap length e ∙ v.out_length;
        small = v.small;
        placed = v.placed;
      };
      same_act = refl;
      same_act_num = refl;
    }

    sent_on :
        (o : Output)
        → o.buf_out ≡ m.packet.output.buf_out
        → Ends (Keeps m) (
            let m' = put_packet m (record (m.packet) { output = o }) in
            if o.port_id == 255 then flood w m' else pofdp_send_raw w m')
    sent_on o e =
        let start = packet-Keeps m (record (m.packet) { output = o }) (out_keeps o e) in
        Ends-if (o.port_id == 255) (Ends-map (flood-Keeps w _) (λ n k. Keeps-trans start k))
          (Ends-map (pofdp_send_raw-Keeps w _) (λ n k. Keeps-trans start k))

add_field_lem : (w : World) (p : List ℕ) (m : Machine) → Acts m (execute_add_field w p m)
unfolding execute_add_field
add_field_lem w p m = Acts-if (ltb 128 (load32 p 4)) (fails IsStep-refl) (
    Acts-and_then
      (on_packet-Keeps m (insert_tag-keeps w (load16 p 2) (load32 p 4) (drop 8 p) m.packet))
      (λ n k. Acts-acted n n.packet k))

delete_field_lem : (w : World) (p : List ℕ) (m : Machine) → Acts m (execute_delete_field w p m)
unfolding execute_delete_field
delete_field_lem w p m =
    Acts-read_any (get_32value (take 4 w.junk) (get_or p 2 0) p 8 m.packet) (λ len.
      Acts-and_then (on_packet-Keeps m (delete_tag-keeps (load16 p 0) len m.packet))
        (λ n k. Acts-acted n n.packet k))

experimenter_lem : (m : Machine) → Acts m (execute_experimenter m)
unfolding execute_experimenter
experimenter_lem m = fails IsStep-refl

pub execute_action-Acts :
    (w : World) (t : ActionType) (p : List ℕ) (m : Machine) → Acts m (execute_action w t p m)
unfolding execute_action
execute_action-Acts w ActionType.output p m = output_lem w p m
execute_action-Acts w ActionType.set_field p m = set_field_lem p m
execute_action-Acts w ActionType.set_field_from_metadata p m = set_field_from_metadata_lem w p m
execute_action-Acts w ActionType.modify_field p m = modify_field_lem w p m
execute_action-Acts w ActionType.add_field p m = add_field_lem w p m
execute_action-Acts w ActionType.delete_field p m = delete_field_lem w p m
execute_action-Acts w ActionType.calculate_checksum p m = calculate_checksum_lem w p m
execute_action-Acts w ActionType.group p m = experimenter_lem m
execute_action-Acts w ActionType.drop p m = drop_lem m
execute_action-Acts w ActionType.packet_in p m = packet_in_lem w p m
execute_action-Acts w ActionType.counter p m = counter_lem p m
execute_action-Acts w ActionType.experimenter p m = experimenter_lem m
