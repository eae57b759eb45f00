-- ===== src/Datapath/Parts.antt =====
-- The parts of the actions and instructions keep the invariant of the packet and the frame.
use pofswitch.Base.{
  ℕ, ◌+◌, ◌-◌, ◌*◌, ◌/◌, ◌%◌, ◌^◌, ◌<◌, ◌≡◌, refl, ◌∙◌, Bool, true, false, Option, some, List, ◌++◌,
  arith, length, take, drop, replicate, length-set, length-append, length-replicate, length-drop,
  length-take, Bool-cases, inl, inr, u16, u32, ltb, leb, ◌==◌, ◌&&◌, if◌then◌else◌, ◌>>=◌,
}
use pofswitch.Field.Bits.{
  IsBytes-set, IsBytes-append, IsBytes-take, IsBytes-drop, IsBytes-replicate, u8-byte,
}
use pofswitch.Field.Keep.{IsLike, Gives, nothing, gives, Gives-bind, Gives-any, Gives-if, Gives-map}
use pofswitch.Flow.{Match, bytes_of_bits}
use pofswitch.Datapath.{Packet, World, Read, window, set_rel_len, copy_behind}
use pofswitch.Datapath.Move.{
  biased, is_move_out, move_packet_buf_offset, ins_jump, ins_jump_forward,
}
use pofswitch.Datapath.Value.{write_32value_to_field, shifted_bytes, or_wild}
use pofswitch.Datapath.Tag.{insert_tag_to_packet, insert_bits, delete_tag, trim_last, is_too_long}
use pofswitch.Datapath.Checksum.{
  bzero_bit, zero_target, zero_bytes, cover_target, cal_checksum, checksum, checksum_bytes, target,
}
use pofswitch.Datapath.Invariant.{
  IsPacket, KeepsPacket, KeepsPacket-refl, KeepsPacket-trans, cover_packet-keeps,
  cover_metadata-keeps, set_rel_len-keeps, put_window-IsPacket, set_metadata-IsPacket,
}
use pofswitch.Datapath.Ends.{
  Ends, ends, IsValue, is_value, is_refused, is_wild, Ends-any, Ends-or_fault, Ends-if,
}

-- A packet whose buffers and pointers stay.
abbrev same :
    {p q : Packet}
    → (IsPacket p → IsPacket q)
    → q.act ≡ p.act
    → q.act_num ≡ p.act_num
    → KeepsPacket p q
same v a n = record { valid = v; same_act = a; same_act_num = n }

pub move-keeps :
    (offset : ℕ)
    → offset < 2 ^ 16
    → (p : Packet) → Ends (KeepsPacket p) (move_packet_buf_offset offset p)
unfolding move_packet_buf_offset
move-keeps offset h p = elim (Bool-cases (is_move_out offset p)) [
  | inl e ↦ rw e (ends KeepsPacket-refl)
  | inr e ↦ rw e (
      ends (
        same
          (λ v. record {
            buf_length = v.buf_length;
            buf_bytes = v.buf_bytes;
            metadata_length = v.metadata_length;
            metadata_bytes = v.metadata_bytes;
            out_length = v.out_length;
            small = omega arith;
            placed = moved v.small v.placed e;
          })
          refl refl))
]
  where
    moved :
        p.offset < 2 ^ 16
        → (k : ℕ) × (p.buf_offset + 2 ^ 15 ≡ biased p.offset + 128 + 2 ^ 16 * k)
        → is_move_out offset p ≡ false
        → (k : ℕ) × (p.buf_offset + biased offset - 2 ^ 15 + 2 ^ 15
            ≡ biased (u16 (p.offset + offset)) + 128 + 2 ^ 16 * k)
    moved s (k, q) e = elim (Bool-cases (ltb (biased offset + biased p.offset) (2 ^ 15 + 2 ^ 16))) [
      | inl b ↦ (k, ground arith)
      | inr b ↦ (k + 1, ground arith)
    ]

pub ins_jump-keeps : (direction n : ℕ) (p : Packet) → Ends (KeepsPacket p) (ins_jump direction n p)
unfolding ins_jump ins_jump_forward
ins_jump-keeps direction n p =
    Ends-if (direction == 0)
      (Ends-if (ltb p.ins_todo_num n) (ends KeepsPacket-refl) (ends (same (λ v. v) refl refl)))
      (Ends-if (ltb p.ins_done_num n) (ends KeepsPacket-refl) (ends (same (λ v. v) refl refl)))

IsValue-if :
    {A : Type 0} {P : A → Type 0} (b : Bool) {x y : Read A}
    → IsValue P x
    → IsValue P y
    → IsValue P (if b then x else y)
IsValue-if true p q = p
IsValue-if false p q = q

IsValue-or_wild : {A : Type 0} {P : A → Type 0} {o : Option A} → Gives P o → IsValue P (or_wild o)
IsValue-or_wild nothing = is_wild
IsValue-or_wild (gives p) = is_value p

pub write_32value-keeps :
    (v : ℕ) (pm : Match) (p : Packet) → IsValue (KeepsPacket p) (write_32value_to_field v pm p)
unfolding write_32value_to_field
write_32value-keeps v pm p = IsValue-if (ltb 32 pm.len) is_refused (
    IsValue-if (pm.field_id == 0xffff)
      (IsValue-if (ltb (p.metadata_len * 8) (pm.len + pm.offset)) is_refused
        (IsValue-or_wild (cover_metadata-keeps (shifted_bytes v pm.len) pm.offset pm.len p)))
      (IsValue-if (ltb (p.left_len * 8) (pm.len + pm.offset)) is_refused
        (IsValue-or_wild (cover_packet-keeps (shifted_bytes v pm.len) pm.offset pm.len p))))

-- The length left and the length in the metadata are set on a packet.
left-keeps :
    {p : Packet} (q : Packet) (left_len len : ℕ)
    → KeepsPacket p q
    → KeepsPacket p (set_rel_len len (record q { left_len = left_len }))
left-keeps q left_len len k = KeepsPacket-trans k (
    KeepsPacket-trans (same (λ v. v) refl refl)
      (set_rel_len-keeps len (record q { left_len = left_len })))

insert_bits-keeps :
    (v : List ℕ) (pos len : ℕ) (behind : List ℕ) (n : ℕ) (p : Packet)
    → Gives (KeepsPacket p) (insert_bits v pos len behind n p)
insert_bits-keeps v pos len behind n p = Gives-bind (cover_packet-keeps v pos (u16 len) p) (λ q k.
    Gives-map (cover_packet-keeps behind (u16 (pos + len)) (u16 n) q)
      (λ r l. KeepsPacket-trans k l))

pub insert_tag-keeps :
    (w : World) (pos len : ℕ) (v : List ℕ) (p : Packet)
    → Ends (KeepsPacket p) (insert_tag_to_packet w pos len v p)
unfolding insert_tag_to_packet
insert_tag-keeps w pos len v p = Ends-if (is_too_long len p) (ends KeepsPacket-refl) (
    Ends-any (copy_behind (window p) w.junk pos _) (λ behind.
      Ends-or_fault (insert_bits-keeps v pos len behind (u32 (p.left_len * 8 + 2 ^ 32 - pos)) p)
        (λ q k. ends (left-keeps q (p.left_len + bytes_of_bits len) _ k))))

trim_last-keeps : (x : ℕ) (p : Packet) → Gives (KeepsPacket p) (trim_last x p)
trim_last-keeps x p = Gives-if (x == 0) (gives KeepsPacket-refl) (
    Gives-if (ltb i (length p.buf))
      (gives (
        same
          (λ v. record {
            buf_length = length-set p.buf i _ ∙ v.buf_length;
            buf_bytes = IsBytes-set p.buf i _ (u8-byte _) v.buf_bytes;
            metadata_length = v.metadata_length;
            metadata_bytes = v.metadata_bytes;
            out_length = v.out_length;
            small = v.small;
            placed = v.placed;
          })
          refl refl))
      nothing)
  where
    i : ℕ
    i = p.buf_offset + p.left_len - 1

pub delete_tag-keeps : (pos len : ℕ) (p : Packet) → Ends (KeepsPacket p) (delete_tag pos len p)
unfolding delete_tag
delete_tag-keeps pos len p =
    let behind_len = u16 (p.left_len * 8 + 2 ^ 33 - (pos + len)) in
    Ends-if (leb (2 ^ 15) behind_len) (ends KeepsPacket-refl) (
      Ends-any (copy_behind (window p) (replicate 2048 0) (u16 (pos + len)) behind_len) (λ behind.
        Ends-or_fault (cover_packet-keeps behind pos behind_len p) (λ q k.
          Ends-or_fault (trim_last-keeps (len % 8) _)
            (λ r l. ends (KeepsPacket-trans (left-keeps q _ _ k) l)))))

splice-IsLike : (buf : List ℕ) (from n : ℕ) → Gives (IsLike buf) (zero_bytes buf from n)
splice-IsLike buf from n = elim (Bool-cases (leb (from + n) (length buf))) [
  | inl e ↦ rw e (
      gives (record {
        same_length = zeroed_length e;
        keeps_bytes = λ b.
            IsBytes-append (take from buf ++ replicate n 0) _
              (IsBytes-append (take from buf) (replicate n 0) (IsBytes-take from buf b)
                (IsBytes-replicate n))
              (IsBytes-drop (from + n) buf b);
      }))
  | inr e ↦ rw e nothing
]
  where
    zeroed_length :
        leb (from + n) (length buf) ≡ true
        → length (take from buf ++ replicate n 0 ++ drop (from + n) buf) ≡ length buf
    zeroed_length e = ground (
      arith,
      length-append (take from buf ++ replicate n 0) (drop (from + n) buf),
      length-append (take from buf) (replicate n 0),
      length-replicate {A = ℕ} n 0,
      length-take from buf,
      length-drop (from + n) buf,
    )

zero_target-keeps :
    (type from n : ℕ) (p : Packet) → Gives (KeepsPacket p) (zero_target type from n p)
zero_target-keeps type from n p =
    Gives-if (type == 0)
      (Gives-bind (splice-IsLike (window p) from n)
        (λ w l. gives (same (put_window-IsPacket p w l) refl refl)))
      (Gives-bind (splice-IsLike p.metadata from n)
        (λ w l. gives (same (set_metadata-IsPacket p w l) refl refl)))

cover_target-keeps :
    (type : ℕ) (v : List ℕ) (pos len : ℕ) (p : Packet)
    → Gives (KeepsPacket p) (cover_target type v pos len p)
cover_target-keeps type v pos len p =
    Gives-if (type == 0) (cover_packet-keeps v pos len p) (cover_metadata-keeps v pos len p)

abbrev Checked : Packet → Packet × Bool → Type 0
Checked p r = KeepsPacket p r.0

bzero_bit-keeps :
    (w : World) (type pos len : ℕ) (p : Packet) → Gives (Checked p) (bzero_bit w type pos len p)
unfolding bzero_bit
bzero_bit-keeps w type pos len p =
    Gives-if (pos % 8 == 0 && len % 8 == 0)
      (Gives-bind (zero_target-keeps type (pos / 8) (len / 8) p) (λ q k. gives k))
      (Gives-if w.memory
        (Gives-bind (cover_target-keeps type (replicate (bytes_of_bits len) 0) pos len p)
          (λ q k. gives k))
        (gives KeepsPacket-refl))

pub cal_checksum-keeps :
    (w : World) (cs_type cal_type cal_pos cal_len cs_pos cs_len : ℕ) (p : Packet)
    → Gives (Checked p) (cal_checksum w cs_type cal_type cal_pos cal_len cs_pos cs_len p)
unfolding cal_checksum
cal_checksum-keeps w cs_type cal_type cal_pos cal_len cs_pos cs_len p =
    Gives-bind (bzero_bit-keeps w cs_type cs_pos cs_len p) (λ (q, ok) k. covered q ok k)
  where
    covered :
        (q : Packet) (ok : Bool)
        → KeepsPacket p q
        → Gives (Checked p) (
            if ok
            then checksum (target cal_type q) cal_pos cal_len cs_len
              >>= (λ value. cover_target cs_type (checksum_bytes value cs_len) cs_pos cs_len q)
              >>= (λ r. some (r, true))
            else some (q, false))
    covered q false k = gives k
    covered q true k =
        Gives-bind
          (Gives-any (checksum (target cal_type q) cal_pos cal_len cs_len)
            (λ value. cover_target-keeps cs_type (checksum_bytes value cs_len) cs_pos cs_len q))
          (λ r l. gives (KeepsPacket-trans k l))
