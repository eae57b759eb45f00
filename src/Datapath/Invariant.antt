-- ===== src/Datapath/Invariant.antt =====
-- The invariant of a packet on its way, and what no step of the datapath changes.
use pofswitch.Base.{
  ℕ, ◌+◌, ◌*◌, ◌/◌, ◌^◌, ◌<◌, ◌≡◌, refl, ap, ◌∙◌, List, [], ◌∷◌, ◌++◌, arith, length, set, take,
  length-set, length-take-drop, length-append, u8,
}
use pofswitch.Field.Bits.{IsBytes, IsBytes-set, IsBytes-append, IsBytes-take, IsBytes-drop, u8-byte}
use pofswitch.Field.Keep.{IsLike, Gives, gives, Gives-bind, cover_bit-IsLike}
use pofswitch.Resource.{Registry, CounterInfo}
use pofswitch.Flow.Tables.{Slot}
use pofswitch.Datapath.{
  Packet, Machine, Sent, window, put_window, cover_packet, cover_metadata, set_rel_len,
}
use pofswitch.Datapath.Move.{biased}

-- The buffers have their lengths and hold bytes, and the pointer to the data is `offset` behind the
-- start of the packet, up to a multiple of the range of `offset`.
pub record IsCore (buf metadata buf_out : List ℕ) (metadata_len offset buf_offset : ℕ)
    : Type 0 where
  pub buf_length : length buf ≡ 2048
  pub buf_bytes : IsBytes buf
  pub metadata_length : length metadata ≡ metadata_len
  pub metadata_bytes : IsBytes metadata
  pub out_length : length buf_out ≡ 2048
  pub small : offset < 2 ^ 16
  pub placed : (k : ℕ) × (buf_offset + 2 ^ 15 ≡ biased offset + 128 + 2 ^ 16 * k)

abbrev pub IsPacket : Packet → Type 0
IsPacket p = IsCore p.buf p.metadata p.output.buf_out p.metadata_len p.offset p.buf_offset

-- A step on a packet keeps the invariant, and leaves the actions to be executed as they are.
pub record KeepsPacket (p q : Packet) : Type 0 where
  pub valid : IsPacket p → IsPacket q
  pub same_act : q.act ≡ p.act
  pub same_act_num : q.act_num ≡ p.act_num

pub KeepsPacket-refl : {p : Packet} → KeepsPacket p p
KeepsPacket-refl = record { valid = λ v. v; same_act = refl; same_act_num = refl }

pub KeepsPacket-trans : {p q r : Packet} → KeepsPacket p q → KeepsPacket q r → KeepsPacket p r
KeepsPacket-trans a b = record {
  valid = λ v. b.valid (a.valid v);
  same_act = b.same_act ∙ a.same_act;
  same_act_num = b.same_act_num ∙ a.same_act_num;
}

-- A slot with other counters, and everything else as it is.
abbrev pub with_counters : Registry CounterInfo → Slot → Slot
with_counters counters slot = record slot {
  resource = record (slot.resource) { counters = counters };
}

-- Of the slot a step changes nothing but the counters, the ports stay, and what was sent stays sent.
pub record Frame (m n : Machine) : Type 0 where
  pub same_slot : n.slot ≡ with_counters (n.slot.resource.counters) (m.slot)
  pub same_ports : n.ports ≡ m.ports
  pub more_sent : (xs : List Sent) × (n.sent ≡ m.sent ++ xs)

append_nil : {A : Type 0} (xs : List A) → xs ≡ xs ++ []
append_nil [] = refl
append_nil (x ∷ xs) = ap (λ t. x ∷ t) (append_nil xs)

append_assoc : {A : Type 0} (xs ys zs : List A) → (xs ++ ys) ++ zs ≡ xs ++ (ys ++ zs)
append_assoc [] ys zs = refl
append_assoc (x ∷ xs) ys zs = ap (λ t. x ∷ t) (append_assoc xs ys zs)

pub Frame-refl : {m : Machine} → Frame m m
Frame-refl {m} = record {
  same_slot = refl;
  same_ports = refl;
  more_sent = ([], append_nil (m.sent));
}

pub Frame-trans : {m n o : Machine} → Frame m n → Frame n o → Frame m o
Frame-trans {m} {n} {o} a b =
    let (xs, p) = a.more_sent in
    let (ys, q) = b.more_sent in
    record {
      same_slot = b.same_slot ∙ ap (with_counters (o.slot.resource.counters)) a.same_slot;
      same_ports = b.same_ports ∙ a.same_ports;
      more_sent = (xs ++ ys, q ∙ ap (λ t. t ++ ys) p ∙ append_assoc (m.sent) xs ys);
    }

-- The frame says nothing of the packet.
pub Frame-packet : {m n : Machine} (p : Packet) → Frame m n → Frame m (record n { packet = p })
Frame-packet p f = record {
  same_slot = f.same_slot;
  same_ports = f.same_ports;
  more_sent = f.more_sent;
}

-- A step within an action or an instruction.
pub record Keeps (m n : Machine) : Type 0 where
  pub frame : Frame m n
  pub packet : KeepsPacket m.packet n.packet

pub Keeps-refl : {m : Machine} → Keeps m m
Keeps-refl = record { frame = Frame-refl; packet = KeepsPacket-refl }

pub Keeps-trans : {m n o : Machine} → Keeps m n → Keeps n o → Keeps m o
Keeps-trans a b = record {
  frame = Frame-trans a.frame b.frame;
  packet = KeepsPacket-trans a.packet b.packet;
}

-- A whole action or instruction, or a run of them.
pub record IsStep (m n : Machine) : Type 0 where
  pub frame : Frame m n
  pub valid : IsPacket m.packet → IsPacket n.packet

pub IsStep-refl : {m : Machine} → IsStep m m
IsStep-refl = record { frame = Frame-refl; valid = λ v. v }

pub IsStep-trans : {m n o : Machine} → IsStep m n → IsStep n o → IsStep m o
IsStep-trans a b = record { frame = Frame-trans a.frame b.frame; valid = λ v. b.valid (a.valid v) }

pub Keeps-IsStep : {m n : Machine} → Keeps m n → IsStep m n
Keeps-IsStep k = record { frame = k.frame; valid = k.packet.valid }

-- The window of a packet put back in its place.
pub put_window-IsPacket :
    (p : Packet) (w : List ℕ) → IsLike (window p) w → IsPacket p → IsPacket (put_window p w)
put_window-IsPacket p w l v = record {
  buf_length =
      length-append (take p.buf_offset p.buf) w
      ∙ omega (arith, l.same_length, length-take-drop p.buf_offset p.buf, v.buf_length);
  buf_bytes =
      IsBytes-append (take p.buf_offset p.buf) w (IsBytes-take p.buf_offset p.buf v.buf_bytes)
        (l.keeps_bytes (IsBytes-drop p.buf_offset p.buf v.buf_bytes));
  metadata_length = v.metadata_length;
  metadata_bytes = v.metadata_bytes;
  out_length = v.out_length;
  small = v.small;
  placed = v.placed;
}

pub cover_packet-keeps :
    (v : List ℕ) (pos len : ℕ) (p : Packet) → Gives (KeepsPacket p) (cover_packet v pos len p)
unfolding cover_packet
cover_packet-keeps v pos len p = Gives-bind (cover_bit-IsLike (window p) v pos len) (λ w l.
    gives (record { valid = put_window-IsPacket p w l; same_act = refl; same_act_num = refl }))

pub set_metadata-IsPacket :
    (p : Packet) (w : List ℕ)
    → IsLike p.metadata w
    → IsPacket p
    → IsPacket (record p { metadata = w })
set_metadata-IsPacket p w l v = record {
  buf_length = v.buf_length;
  buf_bytes = v.buf_bytes;
  metadata_length = l.same_length ∙ v.metadata_length;
  metadata_bytes = l.keeps_bytes v.metadata_bytes;
  out_length = v.out_length;
  small = v.small;
  placed = v.placed;
}

pub cover_metadata-keeps :
    (v : List ℕ) (pos len : ℕ) (p : Packet) → Gives (KeepsPacket p) (cover_metadata v pos len p)
unfolding cover_metadata
cover_metadata-keeps v pos len p = Gives-bind (cover_bit-IsLike p.metadata v pos len) (λ w l.
    gives (record { valid = set_metadata-IsPacket p w l; same_act = refl; same_act_num = refl }))

pub set_rel_len-keeps : (len : ℕ) (p : Packet) → KeepsPacket p (set_rel_len len p)
set_rel_len-keeps len p = record {
  valid = set_metadata-IsPacket p _ (record {
    same_length = length-set (set p.metadata 0 high) 1 (u8 len) ∙ length-set p.metadata 0 high;
    keeps_bytes = λ b.
        IsBytes-set (set p.metadata 0 high) 1 (u8 len) (u8-byte len)
          (IsBytes-set p.metadata 0 high (u8-byte _) b);
  });
  same_act = refl;
  same_act_num = refl;
}
  where
    high : ℕ
    high = u8 (len / 2 ^ 8)
