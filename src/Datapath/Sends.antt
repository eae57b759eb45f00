-- ===== src/Datapath/Sends.antt =====
-- What is sent is added to what was sent, and the counters are all that a step changes of the slot.
use pofswitch.Base.{
  ℕ, zero, suc, ◌+◌, ◌*◌, ◌≡◌, refl, ap, ◌∙◌, Bool, true, false, Option, none, some, List, [], ◌∷◌,
  ◌++◌, arith, length, take, drop, length-append, length-take, length-drop, Bool-cases, inl, inr,
  u16, ltb, leb, ◌==◌, ◌&&◌, not, if◌then◌else◌, ◌>>=◌,
}
use pofswitch.Error.{Outcome, done, fault}
use pofswitch.Hmap.{Node, node_first}
use pofswitch.Field.Keep.{
  IsLike, Gives, nothing, gives, Gives-bind, Gives-any, Gives-if, copy_bit-IsLike, IsLike-refl,
}
use pofswitch.Resource.{LocalResource}
use pofswitch.Resource.Counter.{
  counter_increase, counter_init, count_through, in_state, get_counter_with_id, store_counter,
}
use pofswitch.Resource.Steps.{write}
use pofswitch.Datapath.{Packet, Output, Machine, World, PortInfo, Sent, raw, copy_behind}
use pofswitch.Datapath.Send.{
  slice, splice, fill_out, send_raw, pofdp_send_raw, send_packet_in, flood_loop, flood,
  get_port_with_pofindex,
}
use pofswitch.Datapath.Actions.{on_resource}
use pofswitch.Datapath.Invariant.{
  KeepsPacket, KeepsPacket-refl, Keeps, Keeps-refl, Keeps-trans, Frame-refl,
}
use pofswitch.Datapath.Ends.{
  Ends, ends, faulted, Ends-any, Ends-or_fault, Ends-if, Ends-and_then, Ends-map, packet-Keeps,
}

abbrev SameLength : List ℕ → List ℕ → Type 0
SameLength xs ys = length ys ≡ length xs

splice-length :
    (buf : List ℕ) (to : ℕ) (bytes : List ℕ) → Gives (SameLength buf) (splice buf to bytes)
splice-length buf to bytes = elim (Bool-cases (leb (to + length bytes) (length buf))) [
  | inl e ↦ rw e (gives (go e))
  | inr e ↦ rw e nothing
]
  where
    go :
        leb (to + length bytes) (length buf) ≡ true
        → length (take to buf ++ bytes ++ drop (to + length bytes) buf) ≡ length buf
    go e = ground (
      arith,
      length-append (take to buf ++ bytes) (drop (to + length bytes) buf),
      length-append (take to buf) bytes,
      length-take to buf,
      length-drop (to + length bytes) buf,
    )

copy_behind-IsLike :
    (src res : List ℕ) (offset len : ℕ) → Gives (IsLike res) (copy_behind src res offset len)
unfolding copy_behind
copy_behind-IsLike src res offset len =
    Gives-if (len == 0) (gives IsLike-refl) (copy_bit-IsLike (some src) res offset len)

fill_out-keeps : (p : Packet) → Gives (KeepsPacket p) (fill_out p)
unfolding fill_out
fill_out-keeps p =
    Gives-bind
      (copy_behind-IsLike p.metadata o.buf_out o.metadata_offset (u16 (o.metadata_len * 8)))
      (λ out l. Gives-any (slice p.buf (o.packet_buf + o.packet_offset) o.packet_len) (λ bytes.
        Gives-bind (splice-length out o.metadata_len bytes) (λ out' s. gives (record {
          valid = λ v. record {
            buf_length = v.buf_length;
            buf_bytes = v.buf_bytes;
            metadata_length = v.metadata_length;
            metadata_bytes = v.metadata_bytes;
            out_length = s ∙ l.same_length ∙ v.out_length;
            small = v.small;
            placed = v.placed;
          };
          same_act = refl;
          same_act_num = refl;
        }))))
  where
    o : Output
    o = p.output

-- A machine that has sent one thing more.
sent-Keeps : (m : Machine) (x : Sent) → Keeps m (record m { sent = m.sent ++ x ∷ [] })
sent-Keeps m x = record {
  frame = record { same_slot = refl; same_ports = refl; more_sent = (x ∷ [], refl) };
  packet = KeepsPacket-refl;
}

abbrev Sending : Machine → Machine × Bool → Type 0
Sending m r = Keeps m r.0

send_raw-Keeps : (w : World) (m : Machine) → Gives (Sending m) (send_raw w m)
unfolding send_raw
send_raw-Keeps w m = go (get_port_with_pofindex m.packet.output.port_id m)
  where
    go :
        (port : Option (Node PortInfo))
        → Gives (Sending m) (elim port [
          | none ↦ some (m, false)
          | some port ↦ slice m.packet.output.buf_out 0 m.packet.output.whole_len >>= (λ bytes.
              if w.sendto port.obj.sys_index bytes
              then some (record m { sent = m.sent ++ raw port.obj.sys_index bytes ∷ [] }, true)
              else some (m, false))
        ])
    go none = gives Keeps-refl
    go (some port) = Gives-any (slice m.packet.output.buf_out 0 m.packet.output.whole_len) (λ bytes.
        Gives-if (w.sendto port.obj.sys_index bytes) (gives (sent-Keeps m _)) (gives Keeps-refl))

pub pofdp_send_raw-Keeps : (w : World) (m : Machine) → Ends (Keeps m) (pofdp_send_raw w m)
unfolding pofdp_send_raw
pofdp_send_raw-Keeps w m = Ends-or_fault (fill_out-keeps m.packet) (λ p k.
    let start = packet-Keeps m p k in
    Ends-if (ltb 1514 p.output.whole_len) (ends start) (
      Ends-or_fault (send_raw-Keeps w (record m { packet = p }))
        (λ (n, ok) l. Ends-if ok (ends (Keeps-trans start l)) (ends (Keeps-trans start l)))))

pub send_packet_in-Keeps :
    (w : World) (len reason table_id : ℕ) (m : Machine)
    → Ends (Keeps m) (send_packet_in w len reason table_id m)
unfolding send_packet_in
send_packet_in-Keeps w len reason table_id m = Ends-if (ltb 2048 len) (ends Keeps-refl) (
    Ends-any (slice m.packet.buf 128 len)
      (λ bytes. Ends-if w.reply (ends (sent-Keeps m _)) (ends Keeps-refl)))

flood_loop-Keeps :
    (w : World) (fuel : ℕ) (port : Option (Node PortInfo)) (m : Machine)
    → Ends (Keeps m) (flood_loop w fuel port m)
unfolding flood_loop
flood_loop-Keeps w zero port m = ends Keeps-refl
flood_loop-Keeps w (suc fuel) none m = ends Keeps-refl
flood_loop-Keeps w (suc fuel) (some port) m =
    let index = port.obj.pof_index in
    let start =
      packet-Keeps m (record (m.packet) { output = record (m.packet.output) { port_id = index } })
        (record { valid = λ v. v; same_act = refl; same_act_num = refl }) in
    Ends-if
      (not (index == m.packet.ori_port_id)
        && not (index == w.local_port_index)
        && not (port.obj.config == 16))
      (Ends-and_then (Ends-map (pofdp_send_raw-Keeps w _) (λ n k. Keeps-trans start k)) (λ n k. k)
        (λ n k. Ends-map (flood_loop-Keeps w fuel _ n) (λ o l. Keeps-trans k l)))
      (flood_loop-Keeps w fuel _ m)

pub flood-Keeps : (w : World) (m : Machine) → Ends (Keeps m) (flood w m)
unfolding flood
flood-Keeps w m = flood_loop-Keeps w (m.ports.n + 1) (node_first m.ports) m

abbrev OnlyCounters : LocalResource → LocalResource → Type 0
OnlyCounters lr lr' = lr' ≡ record lr { counters = lr'.counters }

-- Behind `poflr_counter_init` there is only the store through NULL.
lost :
    {P : LocalResource → Type 0} (len : ℕ) (o : Outcome LocalResource)
    → Ends P (in_state o (count_through none len))
lost len (done r lr) = faulted
lost len fault = faulted

counter_increase-OnlyCounters :
    (alloc : Option ℕ) (id len : ℕ) (lr : LocalResource)
    → Ends (OnlyCounters lr) (counter_increase alloc id len lr)
unfolding counter_increase store_counter
counter_increase-OnlyCounters alloc id len lr = Ends-if (id == 0) (ends refl) (
    Ends-if (leb lr.counters.num_max id) (ends refl) (
      Ends-any (get_counter_with_id id lr) (elim [
        | none ↦ lost len (counter_init alloc id lr)
        | some node ↦ Ends-any (write node _ lr.counters) (λ counters'. ends refl)
      ])))

on_resource-Keeps :
    (m : Machine) {o : Outcome LocalResource}
    → Ends (OnlyCounters m.slot.resource) o
    → Ends (Keeps m) (on_resource m o)
on_resource-Keeps m (ends g) = ends (record {
  frame = record {
    same_slot = ap (λ t. record (m.slot) { resource = t }) g;
    same_ports = refl;
    more_sent = (Frame-refl {m = m}).more_sent;
  };
  packet = KeepsPacket-refl;
})
on_resource-Keeps m faulted = faulted

pub count-Keeps :
    (alloc : Option ℕ) (id len : ℕ) (m : Machine)
    → Ends (Keeps m) (on_resource m (counter_increase alloc id len m.slot.resource))
count-Keeps alloc id len m =
    on_resource-Keeps m (counter_increase-OnlyCounters alloc id len m.slot.resource)
