-- ===== src/Datapath/Send.antt =====
-- datapath/pof_datapath.c: how a packet leaves through a port, and how it is sent to the controller.
use pofswitch.Base.{
  ℕ, zero, suc, ◌+◌, ◌*◌, Bool, true, false, Option, none, some, List, [], ◌∷◌, ◌++◌, ◌==◌, ltb,
  leb, ◌&&◌, not, if◌then◌else◌, ◌>>=◌, u8, u16, take, drop, length,
}
use pofswitch.Error.{Outcome, done, pof_ok, SoftCode, and_then}
use pofswitch.Hmap.{Node, node_get_with_hash, node_first, node_next}
use pofswitch.Resource.Steps.{or_fault}
use pofswitch.Datapath.{
  Packet, Output, Machine, World, PortInfo, raw, packet_in, soft_error, copy_behind,
}

-- `poflr_get_port_with_pofindex`.
unfoldable pub get_port_with_pofindex : ℕ → Machine → Option (Node PortInfo)
get_port_with_pofindex index m = node_get_with_hash m.ports (u8 index)

-- A range of a buffer, if it lies inside.
abbrev pub slice : List ℕ → ℕ → ℕ → Option (List ℕ)
slice buf from len = if leb (from + len) (length buf) then some (take len (drop from buf)) else none

-- `memcpy` into a buffer.
abbrev pub splice : List ℕ → ℕ → List ℕ → Option (List ℕ)
splice buf to bytes =
    if leb (to + length bytes) (length buf)
    then some (take to buf ++ bytes ++ drop (to + length bytes) buf)
    else none

-- The metadata and then the packet, in the output buffer.
unfoldable pub fill_out : Packet → Option Packet
fill_out p = do
  out ← copy_behind p.metadata o.buf_out o.metadata_offset (u16 (o.metadata_len * 8))
  bytes ← slice p.buf (o.packet_buf + o.packet_offset) o.packet_len
  out' ← splice out o.metadata_len bytes
  some (record p { output = record o { buf_out = out' } })
  where
    o : Output
    o = p.output

-- `send_raw`: false if there is no port of the index or `sendto` refuses the bytes.
unfoldable pub send_raw : World → Machine → Option (Machine × Bool)
send_raw w m = elim (get_port_with_pofindex m.packet.output.port_id m) [
  | none ↦ some (m, false)
  | some port ↦ slice m.packet.output.buf_out 0 m.packet.output.whole_len >>= (λ bytes.
      if w.sendto port.obj.sys_index bytes
      then some (record m { sent = m.sent ++ raw port.obj.sys_index bytes ∷ [] }, true)
      else some (m, false))
]

-- `pofdp_send_raw`.
unfoldable pub pofdp_send_raw : World → Machine → Outcome Machine
unfolding fill_out
pofdp_send_raw w m = or_fault (fill_out m.packet) (λ p.
    let m' = record m { packet = p } in
    if ltb 1514 p.output.whole_len
    then soft_error SoftCode.packet_len_error m'
    else or_fault (send_raw w m')
        (λ (m'', ok). if ok then done pof_ok m'' else soft_error SoftCode.send_msg_failure m''))

-- `pofdp_send_packet_in_to_controller` of the packet from `packetBuf` on; the arguments are cut to
-- their widths by the caller's conversion.
unfoldable pub send_packet_in : World → ℕ → ℕ → ℕ → Machine → Outcome Machine
send_packet_in w len reason table_id m =
    if ltb 2048 len
    then soft_error SoftCode.packet_len_error m
    else or_fault (slice m.packet.buf 128 len) (λ bytes.
      if w.reply
      then done pof_ok (record m {
        sent =
            m.sent
            ++ packet_in (record {
              buffer_id = 0xffffffff;
              total_len = len;
              reason = u8 reason;
              table_id = u8 table_id;
              cookie = 0;
              device_id = w.dev_id;
              slot_id = 0;
              port_id = u8 m.packet.ori_port_id;
              bytes = bytes;
            })
              ∷ [];
      })
      else soft_error SoftCode.write_msg_queue_failure m)

-- The length that both callers give: `dpp->offset + dpp->left_len` as `uint16_t`.
abbrev pub whole_packet : Packet → ℕ
whole_packet p = u16 (p.offset + p.left_len)

-- The traversal of the ports when a packet floods: each port but the one it came in, that of the
-- channel and those that are configured not to flood gets the packet.
unfoldable pub flood_loop : World → ℕ → Option (Node PortInfo) → Machine → Outcome Machine
unfolding pofdp_send_raw
flood_loop w zero port m = done pof_ok m
flood_loop w (suc fuel) none m = done pof_ok m
flood_loop w (suc fuel) (some port) m =
    let index = port.obj.pof_index in
    let rest = flood_loop w fuel (node_next m.ports port) in
    if not (index == m.packet.ori_port_id)
      && not (index == w.local_port_index)
      && not (port.obj.config == 16)
    then and_then
        (pofdp_send_raw w (record m {
          packet = record (m.packet) { output = record (m.packet.output) { port_id = index } };
        }))
        rest
    else rest m

unfoldable pub flood : World → Machine → Outcome Machine
unfolding flood_loop
flood w m = flood_loop w (m.ports.n + 1) (node_first m.ports) m
