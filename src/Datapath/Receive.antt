-- ===== src/Datapath/Receive.antt =====
-- `pofdp_recv_raw_task` of datapath/pof_datapath.c: one round of its loop, from the arrival of bytes at
-- the socket of a port to the packet that is forwarded. The count of the packets is left out.
use pofswitch.Base.{
  ℕ, ◌-◌, ◌^◌, Bool, false, Option, none, some, List, [], ◌==◌, ◌||◌, ◌>>=◌, not, if◌then◌else◌,
  ltb, length, take, replicate,
}
use pofswitch.Error.{done, fault, pof_ok}
use pofswitch.Resource.Refines.{is_some}
use pofswitch.Flow.Tables.{Slot, get_table_with_id}
use pofswitch.Datapath.{Packet, Output, Machine, World}
use pofswitch.Datapath.Send.{splice}
use pofswitch.Datapath.Actions.{put_packet}
use pofswitch.Datapath.Execute.{Run, pofdp_forward}

abbrev no_output : Output
no_output = record {
  port_id = 0;
  slot_id = 0;
  packet_len = 0;
  packet_offset = 0;
  metadata_len = 0;
  metadata_offset = 0;
  whole_len = 0;
  packet_buf = 0;
  buf_out = replicate 2048 0;
}

-- The zeroed packet with the buffer, the length and the port of what was received.
unfoldable pub received : ℕ → ℕ → List ℕ → Packet
received port_id len buf = record {
  ori_port_id = port_id;
  ori_len = len;
  buf = buf;
  output = no_output;
  offset = 0;
  buf_offset = 128;
  left_len = len;
  metadata = [];
  metadata_len = 0;
  table_type = 0;
  table_id = 0;
  ins_array = [];
  ins = 0;
  ins_todo_num = 0;
  ins_done_num = 0;
  act = [];
  act_num = 0;
  packet_done = false;
  rate = 0;
}

-- The port that the task receives from. The filter is a function pointer of `struct pof_datapath`,
-- which the configuration and the commands set; `accepts` tells whether it returns POF_OK.
pub record Receiver : Type 0 where
  pub port_id : ℕ
  pub of_enable : ℕ
  pub accepts : List ℕ → Bool

-- What stands at the socket: no bytes are an error of `recvfrom`, and `outgoing` is the type of the
-- packet PACKET_OUTGOING.
pub record Arrival : Type 0 where
  pub frame : Option (List ℕ)
  pub outgoing : Bool

-- `recvfrom` stores up to `POFDP_PACKET_RAW_MAX_LEN` = 2048 bytes.
abbrev pub received_bytes : Option (List ℕ) → List ℕ
received_bytes none = []
received_bytes (some bytes) = take 2048 bytes

-- Its result in the unsigned `len_B`.
abbrev pub received_len : Option (List ℕ) → ℕ
received_len none = 2 ^ 32 - 1
received_len (some bytes) = length (take 2048 bytes)

-- The packet to be forwarded, if any; `none` is a store behind the end of `buf`, where only
-- 2048 - 128 bytes are left.
unfoldable pub recv_raw : Receiver → Arrival → Slot → Option (Option Packet)
unfolding received
recv_raw port from slot = do
  buf ← splice (replicate 2048 0) 128 (received_bytes from.frame)
  if len == 0
        || port.of_enable == 0
        || from.outgoing
        || ltb 1514 len
        || not (port.accepts (received_bytes from.frame))
      then some none
      else get_table_with_id 0 slot >>= (λ table.
        if is_some table then some (some (received port.port_id len buf)) else some none)
  where
    len : ℕ
    len = received_len from.frame

-- The round, which goes on whatever the forwarding returns.
unfoldable pub recv_raw_round : World → ℕ → Receiver → Arrival → Machine → Run
unfolding recv_raw pofdp_forward
recv_raw_round w fuel port from m = elim (recv_raw port from m.slot) [
  | none ↦ some fault
  | some none ↦ some (done pof_ok m)
  | some (some p) ↦ pofdp_forward w fuel (put_packet m p)
]
