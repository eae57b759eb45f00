-- ===== src/Datapath.antt =====
-- datapath/: the path of one packet through the switch, in the configuration POF_SD2N_AFTER1015
-- without POF_SHT_VXLAN. `Packet` is `struct pofdp_packet` of include/pof_datapath.h; `Machine` is
-- the packet with the slot that it passes, what has been sent, and the address, if any, at which
-- `malloc` gives the counter that a run may add.
-- `packetBuf` is at `POFDP_PACKET_PREBUF_LEN` = 128 of the 2048 bytes of `buf`, and `buf_offset` and
-- `output_packet_buf` are indices of `buf`. `offset` is the bit pattern of an `int16_t`. `left_len`
-- is an `int32_t` that is never negative. The instructions and the actions of a packet are the rest
-- of their array from the pointer on, or the array with an index.
pub mod Value
pub mod Kind
pub mod Move
pub mod Send
pub mod Checksum
pub mod Tag
pub mod Actions
pub mod Instructions
pub mod Execute
pub mod Receive
pub mod Invariant
pub mod Ends
pub mod Parts
pub mod Sends
pub mod Acts
pub mod Steps
pub mod Runs
pub mod Received
pub mod Finish
pub mod Jumps
pub mod ReadWrite
pub mod Sums
mod Tests
use pofswitch.Base.{
  ℕ, zero, suc, ◌+◌, ◌-◌, ◌*◌, ◌/◌, ◌%◌, ◌^◌, Bool, true, false, Option, none, some, List, [], ◌∷◌,
  ◌++◌, ◌==◌, if◌then◌else◌, get_or, set, take, drop, u8, u16, ◌>>=◌,
}
use pofswitch.Field.{copy_bit, cover_bit}
use pofswitch.Error.{Error, Outcome, done, fault, failed, software_failed, SoftCode}
use pofswitch.Hmap.{Hmap}
use pofswitch.Resource.{Action}
use pofswitch.Flow.Table.{Instruction}
use pofswitch.Flow.Tables.{Slot}

-- The parts of `struct portInfo` that the datapath reads.
pub record PortInfo : Type 0 where
  pub sys_index : ℕ
  pub pof_index : ℕ
  pub config : ℕ

-- The output part of the packet.
pub record Output : Type 0 where
  pub port_id : ℕ
  pub slot_id : ℕ
  pub packet_len : ℕ
  pub packet_offset : ℕ
  pub metadata_len : ℕ
  pub metadata_offset : ℕ
  pub whole_len : ℕ
  pub packet_buf : ℕ
  pub buf_out : List ℕ

pub record Packet : Type 0 where
  pub ori_port_id : ℕ
  pub ori_len : ℕ
  pub buf : List ℕ
  pub output : Output
  pub offset : ℕ
  pub buf_offset : ℕ
  pub left_len : ℕ
  pub metadata : List ℕ
  pub metadata_len : ℕ
  pub table_type : ℕ
  pub table_id : ℕ
  pub ins_array : List Instruction
  pub ins : ℕ
  pub ins_todo_num : ℕ
  pub ins_done_num : ℕ
  pub act : List Action
  pub act_num : ℕ
  pub packet_done : Bool
  pub rate : ℕ

-- `struct pof_packet_in`, as `pofdp_send_packet_in_to_controller` fills it.
pub record PacketIn : Type 0 where
  pub buffer_id : ℕ
  pub total_len : ℕ
  pub reason : ℕ
  pub table_id : ℕ
  pub cookie : ℕ
  pub device_id : ℕ
  pub slot_id : ℕ
  pub port_id : ℕ
  pub bytes : List ℕ

-- What leaves the switch: bytes through the port of a system index, or a message to the controller.
pub data Sent : Type 0 where
  raw : ℕ → List ℕ → Sent
  packet_in : PacketIn → Sent

pub record Machine : Type 0 where
  pub packet : Packet
  pub slot : Slot
  pub ports : Hmap PortInfo
  pub sent : List Sent
  pub spare : Option ℕ

-- What the operating system and other parts of the switch answer: whether `malloc` gives memory,
-- `sendto` sends and the channel takes a message; what an array that is not initialised holds; and
-- the numbers of the device and of the port of the channel.
pub record World : Type 0 where
  pub memory : Bool
  pub sendto : ℕ → List ℕ → Bool
  pub reply : Bool
  pub junk : List ℕ
  pub dev_id : ℕ
  pub local_port_index : ℕ

-- A value that is read, the error that its function returns, or an access out of a buffer.
pub data Read (A : Type 0) : Type 0 where
  value : A → Read A
  refused : Error → Read A
  wild : Read A

abbrev pub read : {A S : Type 0} → Read A → S → (A → Outcome S) → Outcome S
read (value a) s f = f a
read (refused e) s f = done (failed e) s
read wild s f = fault

abbrev pub soft : {A : Type 0} → SoftCode → Read A
soft code = refused (software_failed code)

abbrev pub soft_error : SoftCode → Machine → Outcome Machine
soft_error code m = done (failed (software_failed code)) m

-- The bytes from `buf_offset` on, and a packet in which they are replaced.
abbrev pub window : Packet → List ℕ
window p = drop p.buf_offset p.buf

abbrev pub put_window : Packet → List ℕ → Packet
put_window p w = record p { buf = take p.buf_offset p.buf ++ w }

-- `pofbf_copy_bit` into an array that another object of the same structure or frame precedes. A copy
-- of no bits only rewrites, unchanged, the byte in front of the array.
unfoldable pub copy_behind : List ℕ → List ℕ → ℕ → ℕ → Option (List ℕ)
copy_behind src res offset_b len_b =
    if len_b == 0 then some res else copy_bit (some src) res offset_b len_b

-- `pofbf_cover_bit(dpp->buf_offset, ..)` and `pofbf_cover_bit((uint8_t *)dpp->metadata, ..)`.
unfoldable pub cover_packet : List ℕ → ℕ → ℕ → Packet → Option Packet
cover_packet v pos_b len_b p = do w ← cover_bit (window p) v pos_b len_b; some (put_window p w)

unfoldable pub cover_metadata : List ℕ → ℕ → ℕ → Packet → Option Packet
cover_metadata v pos_b len_b p = do
  metadata' ← cover_bit p.metadata v pos_b len_b
  some (record p { metadata = metadata' })

-- `POF_PACKET_REL_LEN_GET` and `_SET`: the first two bytes of the metadata, in the network's order.
abbrev pub rel_len : Packet → ℕ
rel_len p = 2 ^ 8 * get_or p.metadata 0 0 + get_or p.metadata 1 0

abbrev pub set_rel_len : ℕ → Packet → Packet
set_rel_len len p = record p { metadata = set (set p.metadata 0 (u8 (len / 2 ^ 8))) 1 (u8 len) }

-- `POF_PACKET_REL_LEN_INC` and `_DEC`.
abbrev pub rel_len_inc : ℕ → Packet → Packet
rel_len_inc len p = set_rel_len (u16 (rel_len p + len)) p

abbrev pub rel_len_dec : ℕ → Packet → Packet
rel_len_dec len p = set_rel_len (u16 (rel_len p + 2 ^ 16 - len)) p
