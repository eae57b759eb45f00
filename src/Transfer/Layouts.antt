-- ===== src/Transfer/Layouts.antt =====
-- The structures of the messages in include/pof_global.h, in the configuration with slots and with
-- POF_SD2N, member by member, and what a message is in the other order of bytes.
use pofswitch.Base.{ℕ, zero, suc, List, [], ◌∷◌, ◌++◌, get_or, take, drop}
use pofswitch.Transfer.Messages.{
  Message, of_error, of_packet_in, of_header, of_port, of_port_status, of_flow_table, of_meter,
  of_counter, of_switch_features, of_flow_table_resource, of_switch_config, of_queryall_request,
}

-- Bytes, characters and padding, and a number of some bytes.
pub data Member : Type 0 where
  raw number : ℕ → Member

abbrev u16_member : Member
u16_member = number 2

abbrev u32_member : Member
u32_member = number 4

abbrev u64_member : Member
u64_member = number 8

abbrev repeated : ℕ → List Member → List Member
repeated zero ms = []
repeated (suc n) ms = ms ++ repeated n ms

abbrev pof_port : List Member
pof_port =
    u16_member
    ∷ u16_member
    ∷ u32_member
    ∷ raw 6
    ∷ raw 2
    ∷ raw 64
    ∷ (repeated 8 (u32_member ∷ []) ++ (raw 1 ∷ raw 7 ∷ []))

abbrev pof_match : List Member
pof_match = u16_member ∷ u16_member ∷ u16_member ∷ raw 2 ∷ []

abbrev pof_table_resource_desc : List Member
pof_table_resource_desc = u32_member ∷ raw 1 ∷ raw 1 ∷ u16_member ∷ u32_member ∷ raw 4 ∷ []

abbrev pub layout : Message → List Member
layout of_error = u16_member ∷ u16_member ∷ u32_member ∷ u16_member ∷ raw 6 ∷ raw 256 ∷ []
layout of_packet_in =
    u32_member
    ∷ u16_member
    ∷ raw 1
    ∷ raw 1
    ∷ u64_member
    ∷ u32_member
    ∷ u16_member
    ∷ u16_member
    ∷ raw 2048
    ∷ []
layout of_header = raw 1 ∷ raw 1 ∷ u16_member ∷ u32_member ∷ []
layout of_port = pof_port
layout of_port_status = raw 1 ∷ raw 7 ∷ pof_port
layout of_flow_table =
    raw 1
    ∷ raw 1
    ∷ raw 1
    ∷ raw 1
    ∷ u32_member
    ∷ u16_member
    ∷ u16_member
    ∷ raw 4
    ∷ raw 64
    ∷ repeated 8 pof_match
layout of_meter = raw 1 ∷ raw 1 ∷ u16_member ∷ u32_member ∷ u32_member ∷ raw 4 ∷ []
layout of_counter = raw 1 ∷ raw 1 ∷ u16_member ∷ u32_member ∷ u64_member ∷ u64_member ∷ []
layout of_switch_features =
    u32_member
    ∷ u16_member
    ∷ u16_member
    ∷ u16_member
    ∷ raw 2
    ∷ u32_member
    ∷ raw 64
    ∷ raw 64
    ∷ raw 64
    ∷ []
layout of_flow_table_resource =
    raw 1
    ∷ raw 1
    ∷ u16_member
    ∷ u32_member
    ∷ u32_member
    ∷ u32_member
    ∷ repeated 4 pof_table_resource_desc
layout of_switch_config = u32_member ∷ u16_member ∷ u16_member ∷ []
layout of_queryall_request = u16_member ∷ raw 6 ∷ []

-- The first `n` bytes, from the last to the first.
abbrev pub backwards : ℕ → List ℕ → List ℕ
backwards zero buf = []
backwards (suc n) buf = get_or buf n 0 ∷ backwards n buf

-- The message with the bytes of each number in the other order, and nothing else changed.
abbrev pub in_order : List Member → List ℕ → List ℕ
in_order [] buf = buf
in_order (raw n ∷ ms) buf = take n buf ++ in_order ms (drop n buf)
in_order (number n ∷ ms) buf = backwards n buf ++ in_order ms (drop n buf)
