-- ===== src/Transfer/Messages.antt =====
-- common/pof_byte_transfer.c: the messages whose fields stand at places that do not depend on their
-- contents, in the configuration with slots.
use pofswitch.Base.{ℕ, ◌+◌, List, [], ◌∷◌}
use pofswitch.Transfer.{Field, short, long, wide, match, array}

-- `pof_NtoH_transfer_error`.
abbrev pub error : List Field
error = short 8 ∷ short 0 ∷ short 2 ∷ long 4 ∷ []

-- `pof_NtoH_transfer_packet_in`.
abbrev pub packet_in : List Field
packet_in = long 0 ∷ short 4 ∷ wide 8 ∷ long 16 ∷ short 20 ∷ short 22 ∷ []

-- `pof_NtoH_transfer_header` and `pof_HtoN_transfer_header`.
abbrev pub header : List Field
header = short 2 ∷ long 4 ∷ []

-- `pof_NtoH_transfer_port` and `port`, of a structure at a place.
abbrev pub port : ℕ → List Field
port at =
    short at
    ∷ short (at + 2)
    ∷ long (at + 4)
    ∷ long (at + 80)
    ∷ long (at + 84)
    ∷ long (at + 88)
    ∷ long (at + 92)
    ∷ long (at + 96)
    ∷ long (at + 100)
    ∷ long (at + 104)
    ∷ long (at + 108)
    ∷ []

-- `pof_HtoN_transfer_port_status`.
abbrev pub port_status : List Field
port_status = port 8

-- `pof_NtoH_transfer_flow_table`.
abbrev pub flow_table : List Field
flow_table = long 4 ∷ short 8 ∷ short 10 ∷ array 8 8 80 match

-- `pof_NtoH_transfer_meter`.
abbrev pub meter : List Field
meter = short 2 ∷ long 8 ∷ long 4 ∷ []

-- `pof_NtoH_transfer_counter`.
abbrev pub counter : List Field
counter = long 4 ∷ short 2 ∷ wide 8 ∷ wide 16 ∷ []

-- `pof_HtoN_transfer_switch_features`.
abbrev pub switch_features : List Field
switch_features = long 0 ∷ short 4 ∷ short 6 ∷ short 8 ∷ long 12 ∷ []

-- `pof_HtoN_transfer_table_resource_desc`, of a structure at a place.
abbrev pub table_resource_desc : ℕ → List Field
table_resource_desc at = long at ∷ short (at + 6) ∷ long (at + 8) ∷ []

-- `pof_HtoN_transfer_flow_table_resource`.
abbrev pub flow_table_resource : List Field
flow_table_resource = short 2 ∷ long 4 ∷ long 8 ∷ long 12 ∷ array 4 16 16 table_resource_desc

-- `pof_HtoN_transfer_switch_config`.
abbrev pub switch_config : List Field
switch_config = long 0 ∷ short 4 ∷ short 6 ∷ []

-- `pof_HtoN_transfer_queryall_request`.
abbrev pub queryall_request : List Field
queryall_request = short 0 ∷ []

-- The messages, with the lengths of their structures.
pub data Message : Type 0 where
  of_error of_packet_in of_header of_port of_port_status of_flow_table of_meter : Message
  of_counter of_switch_features of_flow_table_resource of_switch_config of_queryall_request :
      Message

abbrev pub fields : Message → List Field
fields of_error = error
fields of_packet_in = packet_in
fields of_header = header
fields of_port = port 0
fields of_port_status = port_status
fields of_flow_table = flow_table
fields of_meter = meter
fields of_counter = counter
fields of_switch_features = switch_features
fields of_flow_table_resource = flow_table_resource
fields of_switch_config = switch_config
fields of_queryall_request = queryall_request

abbrev pub size : Message → ℕ
size of_error = 272
size of_packet_in = 2072
size of_header = 8
size of_port = 120
size of_port_status = 128
size of_flow_table = 144
size of_meter = 16
size of_counter = 24
size of_switch_features = 208
size of_flow_table_resource = 80
size of_switch_config = 8
size of_queryall_request = 8
