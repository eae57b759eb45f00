-- ===== src/Lib.antt =====
-- POFSwitch, a software switch for protocol oblivious forwarding: what happens to a packet that it
-- receives, which entry a packet matches, and what the controller's requests change, in the
-- configuration that the build defines (POF_SD2N, POF_SD2N_AFTER1015 and POF_MULTIPLE_SLOTS,
-- without POF_SHT_VXLAN).
--
-- The program. A message of the controller (switch_control/) ends in an operation of
-- local_resource/ on the counters, meters, groups and flow tables of a slot. These stand in
-- hash maps (common/pof_hmap.c); a table of longest prefixes also has a trie (common/pof_tree.c).
-- Keys and packets are handled as runs of bits by two routines of common/pof_basefunc.c. A packet
-- that a port receives goes through the instructions and actions of datapath/: it starts with the
-- jump to the first table, looks its key up there, executes the instructions of the entry that it
-- matches, and with them actions that change it, send it out, or pass it to the controller.
--
-- Which file models what:
--   Base and its children: lists as arrays, Boolean tests, machine words and their bits.
--   Field: `pofbf_copy_bit` and `pofbf_cover_bit` of common/pof_basefunc.c. A buffer is the list of
--     its bytes. Field/Copy and Field/Cover are about each of them, Field/RoundTrip about the two
--     together, Field/Short about short fields in the second one.
--   Hmap: common/pof_hmap.c and the traversal macro of include/pof_hmap.h. A node is the address of
--     its structure, the hash and the structure; a bucket is the chain of its nodes in order.
--   Tree: common/pof_tree.c. Tree/Paths reads a trie as a table from bit strings to entries.
--   Flow: of local_resource/pof_flow_table.c, the assembly of keys (Flow/Key), of values and masks
--     (Flow/Entry), the masked comparison and the count of ones (Flow/Mask), the numbering of the
--     tables (Flow/Number), the entries of a table and their lookup (Flow/Table, Flow/Masked,
--     Flow/Exact), and the operations of the controller on tables and entries (Flow/Tables, with
--     Flow/Asked and Flow/Created).
--   Error: the error codes of include/pof_global.h and the value of an operation.
--   Resource: `struct pof_local_resource` with the steps that pof_counter.c, pof_meter.c and
--     pof_group.c of local_resource/ share (Resource/Steps), and the operations of each
--     (Resource/Counter, Resource/Meter, Resource/Group). Resource/Valid is the invariant of a map
--     with ids; Resource/Counters, Meters and Groups hold the specifications on finite maps from ids
--     to structures that the operations are compared with.
--   ByteOrder: the macros of include/pof_byte_transfer.h, and numbers in memory (ByteOrder/Number).
--   Transfer: common/pof_byte_transfer.c. A message is its bytes; a conversion is the list of the
--     fields that it swaps, at their places in the structures of include/pof_global.h (Messages), and
--     for actions and instructions a function that reads their kinds (Actions, Instructions).
--     Layouts transcribes the structures, with which InOrder compares the conversions.
--     Transfer/Bytes and Mirror say where the bytes go, Twice, Ordered and Repeat are about
--     converting again: messages, actions, and a group with its actions.
--   Datapath: datapath/. The state is `struct pofdp_packet`, with the slot and what has been
--     sent. Datapath/Value reads and writes fields as numbers, Move moves the pointers to the data
--     and to the instructions, Send is the way out, Checksum and Tag are the helpers of the
--     actions, Actions and Instructions have a function `execute_..` for each of the source,
--     Execute the two loops, and Receive a round of the receiving task, with Received about what
--     it forwards. Datapath/Invariant is the invariant of a packet; Ends, Parts, Sends, Acts,
--     Steps and Runs carry it from the parts to the whole, and Finish, Jumps, ReadWrite and Sums
--     are about the loops, the pointers, the fields and the checksum.
--
-- Conventions. `none` and `fault` are accesses through NULL or out of a buffer. Whether an
-- allocation succeeds, and at which address, is an argument of the operation. Integers of 8, 16, 32
-- and 64 bits are natural numbers with the wrap-around written out. Words are read from a buffer with
-- the low byte first. Fuel: `copy_loop` has one round more than the field has bits, since a round
-- copies eight of them; `cover_loop` as many rounds as the data has bytes, since a round writes the
-- next one; `count_ones` nine rounds, since a round clears a one of a byte; the traversal one round
-- more than the map has nodes, since a round visits the next one; the flooding likewise. The loops
-- over instructions and actions may have no end, and so `none` is there that the fuel is spent, with
-- a unit for each round. The machine is the packet, one slot, its ports, and the list of what has
-- been sent; the answers of the operating system and the contents of arrays that are not initialised
-- are the record `World`. A signed number of 16 bits is its bit pattern, with the sign as a bias where
-- it is compared.
--
-- Not modelled: sockets, threads, files, the log and the bookkeeping of memory; the messages to
-- the controller but the one that carries a packet; the filter of the receiving task, a parameter
-- of `Receiver`; more than one slot; the freeing of memory, so that a released address is only
-- forgotten.
mod Base
pub mod ByteOrder
pub mod Field
pub mod Hmap
pub mod Error
pub mod Tree
pub mod Resource
pub mod Flow
pub mod Datapath
pub mod Transfer
