-- ===== src/Datapath/Value.antt =====
-- The fields of datapath/pof_instruction.c: how a number is read from a field of the packet or of the
-- metadata and written to it, and the union of a number and a field in an instruction or action.
use pofswitch.Base.{
  ℕ, ◌+◌, ◌-◌, ◌*◌, Option, none, some, List, ◌==◌, ltb, if◌then◌else◌, ◌>>=◌, ◌<<◌, ◌>>◌, u32,
}
use pofswitch.ByteOrder.{htonl, load16, load32, bytes32}
use pofswitch.Field.{copy_bit}
use pofswitch.Error.{bad_match, BadMatchCode, SoftCode}
use pofswitch.Flow.{Match}
use pofswitch.Datapath.{
  Packet, Read, value, refused, wild, soft, window, cover_packet, cover_metadata,
}

-- The bytes of an instruction or of an action that stand for `struct pof_match`.
abbrev pub load_match : List ℕ → ℕ → Match
load_match p i = record { field_id = load16 p i; offset = load16 p (i + 2); len = load16 p (i + 4) }

-- `pofdp_get_field_buf`. Its callers return POF_ERROR for the NULL that it returns with a report.
unfoldable pub get_field_buf : Match → Packet → Read (List ℕ)
get_field_buf pm p =
    if pm.field_id == 0xffff
    then if ltb (p.metadata_len * 8) (pm.len + pm.offset)
      then soft SoftCode.pof_error
      else value p.metadata
    else if ltb (p.left_len * 8) (pm.len + pm.offset)
    then soft SoftCode.pof_error
    else value (window p)

-- `pofdp_get_32value_from_buf`, with what stands in the four bytes of the result before.
unfoldable pub get_32value_from_buf : List ℕ → List ℕ → ℕ → ℕ → Option ℕ
get_32value_from_buf buf tmp offset len = do
  bytes ← copy_bit (some buf) tmp offset len
  some (htonl (load32 bytes 0) >> (32 - len))

abbrev pub or_wild : {A : Type 0} → Option A → Read A
or_wild none = wild
or_wild (some a) = value a

abbrev copied_value : List ℕ → Match → List ℕ → Read ℕ
copied_value tmp pm src = or_wild (get_32value_from_buf src tmp pm.offset pm.len)

abbrev pub and_read : {A B : Type 0} → Read A → (A → Read B) → Read B
and_read (value a) f = f a
and_read (refused e) f = refused e
and_read wild f = wild

unfoldable pub get_32value_from_field : List ℕ → Match → Packet → Read ℕ
unfolding get_field_buf
get_32value_from_field tmp pm p =
    if ltb 32 pm.len
    then refused (bad_match BadMatchCode.bad_len)
    else and_read (get_field_buf pm p) (copied_value tmp pm)

-- `pofdp_get_32value` of the union at byte `i` of the data of an instruction or action; type 0 is an
-- immediate number.
unfoldable pub get_32value : List ℕ → ℕ → List ℕ → ℕ → Packet → Read ℕ
unfolding get_32value_from_field
get_32value tmp type p i dpp =
    if type == 0 then value (load32 p i) else get_32value_from_field tmp (load_match p i) dpp

-- The bytes that `write_32value_to_buf` puts on the field; a shift in `uint32_t`.
unfoldable pub shifted_bytes : ℕ → ℕ → List ℕ
shifted_bytes v len = bytes32 (htonl (u32 (v << (32 - len))))

-- `pofdp_write_32value_to_field` with `write_32value_to_buf`: the packet that it leaves.
unfoldable pub write_32value_to_field : ℕ → Match → Packet → Read Packet
unfolding shifted_bytes
write_32value_to_field v pm p =
    if ltb 32 pm.len
    then refused (bad_match BadMatchCode.bad_len)
    else if pm.field_id == 0xffff
    then if ltb (p.metadata_len * 8) (pm.len + pm.offset)
      then soft SoftCode.metadata_len_error
      else or_wild (cover_metadata (shifted_bytes v pm.len) pm.offset pm.len p)
    else if ltb (p.left_len * 8) (pm.len + pm.offset)
    then soft SoftCode.packet_len_error
    else or_wild (cover_packet (shifted_bytes v pm.len) pm.offset pm.len p)
