-- ===== src/Flow.antt =====
-- local_resource/pof_flow_table.c: how a key is put together from a packet, how the value and the
-- mask of an entry are, how they are compared, and the numbering of the tables.
-- `none` is an access out of a buffer.
pub mod Key
pub mod Entry
pub mod Mask
pub mod Number
pub mod Table
pub mod Tables
pub mod Asked
pub mod Created
pub mod Exact
pub mod Masked
mod Tests
use pofswitch.Base.{
  ℕ, zero, suc, ◌+◌, ◌-◌, ◌/◌, Bool, true, false, Option, none, some, List, [], ◌∷◌, ◌==◌, ltb, leb,
  if◌then◌else◌, ◌>>=◌, replicate, u8, u16, u32, bit_and,
}
use pofswitch.Field.{copy_bit, cover_bit}

-- `struct pof_match`.
pub record Match : Type 0 where
  pub field_id : ℕ
  pub offset : ℕ
  pub len : ℕ

-- `struct pof_match_x`.
pub record MatchX : Type 0 where
  pub field : Match
  pub value : List ℕ
  pub mask : List ℕ

-- `POF_BITNUM_TO_BYTENUM_CEIL`.
abbrev pub bytes_of_bits : ℕ → ℕ
bytes_of_bits len_b = (len_b + 7) / 8

abbrev pub source : List ℕ → List ℕ → Match → List ℕ
source packet metadata m = if m.field_id == 0xffff then metadata else packet

-- The loop of `keyAssemble`, with the number of fields to go.
unfoldable pub key_assemble : List ℕ → List ℕ → ℕ → List Match → List ℕ → ℕ → Option (List ℕ)
key_assemble packet metadata zero match key offset_b = some key
key_assemble packet metadata (suc n) [] key offset_b = none
key_assemble packet metadata (suc n) (m ∷ match) key offset_b = do
  tmp ← copy_bit (some (source packet metadata m)) (replicate 16 0) m.offset m.len
  key' ← cover_bit key tmp offset_b m.len
  key_assemble packet metadata n match key' (u16 (offset_b + m.len))

-- A cover of the mask, which is NULL for an exact match.
abbrev pub cover_mask : Option (List ℕ) → MatchX → ℕ → Option (Option (List ℕ))
cover_mask none m offset_b = some none
cover_mask (some mask) m offset_b = do
  mask' ← cover_bit mask m.mask offset_b (m.field.len)
  some (some mask')

-- The loop of `valueMaskAssemble`, and the offset that it ends at.
unfoldable pub value_mask_loop :
    ℕ → List MatchX → List ℕ → Option (List ℕ) → ℕ → Option (List ℕ × Option (List ℕ) × ℕ)
value_mask_loop zero match value mask offset_b = some (value, mask, offset_b)
value_mask_loop (suc n) [] value mask offset_b = none
value_mask_loop (suc n) (m ∷ match) value mask offset_b = do
  value' ← cover_bit value m.value offset_b (m.field.len)
  mask' ← cover_mask mask m offset_b
  value_mask_loop n match value' mask' (u16 (offset_b + m.field.len))

-- `valueMaskAssemble`: the value, the mask, and whether the lengths add up to that of the key.
unfoldable pub value_mask_assemble :
    ℕ → List MatchX → List ℕ → Option (List ℕ) → ℕ → Option (List ℕ × Option (List ℕ) × Bool)
unfolding value_mask_loop
value_mask_assemble n match value mask key_len = do
  (value', mask', offset_b) ← value_mask_loop n match value mask 0
  some (value', mask', offset_b == key_len)

-- The loop of `get1sCountInByte`; `none` if the rounds do not suffice.
unfoldable pub count_ones : ℕ → ℕ → ℕ → Option ℕ
count_ones zero value count = none
count_ones (suc fuel) value count =
    let rest = count_ones fuel (bit_and value (value - 1)) (u32 (count + 1)) in
    if ltb 0 value then rest else some count

unfoldable pub get_1s_count_in_byte : ℕ → Option ℕ
unfolding count_ones
get_1s_count_in_byte value = count_ones 9 value 0

unfoldable pub get_1s_count_in_bytes : ℕ → List ℕ → ℕ → Option ℕ
unfolding get_1s_count_in_byte
get_1s_count_in_bytes zero value count = some count
get_1s_count_in_bytes (suc n) [] count = none
get_1s_count_in_bytes (suc n) (x ∷ value) count = do
  c ← get_1s_count_in_byte x
  get_1s_count_in_bytes n value (u32 (count + c))

-- The loop of `maskMatch`, with the number of bytes to go.
unfoldable pub mask_match_bytes : ℕ → List ℕ → List ℕ → List ℕ → Option Bool
mask_match_bytes zero mask value key = some true
mask_match_bytes (suc n) (m ∷ mask) (v ∷ value) (k ∷ key) =
    let rest = mask_match_bytes n mask value key in
    if bit_and m k == bit_and m v then rest else some false
mask_match_bytes (suc n) mask value key = none

unfoldable pub mask_match : List ℕ → List ℕ → List ℕ → ℕ → Option Bool
unfolding mask_match_bytes
mask_match mask value key len_b = mask_match_bytes (bytes_of_bits len_b) mask value key

-- The loop of `poflr_table_id_to_ID` over `tableNumMaxEachType`.
unfoldable pub add_sizes : ℕ → List ℕ → ℕ → Option ℕ
add_sizes zero sizes global = some global
add_sizes (suc n) [] global = none
add_sizes (suc n) (m ∷ sizes) global = add_sizes n sizes (u8 (global + m))

-- `poflr_table_id_to_ID`: from the type and the number within the type to the global number.
unfoldable pub table_id_to_global : List ℕ → ℕ → ℕ → Option ℕ
unfolding add_sizes
table_id_to_global sizes type id = do global ← add_sizes type sizes 0; some (u8 (global + id))

-- The loop of `poflr_table_ID_to_id`; `none` is its error.
unfoldable pub subtract_sizes : List ℕ → ℕ → ℕ → Option (ℕ × ℕ)
subtract_sizes [] type global = none
subtract_sizes (m ∷ sizes) type global =
    let rest = subtract_sizes sizes (type + 1) (u8 (global - m)) in
    if leb m global then rest else some (type, global)

unfoldable pub table_global_to_id : List ℕ → ℕ → Option (ℕ × ℕ)
unfolding subtract_sizes
table_global_to_id sizes global = subtract_sizes sizes 0 global
