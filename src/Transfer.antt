-- ===== src/Transfer.antt =====
-- common/pof_byte_transfer.c: the conversions of messages, in place, between the order of the network
-- and that of the machine. A message is the list of its bytes, from the start of its structure in
-- include/pof_global.h; a conversion is the list of the fields that it swaps, in the order of the
-- code, and where a byte of the message chooses between fields, a function that reads it.
pub mod Messages
pub mod Actions
pub mod Instructions
pub mod Bytes
pub mod Mirror
pub mod Layouts
pub mod Twice
pub mod InOrder
pub mod Ordered
pub mod Repeat
mod Tests
use pofswitch.Base.{
  ℕ, zero, suc, ◌+◌, ◌*◌, Option, none, some, List, [], ◌∷◌, ◌++◌, ◌==◌, leb, if◌then◌else◌, ◌>>=◌,
  length, get_or, take, drop,
}
use pofswitch.ByteOrder.{htons, htonl, hton64, load16, load32, load64, bytes16, bytes32, bytes64}

-- A `uint16_t`, `uint32_t` or `uint64_t` at a place of the message, and the statement
-- `POF_NTOHS_FUNC`, `POF_NTOHL_FUNC` or `POF_NTOH64_FUNC` on it.
pub data Field : Type 0 where
  short long wide : ℕ → Field

abbrev pub place : Field → ℕ
place (short at) = at
place (long at) = at
place (wide at) = at

abbrev pub width : Field → ℕ
width (short at) = 2
width (long at) = 4
width (wide at) = 8

unfoldable pub converted : Field → List ℕ → List ℕ
converted (short at) buf = bytes16 (htons (load16 buf at))
converted (long at) buf = bytes32 (htonl (load32 buf at))
converted (wide at) buf = bytes64 (hton64 (load64 buf at))

unfoldable pub transfer_field : Field → List ℕ → Option (List ℕ)
unfolding converted
transfer_field f buf =
    if leb (place f + width f) (length buf)
    then some (take (place f) buf ++ (converted f buf ++ drop (place f + width f) buf))
    else none

unfoldable pub run : List Field → List ℕ → Option (List ℕ)
unfolding transfer_field
run [] buf = some buf
run (f ∷ fs) buf = transfer_field f buf >>= run fs

-- `match` and `match_x`, of a `pof_match` or `pof_match_x` at a place.
abbrev pub match : ℕ → List Field
match at = short at ∷ short (at + 2) ∷ short (at + 4) ∷ []

-- The fields of `n` structures of `size` bytes, one after the other.
abbrev pub array : ℕ → ℕ → ℕ → (ℕ → List Field) → List Field
array zero size at fields = []
array (suc n) size at fields = fields at ++ array n size (at + size) fields

-- `value`, whose kind stands at one place and its union at another; POFVT_IMMEDIATE_NUM is 0.
unfoldable pub value : ℕ → ℕ → List ℕ → Option (List ℕ)
unfolding run
value kind at buf = if get_or buf kind 0 == 0 then run (long at ∷ []) buf else run (match at) buf
