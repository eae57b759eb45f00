-- ===== src/Datapath/Checksum.antt =====
-- datapath/pof_action.c: `bzero_bit`, `checksum` and `calChecksum`, and the action that calls them.
-- The buffer of the checksum and that of the data are each the packet or the metadata.
use pofswitch.Base.{
  ℕ, zero, suc, ◌+◌, ◌-◌, ◌*◌, ◌/◌, ◌%◌, ◌^◌, Bool, true, false, Option, none, some, List, ◌++◌,
  ◌==◌, leb, ◌&&◌, if◌then◌else◌, ◌>>=◌, ◌<<◌, ◌>>◌, u16, u64, replicate, take, drop, length,
}
use pofswitch.ByteOrder.{hton64, load64, bytes64}
use pofswitch.Field.{copy_bit}
use pofswitch.Flow.{bytes_of_bits}
use pofswitch.Datapath.{Packet, World, window, put_window, cover_packet, cover_metadata}

-- Type 0 is the packet, any other the metadata.
abbrev pub target : ℕ → Packet → List ℕ
target type p = if type == 0 then window p else p.metadata

abbrev pub cover_target : ℕ → List ℕ → ℕ → ℕ → Packet → Option Packet
cover_target type v pos_b len_b p =
    if type == 0 then cover_packet v pos_b len_b p else cover_metadata v pos_b len_b p

-- `memset(data + from, 0, n)`.
abbrev pub zero_bytes : List ℕ → ℕ → ℕ → Option (List ℕ)
zero_bytes buf from n =
    if leb (from + n) (length buf)
    then some (take from buf ++ replicate n 0 ++ drop (from + n) buf)
    else none

abbrev pub zero_target : ℕ → ℕ → ℕ → Packet → Option Packet
zero_target type from n p =
    if type == 0
    then zero_bytes (window p) from n >>= (λ w. some (put_window p w))
    else zero_bytes p.metadata from n >>= (λ metadata'. some (record p { metadata = metadata' }))

-- `bzero_bit`: the packet, and whether it returned POF_OK.
unfoldable pub bzero_bit : World → ℕ → ℕ → ℕ → Packet → Option (Packet × Bool)
bzero_bit w type pos_b len_b p =
    if pos_b % 8 == 0 && len_b % 8 == 0
    then zero_target type (pos_b / 8) (len_b / 8) p >>= (λ p'. some (p', true))
    else if w.memory
    then cover_target type (replicate (bytes_of_bits len_b) 0) pos_b len_b p
      >>= (λ p'. some (p', true))
    else some (p, false)

-- `threshold *= 2`, as often as the checksum has bits.
unfoldable pub double : ℕ → ℕ → ℕ
double zero threshold = threshold
double (suc n) threshold = double n (u64 (threshold * 2))

-- `*value += *value_temp`, and the carry that is brought back.
unfoldable pub add_carry : ℕ → ℕ → ℕ → ℕ
add_carry threshold value temp =
    let sum = u64 (value + temp) in
    if leb threshold sum then u64 (sum + 2 ^ 64 - threshold + 1) else sum

-- The complement of the unit of the checksum's length at a bit of the data.
unfoldable pub complement_at : List ℕ → ℕ → ℕ → Option ℕ
complement_at buf pos_b cs_len_b = do
  bytes ← copy_bit (some buf) (replicate 8 0) pos_b cs_len_b
  some ((2 ^ 64 - 1 - hton64 (load64 bytes 0)) >> (64 - cs_len_b))

-- The loop of `checksum`, with the number of units to go.
unfoldable pub checksum_loop : List ℕ → ℕ → ℕ → ℕ → ℕ → ℕ → ℕ → Option ℕ
unfolding add_carry complement_at
checksum_loop buf pos_b cs_len_b threshold zero i value = some value
checksum_loop buf pos_b cs_len_b threshold (suc n) i value = do
  temp ← complement_at buf (u16 (pos_b + i * cs_len_b)) cs_len_b
  checksum_loop buf pos_b cs_len_b threshold n (i + 1) (add_carry threshold value temp)

-- `checksum`: the number that it leaves, before it is moved up and swapped; `none` for a checksum of
-- no bits is the division by 0.
unfoldable pub checksum : List ℕ → ℕ → ℕ → ℕ → Option ℕ
unfolding checksum_loop double
checksum buf pos_b len_b cs_len_b =
    if cs_len_b == 0
    then none
    else checksum_loop buf pos_b cs_len_b (double cs_len_b 1) (len_b / cs_len_b) 0 0

unfoldable pub checksum_bytes : ℕ → ℕ → List ℕ
checksum_bytes value cs_len_b = bytes64 (hton64 (u64 (value << (64 - cs_len_b))))

-- `calChecksum`: the packet, and whether it returned POF_OK.
unfoldable pub cal_checksum :
    World
    → (cs_type cal_type cal_pos_b cal_len_b cs_pos_b cs_len_b : ℕ) → Packet
    → Option (Packet × Bool)
unfolding bzero_bit checksum checksum_bytes
cal_checksum w cs_type cal_type cal_pos_b cal_len_b cs_pos_b cs_len_b p =
    bzero_bit w cs_type cs_pos_b cs_len_b p >>= (λ (p', ok).
      if ok
      then checksum (target cal_type p') cal_pos_b cal_len_b cs_len_b
        >>= (λ value. cover_target cs_type (checksum_bytes value cs_len_b) cs_pos_b cs_len_b p')
        >>= (λ p''. some (p'', true))
      else some (p', false))
