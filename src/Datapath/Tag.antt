-- ===== src/Datapath/Tag.antt =====
-- datapath/pof_action.c: `insertTagToPacket`, and the body of the action that deletes a field.
use pofswitch.Base.{
  ℕ, ◌+◌, ◌-◌, ◌*◌, ◌/◌, ◌%◌, ◌^◌, Bool, Option, none, some, List, ◌==◌, ltb, leb, ◌||◌,
  if◌then◌else◌, ◌>>=◌, ◌<<◌, u8, u16, u32, replicate, get_or, set, bit_and, length,
}
use pofswitch.Error.{Outcome, done, pof_ok, failed, software_failed, SoftCode}
use pofswitch.Resource.Steps.{or_fault}
use pofswitch.Flow.{bytes_of_bits}
use pofswitch.Datapath.{Packet, World, window, cover_packet, rel_len_inc, rel_len_dec, copy_behind}
use pofswitch.Datapath.Move.{biased}

abbrev pub packet_len_error : Packet → Outcome Packet
packet_len_error p = done (failed (software_failed SoftCode.packet_len_error)) p

-- The guard: the sum is taken to `uint32_t`, so below 0 it is too long as well; both comparisons
-- have the bias on both sides. The length behind the tag is unsigned, so it is never below 0.
abbrev pub is_too_long : ℕ → Packet → Bool
is_too_long tag_len_b p =
    let sum = biased p.offset + p.left_len + bytes_of_bits tag_len_b in
    ltb (2048 + 2 ^ 15) sum || ltb sum (2 ^ 15)

-- The two covers of `insertTagToPacket`, the tag and then the bits that were behind it.
abbrev pub insert_bits : List ℕ → ℕ → ℕ → List ℕ → ℕ → Packet → Option Packet
insert_bits v tag_pos_b tag_len_b behind len_b_behindtag p = do
  p' ← cover_packet v tag_pos_b (u16 tag_len_b) p
  cover_packet behind (u16 (tag_pos_b + tag_len_b)) (u16 len_b_behindtag) p'

unfoldable pub insert_tag_to_packet : World → ℕ → ℕ → List ℕ → Packet → Outcome Packet
insert_tag_to_packet w tag_pos_b tag_len_b v p =
    let len_b_behindtag = u32 (p.left_len * 8 + 2 ^ 32 - tag_pos_b) in
    let tag_len_B = bytes_of_bits tag_len_b in
    if is_too_long tag_len_b p
    then packet_len_error p
    else or_fault (copy_behind (window p) w.junk tag_pos_b (u16 len_b_behindtag)) (λ behind.
      or_fault (insert_bits v tag_pos_b tag_len_b behind len_b_behindtag p) (λ p'.
        done pof_ok (rel_len_inc tag_len_B (record p' { left_len = p.left_len + tag_len_B }))))

-- The last byte keeps the bits that are left in it.
abbrev pub trim_last : ℕ → Packet → Option Packet
trim_last tag_len_b_x p =
    if tag_len_b_x == 0
    then some p
    else let i = p.buf_offset + p.left_len - 1 in
      if ltb i (length p.buf)
      then some
          (record p { buf = set p.buf i (u8 (bit_and (get_or p.buf i 0) (0xff << tag_len_b_x))) })
      else none

-- The part of `execute_DELETE_FIELD` that follows the reading of the length.
unfoldable pub delete_tag : ℕ → ℕ → Packet → Outcome Packet
delete_tag tag_pos_b tag_len_b p =
    let len_b_behindtag = u16 (p.left_len * 8 + 2 ^ 33 - (tag_pos_b + tag_len_b)) in
    if leb (2 ^ 15) len_b_behindtag
    then packet_len_error p
    else or_fault
        (copy_behind (window p) (replicate 2048 0) (u16 (tag_pos_b + tag_len_b)) len_b_behindtag)
        (λ behind. or_fault (cover_packet behind tag_pos_b len_b_behindtag p) (λ p'.
          or_fault
            (trim_last (tag_len_b % 8) (
              rel_len_dec (u8 (tag_len_b / 8))
                (record p' { left_len = u32 (u32 (p.left_len * 8 + 2 ^ 32 - tag_len_b) + 7) / 8 })))
            (λ p''. done pof_ok p'')))
