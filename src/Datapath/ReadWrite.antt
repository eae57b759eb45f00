-- ===== src/Datapath/ReadWrite.antt =====
-- The number that a field stands for: what `pofdp_get_32value_from_buf` reads, and that it reads what
-- `write_32value_to_buf` wrote.

use pofswitch.Base.{
  ℕ, ◌+◌, ◌-◌, ◌/◌, ◌%◌, ◌^◌, ◌<◌, ◌≤◌, ◌≡◌, refl, ap, ◌∙◌, ◌⊎◌, inl, inr, Bool-cases, some, List,
  arith, length, ltb, if◌then◌else◌, u32, bit, bit-shr, bit-shl, bit-mod, bits_ext_all, ◌<<◌, ◌>>◌,
}
use pofswitch.ByteOrder.{htonl, load32, bytes32}
use pofswitch.ByteOrder.Swap.{bit-htonl}
use pofswitch.ByteOrder.Number.{bit-htonl-load32, bytes32-IsBytes, bit_at-bytes32}
use pofswitch.Field.{cover_bit}
use pofswitch.Field.Bits.{bit_at, IsBytes}
use pofswitch.Field.Copy.{copy_bit-IsField}
use pofswitch.Field.Cover.{IsCovered, cover_bit-IsCovered}
use pofswitch.Field.Cover.Bits.{IsPadded}
use pofswitch.Datapath.Value.{get_32value_from_buf, shifted_bytes}

-- The bits of `v` are those of the field, the last one first, and it has no other bits.
pub record IsNumber (buf : List ℕ) (offset len v : ℕ) : Type 0 where
  pub bits : (i : ℕ) → i < len → bit v i ≡ bit_at buf (offset + (len - 1 - i))
  pub above : (i : ℕ) → len ≤ i → bit v i ≡ 0

-- A field of 1 to 32 bits of a buffer of bytes that reaches a byte beyond it is read as the number
-- that its bits stand for, the first bit being the highest, whatever stood in the variable before.
pub get_32value_from_buf-IsNumber :
    (buf tmp : List ℕ) (offset len : ℕ)
    → IsBytes buf
    → IsBytes tmp
    → length tmp ≡ 4
    → 0 < len
    → len ≤ 32
    → offset / 8 + (len + 7) / 8 < length buf
    → (v : ℕ) × (get_32value_from_buf buf tmp offset len ≡ some v) × IsNumber buf offset len v
unfolding get_32value_from_buf
get_32value_from_buf-IsNumber buf tmp offset len b t four pos small room =
    let (out, reads, f) =
      copy_bit-IsField buf tmp offset len b pos (omega arith) room (omega arith) in
    let out_bytes = f.keeps_bytes t in
    let v = htonl (load32 out 0) >> (32 - len) in
    (
      v,
      rw reads refl,
      record {
        bits = λ i h.
            bit-shr (32 - len) i (htonl (load32 out 0))
            ∙ ap (bit (htonl (load32 out 0))) {x = i + (32 - len)} (omega arith)
            ∙ bit-htonl-load32 out out_bytes (len - 1 - i) (omega arith)
            ∙ f.field (len - 1 - i) (omega arith);
        above = λ i h.
            bit-shr (32 - len) i (htonl (load32 out 0))
            ∙ ground (arith, bit-htonl (load32 out 0) (i + (32 - len)));
      },
    )

bit_at-shifted_bytes :
    (v len j : ℕ)
    → len ≤ 32
    → j < 32
    → bit_at (shifted_bytes v len) j ≡ (if ltb j len then bit v (len - 1 - j) else 0)
unfolding shifted_bytes
bit_at-shifted_bytes v len j small h =
    bit_at-bytes32 (u32 (v << (32 - len))) j h
    ∙ bit-mod 32 (31 - j) (v << (32 - len))
    ∙ ground (arith, bit-shl (32 - len) (31 - j) v)

shifted_bytes-IsBytes : (v len : ℕ) → IsBytes (shifted_bytes v len)
unfolding shifted_bytes
shifted_bytes-IsBytes v len = bytes32-IsBytes (htonl (u32 (v << (32 - len))))

length-shifted_bytes : (v len : ℕ) → length (shifted_bytes v len) ≡ 4
unfolding shifted_bytes bytes32
length-shifted_bytes v len = refl

shifted_bytes-IsPadded : (v len : ℕ) → len ≤ 32 → IsPadded (shifted_bytes v len) len
shifted_bytes-IsPadded v len small j h l =
    bit_at-shifted_bytes v len j small (omega arith) ∙ ground arith

-- What is read from a covered field.
covered_number :
    (buf out : List ℕ) (offset len v r : ℕ)
    → len ≤ 32
    → IsCovered buf (shifted_bytes v len) offset len out
    → IsNumber out offset len r
    → r ≡ v % 2 ^ len
covered_number buf out offset len v r small c n = bits_ext_all r (v % 2 ^ len) bits
  where
    bits : (i : ℕ) → bit r i ≡ bit (v % 2 ^ len) i
    bits i = elim (Bool-cases (ltb i len)) [
      | inl e ↦
          n.bits i (ground arith)
          ∙ c.bits (offset + (len - 1 - i))
          ∙ ground (arith, bit_at-shifted_bytes v len (len - 1 - i) small, bit-mod len i v)
      | inr e ↦ n.above i (ground arith) ∙ ground (arith, bit-mod len i v)
    ]

-- A number that is written to a field of a buffer of bytes that reaches a byte beyond it, a field
-- of at least a bit that is within one byte or at least 8 bits wide and whose last bit is among
-- the 32 from the start of its first byte, is read back from it, cut to the length of the field;
-- and every other bit of the buffer stays.
pub get_32value-shifted_bytes :
    (buf tmp : List ℕ) (offset len v : ℕ)
    → IsBytes buf
    → IsBytes tmp
    → length tmp ≡ 4
    → 0 < len
    → offset % 8 + len ≤ 32
    → (offset % 8 + len ≤ 8) ⊎ (8 ≤ len)
    → offset / 8 + (len + 7) / 8 < length buf
    → (out : List ℕ) × (cover_bit buf (shifted_bytes v len) offset len ≡ some out)
      × (get_32value_from_buf out tmp offset len ≡ some (v % 2 ^ len))
      × ((j : ℕ) → (j < offset) ⊎ (offset + len ≤ j) → bit_at out j ≡ bit_at buf j)
get_32value-shifted_bytes buf tmp offset len v b t four pos small shape room =
    let value = shifted_bytes v len in
    let (out, writes, c) =
      cover_bit-IsCovered buf value offset len (shifted_bytes-IsBytes v len) pos (omega arith)
        (omega (arith, length-shifted_bytes v len)) shape (omega arith)
        (shifted_bytes-IsPadded v len (omega arith)) in
    let (r, reads, n) =
      get_32value_from_buf-IsNumber out tmp offset len (c.keeps_bytes b) t four pos (omega arith)
        (omega (arith, c.same_length)) in
    (
      out,
      writes,
      reads ∙ ap some (covered_number buf out offset len v r (omega arith) c n),
      λ j h. c.bits j ∙ ground arith,
    )
