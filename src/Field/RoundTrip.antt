-- ===== src/Field/RoundTrip.antt =====
-- The two routines together: reading a field and writing it back, and writing it and reading it.
use pofswitch.Base.{
  ℕ, ◌+◌, ◌-◌, ◌*◌, ◌/◌, ◌%◌, ◌^◌, ◌≤◌, ◌<◌, ◌≡◌, ap, ◌∙◌, ◌⊎◌, List, some, arith, length,
}
use pofswitch.Field.{copy_bit, cover_bit}
use pofswitch.Field.Bits.{bit_at, IsBytes, bits_ext}
use pofswitch.Field.Copy.{copy_bit-IsField}
use pofswitch.Field.Cover.{cover_bit-IsCovered}
use pofswitch.Field.Cover.Bits.{IsPadded}

module _ (pos len : ℕ) (pos_len : 0 < len) (w : len < 2 ^ 16)
    (shape : (pos % 8 + len ≤ 8) ⊎ (8 ≤ len)) where
  -- A field within one byte, or of at least 8 bits, that is read from a packet of bytes that reaches
  -- a byte beyond it into a buffer that holds the shifted field, and then written back, leaves the
  -- packet as it was: what `pofbf_copy_bit` returns is padded as `pofbf_cover_bit` needs it.
  pub cover_bit-copy_bit :
      (src tmp : List ℕ)
      → IsBytes src
      → IsBytes tmp
      → pos / 8 + (len + 7) / 8 < length src
      → (len + 7) / 8 ≤ length tmp
      → pos % 8 + len ≤ 8 * length tmp
      → (field : List ℕ) × (copy_bit (some src) tmp pos len ≡ some field)
        × (cover_bit src field pos len ≡ some src)
  cover_bit-copy_bit src tmp src_bytes tmp_bytes in_src in_tmp room =
      let (field, reads, f) = copy_bit-IsField src tmp pos len src_bytes pos_len w in_src in_tmp in
      let (out, writes, c) =
        cover_bit-IsCovered src field pos len (f.keeps_bytes tmp_bytes) pos_len (omega arith)
          (omega (arith, f.same_length)) shape w f.padding in
      (
        field,
        reads,
        writes
            ∙ ap some (
                bits_ext out src c.same_length (c.keeps_bytes src_bytes) src_bytes
                  λ j. c.bits j ∙ ground (arith, f.field (j - pos))),
      )

  -- A field within one byte, or of at least 8 bits, that is written to a packet of bytes that reaches
  -- a byte beyond it, from a value of bytes that holds the shifted field and is zero behind the field
  -- up to a full byte, is read back: the bits of the result are those of the value.
  pub copy_bit-cover_bit :
      (ori value tmp : List ℕ)
      → IsBytes ori
      → IsBytes value
      → pos / 8 + (len + 7) / 8 < length ori
      → (len + 7) / 8 ≤ length tmp
      → pos % 8 + len ≤ 8 * length value
      → IsPadded value len
      → (mid out : List ℕ) × (cover_bit ori value pos len ≡ some mid)
        × (copy_bit (some mid) tmp pos len ≡ some out)
        × ((j : ℕ) → j < len → bit_at out j ≡ bit_at value j)
  copy_bit-cover_bit ori value tmp ori_bytes value_bytes in_ori in_tmp room padded =
      let (mid, writes, c) =
        cover_bit-IsCovered ori value pos len value_bytes pos_len (omega arith) room shape w
          padded in
      let (out, reads, f) =
        copy_bit-IsField mid tmp pos len (c.keeps_bytes ori_bytes) pos_len w
          (omega (arith, c.same_length)) in_tmp in
      (mid, out, writes, reads, λ j l. f.field j l ∙ c.bits (pos + j) ∙ ground arith)
