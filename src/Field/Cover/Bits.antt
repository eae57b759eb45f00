-- ===== src/Field/Cover/Bits.antt =====
-- The bytes that `pofbf_cover_bit` writes, bit by bit against the field that they should hold.
use pofswitch.Base.{
  ℕ, ◌+◌, ◌-◌, ◌*◌, ◌/◌, ◌%◌, ◌≤◌, ◌<◌, ◌≡◌, ◌∙◌, List, arith, get_or, ltb, leb, ◌&&◌,
  if◌then◌else◌, u8, bit_or, bit_and, ◌<<◌, ◌>>◌, ◌⊎◌,
}
use pofswitch.Field.Bits.{
  bit_at, mbit, IsBytes, mbit-splice, mbit-mask_high, mbit-mask_low, mbit-u8, mbit-or, mbit-shr,
  mbit-shl, bit_at-eq-mbit,
}

-- Bit `j` of the data with the field `[pos, pos + len)` replaced by the value.
abbrev pub covered : List ℕ → List ℕ → ℕ → ℕ → ℕ → ℕ
covered ori value pos len j =
    if leb pos j && ltb j (pos + len) then bit_at value (j - pos) else bit_at ori j

-- The bits behind the field are zero up to a full byte.
abbrev pub IsPadded : List ℕ → ℕ → Type 0
IsPadded value len = (j : ℕ) → len ≤ j → j / 8 < (len + 7) / 8 → bit_at value j ≡ 0

abbrev pub one_byte : ℕ → ℕ → ℕ → ℕ → ℕ
one_byte p v px after = u8 (
    bit_or (bit_or (bit_and p (0xff << (8 - px))) (bit_and (v >> px) (0xff << (8 - after))))
      (bit_and p (0xff >> after)))

abbrev pub first_byte : ℕ → ℕ → ℕ → ℕ
first_byte p v px = u8 (bit_or (bit_and p (0xff << (8 - px))) (v >> px))

abbrev pub middle_byte : ℕ → ℕ → ℕ → ℕ
middle_byte a b px = u8 (bit_or (a << (8 - px)) (b >> px))

abbrev pub last_byte : ℕ → ℕ → ℕ → ℕ → ℕ → ℕ
last_byte p a b px left = u8 (
    bit_or (bit_or (a << (8 - px)) (bit_and (b >> px) (0xff << (8 - left))))
      (bit_and p (0xff >> left)))

module _ (ori value : List ℕ) (pos len : ℕ) (value_bytes : IsBytes value) where
  pub mbit-one_byte :
      (r : ℕ)
      → r < 8
      → pos % 8 + len ≤ 8
      → mbit (one_byte (get_or ori (pos / 8) 0) (get_or value 0 0) (pos % 8) (pos % 8 + len)) r
        ≡ covered ori value pos len (8 * (pos / 8) + r)
  mbit-one_byte r h fits =
      let p = get_or ori (pos / 8) 0 in
      let v = get_or value 0 0 in
      let px = pos % 8 in
      let after = px + len in
      let high = bit_and p (0xff << (8 - px)) in
      let mid = bit_and (v >> px) (0xff << (8 - after)) in
      mbit-u8 _ r
      ∙ mbit-or (bit_or high mid) (bit_and p (0xff >> after)) r
      ∙ ground (
        arith,
        mbit-or high mid r,
        mbit-mask_high p (8 - px) r,
        mbit-mask_high (v >> px) (8 - after) r,
        mbit-shr v px r (value_bytes 0) h,
        mbit-mask_low p after r h,
        bit_at-eq-mbit ori (8 * (pos / 8) + r) (pos / 8) r h,
        bit_at-eq-mbit value (8 * (pos / 8) + r - pos) 0 (r - px),
      )

  pub mbit-first_byte :
      (r : ℕ)
      → r < 8
      → 8 < pos % 8 + len
      → mbit (first_byte (get_or ori (pos / 8) 0) (get_or value 0 0) (pos % 8)) r
        ≡ covered ori value pos len (8 * (pos / 8) + r)
  mbit-first_byte r h wide =
      let p = get_or ori (pos / 8) 0 in
      let v = get_or value 0 0 in
      let px = pos % 8 in
      mbit-u8 _ r
      ∙ mbit-or (bit_and p (0xff << (8 - px))) (v >> px) r
      ∙ ground (
        arith,
        mbit-mask_high p (8 - px) r,
        mbit-shr v px r (value_bytes 0) h,
        bit_at-eq-mbit ori (8 * (pos / 8) + r) (pos / 8) r h,
        bit_at-eq-mbit value (8 * (pos / 8) + r - pos) 0 (r - px),
      )

  pub mbit-middle_byte :
      (i r : ℕ)
      → r < 8
      → 8 * (i + 2) ≤ pos % 8 + len
      → mbit (middle_byte (get_or value i 0) (get_or value (i + 1) 0) (pos % 8)) r
        ≡ covered ori value pos len (8 * (pos / 8 + i + 1) + r)
  mbit-middle_byte i r h inside =
      let px = pos % 8 in
      let j = 8 * (pos / 8 + i + 1) + r in
      mbit-splice (get_or value i 0) (get_or value (i + 1) 0) (8 - px) px r (value_bytes (i + 1))
        (omega arith) h
      ∙ ground (
        arith,
        bit_at-eq-mbit value (j - pos) i (8 - px + r),
        bit_at-eq-mbit value (j - pos) (i + 1) (r - px),
      )

  pub mbit-last_byte :
      (i r : ℕ)
      → r < 8
      → 8 * (i + 1) < pos % 8 + len
      → pos % 8 + len ≤ 8 * (i + 2)
      → IsPadded value len
      → mbit
          (last_byte
            (get_or ori (pos / 8 + i + 1) 0)
            (get_or value i 0)
            (get_or value (i + 1) 0)
            (pos % 8)
            (pos % 8 + len - 8 * (i + 1)))
          r
        ≡ covered ori value pos len (8 * (pos / 8 + i + 1) + r)
  mbit-last_byte i r h low high padded =
      let px = pos % 8 in
      let left = px + len - 8 * (i + 1) in
      let j = 8 * (pos / 8 + i + 1) + r in
      let p = get_or ori (pos / 8 + i + 1) 0 in
      let a = get_or value i 0 in
      let b = get_or value (i + 1) 0 in
      let mid = bit_and (b >> px) (0xff << (8 - left)) in
      mbit-u8 _ r
      ∙ mbit-or (bit_or (a << (8 - px)) mid) (bit_and p (0xff >> left)) r
      ∙ ground (
        arith,
        mbit-or (a << (8 - px)) mid r,
        mbit-u8 (a << (8 - px)) r,
        mbit-shl a (8 - px) r,
        mbit-mask_high (b >> px) (8 - left) r,
        mbit-shr b px r (value_bytes (i + 1)) h,
        mbit-mask_low p left r h,
        bit_at-eq-mbit ori j (pos / 8 + i + 1) r h,
        bit_at-eq-mbit value (j - pos) i (8 - px + r),
        bit_at-eq-mbit value (j - pos) (i + 1) (r - px),
        padded (8 * i + (8 - px + r)),
        bit_at-eq-mbit value (8 * i + (8 - px + r)) i (8 - px + r),
      )

  pub covered_outside :
      (i r : ℕ)
      → r < 8
      → (i < pos / 8) ⊎ (pos + len ≤ 8 * i)
      → mbit (get_or ori i 0) r ≡ covered ori value pos len (8 * i + r)
  covered_outside i r h out = ground (arith, bit_at-eq-mbit ori (8 * i + r) i r h)
