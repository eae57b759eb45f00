-- ===== src/Flow/Entry.antt =====
-- `valueMaskAssemble` of local_resource/pof_flow_table.c, bit by bit.
use pofswitch.Base.{
  ℕ, zero, suc, ◌+◌, ◌-◌, ◌*◌, ◌%◌, ◌≤◌, ◌<◌, ◌≡◌, refl, sym, ap, ◌∙◌, ◌⊎◌, some, List, [], ◌∷◌,
  arith, length, ltb, leb, ◌==◌, ◌&&◌, if◌then◌else◌, u16,
}
use mathlib.Core.Path.{subst}
use pofswitch.Field.Bits.{bit_at, IsBytes}
use pofswitch.Field.Cover.{cover_bit-IsCovered}
use pofswitch.Field.Cover.Bits.{IsPadded}
use pofswitch.Flow.{MatchX, value_mask_loop, value_mask_assemble}

-- The bits of a buffer in which a part of each field is laid out from an offset on.
abbrev pub laid_fields : (MatchX → List ℕ) → ℕ → List MatchX → ℕ → (ℕ → ℕ) → ℕ → ℕ
laid_fields part zero match offset_b old j = old j
laid_fields part (suc n) [] offset_b old j = old j
laid_fields part (suc n) (m ∷ match) offset_b old j =
    laid_fields part n match (offset_b + m.field.len)
      (λ i.
        if leb offset_b i && ltb i (offset_b + m.field.len)
        then bit_at (part m) (i - offset_b)
        else old i)
      j

laid_fields_ext :
    (part : MatchX → List ℕ) (n : ℕ) (match : List MatchX) (offset_b : ℕ) (f g : ℕ → ℕ)
    → ((j : ℕ) → f j ≡ g j)
    → (j : ℕ) → laid_fields part n match offset_b f j ≡ laid_fields part n match offset_b g j
laid_fields_ext part zero match offset_b f g h j = h j
laid_fields_ext part (suc n) [] offset_b f g h j = h j
laid_fields_ext part (suc n) (m ∷ match) offset_b f g h j =
    laid_fields_ext part n match (offset_b + m.field.len) _ _ (λ i. ground (arith, h i)) j

-- A part of a field that `pofbf_cover_bit` can write at an offset.
abbrev pub Writable : List ℕ → ℕ → ℕ → Type 0
Writable part offset_b len =
    IsBytes part × (offset_b % 8 + len ≤ 8 * length part) × IsPadded part len

-- Each field is not empty, within one byte of the key or of at least 8 bits, its value and its mask
-- can be written, and the fields fit in the buffers.
abbrev pub FitFields : ℕ → ℕ → List MatchX → ℕ → Type 0
FitFields size zero match offset_b = offset_b ≤ 8 * size
FitFields size (suc n) [] offset_b = 1 ≤ 0
FitFields size (suc n) (m ∷ match) offset_b =
    (0 < m.field.len)
    × ((offset_b % 8 + m.field.len ≤ 8) ⊎ (8 ≤ m.field.len))
    × Writable m.value offset_b (m.field.len)
    × Writable m.mask offset_b (m.field.len)
    × (offset_b + m.field.len ≤ 8 * size)
    × FitFields size n match (offset_b + m.field.len)

abbrev pub lengths : ℕ → List MatchX → ℕ
lengths zero match = 0
lengths (suc n) [] = 0
lengths (suc n) (m ∷ match) = m.field.len + lengths n match

pub record IsAssembled (n : ℕ) (match : List MatchX) (offset_b : ℕ)
    (value mask value' mask' : List ℕ) : Type 0 where
  pub same_length : length value' ≡ length value
  pub values :
      (j : ℕ) → bit_at value' j ≡ laid_fields MatchX.value n match offset_b (bit_at value) j
  pub masks : (j : ℕ) → bit_at mask' j ≡ laid_fields MatchX.mask n match offset_b (bit_at mask) j

value_mask_loop-IsAssembled :
    (n : ℕ) (match : List MatchX) (value mask : List ℕ) (offset_b : ℕ)
    → length value ≤ 8191
    → length mask ≡ length value
    → FitFields (length value) n match offset_b
    → (value' mask' : List ℕ) × (value_mask_loop n match value (some mask) offset_b
        ≡ some (value', some mask', offset_b + lengths n match))
      × IsAssembled n match offset_b value mask value' mask'
unfolding value_mask_loop
value_mask_loop-IsAssembled zero match value mask offset_b w e f = (
  value,
  mask,
  ap (λ o. some (value, some mask, o)) (omega arith),
  record { same_length = refl; values = λ j. refl; masks = λ j. refl },
)
value_mask_loop-IsAssembled (suc n) [] value mask offset_b w e f = absurd (omega arith)
value_mask_loop-IsAssembled (suc n) (m ∷ match) value mask offset_b w e f =
    let (some_bits, shape, (vb, ve, vp), (mb, me, mp), room, rest_fits) = f in
    let (value1, writes, c) =
      cover_bit-IsCovered value m.value offset_b (m.field.len) vb some_bits room ve shape
        (omega arith) vp in
    let (mask1, masks, d) =
      cover_bit-IsCovered mask m.mask offset_b (m.field.len) mb some_bits (omega (arith, e)) me
        shape (omega arith) mp in
    let next : u16 (offset_b + m.field.len) ≡ offset_b + m.field.len = omega arith in
    let (value', mask', runs, a) =
      value_mask_loop-IsAssembled n match value1 mask1 (offset_b + m.field.len)
        (omega (arith, c.same_length)) (d.same_length ∙ e ∙ sym c.same_length)
        (subst (λ s. FitFields s n match (offset_b + m.field.len)) (sym c.same_length) rest_fits) in
    (
      value',
      mask',
      rw (writes, masks)
          (ap (value_mask_loop n match value1 (some mask1)) next
            ∙ runs
            ∙ ap (λ o. some (value', some mask', o)) {x = offset_b + m.field.len + lengths n match}
                {y = offset_b + (m.field.len + lengths n match)} (omega arith)),
      record {
        same_length = a.same_length ∙ c.same_length;
        values = λ j.
            a.values j
            ∙ laid_fields_ext MatchX.value n match (offset_b + m.field.len) (bit_at value1) _
                (λ i. c.bits i ∙ ground arith) j;
        masks = λ j.
            a.masks j
            ∙ laid_fields_ext MatchX.mask n match (offset_b + m.field.len) (bit_at mask1) _
                (λ i. d.bits i ∙ ground arith) j;
      },
    )

-- On a value and a mask of the same length, at most 8191 bytes, with fields that can be written and fit,
-- `valueMaskAssemble` makes no access out of range: the values of the fields stand one after the other
-- in the value, their masks in the mask, the other bits are as before, and it returns POF_OK exactly
-- if the lengths of the fields add up to that of the key.
pub value_mask_assemble-IsAssembled :
    (n : ℕ) (match : List MatchX) (value mask : List ℕ) (key_len : ℕ)
    → length value ≤ 8191
    → length mask ≡ length value
    → FitFields (length value) n match 0
    → (value' mask' : List ℕ) × (value_mask_assemble n match value (some mask) key_len
        ≡ some (value', some mask', lengths n match == key_len))
      × IsAssembled n match 0 value mask value' mask'
unfolding value_mask_assemble
value_mask_assemble-IsAssembled n match value mask key_len w e f =
    let (value', mask', runs, a) = value_mask_loop-IsAssembled n match value mask 0 w e f in
    (
      value',
      mask',
      rw runs (
          ap (λ o. some (value', some mask', o == key_len)) {x = 0 + lengths n match}
            {y = lengths n match} (omega arith)),
      a,
    )
