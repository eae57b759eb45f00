-- ===== src/Flow/Key.antt =====
-- `keyAssemble` of local_resource/pof_flow_table.c, bit by bit.
use pofswitch.Base.{
  ℕ, zero, suc, ◌+◌, ◌-◌, ◌*◌, ◌/◌, ◌%◌, ◌≤◌, ◌<◌, ◌⊎◌, List, [], ◌∷◌, length, ltb, leb, ◌&&◌,
  if◌then◌else◌, ◌==◌,
}
use pofswitch.Field.Bits.{bit_at}
use pofswitch.Flow.{Match}

-- The bits that a field is about: those of the metadata if its identifier is 0xffff, else those of
-- the packet.
abbrev pub field_bit : List ℕ → List ℕ → Match → ℕ → ℕ
field_bit packet metadata m j = if m.field_id == 0xffff then bit_at metadata j else bit_at packet j

-- The bits of a buffer in which the fields are laid out from an offset on.
abbrev pub laid : List ℕ → List ℕ → ℕ → List Match → ℕ → (ℕ → ℕ) → ℕ → ℕ
laid packet metadata zero match offset_b old j = old j
laid packet metadata (suc n) [] offset_b old j = old j
laid packet metadata (suc n) (m ∷ match) offset_b old j =
    laid packet metadata n match (offset_b + m.len)
      (λ i.
        if leb offset_b i && ltb i (offset_b + m.len)
        then field_bit packet metadata m (m.offset + (i - offset_b))
        else old i)
      j

-- Each field is not empty, within one byte of the key or of at least 8 bits, no longer than the
-- buffer of 16 bytes that it passes through, and a byte short of the end of its packet, and the fields
-- fit in the key.
abbrev pub Fits : List ℕ → List ℕ → ℕ → ℕ → List Match → ℕ → Type 0
Fits packet metadata size zero match offset_b = offset_b ≤ 8 * size
Fits packet metadata size (suc n) [] offset_b = 1 ≤ 0
Fits packet metadata size (suc n) (m ∷ match) offset_b =
    (0 < m.len)
    × (offset_b % 8 + m.len ≤ 128)
    × ((offset_b % 8 + m.len ≤ 8) ⊎ (8 ≤ m.len))
    × (m.offset / 8 + (m.len + 7) / 8
        < (if m.field_id == 0xffff then length metadata else length packet))
    × (offset_b + m.len ≤ 8 * size)
    × Fits packet metadata size n match (offset_b + m.len)
