-- ===== src/ByteOrder/Swap.antt =====
-- The macros reverse the bytes of a number, so two of them in a row give it back.
use pofswitch.Base.{
  ℕ, ◌+◌, ◌-◌, ◌*◌, ◌/◌, ◌%◌, ◌^◌, ◌<◌, ◌≤◌, ◌≡◌, refl, ◌∙◌, arith, bit, bit_and, bit_or, ◌<<◌,
  ◌>>◌, bit-bit_or, bit-bit_and, bit-shl, bit-shr, bits_ext_all, bit-lt, bit_above, ltb, leb, ◌&&◌,
  if◌then◌else◌, bit-mask, Bool-cases, inl, inr, lt→ltb,
}
use pofswitch.ByteOrder.{htons, htonl, hton64}

-- Bits `lo` to `lo + 7` of a number, moved.
masked :
    (x lo i : ℕ)
    → bit (bit_and x (0xff << lo)) i ≡ (if leb lo i && ltb i (lo + 8) then bit x i else 0)
masked x lo i =
    bit-bit_and i x (0xff << lo)
    ∙ ground (arith, bit-shl lo i 0xff, bit-mask 8 (i - lo), bit-lt i x)

moved_up :
    (x lo s i : ℕ)
    → bit (bit_and x (0xff << lo) << s) i
      ≡ (if leb (lo + s) i && ltb i (lo + s + 8) then bit x (i - s) else 0)
moved_up x lo s i = bit-shl s i (bit_and x (0xff << lo)) ∙ ground (arith, masked x lo (i - s))

moved_down :
    (x lo s i : ℕ)
    → bit (bit_and x (0xff << lo) >> s) i
      ≡ (if leb lo (i + s) && ltb (i + s) (lo + 8) then bit x (i + s) else 0)
moved_down x lo s i = bit-shr s i (bit_and x (0xff << lo)) ∙ masked x lo (i + s)

pub bit-htons :
    (x i : ℕ)
    → bit (htons x) i ≡ (if ltb i 8 then bit x (i + 8) else if ltb i 16 then bit x (i - 8) else 0)
unfolding htons
bit-htons x i = bit-bit_or i _ _ ∙ ground (arith, moved_up x 0 8 i, moved_down x 8 8 i)

pub bit-htonl :
    (x i : ℕ)
    → bit (htonl x) i ≡ (
        if ltb i 8
        then bit x (i + 24)
        else if ltb i 16
        then bit x (i + 8)
        else if ltb i 24
        then bit x (i - 8)
        else if ltb i 32
        then bit x (i - 24)
        else 0)
unfolding htonl
bit-htonl x i =
    rw (bit-bit_or, bit-bit_or, bit-bit_or)
      (ground
        (arith, moved_up x 0 24 i, moved_up x 8 8 i, moved_down x 16 8 i, moved_down x 24 24 i))

-- Two swaps of a number of 16 bits give it back.
pub htons-htons : (x : ℕ) → x < 2 ^ 16 → htons (htons x) ≡ x
htons-htons x h = bits_ext_all (htons (htons x)) x λ i.
    bit-htons (htons x) i
    ∙ ground (arith, bit-htons x (i + 8), bit-htons x (i - 8), bit_above 16 i x h)

pub htonl-htonl : (x : ℕ) → x < 2 ^ 32 → htonl (htonl x) ≡ x
htonl-htonl x h = bits_ext_all (htonl (htonl x)) x λ i.
    bit-htonl (htonl x) i
    ∙ ground (
      arith,
      bit-htonl x (i + 24),
      bit-htonl x (i + 8),
      bit-htonl x (i - 8),
      bit-htonl x (i - 24),
      bit_above 32 i x h,
    )

-- Bit `i` of a swapped number of 64 bits.
abbrev swapped : ℕ → ℕ → ℕ
swapped x i =
    if ltb i 8
    then bit x (i + 56)
    else if ltb i 16
    then bit x (i + 40)
    else if ltb i 24
    then bit x (i + 24)
    else if ltb i 32
    then bit x (i + 8)
    else if ltb i 40
    then bit x (i - 8)
    else if ltb i 48
    then bit x (i - 24)
    else if ltb i 56
    then bit x (i - 40)
    else if ltb i 64
    then bit x (i - 56)
    else 0

abbrev up_part : ℕ → ℕ
up_part x =
    bit_or
      (bit_or (bit_or (bit_and x 0x00000000000000ff << 56) (bit_and x 0x000000000000ff00 << 40))
        (bit_and x 0x0000000000ff0000 << 24))
      (bit_and x 0x00000000ff000000 << 8)

bit-up_part : (x i : ℕ) → bit (up_part x) i ≡ (if ltb i 32 then 0 else swapped x i)
bit-up_part x i =
    rw (bit-bit_or, bit-bit_or, bit-bit_or)
      (ground (arith, moved_up x 0 56 i, moved_up x 8 40 i, moved_up x 16 24 i, moved_up x 24 8 i))

high_part : (x i : ℕ) → 32 ≤ i → bit (hton64 x) i ≡ bit (up_part x) i
unfolding hton64
high_part x i h =
    rw
      (
        bit-bit_or i _ (bit_and x 0xff00000000000000 >> 56),
        bit-bit_or i _ (bit_and x 0x00ff000000000000 >> 40),
        bit-bit_or i _ (bit_and x 0x0000ff0000000000 >> 24),
        bit-bit_or i (up_part x) _,
      )
      (omega (
        arith,
        zeros x 32 8 i (omega arith),
        zeros x 40 24 i (omega arith),
        zeros x 48 40 i (omega arith),
        zeros x 56 56 i (omega arith),
      ))
  where
    zeros : (x lo s i : ℕ) → lo + 8 ≤ i + s → bit (bit_and x (0xff << lo) >> s) i ≡ 0
    zeros x lo s i h = moved_down x lo s i ∙ ground arith

low_part : (x i : ℕ) → i < 32 → bit (hton64 x) i ≡ swapped x i
unfolding hton64
low_part x i h =
    rw
      (
        bit-bit_or i _ (bit_and x 0xff00000000000000 >> 56),
        bit-bit_or i _ (bit_and x 0x00ff000000000000 >> 40),
        bit-bit_or i _ (bit_and x 0x0000ff0000000000 >> 24),
        bit-bit_or i (up_part x) _,
        bit-up_part x i,
        lt→ltb i 32 h,
      )
      (ground (
        arith,
        moved_down x 32 8 i,
        moved_down x 40 24 i,
        moved_down x 48 40 i,
        moved_down x 56 56 i,
      ))

pub bit-hton64 : (x i : ℕ) → bit (hton64 x) i ≡ swapped x i
bit-hton64 x i = elim (Bool-cases (ltb i 32)) [
  | inl e ↦ low_part x i (ground arith)
  | inr e ↦ high_part x i (ground arith) ∙ bit-up_part x i ∙ rw e refl
]

mirrored : (x i : ℕ) → swapped x i ≡ (if ltb i 64 then bit x (56 - 8 * (i / 8) + i % 8) else 0)
mirrored x i = ground arith

pub hton64-hton64 : (x : ℕ) → x < 2 ^ 64 → hton64 (hton64 x) ≡ x
hton64-hton64 x h = bits_ext_all (hton64 (hton64 x)) x λ i.
    let j = 56 - 8 * (i / 8) + i % 8 in
    bit-hton64 (hton64 x) i
    ∙ mirrored (hton64 x) i
    ∙ ground (arith, bit-hton64 x j, mirrored x j, bit_above 64 i x h)
