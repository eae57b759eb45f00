-- ===== src/Field/Short.antt =====
-- The unsigned comparison of the middle loop: a short field that crosses a byte.
use pofswitch.Base.{
  ℕ, zero, suc, ◌+◌, ◌-◌, ◌*◌, ◌/◌, ◌%◌, ◌^◌, ◌≤◌, ◌<◌, ◌≡◌, refl, List, get_or, none, arith,
  length, set, leb-false, length-set, u8, u32, bit_or, bit_and, get_elem?-eq-get_or, get_elem?-none,
  ◌<<◌, ◌>>◌,
}
use pofswitch.Field.{store, cover_loop, cover_many, cover_bound, cover_bit}

module _ (value : List ℕ) (px bound : ℕ) (high : 2 ^ 32 ≤ bound + 8) where
  cover_loop-runs_away :
      (fuel : ℕ) (ori : List ℕ) (ptr k process : ℕ)
      → process ≤ 8 * ptr + 8
      → ptr < length ori
      → length ori < 2 ^ 28
      → cover_loop value px bound fuel ori ptr k process ≡ none
  unfolding cover_loop store
  cover_loop-runs_away zero ori ptr k process h p w = refl
  cover_loop-runs_away (suc fuel) ori ptr k process h p w =
      let new = u8 (bit_or (get_or value k 0 << (8 - px)) (get_or value (k + 1) 0 >> px)) in
      ground (
        arith,
        get_elem?-eq-get_or value k 0,
        get_elem?-none value k,
        get_elem?-eq-get_or value (k + 1) 0,
        get_elem?-none value (k + 1),
        length-set ori (ptr + 1) new,
        cover_loop-runs_away fuel (set ori (ptr + 1) new) (ptr + 1) (k + 1) (u32 (process + 8)),
      )

-- Known defect: `pofbf_cover_bit` compares `process_len_b < (len_b - 8)` as unsigned numbers. For
-- every field of 1 to 7 bits that crosses a byte boundary, in any buffer of less than 2 ^ 28
-- bytes, the middle loop writes on until it leaves the value or the buffer.
pub cover_bit-runs_away :
    (ori value : List ℕ) (pos len : ℕ)
    → len < 8
    → 8 < pos % 8 + len
    → length ori < 2 ^ 28
    → cover_bit ori value pos len ≡ none
unfolding cover_bit cover_many cover_bound store
cover_bit-runs_away ori value pos len short crosses w =
    let px = pos % 8 in
    let new =
      u8 (bit_or (bit_and (get_or ori (pos / 8) 0) (0xff << (8 - px))) (get_or value 0 0 >> px)) in
    rw (leb-false len (8 - pos % 8) (omega arith)) (
      ground (
        arith,
        get_elem?-eq-get_or ori (pos / 8) 0,
        get_elem?-none ori (pos / 8),
        get_elem?-eq-get_or value 0 0,
        get_elem?-none value 0,
        length-set ori (pos / 8) new,
        cover_loop-runs_away value px (u32 (len + 2 ^ 32 - 8)) (omega arith) (length ori)
            (set ori (pos / 8) new) (pos / 8) 0 (8 - px),
      ))
