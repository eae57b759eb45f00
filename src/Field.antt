-- ===== src/Field.antt =====
-- common/pof_basefunc.c, the two routines on which protocol oblivious matching stands: a field of
-- a packet is any run of bits, counted from the most significant bit of the first byte.
-- A buffer is the list of its bytes; `none` is an access outside of a buffer. The operands of `|`
-- are read from left to right, as the two accesses around `++` intend.
pub mod Bits
pub mod Copy
pub mod Cover
pub mod RoundTrip
pub mod Short
pub mod Keep
mod Tests
use pofswitch.Base.{
  ℕ, zero, suc, ◌+◌, ◌-◌, ◌*◌, ◌/◌, ◌%◌, ◌^◌, Bool, true, false, Option, none, some, List, ltb, leb,
  ◌==◌, if◌then◌else◌, ◌>>=◌, length, get_elem?, set, u8, u16, u32, ◌<<◌, ◌>>◌, bit_and, bit_or,
}

-- `*(p + i) = v` for an array of bytes.
unfoldable pub store : List ℕ → ℕ → ℕ → Option (List ℕ)
store xs i v = if ltb i (length xs) then some (set xs i (u8 v)) else none

-- The loop of `pofbf_copy_bit`: `ptr` and `k` index the source and the result.
module _ (src : List ℕ) (offset_b_x len_b : ℕ) where
  unfoldable pub copy_loop : ℕ → ℕ → List ℕ → ℕ → ℕ → Option (List ℕ × ℕ × ℕ)
  copy_loop zero ptr res k process_len_b = none
  copy_loop (suc fuel) ptr res k process_len_b = elim (ltb process_len_b len_b) [
    | true ↦ do
      a ← get_elem? src ptr
      b ← get_elem? src (ptr + 1)
      res' ← store res k (bit_or (a << offset_b_x) (b >> (8 - offset_b_x)))
      copy_loop fuel (ptr + 1) res' (k + 1) (u32 (process_len_b + 8))
    | false ↦ some (res, k, process_len_b)
  ]

-- After the loop `data_res` steps back to the last byte written and masks it.
unfoldable pub copy_tail : ℕ → List ℕ × ℕ × ℕ → Option (List ℕ)
copy_tail len_b (res, zero, process_len_b) = none
copy_tail len_b (res, suc k, process_len_b) = do
  last ← get_elem? res k
  store res k (bit_and last (0xff << (process_len_b - len_b)))

-- `none` for the source is the NULL that the guard tests.
unfoldable pub copy_bit : Option (List ℕ) → List ℕ → ℕ → ℕ → Option (List ℕ)
unfolding copy_tail
copy_bit none res offset_b len_b = some res
copy_bit (some src) res offset_b len_b =
    copy_loop src (offset_b % 8) len_b (suc len_b) (offset_b / 8) res 0 0 >>= copy_tail len_b

-- `(len_b + pos_b - 1) % 8 + 1` in `int`: the remainder of -1 is -1.
pub after_len : ℕ → ℕ → ℕ
after_len pos_b len_b = if len_b + pos_b == 0 then 0 else (len_b + pos_b - 1) % 8 + 1

pub cover_one : List ℕ → List ℕ → ℕ → ℕ → Option (List ℕ)
unfolding after_len
cover_one ori value pos_b len_b =
    let pos_b_x = pos_b % 8 in
    let after = after_len pos_b len_b in
    do
      p ← get_elem? ori (pos_b / 8)
      v ← get_elem? value 0
      store ori (pos_b / 8) (
          bit_or
            (bit_or (bit_and p (0xff << (8 - pos_b_x)))
              (bit_and (v >> pos_b_x) (0xff << (8 - after))))
            (bit_and p (0xff >> after)))

-- `process_len_b < (len_b - 8)` compares in `uint32_t`, so the bound wraps for a short field.
pub cover_bound : ℕ → ℕ
cover_bound len_b = u32 (len_b + 2 ^ 32 - 8)

-- The middle loop of `pofbf_cover_bit`: `ptr` and `k` index the data and the value.
module _ (value : List ℕ) (pos_b_x bound : ℕ) where
  pub cover_loop : ℕ → List ℕ → ℕ → ℕ → ℕ → Option (List ℕ × ℕ × ℕ × ℕ)
  cover_loop zero ori ptr k process_len_b = none
  cover_loop (suc fuel) ori ptr k process_len_b = elim (ltb process_len_b bound) [
    | true ↦ do
      a ← get_elem? value k
      b ← get_elem? value (k + 1)
      ori' ← store ori (ptr + 1) (bit_or (a << (8 - pos_b_x)) (b >> pos_b_x))
      cover_loop fuel ori' (ptr + 1) (k + 1) (u32 (process_len_b + 8))
    | false ↦ some (ori, ptr, k, process_len_b)
  ]

-- The last byte. `&` binds more tightly than `|`, so the mask does not reach the first operand.
pub cover_tail : List ℕ → ℕ → ℕ → List ℕ × ℕ × ℕ × ℕ → Option (List ℕ)
cover_tail value pos_b_x len_b (ori, ptr, k, process_len_b) =
    let left = u32 (len_b + 2 ^ 32 - process_len_b) in
    do
      a ← get_elem? value k
      b ← get_elem? value (k + 1)
      p ← get_elem? ori (ptr + 1)
      store ori (ptr + 1) (
          bit_or (bit_or (a << (8 - pos_b_x)) (bit_and (b >> pos_b_x) (0xff << (8 - left))))
            (bit_and p (0xff >> left)))

pub cover_many : List ℕ → List ℕ → ℕ → ℕ → Option (List ℕ)
unfolding cover_tail cover_bound
cover_many ori value pos_b len_b =
    let pos_b_x = pos_b % 8 in
    do
      p ← get_elem? ori (pos_b / 8)
      v ← get_elem? value 0
      ori' ← store ori (pos_b / 8) (bit_or (bit_and p (0xff << (8 - pos_b_x))) (v >> pos_b_x))
      r ← cover_loop value pos_b_x (cover_bound len_b) (length ori) ori' (pos_b / 8) 0 (8 - pos_b_x)
      cover_tail value pos_b_x len_b r

unfoldable pub cover_bit : List ℕ → List ℕ → ℕ → ℕ → Option (List ℕ)
unfolding cover_one cover_many
cover_bit ori value pos_b len_b =
    if leb len_b (8 - pos_b % 8)
    then cover_one ori value pos_b len_b
    else cover_many ori value pos_b len_b
