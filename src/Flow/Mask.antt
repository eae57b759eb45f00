-- ===== src/Flow/Mask.antt =====
-- `maskMatch` and `get1sCountInBytes` of local_resource/pof_flow_table.c, bit by bit.
use pofswitch.Base.{
  ℕ, zero, suc, ◌+◌, ◌-◌, ◌*◌, ◌/◌, ◌%◌, ◌^◌, ◌≤◌, ◌<◌, ◌≡◌, refl, sym, ap, ◌∙◌, ◌↔◌, inl, inr,
  Bool, true, false, Option, none, some, List, [], ◌∷◌, arith, length, ◌==◌, ==_iff, ltb,
  Bool-cases, u32, bit, bit-lt, bit-bit_and, bits_ext_all, bit_and, holds_below, holds_below-elim,
  min,
}
use mathlib.Core.Path.{subst}
use pofswitch.Field.Bits.{bit_at, mbit, IsBytes, bit_at-eq-mbit, bit-byte_above}
use pofswitch.Flow.{
  mask_match_bytes, mask_match, bytes_of_bits, count_ones, get_1s_count_in_byte,
  get_1s_count_in_bytes,
}

false-true : ¬ (false ≡ true)
false-true e = cc

bit_at-head : (x : ℕ) (xs : List ℕ) (j : ℕ) → j < 8 → bit_at (x ∷ xs) j ≡ mbit x j
bit_at-head x xs j l = bit_at-eq-mbit (x ∷ xs) j 0 j l (omega arith)

bit_at-tail : (x : ℕ) (xs : List ℕ) (j : ℕ) → bit_at (x ∷ xs) (8 + j) ≡ bit_at xs j
bit_at-tail x xs j =
    bit_at-eq-mbit (x ∷ xs) (8 + j) (suc (j / 8)) (j % 8) (omega arith) (omega arith)

bit_at-past : (x : ℕ) (xs : List ℕ) (j : ℕ) → 8 ≤ j → bit_at (x ∷ xs) j ≡ bit_at xs (j - 8)
bit_at-past x xs j h =
    ap (bit_at (x ∷ xs)) {x = j} {y = 8 + (j - 8)} (omega arith) ∙ bit_at-tail x xs (j - 8)

-- The bits of the key and of the value are the same wherever the mask has a one.
abbrev pub Agree : ℕ → List ℕ → List ℕ → List ℕ → Type 0
Agree n mask value key = (j : ℕ) → j < 8 * n → bit_at mask j ≡ 1 → bit_at key j ≡ bit_at value j

abbrev AgreeByte : ℕ → ℕ → ℕ → Type 0
AgreeByte m v k = (r : ℕ) → r < 8 → mbit m r ≡ 1 → mbit k r ≡ mbit v r

bit_and-AgreeByte : (m v k : ℕ) → m < 256 → (bit_and m k ≡ bit_and m v) ↔ AgreeByte m v k
bit_and-AgreeByte m v k h = (
  (λ e r l one. omega (
    arith,
    sym (bit-bit_and (7 - r) m k) ∙ ap (λ t. bit t (7 - r)) e ∙ bit-bit_and (7 - r) m v,
    bit-lt (7 - r) k,
    bit-lt (7 - r) v,
    one,
  )),
  (λ a.
      bits_ext_all (bit_and m k) (bit_and m v)
        (λ i. bit-bit_and i m k ∙ same i (a (7 - i)) ∙ sym (bit-bit_and i m v))),
)
  where
    same :
        (i : ℕ)
        → (7 - i < 8 → mbit m (7 - i) ≡ 1 → mbit k (7 - i) ≡ mbit v (7 - i))
        → min (bit m i) (bit k i) ≡ min (bit m i) (bit v i)
    same i a = elim (Bool-cases (ltb i 8)) [
      | inl e ↦
          let back : 7 - (7 - i) ≡ i = ground arith in
          let here = subst (λ t. bit m t ≡ 1 → bit k t ≡ bit v t) back (a (omega arith)) in
          ground (arith, here, bit-lt i m, bit-lt i k, bit-lt i v)
      | inr e ↦ omega (arith, bit-byte_above m i h (ground arith))
    ]

Agree-cons :
    (n m v k : ℕ) (mask value key : List ℕ)
    → Agree (suc n) (m ∷ mask) (v ∷ value) (k ∷ key) ↔ (AgreeByte m v k × Agree n mask value key)
Agree-cons n m v k mask value key = (
  (λ a. (
    (λ r l one.
        sym (bit_at-head k key r l)
        ∙ a r (omega arith) (bit_at-head m mask r l ∙ one)
        ∙ bit_at-head v value r l),
    (λ j l one.
        sym (bit_at-tail k key j)
        ∙ a (8 + j) (omega arith) (bit_at-tail m mask j ∙ one)
        ∙ bit_at-tail v value j),
  )),
  (λ (head, tail) j l one. elim (Bool-cases (ltb j 8)) [
    | inl e ↦
        let low : j < 8 = ground arith in
        bit_at-head k key j low
        ∙ head j low (sym (bit_at-head m mask j low) ∙ one)
        ∙ sym (bit_at-head v value j low)
    | inr e ↦
        let high : 8 ≤ j = ground arith in
        bit_at-past k key j high
        ∙ tail (j - 8) (omega arith) (sym (bit_at-past m mask j high) ∙ one)
        ∙ sym (bit_at-past v value j high)
  ]),
)

mask_match_bytes-Agree :
    (n : ℕ) (mask value key : List ℕ)
    → IsBytes mask
    → n ≤ length mask
    → n ≤ length value
    → n ≤ length key
    → (b : Bool) × (mask_match_bytes n mask value key ≡ some b)
      × ((b ≡ true) ↔ Agree n mask value key)
unfolding mask_match_bytes
mask_match_bytes-Agree zero mask value key w a b c =
    (true, refl, ((λ e j l one. absurd (omega arith)), λ h. refl))
mask_match_bytes-Agree (suc n) [] value key w a b c = absurd (omega arith)
mask_match_bytes-Agree (suc n) (m ∷ mask) [] key w a b c = absurd (omega arith)
mask_match_bytes-Agree (suc n) (m ∷ mask) (v ∷ value) [] w a b c = absurd (omega arith)
mask_match_bytes-Agree (suc n) (m ∷ mask) (v ∷ value) (k ∷ key) w a b c =
    let (b', runs, (to, from)) =
      mask_match_bytes-Agree n mask value key (λ i. w (suc i)) (omega arith) (omega arith)
        (omega arith) in
    let (split, join) = Agree-cons n m v k mask value key in
    let (bits, bytes) = bit_and-AgreeByte m v k (w 0) in
    elim (Bool-cases (bit_and m k == bit_and m v)) [
      | inl e ↦
          (b', rw e runs, ((λ t. join (bits ((==_iff _ _).0 e), to t)), λ h. from ((split h).1)))
      | inr e ↦ (
        false,
        rw e refl,
        (
          (λ t. absurd (false-true t)),
          λ h. absurd (false-true (sym e ∙ (==_iff _ _).1 (bytes ((split h).0)))),
        ),
      )
    ]

-- With a mask of bytes, and buffers that hold the key, `maskMatch` reads in bounds, and tells
-- whether the key and the value have the same bits wherever the mask has a one, in all the bytes that
-- the key reaches into.
pub mask_match-Agree :
    (mask value key : List ℕ) (len_b : ℕ)
    → IsBytes mask
    → bytes_of_bits len_b ≤ length mask
    → bytes_of_bits len_b ≤ length value
    → bytes_of_bits len_b ≤ length key
    → (b : Bool) × (mask_match mask value key len_b ≡ some b)
      × ((b ≡ true) ↔ Agree (bytes_of_bits len_b) mask value key)
unfolding mask_match
mask_match-Agree mask value key len_b = mask_match_bytes-Agree (bytes_of_bits len_b) mask value key

-- The number of ones of a byte, and of the first bytes of a buffer.
abbrev pub ones : ℕ → ℕ
ones x = bit x 0 + bit x 1 + bit x 2 + bit x 3 + bit x 4 + bit x 5 + bit x 6 + bit x 7

ones_le : (x : ℕ) → ones x ≤ 8
ones_le x = omega (
  arith,
  bit-lt 0 x,
  bit-lt 1 x,
  bit-lt 2 x,
  bit-lt 3 x,
  bit-lt 4 x,
  bit-lt 5 x,
  bit-lt 6 x,
  bit-lt 7 x,
)

abbrev pub ones_in : ℕ → List ℕ → ℕ
ones_in zero value = 0
ones_in (suc n) [] = 0
ones_in (suc n) (x ∷ value) = ones x + ones_in n value

abbrev counts_ones : ℕ → Bool
counts_ones x = elim (get_1s_count_in_byte x) [ none ↦ false | some c ↦ c == ones x ]

counts_ones_table : holds_below counts_ones 256 ≡ true
unfolding holds_below get_1s_count_in_byte count_ones bit
counts_ones_table = refl

get_1s_count_in_byte-ones : (x : ℕ) → x < 256 → get_1s_count_in_byte x ≡ some (ones x)
get_1s_count_in_byte-ones x l =
    counted (get_1s_count_in_byte x) (holds_below-elim counts_ones 256 x counts_ones_table l)
  where
    counted :
        (o : Option ℕ) → elim o [ none ↦ false | some c ↦ c == ones x ] ≡ true → o ≡ some (ones x)
    counted none e = absurd (false-true e)
    counted (some c) e = ap some ((==_iff c (ones x)).0 e)

-- On a buffer of bytes that holds them, `get1sCountInBytes` ends, and adds up the ones of the first
-- bytes, where the count stays below 2 ^ 32.
pub get_1s_count_in_bytes-ones_in :
    (n : ℕ) (value : List ℕ) (count : ℕ)
    → IsBytes value
    → n ≤ length value
    → count + 8 * n < 2 ^ 32
    → get_1s_count_in_bytes n value count ≡ some (count + ones_in n value)
unfolding get_1s_count_in_bytes
get_1s_count_in_bytes-ones_in zero value count b h w = ap some (omega arith)
get_1s_count_in_bytes-ones_in (suc n) [] count b h w = absurd (omega arith)
get_1s_count_in_bytes-ones_in (suc n) (x ∷ value) count b h w =
    rw (get_1s_count_in_byte-ones x (b 0)) (
      get_1s_count_in_bytes-ones_in n value (u32 (count + ones x)) (λ i. b (suc i)) (omega arith)
        (omega (arith, ones_le x))
      ∙ ap some (omega (arith, ones_le x)))
