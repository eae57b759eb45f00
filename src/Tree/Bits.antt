-- ===== src/Tree/Bits.antt =====
-- `moveLeft` and `toLeft`: the walk reads the bits of the value in order.
use pofswitch.Base.{
  ℕ, zero, suc, ◌+◌, ◌-◌, ◌*◌, ◌/◌, ◌%◌, ◌≤◌, ◌<◌, ◌^◌, ◌≡◌, refl, ap, ◌∙◌, true, false, some, List,
  [], ◌∷◌, arith, length, get_or, ltb, ◌==◌, if◌then◌else◌, u8, bit, bit_or, bit_and, ◌<<◌, ◌>>◌,
  bit-lt, holds_below, holds_below-elim, ==_iff,
}
use pofswitch.Field.Bits.{bit_at, mbit, IsBytes, mbit-splice, mbit-shl, bit_at-eq-mbit}
use pofswitch.Tree.{bytes_to_move, move_bytes, move_left, to_left}

-- The bytes after a shift by one bit of the first `suc n` bytes.
abbrev shifted : ℕ → List ℕ → ℕ → ℕ
shifted n v i =
    if ltb i n
    then u8 (bit_or (get_or v i 0 << 1) (get_or v (i + 1) 0 >> 7))
    else if i == n
    then u8 (get_or v i 0 << 1)
    else get_or v i 0

record IsShifted (n : ℕ) (v out : List ℕ) : Type 0 where
  same_length : length out ≡ length v
  bytes : (i : ℕ) → get_or out i 0 ≡ shifted n v i

move_bytes-IsShifted :
    (n : ℕ) (v : List ℕ)
    → n < length v
    → (out : List ℕ) × (move_bytes (suc n) v ≡ some out) × IsShifted n v out
unfolding move_bytes
move_bytes-IsShifted n [] h = absurd (omega arith)
move_bytes-IsShifted zero (x ∷ xs) h =
    (u8 (x << 1) ∷ xs, refl, record { same_length = refl; bytes = λ i. first i })
  where
    first : (i : ℕ) → get_or (u8 (x << 1) ∷ xs) i 0 ≡ shifted 0 (x ∷ xs) i
    first zero = refl
    first (suc i) = ground arith
move_bytes-IsShifted (suc n) (x ∷ []) h = absurd (omega arith)
move_bytes-IsShifted (suc n) (x ∷ y ∷ xs) h =
    let (rest, runs, s) = move_bytes-IsShifted n (y ∷ xs) (omega arith) in
    (
      u8 (bit_or (x << 1) (y >> 7)) ∷ rest,
      rw runs refl,
      record { same_length = omega (arith, s.same_length); bytes = step rest s.bytes },
    )
  where
    step :
        (rest : List ℕ)
        → ((i : ℕ) → get_or rest i 0 ≡ shifted n (y ∷ xs) i)
        → (i : ℕ)
        → get_or (u8 (bit_or (x << 1) (y >> 7)) ∷ rest) i 0 ≡ shifted (suc n) (x ∷ y ∷ xs) i
    step rest b zero = ground arith
    step rest b (suc i) = b i ∙ ground arith

-- After `moveLeft` of a value of `suc n` bits the bits stand one place further to the front.
pub record IsMoved (n : ℕ) (v out : List ℕ) : Type 0 where
  pub same_length : length out ≡ length v
  pub keeps_bytes : IsBytes out
  pub bits : (j : ℕ) → j < n → bit_at out j ≡ bit_at v (suc j)

mbit-shifted :
    (n : ℕ) (v : List ℕ)
    → IsBytes v
    → (j : ℕ) → j < n
    → mbit (shifted (n / 8) v (j / 8)) (j % 8) ≡ bit_at v (suc j)
mbit-shifted n v bytes j l =
    let i = j / 8 in
    let r = j % 8 in
    ground (
      arith,
      mbit-splice (get_or v i 0) (get_or v (i + 1) 0) 1 7 r (bytes (i + 1)),
      mbit-shl (get_or v i 0) 1 r,
      bit_at-eq-mbit v (suc j) i (r + 1),
      bit_at-eq-mbit v (suc j) (i + 1) (r - 7),
    )

pub move_left-IsMoved :
    (n : ℕ) (v : List ℕ)
    → IsBytes v
    → suc n ≤ 8 * length v
    → suc n + 7 < 2 ^ 32
    → (out : List ℕ) × (move_left v (suc n) ≡ some out) × IsMoved n v out
move_left-IsMoved n v bytes h small =
    let (out, runs, s) = move_bytes-IsShifted (n / 8) v (omega arith) in
    (
      out,
      unfold move_left in rw (some_bits, fill) runs,
      record {
        same_length = s.same_length;
        keeps_bytes = λ i. ground (arith, s.bytes i, bytes i);
        bits = λ j l. ap (λ t. mbit t (j % 8)) (s.bytes (j / 8)) ∙ mbit-shifted n v bytes j l;
      },
    )
  where
    some_bits : (suc n == 0) ≡ false
    some_bits = ground arith

    fill : bytes_to_move (suc n) ≡ suc (n / 8)
    fill = ground arith

top_bit_table : holds_below (λ x. (bit_and x 0x80) == 0x80 * bit x 7) 256 ≡ true
unfolding holds_below bit
top_bit_table = refl

pub to_left-bit_at : (v : List ℕ) → IsBytes v → 0 < length v → to_left v ≡ some (bit_at v 0 == 0)
unfolding to_left
to_left-bit_at [] b h = absurd (omega arith)
to_left-bit_at (x ∷ xs) b h =
    let masked : bit_and x 0x80 ≡ 0x80 * bit x 7 =
      (==_iff _ _).0 (holds_below-elim _ 256 x top_bit_table (b 0)) in
    ground (arith, masked, bit-lt 7 x)
