-- ===== src/ByteOrder/Number.antt =====
-- A number of 32 bits in memory: the bits of a loaded number, and the number that its bytes give.
use pofswitch.Base.{
  ℕ, zero, suc, ◌+◌, ◌-◌, ◌*◌, ◌/◌, ◌%◌, ◌^◌, ◌<◌, ◌≡◌, refl, sym, ap, ◌∙◌, arith, bit, List,
  get_or, bit-shr, bit-mod, ltb, if◌then◌else◌, Bool-cases, inl, inr, false, two-pow_pos,
}
use native.Mathlib.Nat.{add-mul-mod_self_left, mod-eq_of_lt, add-mul-div_left, div-eq_of_lt}
use pofswitch.Field.Bits.{bit_at, mbit, IsBytes}
use pofswitch.ByteOrder.{htonl, byte, load32, bytes32}
use pofswitch.ByteOrder.Swap.{bit-htonl}

bit-add :
    (k a b i : ℕ) → a < 2 ^ k → bit (a + 2 ^ k * b) i ≡ (if ltb i k then bit a i else bit b (i - k))
bit-add k a b i h = elim (Bool-cases (ltb i k)) [
  | inl e ↦ rw e (
      ground (
        arith,
        bit-mod k i (a + 2 ^ k * b),
        ap (λ t. bit t i) (add-mul-mod_self_left a (2 ^ k) b ∙ mod-eq_of_lt h),
      ))
  | inr e ↦ rw e (
      ap (λ t. bit (a + 2 ^ k * b) t) (shifted e)
      ∙ sym (bit-shr k (i - k) (a + 2 ^ k * b))
      ∙ ap (λ t. bit t (i - k))
          (add-mul-div_left a b (two-pow_pos k)
            ∙ ap (λ (t : ℕ). t + b) (div-eq_of_lt h)
            ∙ omega arith))
]
  where
    shifted : ltb i k ≡ false → i ≡ i - k + k
    shifted e = ground arith

-- Bit `r` of byte `q` of a loaded number.
pub bit-load32 :
    (p : List ℕ)
    → IsBytes p
    → (q r : ℕ) → q < 4
    → r < 8
    → bit (load32 p 0) (8 * q + r) ≡ bit (get_or p q 0) r
unfolding load32
bit-load32 p bytes q r h l = ap (λ t. bit t (8 * q + r)) nested ∙ go q h
  where
    b : ℕ → ℕ
    b i = get_or p i 0

    nested : load32 p 0 ≡ b 0 + 2 ^ 8 * (b 1 + 2 ^ 8 * (b 2 + 2 ^ 8 * b 3))
    nested = omega arith

    low : (a n i : ℕ) → a < 256 → i ≡ r → bit (a + 2 ^ 8 * n) i ≡ bit a r
    low a n i h e = bit-add 8 a n i h ∙ ground arith

    high : (a n i j : ℕ) → a < 256 → i ≡ 8 + j → bit (a + 2 ^ 8 * n) i ≡ bit n j
    high a n i j h e = bit-add 8 a n i h ∙ ground arith

    go :
        (q : ℕ)
        → q < 4
        → bit (b 0 + 2 ^ 8 * (b 1 + 2 ^ 8 * (b 2 + 2 ^ 8 * b 3))) (8 * q + r) ≡ bit (b q) r
    go zero h = low (b 0) _ (8 * 0 + r) (bytes 0) (omega arith)
    go (suc zero) h =
        high (b 0) _ (8 * 1 + r) r (bytes 0) (omega arith) ∙ low (b 1) _ r (bytes 1) refl
    go (suc (suc zero)) h =
        high (b 0) _ (8 * 2 + r) (8 + r) (bytes 0) (omega arith)
        ∙ high (b 1) _ (8 + r) r (bytes 1) refl
        ∙ low (b 2) _ r (bytes 2) refl
    go (suc (suc (suc zero))) h =
        high (b 0) _ (8 * 3 + r) (16 + r) (bytes 0) (omega arith)
        ∙ high (b 1) _ (16 + r) (8 + r) (bytes 1) (omega arith)
        ∙ high (b 2) _ (8 + r) r (bytes 2) refl
    go (suc (suc (suc (suc q)))) h = absurd (omega arith)

-- Bit `j`, counted from the first, of four bytes in memory is that of the number that they are on
-- the network.
pub bit-htonl-load32 :
    (p : List ℕ) → IsBytes p → (j : ℕ) → j < 32 → bit (htonl (load32 p 0)) (31 - j) ≡ bit_at p j
bit-htonl-load32 p bytes j h =
    bit-htonl (load32 p 0) (31 - j)
    ∙ ground (arith, bit-load32 p bytes (j / 8) (7 - j % 8) (omega arith) (omega arith))

pub bit-byte : (x q r : ℕ) → r < 8 → bit (byte x q) r ≡ bit x (8 * q + r)
bit-byte x q r h = bit-mod 8 r (x / 2 ^ (8 * q)) ∙ ground (arith, bit-shr (8 * q) r x)

pub bytes32-IsBytes : (x : ℕ) → IsBytes (bytes32 x)
unfolding bytes32
bytes32-IsBytes x zero = omega arith
bytes32-IsBytes x (suc zero) = omega arith
bytes32-IsBytes x (suc (suc zero)) = omega arith
bytes32-IsBytes x (suc (suc (suc zero))) = omega arith
bytes32-IsBytes x (suc (suc (suc (suc i)))) = omega arith

get_or-bytes32 : (x q : ℕ) → q < 4 → get_or (bytes32 x) q 0 ≡ byte x q
unfolding bytes32
get_or-bytes32 x zero h = refl
get_or-bytes32 x (suc zero) h = refl
get_or-bytes32 x (suc (suc zero)) h = refl
get_or-bytes32 x (suc (suc (suc zero))) h = refl
get_or-bytes32 x (suc (suc (suc (suc q)))) h = absurd (omega arith)

-- The bytes that a swapped number leaves in memory show its bits from the highest one on.
pub bit_at-bytes32 : (x j : ℕ) → j < 32 → bit_at (bytes32 (htonl x)) j ≡ bit x (31 - j)
bit_at-bytes32 x j h =
    ap (λ t. mbit t (j % 8)) (get_or-bytes32 (htonl x) (j / 8) (omega arith))
    ∙ bit-byte (htonl x) (j / 8) (7 - j % 8) (omega arith)
    ∙ bit-htonl x (8 * (j / 8) + (7 - j % 8))
    ∙ ground arith
