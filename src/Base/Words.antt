-- ===== src/Base/Words.antt =====
-- Casts to the fixed widths and the bits of a number, with the laws of the bit operations.
use Prim.Native.Nat.{ℕ, zero, suc, ◌+◌, ◌-◌, ◌*◌, ◌/◌, ◌%◌, ◌^◌, ◌≤◌, ◌<◌, min, max}
use Prim.Native.Nat.{
  bit_and, bit_or, bit_and-bitwise, bit_xor, bit_xor-bitwise, differ, bit_or-bitwise, digits,
}
use mathlib.Core.Path.{◌≡◌, refl, sym, ap, ◌∙◌}
use native.Mathlib.Omega.{arith}
use native.Mathlib.Nat.{
  pow-suc, div-div-eq-div-mul, le_refl, div-add-mod, div-one, mod-one, add-zero, mul-one, add-suc,
  one-le-pow, add_comm, mod-eq_of_lt,
}
use pofswitch.Base.Tests.{ltb, if◌then◌else◌}

abbrev pub u8 : ℕ → ℕ
u8 n = n % 2 ^ 8

abbrev pub u16 : ℕ → ℕ
u16 n = n % 2 ^ 16

abbrev pub u32 : ℕ → ℕ
u32 n = n % 2 ^ 32

abbrev pub u64 : ℕ → ℕ
u64 n = n % 2 ^ 64

infixl 75 ◌<<◌ ◌>>◌
abbrev pub ◌<<◌ : ℕ → ℕ → ℕ
x << k = x * 2 ^ k

abbrev pub ◌>>◌ : ℕ → ℕ → ℕ
x >> k = x / 2 ^ k

-- Bit `i` of a number, counted from the least significant one.
unfoldable pub bit : ℕ → ℕ → ℕ
bit n zero = n % 2
bit n (suc i) = bit (n / 2) i

pub bit-zero : (i : ℕ) → bit 0 i ≡ 0
unfolding bit
bit-zero zero = refl
bit-zero (suc i) = bit-zero i

pub bit-lt : (i n : ℕ) → bit n i < 2
unfolding bit
bit-lt zero n = omega arith
bit-lt (suc i) n = bit-lt i (n / 2)

-- A digit operation acts on each pair of bits, when its fuel covers the first number.
module _ (z : ℕ → ℕ) (f : ℕ → ℕ → ℕ) (rest : (i b : ℕ) → bit (z b) i ≡ f 0 (bit b i))
    (digit : (x y : ℕ) → x < 2 → y < 2 → f x y < 2) where
  bit-digits : (n i a b : ℕ) → a ≤ n → bit (digits z f n a b) i ≡ f (bit a i) (bit b i)
  unfolding bit
  bit-digits zero i zero b h = rw (bit-zero i) (rest i b)
  bit-digits zero i (suc a) b h = absurd (omega arith)
  bit-digits (suc n) i zero b h = rw (bit-zero i) (rest i b)
  bit-digits (suc n) zero (suc a) b h =
      omega (arith, digit (suc a % 2) (b % 2) (omega arith) (omega arith))
  bit-digits (suc n) (suc i) (suc a) b h =
      rw halved (bit-digits n i (suc a / 2) (b / 2) (omega arith))
    where
      halved :
          (digits z f n (suc a / 2) (b / 2) * 2 + f (suc a % 2) (b % 2)) / 2
          ≡ digits z f n (suc a / 2) (b / 2)
      halved = omega (arith, digit (suc a % 2) (b % 2) (omega arith) (omega arith))

pub bit-bit_or : (i a b : ℕ) → bit (bit_or a b) i ≡ max (bit a i) (bit b i)
bit-bit_or i a b =
    rw (bit_or-bitwise a b)
      (bit-digits (λ b. b) max (λ i b. omega arith) (λ x y p q. omega arith) a i a b (le_refl a))

pub bit-bit_and : (i a b : ℕ) → bit (bit_and a b) i ≡ min (bit a i) (bit b i)
bit-bit_and i a b = rw (bit_and-bitwise a b) (
    bit-digits (λ b. 0) min (λ i b. omega (arith, bit-zero i)) (λ x y p q. omega arith) a i a b
      (le_refl a))

differ-lt : (x y : ℕ) → x < 2 → y < 2 → differ x y < 2
differ-lt zero y p q = q
differ-lt (suc x) zero p q = p
differ-lt (suc zero) (suc y) p q = omega arith
differ-lt (suc (suc x)) (suc y) p q = absurd (omega arith)

differ_comm : (x y : ℕ) → differ x y ≡ differ y x
differ_comm zero zero = refl
differ_comm zero (suc y) = refl
differ_comm (suc x) zero = refl
differ_comm (suc x) (suc y) = differ_comm x y

bit-bit_xor : (i a b : ℕ) → bit (bit_xor a b) i ≡ differ (bit a i) (bit b i)
bit-bit_xor i a b =
    rw (bit_xor-bitwise a b)
      (bit-digits (λ b. b) differ (λ i b. refl) differ-lt a i a b (le_refl a))

pub pow-two-suc : (k : ℕ) → 2 ^ suc k ≡ 2 * 2 ^ k
pow-two-suc k = omega (arith, pow-suc 2 k)

div-pow-suc : (n k : ℕ) → n / 2 ^ suc k ≡ n / 2 / 2 ^ k
div-pow-suc n k = rw pow-two-suc (sym (div-div-eq-div-mul n 2 (2 ^ k)))

mul-pow-suc_half : (n k : ℕ) → n * 2 ^ suc k / 2 ≡ n * 2 ^ k
mul-pow-suc_half n k = omega (arith, ap (λ (t : ℕ). n * t) (pow-two-suc k))

mod-pow-suc_half : (n k : ℕ) → n % 2 ^ suc k / 2 ≡ n / 2 % 2 ^ k
mod-pow-suc_half n k = omega (
  arith,
  div-add-mod (n / 2) (2 ^ k),
  div-add-mod n (2 ^ suc k),
  ap (λ (t : ℕ). t * (n / 2 ^ suc k)) (pow-two-suc k),
  ap (λ (t : ℕ). 2 ^ k * t) (div-pow-suc n k),
)

mod-pow-suc_parity : (n k : ℕ) → n % 2 ^ suc k % 2 ≡ n % 2
mod-pow-suc_parity n k =
    omega (arith, div-add-mod n (2 ^ suc k), ap (λ (t : ℕ). t * (n / 2 ^ suc k)) (pow-two-suc k))

pub bit-shr : (k i n : ℕ) → bit (n >> k) i ≡ bit n (i + k)
unfolding bit
bit-shr zero i n = rw (div-one n, add-zero i) refl
bit-shr (suc k) i n = rw (div-pow-suc n k, add-suc i k) (bit-shr k i (n / 2))

pub bit-shl : (k i n : ℕ) → bit (n << k) i ≡ (if ltb i k then 0 else bit n (i - k))
unfolding bit
bit-shl zero i n = ground (arith, mul-one n)
bit-shl (suc k) zero n = ground (arith, ap (λ (t : ℕ). n * t) (pow-two-suc k))
bit-shl (suc k) (suc i) n = rw (mul-pow-suc_half n k) (bit-shl k i n ∙ ground arith)

pub bit-mod : (k i n : ℕ) → bit (n % 2 ^ k) i ≡ (if ltb i k then bit n i else 0)
unfolding bit
bit-mod zero i n = rw (mod-one n) (ground (arith, bit-zero i))
bit-mod (suc k) zero n = ground (arith, mod-pow-suc_parity n k)
bit-mod (suc k) (suc i) n = rw (mod-pow-suc_half n k) (bit-mod k i (n / 2) ∙ ground arith)

-- Numbers below `2 ^ k` are equal when their bits below `k` are.
pub bit_ext : (k a b : ℕ) → a < 2 ^ k → b < 2 ^ k → ((i : ℕ) → i < k → bit a i ≡ bit b i) → a ≡ b
unfolding bit
bit_ext zero a b p q h = omega arith
bit_ext (suc k) a b p q h = omega (
  arith,
  h 0 (omega arith),
  bit_ext k (a / 2) (b / 2) (omega (arith, pow-two-suc k)) (omega (arith, pow-two-suc k))
      (λ i l. h (suc i) (omega arith)),
)

lt-two-pow : (n : ℕ) → n < 2 ^ n
lt-two-pow zero = omega arith
lt-two-pow (suc n) = omega (arith, lt-two-pow n, pow-two-suc n)

pub pow-two_mono : (m d : ℕ) → 2 ^ m ≤ 2 ^ (m + d)
pow-two_mono m zero = rw add-zero (le_refl (2 ^ m))
pow-two_mono m (suc d) = rw add-suc (omega (arith, pow-two_mono m d, pow-two-suc (m + d)))

-- Numbers are equal when all their bits are.
pub bits_ext_all : (a b : ℕ) → ((i : ℕ) → bit a i ≡ bit b i) → a ≡ b
bits_ext_all a b h =
    bit_ext (a + b) a b (omega (arith, lt-two-pow a, pow-two_mono a b))
      (omega (arith, lt-two-pow b, pow-two_mono b a, ap (λ (t : ℕ). 2 ^ t) (add_comm b a)))
      (λ i l. h i)

pub bit_xor_comm : (a b : ℕ) → bit_xor a b ≡ bit_xor b a
bit_xor_comm a b =
    bits_ext_all (bit_xor a b) (bit_xor b a)
      (λ i. bit-bit_xor i a b ∙ differ_comm (bit a i) (bit b i) ∙ sym (bit-bit_xor i b a))

pub bit_xor-zero : (a : ℕ) → bit_xor 0 a ≡ a
bit_xor-zero a =
    bits_ext_all (bit_xor 0 a) a
      (λ i. bit-bit_xor i 0 a ∙ ap (λ t. differ t (bit a i)) (bit-zero i))

pub two-pow_pos : (k : ℕ) → 0 < 2 ^ k
two-pow_pos k = one-le-pow k 2 (omega arith)

pub bit-mask : (k i : ℕ) → bit (2 ^ k - 1) i ≡ (if ltb i k then 1 else 0)
unfolding bit
bit-mask zero i = ground (arith, bit-zero i)
bit-mask (suc k) zero = ground (arith, pow-two-suc k, two-pow_pos k)
bit-mask (suc k) (suc i) =
    let half : (2 ^ suc k - 1) / 2 ≡ 2 ^ k - 1 = omega (arith, pow-two-suc k, two-pow_pos k) in
    rw half (bit-mask k i ∙ ground arith)

-- A mask of `k` low bits is the remainder by `2 ^ k`.
pub bit_and-mask : (k n : ℕ) → bit_and (2 ^ k - 1) n ≡ n % 2 ^ k
bit_and-mask k n =
    bits_ext_all (bit_and (2 ^ k - 1) n) (n % 2 ^ k)
      λ i. bit-bit_and i (2 ^ k - 1) n ∙ ground (arith, bit-mask k i, bit-mod k i n, bit-lt i n)

pub bit_above : (k i n : ℕ) → n < 2 ^ k → k ≤ i → bit n i ≡ 0
bit_above k i n h l = ap (λ t. bit t i) (sym (mod-eq_of_lt h)) ∙ bit-mod k i n ∙ ground arith

-- The highest bit of a number of `k + 1` bits.
pub bit_top : (k n : ℕ) → 2 ^ k ≤ n → n < 2 ^ suc k → bit n k ≡ 1
unfolding bit
bit_top zero n h l = omega arith
bit_top (suc k) n h l =
    bit_top k (n / 2) (omega (arith, pow-two-suc k)) (omega (arith, pow-two-suc (suc k)))
