-- ===== src/Field/Bits.antt =====
-- Bits of a byte and of a buffer, counted from the most significant bit.
use mathlib.Core.Path.{subst}
use native.Mathlib.Nat.{mod-eq_of_lt}
use pofswitch.Base.{
  Bool, true, ◌&&◌, ℕ, zero, suc, ◌+◌, ◌-◌, ◌*◌, ◌/◌, ◌%◌, ◌≤◌, ◌<◌, ◌≡◌, refl, sym, ap, ◌∙◌, List,
  [], ◌∷◌, ◌++◌, arith, take, drop, replicate, get_or, set, length, get_or_ext, ltb, if◌then◌else◌,
  u8, bit, bit_or, bit_and, ◌<<◌, ◌>>◌, bit-bit_or, bit-bit_and, bit-shl, bit-shr, bit-mod, bit-lt,
  bit_ext, bit-zero, max,
}

abbrev pub mbit : ℕ → ℕ → ℕ
mbit b j = bit b (7 - j)

abbrev pub bit_at : List ℕ → ℕ → ℕ
bit_at buf i = mbit (get_or buf (i / 8) 0) (i % 8)

abbrev pub IsBytes : List ℕ → Type 0
IsBytes buf = (i : ℕ) → get_or buf i 0 < 256

pub bit-ones : (i : ℕ) → bit 0xff i ≡ (if ltb i 8 then 1 else 0)
unfolding bit
bit-ones zero = refl
bit-ones (suc zero) = refl
bit-ones (suc (suc zero)) = refl
bit-ones (suc (suc (suc zero))) = refl
bit-ones (suc (suc (suc (suc zero)))) = refl
bit-ones (suc (suc (suc (suc (suc zero))))) = refl
bit-ones (suc (suc (suc (suc (suc (suc zero)))))) = refl
bit-ones (suc (suc (suc (suc (suc (suc (suc zero))))))) = refl
bit-ones (suc (suc (suc (suc (suc (suc (suc (suc i)))))))) = ground (arith, bit-zero i)

pub bit-byte_above : (b i : ℕ) → b < 256 → 8 ≤ i → bit b i ≡ 0
bit-byte_above b i h k = ap (λ t. bit t i) (sym (mod-eq_of_lt h)) ∙ bit-mod 8 i b ∙ ground arith

pub u8-byte : (b : ℕ) → u8 b < 256
u8-byte b = omega arith

pub mbit-u8 : (b j : ℕ) → mbit (u8 b) j ≡ mbit b j
mbit-u8 b j = bit-mod 8 (7 - j) b ∙ ground arith

-- The low `px` bits of one byte, then the high `s` bits of the next.
pub mbit-splice :
    (a b s px j : ℕ)
    → b < 256
    → s + px ≡ 8
    → j < 8
    → mbit (u8 (bit_or (a << s) (b >> px))) j
      ≡ (if ltb j px then mbit a (s + j) else mbit b (j - px))
mbit-splice a b s px j hb hp hj =
    mbit-u8 _ j
    ∙ bit-bit_or (7 - j) _ _
    ∙ ground (arith, bit-shl s (7 - j) a, bit-shr px (7 - j) b, bit-byte_above b (7 - j + px) hb)

pub bit_at-eq-mbit :
    (buf : List ℕ) (i q r : ℕ) → r < 8 → i ≡ 8 * q + r → bit_at buf i ≡ mbit (get_or buf q 0) r
bit_at-eq-mbit buf i q r h e = rw (quotient, remainder)
  where
    quotient : i / 8 ≡ q
    quotient = omega arith

    remainder : i % 8 ≡ r
    remainder = omega arith

-- The mask `0xff << n` keeps the first `8 - n` bits of a byte, `0xff >> n` the last `8 - n`.
pub mbit-mask_high :
    (b n j : ℕ)
    → n ≤ 8
    → j < 8
    → mbit (bit_and b (0xff << n)) j ≡ (if ltb j (8 - n) then mbit b j else 0)
mbit-mask_high b n j h k =
    bit-bit_and (7 - j) _ _
    ∙ ground (arith, bit-shl n (7 - j) 0xff, bit-ones (7 - j - n), bit-lt (7 - j) b)

pub mbit-mask_low :
    (b n j : ℕ) → j < 8 → mbit (bit_and b (0xff >> n)) j ≡ (if ltb j n then 0 else mbit b j)
mbit-mask_low b n j k =
    bit-bit_and (7 - j) _ _
    ∙ ground (arith, bit-shr n (7 - j) 0xff, bit-ones (7 - j + n), bit-lt (7 - j) b)

pub mbit-or : (a b j : ℕ) → mbit (bit_or a b) j ≡ max (mbit a j) (mbit b j)
mbit-or a b j = bit-bit_or (7 - j) a b

pub mbit-shr :
    (b n j : ℕ) → b < 256 → j < 8 → mbit (b >> n) j ≡ (if ltb j n then 0 else mbit b (j - n))
mbit-shr b n j h k = bit-shr n (7 - j) b ∙ ground (arith, bit-byte_above b (7 - j + n) h)

pub mbit-shl :
    (b n j : ℕ)
    → n ≤ 8
    → j < 8
    → mbit (u8 (b << n)) j ≡ (if ltb j (8 - n) then mbit b (j + n) else 0)
mbit-shl b n j h k = mbit-u8 _ j ∙ bit-shl n (7 - j) b ∙ ground arith

-- Two buffers of bytes with the same length and bits are equal.
pub byte_ext : (a b : ℕ) → a < 256 → b < 256 → ((j : ℕ) → j < 8 → mbit a j ≡ mbit b j) → a ≡ b
byte_ext a b p q h =
    bit_ext 8 a b p q (λ i l. subst (λ k. bit a k ≡ bit b k) (back i l) (h (7 - i) (omega arith)))
  where
    back : (i : ℕ) → i < 8 → 7 - (7 - i) ≡ i
    back i l = omega arith

pub IsBytes-set : (xs : List ℕ) (i v : ℕ) → v < 256 → IsBytes xs → IsBytes (set xs i v)
IsBytes-set [] i v h b k = omega arith
IsBytes-set (x ∷ xs) zero v h b zero = h
IsBytes-set (x ∷ xs) zero v h b (suc k) = b (suc k)
IsBytes-set (x ∷ xs) (suc i) v h b zero = b 0
IsBytes-set (x ∷ xs) (suc i) v h b (suc k) = IsBytes-set xs i v h (λ m. b (suc m)) k

-- A buffer is determined by its length and its bits.
pub bits_ext :
    (xs ys : List ℕ)
    → length xs ≡ length ys
    → IsBytes xs
    → IsBytes ys
    → ((j : ℕ) → bit_at xs j ≡ bit_at ys j)
    → xs ≡ ys
bits_ext xs ys e p q h = get_or_ext 0 xs ys e λ i.
    byte_ext (get_or xs i 0) (get_or ys i 0) (p i) (q i) λ r l.
      sym (bit_at-eq-mbit xs (8 * i + r) i r l refl)
      ∙ h (8 * i + r)
      ∙ bit_at-eq-mbit ys (8 * i + r) i r l refl

-- The test whether a list holds bytes only.
abbrev pub are_bytes : List ℕ → Bool
are_bytes [] = true
are_bytes (x ∷ xs) = ltb x 256 && are_bytes xs

pub are_bytes-IsBytes : (xs : List ℕ) → are_bytes xs ≡ true → IsBytes xs
are_bytes-IsBytes [] e i = omega arith
are_bytes-IsBytes (x ∷ xs) e zero = ground arith
are_bytes-IsBytes (x ∷ xs) e (suc i) = are_bytes-IsBytes xs (ground arith) i

pub IsBytes-drop : (n : ℕ) (xs : List ℕ) → IsBytes xs → IsBytes (drop n xs)
IsBytes-drop zero xs b = b
IsBytes-drop (suc n) [] b = b
IsBytes-drop (suc n) (x ∷ xs) b = IsBytes-drop n xs (λ i. b (suc i))

pub IsBytes-take : (n : ℕ) (xs : List ℕ) → IsBytes xs → IsBytes (take n xs)
IsBytes-take zero xs b i = omega arith
IsBytes-take (suc n) [] b i = omega arith
IsBytes-take (suc n) (x ∷ xs) b zero = b 0
IsBytes-take (suc n) (x ∷ xs) b (suc i) = IsBytes-take n xs (λ j. b (suc j)) i

pub IsBytes-append : (xs ys : List ℕ) → IsBytes xs → IsBytes ys → IsBytes (xs ++ ys)
IsBytes-append [] ys b c i = c i
IsBytes-append (x ∷ xs) ys b c zero = b 0
IsBytes-append (x ∷ xs) ys b c (suc i) = IsBytes-append xs ys (λ j. b (suc j)) c i

pub IsBytes-replicate : (n : ℕ) → IsBytes (replicate n 0)
IsBytes-replicate zero i = omega arith
IsBytes-replicate (suc n) zero = omega arith
IsBytes-replicate (suc n) (suc i) = IsBytes-replicate n i
