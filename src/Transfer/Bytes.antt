-- ===== src/Transfer/Bytes.antt =====
-- The bytes that a conversion of include/pof_byte_transfer.h puts at the place of a field.
use pofswitch.Base.{
  ℕ, zero, suc, ◌+◌, ◌-◌, ◌*◌, ◌^◌, ◌<◌, ◌≤◌, ◌≡◌, refl, sym, ap, ◌∙◌, arith, List, [], ◌∷◌, ltb,
  if◌then◌else◌, length, get_or, bit, bits_ext_all, bit_above, Bool-cases, inl, inr,
}
use pofswitch.Field.Bits.{IsBytes}
use pofswitch.ByteOrder.{
  htons, htonl, hton64, byte, load16, load32, load64, bytes16, bytes32, bytes64,
}
use pofswitch.ByteOrder.Swap.{bit-htons, bit-htonl, bit-hton64}
use pofswitch.ByteOrder.Number.{bit-byte}
use pofswitch.Transfer.{Field, short, long, wide, place, width, converted}

byte_above : (x q r : ℕ) → 8 ≤ r → bit (byte x q) r ≡ 0
byte_above x q r h = bit_above 8 r (byte x q) (omega arith) h

byte-htons : (x q : ℕ) → q < 2 → byte (htons x) q ≡ byte x (1 - q)
byte-htons x q h = bits_ext_all (byte (htons x) q) (byte x (1 - q)) λ r.
    elim (Bool-cases (ltb r 8)) [
      | inl e ↦
          bit-byte (htons x) q r (ground arith)
          ∙ bit-htons x (8 * q + r)
          ∙ ground (arith, bit-byte x (1 - q) r)
      | inr e ↦
          byte_above (htons x) q r (ground arith) ∙ sym (byte_above x (1 - q) r (ground arith))
    ]

byte-htonl : (x q : ℕ) → q < 4 → byte (htonl x) q ≡ byte x (3 - q)
byte-htonl x q h = bits_ext_all (byte (htonl x) q) (byte x (3 - q)) λ r.
    elim (Bool-cases (ltb r 8)) [
      | inl e ↦
          bit-byte (htonl x) q r (ground arith)
          ∙ bit-htonl x (8 * q + r)
          ∙ ground (arith, bit-byte x (3 - q) r)
      | inr e ↦
          byte_above (htonl x) q r (ground arith) ∙ sym (byte_above x (3 - q) r (ground arith))
    ]

byte-hton64 : (x q : ℕ) → q < 8 → byte (hton64 x) q ≡ byte x (7 - q)
byte-hton64 x q h = bits_ext_all (byte (hton64 x) q) (byte x (7 - q)) λ r.
    elim (Bool-cases (ltb r 8)) [
      | inl e ↦
          bit-byte (hton64 x) q r (ground arith)
          ∙ bit-hton64 x (8 * q + r)
          ∙ ground (arith, bit-byte x (7 - q) r)
      | inr e ↦
          byte_above (hton64 x) q r (ground arith) ∙ sym (byte_above x (7 - q) r (ground arith))
    ]

byte-load16 :
    (buf : List ℕ) (at q : ℕ) → IsBytes buf → q < 2 → byte (load16 buf at) q ≡ get_or buf (at + q) 0
unfolding load16
byte-load16 buf at zero b h =
    omega (arith, b at, b (at + 1), ap (λ t. get_or buf t 0) {x = at + 0} {y = at} (omega arith))
byte-load16 buf at (suc zero) b h = omega (arith, b at, b (at + 1))
byte-load16 buf at (suc (suc q)) b h = absurd (omega arith)

byte-load32 :
    (buf : List ℕ) (at q : ℕ) → IsBytes buf → q < 4 → byte (load32 buf at) q ≡ get_or buf (at + q) 0
unfolding load32
byte-load32 buf at zero b h = omega (
  arith,
  b at,
  b (at + 1),
  b (at + 2),
  b (at + 3),
  ap (λ t. get_or buf t 0) {x = at + 0} {y = at} (omega arith),
)
byte-load32 buf at (suc zero) b h = omega (arith, b at, b (at + 1), b (at + 2), b (at + 3))
byte-load32 buf at (suc (suc zero)) b h = omega (arith, b at, b (at + 1), b (at + 2), b (at + 3))
byte-load32 buf at (suc (suc (suc zero))) b h =
    omega (arith, b at, b (at + 1), b (at + 2), b (at + 3))
byte-load32 buf at (suc (suc (suc (suc q)))) b h = absurd (omega arith)

-- The halves of a number of 64 bits.
byte-halves :
    (a b q : ℕ)
    → a < 2 ^ 32
    → q < 8
    → byte (a + 2 ^ 32 * b) q ≡ (if ltb q 4 then byte a q else byte b (q - 4))
byte-halves a b zero h l = omega arith
byte-halves a b (suc zero) h l = omega arith
byte-halves a b (suc (suc zero)) h l = omega arith
byte-halves a b (suc (suc (suc zero))) h l = omega arith
byte-halves a b (suc (suc (suc (suc zero)))) h l = omega arith
byte-halves a b (suc (suc (suc (suc (suc zero))))) h l = omega arith
byte-halves a b (suc (suc (suc (suc (suc (suc zero)))))) h l = omega arith
byte-halves a b (suc (suc (suc (suc (suc (suc (suc zero))))))) h l = omega arith
byte-halves a b (suc (suc (suc (suc (suc (suc (suc (suc q)))))))) h l = absurd (omega arith)

load32_lt : (buf : List ℕ) (at : ℕ) → IsBytes buf → load32 buf at < 2 ^ 32
unfolding load32
load32_lt buf at b = omega (arith, b at, b (at + 1), b (at + 2), b (at + 3))

byte-load64 :
    (buf : List ℕ) (at q : ℕ) → IsBytes buf → q < 8 → byte (load64 buf at) q ≡ get_or buf (at + q) 0
unfolding load64
byte-load64 buf at q b h =
    byte-halves (load32 buf at) (load32 buf (at + 4)) q (load32_lt buf at b) h
    ∙ elim (Bool-cases (ltb q 4)) [
      | inl e ↦ rw e (byte-load32 buf at q b (ground arith))
      | inr e ↦ rw e (
          byte-load32 buf (at + 4) (q - 4) b (ground arith)
          ∙ ap (λ t. get_or buf t 0) (ground arith))
    ]

-- The lowest `n` bytes of a number.
digits : ℕ → ℕ → ℕ → List ℕ
digits zero v q = []
digits (suc n) v q = byte v q ∷ digits n v (q + 1)

get_or-digits : (n v q i : ℕ) → i < n → get_or (digits n v q) i 0 ≡ byte v (q + i)
unfolding digits
get_or-digits zero v q i h = absurd (omega arith)
get_or-digits (suc n) v q zero h = ap (byte v) (omega arith)
get_or-digits (suc n) v q (suc i) h =
    get_or-digits n v (q + 1) i (omega arith) ∙ ap (byte v) (omega arith)

digits-IsBytes : (n v q : ℕ) → IsBytes (digits n v q)
unfolding digits
digits-IsBytes zero v q i = omega arith
digits-IsBytes (suc n) v q zero = omega arith
digits-IsBytes (suc n) v q (suc i) = digits-IsBytes n v (q + 1) i

-- The bytes that a conversion puts at the place of a field: as many as before, in the opposite order.
pub record IsSwapped (f : Field) (buf out : List ℕ) : Type 0 where
  pub same_width : length out ≡ width f
  pub swaps : (q : ℕ) → q < width f → get_or out q 0 ≡ get_or buf (place f + (width f - 1 - q)) 0
  pub bytes : IsBytes out

pub converted-IsSwapped :
    (f : Field) (buf : List ℕ) → IsBytes buf → IsSwapped f buf (converted f buf)
unfolding converted bytes16 bytes32 bytes64 digits
converted-IsSwapped (short at) buf b =
    let v = htons (load16 buf at) in
    record {
      same_width = refl;
      swaps = λ q h.
          get_or-digits 2 v 0 q h
          ∙ ap (byte v) {x = 0 + q} {y = q} (omega arith)
          ∙ byte-htons (load16 buf at) q h
          ∙ byte-load16 buf at (1 - q) b (omega arith);
      bytes = digits-IsBytes 2 v 0;
    }
converted-IsSwapped (long at) buf b =
    let v = htonl (load32 buf at) in
    record {
      same_width = refl;
      swaps = λ q h.
          get_or-digits 4 v 0 q h
          ∙ ap (byte v) {x = 0 + q} {y = q} (omega arith)
          ∙ byte-htonl (load32 buf at) q h
          ∙ byte-load32 buf at (3 - q) b (omega arith);
      bytes = digits-IsBytes 4 v 0;
    }
converted-IsSwapped (wide at) buf b =
    let v = hton64 (load64 buf at) in
    record {
      same_width = refl;
      swaps = λ q h.
          get_or-digits 8 v 0 q h
          ∙ ap (byte v) {x = 0 + q} {y = q} (omega arith)
          ∙ byte-hton64 (load64 buf at) q h
          ∙ byte-load64 buf at (7 - q) b (omega arith);
      bytes = digits-IsBytes 8 v 0;
    }
