-- ===== src/Datapath/Sums.antt =====
-- `checksum` of datapath/pof_action.c: the carry that is brought back adds in the numbers below
-- `2 ^ k` modulo `2 ^ k - 1`.
use mathlib.Core.Path.{subst}
use native.Mathlib.Nat.{div-lt_iff_lt-mul, add-mul, mul_assoc}
use pofswitch.Base.{
  ℕ, zero, suc, ◌+◌, ◌-◌, ◌*◌, ◌/◌, ◌^◌, ◌<◌, ◌≤◌, ◌≡◌, refl, sym, ap, ◌∙◌, inl, inr, true, Option,
  some, List, arith, ◌==◌, leb, ◌>>=◌, u16, u64, ◌>>◌, replicate, Bool-cases, Option-cases,
  pow-two-suc, two-pow_pos, pow-two_mono,
}
use pofswitch.ByteOrder.{hton64, load64}
use pofswitch.Field.{copy_bit}
use pofswitch.Field.Keep.{Gives, nothing, gives, Gives-any, Gives-map}
use pofswitch.Datapath.Finish.{if_false}
use pofswitch.Datapath.Checksum.{double, add_carry, complement_at, checksum_loop, checksum}

pow-two_le : (m n : ℕ) → m ≤ n → 2 ^ m ≤ 2 ^ n
pow-two_le m n h =
    omega
      (arith, pow-two_mono m (n - m), ap (λ (t : ℕ). 2 ^ t) {x = m + (n - m)} {y = n} (omega arith))

double_lem : (n d : ℕ) → n + d ≤ 63 → double n (2 ^ d) ≡ 2 ^ (n + d)
unfolding double
double_lem zero d h = ap (λ (t : ℕ). 2 ^ t) {x = d} (omega arith)
double_lem (suc n) d h =
    ap (double n) {x = u64 (2 ^ d * 2)} {y = 2 ^ suc d} (omega (arith, pow-two-suc d, below))
    ∙ double_lem n (suc d) (omega arith)
    ∙ ap (λ (t : ℕ). 2 ^ t) {x = n + suc d} (omega arith)
  where
    below : 2 ^ d * 2 < 2 ^ 64
    below = omega (arith, pow-two-suc d, pow-two_le (suc d) 63 (omega arith))

-- One addition: the result is below the threshold, and the sum less at most once the threshold minus 1.
add_carry_lem :
    (k value temp : ℕ)
    → 0 < k
    → k ≤ 63
    → value < 2 ^ k
    → temp < 2 ^ k
    → (add_carry (2 ^ k) value temp < 2 ^ k)
      × ((q : ℕ) × (value + temp ≡ add_carry (2 ^ k) value temp + q * (2 ^ k - 1)))
unfolding add_carry
add_carry_lem k value temp h l a b = elim (Bool-cases (leb (2 ^ k) (value + temp))) [
  | inl e ↦
      rw (whole, e)
        (omega (arith, small, at_least, leb→le e), (1, omega (arith, small, at_least, leb→le e)))
  | inr e ↦ rw (whole, e) (ground arith, (0, omega arith))
]
  where
    small : 2 ^ k ≤ 2 ^ 63
    small = pow-two_le k 63 l

    at_least : 2 ≤ 2 ^ k
    at_least = pow-two_le 1 k h

    whole : u64 (value + temp) ≡ value + temp
    whole = omega (arith, small)

    leb→le : leb (2 ^ k) (value + temp) ≡ true → 2 ^ k ≤ value + temp
    leb→le e = ground arith

-- The units of the data, complemented and added without a carry.
unfoldable pub sum_complements : List ℕ → ℕ → ℕ → ℕ → ℕ → Option ℕ
sum_complements buf pos_b cs_len_b zero i = some 0
sum_complements buf pos_b cs_len_b (suc n) i = do
  temp ← complement_at buf (u16 (pos_b + i * cs_len_b)) cs_len_b
  rest ← sum_complements buf pos_b cs_len_b n (i + 1)
  some (temp + rest)

pow-two_add : (m n : ℕ) → 2 ^ m * 2 ^ n ≡ 2 ^ (m + n)
pow-two_add zero n = omega (arith, ap (λ (t : ℕ). 2 ^ t) {x = 0 + n} {y = n} (omega arith))
pow-two_add (suc m) n = omega (
  arith,
  pow-two_add m n,
  ap (λ (t : ℕ). t * 2 ^ n) (pow-two-suc m),
  pow-two-suc (m + n),
  mul_assoc 2 (2 ^ m) (2 ^ n),
  ap (λ (t : ℕ). 2 ^ t) {x = suc m + n} {y = suc (m + n)} (omega arith),
)

complement_lt :
    (buf : List ℕ) (pos k : ℕ) → k ≤ 64 → Gives (λ temp. temp < 2 ^ k) (complement_at buf pos k)
unfolding complement_at
complement_lt buf pos k h =
    Gives-any (copy_bit (some buf) (replicate 8 0) pos k)
      (λ bytes. gives (bounded (hton64 (load64 bytes 0))))
  where
    bounded : (x : ℕ) → (2 ^ 64 - 1 - x) >> (64 - k) < 2 ^ k
    bounded x = (div-lt_iff_lt-mul (two-pow_pos (64 - k))).1 (
        omega (
          arith,
          pow-two_add k (64 - k),
          ap (λ (t : ℕ). 2 ^ t) {x = k + (64 - k)} {y = 64} (omega arith),
        ))

given : {P : ℕ → Type 0} {x : ℕ} → Gives P (some x) → P x
given (gives p) = p

-- The number is that of a sum of complements and of what the loop started with, modulo `2 ^ k - 1`.
abbrev pub SumsTo : List ℕ → (pos_b k n i value r : ℕ) → Type 0
SumsTo buf pos_b k n i value r =
    (r < 2 ^ k)
    × ((s : ℕ) × ((sum_complements buf pos_b k n i ≡ some s)
          × ((q : ℕ) × (value + s ≡ r + q * (2 ^ k - 1)))))

checksum_loop_sums :
    (buf : List ℕ) (pos_b k : ℕ)
    → 0 < k
    → k ≤ 63
    → (n i value : ℕ) → value < 2 ^ k
    → Gives (SumsTo buf pos_b k n i value) (checksum_loop buf pos_b k (2 ^ k) n i value)
unfolding checksum_loop sum_complements
checksum_loop_sums buf pos_b k h l zero i value v = gives (v, (0, (refl, (0, omega arith))))
checksum_loop_sums buf pos_b k h l (suc n) i value v =
    elim (Option-cases (complement_at buf (u16 (pos_b + i * k)) k)) [
      | inl e ↦ rw e nothing
      | inr (temp, e) ↦
          let lt : temp < 2 ^ k = given (
            subst (Gives (λ temp. temp < 2 ^ k)) e
              (complement_lt buf (u16 (pos_b + i * k)) k (omega arith))) in
          let (small, (q, sum)) = add_carry_lem k value temp h l v lt in
          rw e (
            Gives-map
              (checksum_loop_sums buf pos_b k h l n (i + 1) (add_carry (2 ^ k) value temp) small)
              (λ r (below, (s, (runs, (p, total)))). (
                below,
                (
                  temp + s,
                  (rw (e, runs) refl, (q + p, omega (arith, sum, total, add-mul q p (2 ^ k - 1)))),
                ),
              )))
    ]

-- For a checksum of 1 to 63 bits, where `checksum` reads within the data, the number that it
-- computes has that length, and it is the sum of the complements of the units, modulo `2 ^ k - 1`.
pub checksum-SumsTo :
    (buf : List ℕ) (pos_b len_b k r : ℕ)
    → 0 < k
    → k ≤ 63
    → checksum buf pos_b len_b k ≡ some r
    → SumsTo buf pos_b k (len_b / k) 0 0 r
unfolding checksum
checksum-SumsTo buf pos_b len_b k r h l e = given (
    subst (Gives (SumsTo buf pos_b k (len_b / k) 0 0)) (start ∙ e)
      (checksum_loop_sums buf pos_b k h l (len_b / k) 0 0 (two-pow_pos k)))
  where
    start : checksum_loop buf pos_b k (2 ^ k) (len_b / k) 0 0 ≡ checksum buf pos_b len_b k
    start =
        ap (λ (t : ℕ). checksum_loop buf pos_b k t (len_b / k) 0 0) {x = 2 ^ k} {y = double k 1}
          (ap (λ (t : ℕ). 2 ^ t) {x = k} {y = k + 0} (omega arith)
            ∙ sym (double_lem k 0 (omega arith)))
        ∙ sym (if_false (k == 0) _ _ (ground arith))
