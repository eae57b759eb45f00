-- ===== src/Hmap/Size.antt =====
-- `bucketsNum` rounds down to a power of two, so that `mask` selects a bucket.
use pofswitch.Base.{
  ℕ, zero, suc, ◌+◌, ◌-◌, ◌^◌, ◌≤◌, ◌<◌, ◌≡◌, refl, sym, ap, ◌∙◌, some, bit_and, List, [], arith,
  bit, bit-bit_or, bit-shr, bit-lt, bit_above, bit_top, bit-mask, bits_ext_all, pow-two-suc,
  pow-two_mono, two-pow_pos, ◌>>◌, true, get_or, replicate, length-replicate, get_or-replicate,
  none,
}
use pofswitch.Hmap.{Node, Hmap, smear, buckets_num, create, find_hash, node_get_with_hash}
use pofswitch.Hmap.Invariant.{IsHmap, IsKeyed, total}

-- The number has `k` bits, and the highest `t` of them are ones.
record IsFilled (t k y : ℕ) : Type 0 where
  above : (i : ℕ) → k ≤ i → bit y i ≡ 0
  ones : (i : ℕ) → i < k → k ≤ i + t → bit y i ≡ 1

smear-IsFilled : (t k y : ℕ) → IsFilled t k y → IsFilled (t + t) k (smear y t)
unfolding smear
smear-IsFilled t k y f = record {
  above =
      λ i h. bit-bit_or i y (y >> t) ∙ ground (arith, bit-shr t i y, f.above i, f.above (i + t));
  ones = λ i h l.
      bit-bit_or i y (y >> t)
      ∙ ground (arith, bit-shr t i y, f.ones i, f.ones (i + t), bit-lt i y, bit-lt (i + t) y);
}

filled-eq-mask : (t k y : ℕ) → k ≤ t → IsFilled t k y → y ≡ 2 ^ k - 1
filled-eq-mask t k y h f =
    bits_ext_all y (2 ^ k - 1) λ i. ground (arith, bit-mask k i, f.above i, f.ones i)

half-IsFilled : (k size : ℕ) → 2 ^ k ≤ size → size < 2 ^ suc k → IsFilled 1 k (size >> 1)
half-IsFilled zero size h l =
    let none_left : size >> 1 ≡ 0 = omega arith in
    record {
      above = λ i m. bit_above 0 i (size >> 1) (omega arith) m;
      ones = λ i m n. absurd (omega arith);
    }
half-IsFilled (suc k) size h l = record {
  above = λ i m. bit_above (suc k) i (size >> 1) (omega (arith, pow-two-suc (suc k))) m;
  ones = λ i m n.
      ap (bit (size >> 1)) {x = i} {y = k} (omega arith)
      ∙ bit_top k (size >> 1) (omega (arith, pow-two-suc k)) (omega (arith, pow-two-suc (suc k)));
}

-- For a size from 2 ^ k to 2 ^ (k + 1) - 1 with `k` below 32, `bucketsNum` is 2 ^ k.
pub buckets_num-pow :
    (k size : ℕ) → k < 32 → 2 ^ k ≤ size → size < 2 ^ suc k → buckets_num size ≡ 2 ^ k
unfolding buckets_num
buckets_num-pow k size w h l =
    let s = size >> 1 in
    let f1 = smear-IsFilled 1 k s (half-IsFilled k size h l) in
    let f2 = smear-IsFilled 2 k _ f1 in
    let f3 = smear-IsFilled 4 k _ f2 in
    let f4 = smear-IsFilled 8 k _ f3 in
    let f5 = smear-IsFilled 16 k _ f4 in
    rw (filled-eq-mask 32 k _ (omega arith) f5) (
      omega (
        arith,
        two-pow_pos k,
        pow-two_mono k (31 - k),
        ap (λ (t : ℕ). 2 ^ t) {x = k + (31 - k)} {y = 31} (omega arith),
      ))

total-replicate : (A : Type 0) (m : ℕ) → total {A = A} (replicate m []) ≡ 0
total-replicate A zero = refl
total-replicate A (suc m) = omega (arith, total-replicate A m)

module _ {A : Type 0} where
  -- `hmap_create` with both allocations done, of a size from 2 ^ k to 2 ^ (k + 1) - 1 with `k` below 32,
  -- returns an empty map of 2 ^ k buckets that obeys its invariant.
  pub create-IsHmap :
      (k size : ℕ)
      → k < 32
      → 2 ^ k ≤ size
      → size < 2 ^ suc k
      → (map : Hmap A) × (create true true size ≡ some map)
        × IsHmap k map
        × IsKeyed map
        × ((h : ℕ) → node_get_with_hash map h ≡ none)
        × (map.n ≡ 0)
  unfolding create node_get_with_hash
  create-IsHmap k size w h l =
      let e = buckets_num-pow k size w h l in
      let empty : (i : ℕ) → ◌≡◌ {A = List (Node A)} (get_or (replicate (2 ^ k) []) i []) [] =
        λ i. get_or-replicate (2 ^ k) i [] in
      (
        record { buckets = replicate (2 ^ k) []; mask = 2 ^ k - 1; n = 0 },
        rw e refl,
        record {
          masked = refl;
          sized = length-replicate (2 ^ k) [];
          placed = λ i. rw (empty i) tt;
          addrs = λ i. rw (empty i) tt;
          counted = sym (total-replicate A (2 ^ k));
        },
        (λ i. rw (empty i) tt),
        λ g. ap (find_hash g) (empty (bit_and (2 ^ k - 1) g)),
        refl,
      )
