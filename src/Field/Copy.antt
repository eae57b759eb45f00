-- ===== src/Field/Copy.antt =====
-- `pofbf_copy_bit`: the loop byte by byte, then the whole routine bit by bit.
use mathlib.Core.Path.{ap₂}
use pofswitch.Base.{
  ℕ, zero, suc, ◌+◌, ◌-◌, ◌*◌, ◌/◌, ◌%◌, ◌^◌, ◌≤◌, ◌<◌, ◌≡◌, refl, sym, ap, ◌∙◌, ◌⊎◌, inl, inr,
  List, some, arith, get_or, set, length, Bool-cases, ltb, if◌then◌else◌, ◌==◌, ==_iff, u8, bit_or,
  bit_and, ◌<<◌, ◌>>◌, get_elem?-eq-get_or, length-set, get_or-set_self, get_or-set_ne,
}
use pofswitch.Field.{copy_loop, copy_tail, copy_bit, store}
use pofswitch.Field.Bits.{
  bit_at, mbit, IsBytes, mbit-splice, mbit-mask_high, mbit-u8, bit_at-eq-mbit, IsBytes-set,
}

abbrev pub spliced : List ℕ → ℕ → ℕ → ℕ
spliced src ox q = u8 (bit_or (get_or src q 0 << ox) (get_or src (q + 1) 0 >> (8 - ox)))

-- The bytes `[lo, hi)` of the result are spliced from the source at `ptr`, the others are kept.
pub record IsCopied (src : List ℕ) (ox ptr lo hi : ℕ) (res out : List ℕ) : Type 0 where
  pub same_length : length out ≡ length res
  pub inside : (i q : ℕ) → lo ≤ i → i < hi → q + lo ≡ ptr + i → get_or out i 0 ≡ spliced src ox q
  pub outside : (i : ℕ) → (i < lo) ⊎ (hi ≤ i) → get_or out i 0 ≡ get_or res i 0

module _ (src : List ℕ) (ox len : ℕ) where
  copy_loop-suc :
      (fuel ptr : ℕ) (res : List ℕ) (k process : ℕ)
      → process < len
      → len < 2 ^ 16
      → ptr + 1 < length src
      → k < length res
      → copy_loop src ox len (suc fuel) ptr res k process
        ≡ copy_loop src ox len fuel (ptr + 1) (set res k (spliced src ox ptr)) (k + 1) (process + 8)
  unfolding copy_loop store
  copy_loop-suc fuel ptr res k process h w p q =
      ground (arith, get_elem?-eq-get_or src ptr 0, get_elem?-eq-get_or src (ptr + 1) 0)

  IsCopied-set :
      {ptr k hi : ℕ} {res out : List ℕ}
      → k < hi
      → k < length res
      → IsCopied src ox (ptr + 1) (k + 1) hi (set res k (spliced src ox ptr)) out
      → IsCopied src ox ptr k hi res out
  IsCopied-set {ptr} {k} {hi} {res} {out} below in_range rest = record {
    same_length = rest.same_length ∙ length-set res k (spliced src ox ptr);
    inside = λ i q p l e. elim (Bool-cases (i == k)) [
      | inl same ↦
          let here : i ≡ k = (==_iff i k).0 same in
          rest.outside i (inl (omega arith))
          ∙ ap (λ t. get_or (set res k (spliced src ox ptr)) t 0) here
          ∙ get_or-set_self res k (spliced src ox ptr) 0 in_range
          ∙ ap (spliced src ox) (omega arith)
      | inr other ↦ rest.inside i q (ground arith) l (omega arith)
    ];
    outside = λ i p. ground (arith, rest.outside i, get_or-set_ne res k i (spliced src ox ptr) 0);
  }

  copy_loop-IsCopied :
      (n fuel ptr : ℕ) (res : List ℕ) (k process hi : ℕ)
      → n < fuel
      → process ≡ 8 * k
      → k + n ≡ hi
      → len ≤ 8 * hi
      → 8 * hi < len + 8
      → len < 2 ^ 16
      → ptr + n < length src
      → hi ≤ length res
      → (out : List ℕ) × (copy_loop src ox len fuel ptr res k process ≡ some (out, hi, 8 * hi))
        × IsCopied src ox ptr k hi res out
  copy_loop-IsCopied n zero ptr res k process hi f e g a b w p q = absurd (omega arith)
  copy_loop-IsCopied zero (suc fuel) ptr res k process hi f e g a b w p q = (
    res,
    unfold copy_loop in ground arith,
    record {
      same_length = refl;
      inside = λ i q' l u x. absurd (omega arith);
      outside = λ i l. refl;
    },
  )
  copy_loop-IsCopied (suc n) (suc fuel) ptr res k process hi f e g a b w p q =
      let (out, runs, copied) =
        copy_loop-IsCopied n fuel (ptr + 1) (set res k (spliced src ox ptr)) (k + 1) (process + 8)
          hi (omega arith) (omega arith) (omega arith) a b w (omega arith)
          (omega (arith, length-set res k (spliced src ox ptr))) in
      (
        out,
        copy_loop-suc fuel ptr res k process (omega arith) w (omega arith) (omega arith) ∙ runs,
        IsCopied-set (omega arith) (omega arith) copied,
      )

-- The field `[offset, offset + len)` of the source, zero up to a byte, stands at the start of the
-- result, and the bytes behind it are kept.
pub record IsField (src : List ℕ) (offset len : ℕ) (res out : List ℕ) : Type 0 where
  pub same_length : length out ≡ length res
  pub field : (j : ℕ) → j < len → bit_at out j ≡ bit_at src (offset + j)
  pub padding : (j : ℕ) → len ≤ j → j / 8 < (len + 7) / 8 → bit_at out j ≡ 0
  pub outside : (i : ℕ) → (len + 7) / 8 ≤ i → get_or out i 0 ≡ get_or res i 0
  pub keeps_bytes : IsBytes res → IsBytes out

bit_at-spliced :
    (src : List ℕ) (offset j : ℕ)
    → IsBytes src
    → mbit (spliced src (offset % 8) (offset / 8 + j / 8)) (j % 8) ≡ bit_at src (offset + j)
bit_at-spliced src offset j h =
    let q = offset / 8 + j / 8 in
    let ox = offset % 8 in
    mbit-splice (get_or src q 0) (get_or src (q + 1) 0) ox (8 - ox) (j % 8) (h (q + 1))
      (omega arith) (omega arith)
    ∙ elim (Bool-cases (ltb (j % 8) (8 - ox))) [
      | inl e ↦
          rw e (sym (bit_at-eq-mbit src (offset + j) q (ox + j % 8) (ground arith) (omega arith)))
      | inr e ↦ rw e (
          sym (
            bit_at-eq-mbit src (offset + j) (q + 1) (j % 8 - (8 - ox)) (ground arith)
              (ground arith)))
    ]

IsCopied-IsBytes :
    {src : List ℕ} {ox ptr hi : ℕ} {res out : List ℕ}
    → IsCopied src ox ptr 0 hi res out
    → IsBytes res
    → IsBytes out
IsCopied-IsBytes {ptr} {hi} c b i = elim (Bool-cases (ltb i hi)) [
  | inl e ↦ omega (arith, c.inside i (ptr + i) (omega arith) (ground arith) (omega arith))
  | inr e ↦ omega (arith, c.outside i (inr (ground arith)), b i)
]

-- The result of `copy_tail`: the last byte written is masked.
abbrev masked : List ℕ → ℕ → ℕ → List ℕ
masked mid hi len = set mid (hi - 1) (u8 (bit_and (get_or mid (hi - 1) 0) (0xff << (8 * hi - len))))

-- The bits of the spliced bytes, before the last of them is masked.
module _ (src : List ℕ) (offset hi : ℕ) (res mid : List ℕ) (bytes : IsBytes src)
    (copied : IsCopied src (offset % 8) (offset / 8) 0 hi res mid) where
  mbit-copied :
      (i r : ℕ) → i < hi → r < 8 → mbit (get_or mid i 0) r ≡ bit_at src (offset + (8 * i + r))
  mbit-copied i r h k =
      ap (λ t. mbit t r) (copied.inside i (offset / 8 + i) (omega arith) h (omega arith))
      ∙ ap₂ (λ t u. mbit (spliced src (offset % 8) (offset / 8 + t)) u) quotient remainder
      ∙ bit_at-spliced src offset (8 * i + r) bytes
    where
      quotient : i ≡ (8 * i + r) / 8
      quotient = omega arith

      remainder : r ≡ (8 * i + r) % 8
      remainder = omega arith

  -- What the mask of the last byte leaves.
  module _ (len : ℕ) (full : len ≤ 8 * hi) (last : 8 * hi < len + 8) (pos : 0 < len)
      (in_range : hi ≤ length mid) where
    mbit-masked :
        (i r : ℕ)
        → i < hi
        → r < 8
        → mbit (get_or (masked mid hi len) i 0) r
          ≡ (if ltb (8 * i + r) len then bit_at src (offset + (8 * i + r)) else 0)
    mbit-masked i r h k = ground (
      arith,
      get_or-set_self mid (hi - 1) (u8 (bit_and (get_or mid (hi - 1) 0) (0xff << (8 * hi - len))))
          0,
      get_or-set_ne mid (hi - 1) i (u8 (bit_and (get_or mid (hi - 1) 0) (0xff << (8 * hi - len))))
          0,
      mbit-u8 (bit_and (get_or mid (hi - 1) 0) (0xff << (8 * hi - len))) r,
      mbit-mask_high (get_or mid (hi - 1) 0) (8 * hi - len) r,
      mbit-copied i r h k,
    )

    bit_at-masked :
        (j : ℕ)
        → j / 8 < hi
        → bit_at (masked mid hi len) j ≡ (if ltb j len then bit_at src (offset + j) else 0)
    bit_at-masked j h =
        mbit-masked (j / 8) (j % 8) h (omega arith)
        ∙ ap (λ t. if ltb t len then bit_at src (offset + t) else 0) back
      where
        back : 8 * (j / 8) + j % 8 ≡ j
        back = omega arith

    masked-IsField : hi ≡ (len + 7) / 8 → IsField src offset len res (masked mid hi len)
    masked-IsField e = record {
      same_length = length-set mid (hi - 1) _ ∙ copied.same_length;
      field = λ j l. bit_at-masked j (omega arith) ∙ ground arith;
      padding = λ j l u. bit_at-masked j (omega arith) ∙ ground arith;
      outside = λ i l.
          get_or-set_ne mid (hi - 1) i _ 0 (omega arith) ∙ copied.outside i (inr (omega arith));
      keeps_bytes = λ b. IsBytes-set mid (hi - 1) _ (omega arith) (IsCopied-IsBytes copied b);
    }

copy_tail_lem :
    (mid : List ℕ) (len hi : ℕ)
    → 0 < hi
    → hi ≤ length mid
    → copy_tail len (mid, hi, 8 * hi) ≡ some (masked mid hi len)
unfolding copy_tail store
copy_tail_lem mid len zero h k = absurd (omega arith)
copy_tail_lem mid len (suc hi) h k = ground (arith, get_elem?-eq-get_or mid hi 0)

-- For a field of at least one bit, a source of bytes that reaches one byte beyond the field's last
-- and a result that is long enough, `pofbf_copy_bit` makes no access out of range: its result
-- starts with the bits of the field, then zeros up to a full byte, and keeps its other bytes.
pub copy_bit-IsField :
    (src res : List ℕ) (offset len : ℕ)
    → IsBytes src
    → 0 < len
    → len < 2 ^ 16
    → offset / 8 + (len + 7) / 8 < length src
    → (len + 7) / 8 ≤ length res
    → (out : List ℕ) × (copy_bit (some src) res offset len ≡ some out)
      × IsField src offset len res out
copy_bit-IsField src res offset len bytes pos w p q =
    let hi = (len + 7) / 8 in
    let (mid, runs, copied) =
      copy_loop-IsCopied src (offset % 8) len hi (suc len) (offset / 8) res 0 0 hi (omega arith)
        refl (omega arith) (omega arith) (omega arith) w p q in
    let fits : hi ≤ length mid = omega (arith, copied.same_length) in
    (
      masked mid hi len,
      unfold copy_bit in rw runs (copy_tail_lem mid len hi (omega arith) fits),
      masked-IsField src offset hi res mid bytes copied len (omega arith) (omega arith) pos fits
          refl,
    )
