-- ===== src/Field/Cover/Loop.antt =====
-- The loop of `pofbf_cover_bit`, byte by byte.
use pofswitch.Base.{
  ℕ, zero, suc, ◌+◌, ◌-◌, ◌*◌, ◌^◌, ◌≤◌, ◌<◌, ◌≡◌, refl, ap, ◌∙◌, ◌⊎◌, inl, inr, List, some, arith,
  get_or, set, length, Bool-cases, ltb, leb, ◌&&◌, ◌==◌, ==_iff, get_elem?-eq-get_or, length-set,
  get_or-set_self, get_or-set_ne,
}
use pofswitch.Field.{cover_loop, store}
use pofswitch.Field.Bits.{IsBytes}
use pofswitch.Field.Cover.Bits.{middle_byte}

-- The bytes `ptr + k + 1 .. ptr + hi` are spliced from the value, the others are kept.
pub record IsLooped (value : List ℕ) (px q lo hi : ℕ) (ori out : List ℕ) : Type 0 where
  pub same_length : length out ≡ length ori
  pub inside :
      (i k : ℕ)
      → lo ≤ k
      → k < hi
      → i ≡ q + k + 1
      → get_or out i 0 ≡ middle_byte (get_or value k 0) (get_or value (k + 1) 0) px
  pub outside : (i : ℕ) → (i ≤ q + lo) ⊎ (q + hi < i) → get_or out i 0 ≡ get_or ori i 0

pub IsLooped-IsBytes :
    {value : List ℕ} {px q hi : ℕ} {ori out : List ℕ}
    → IsLooped value px q 0 hi ori out
    → IsBytes ori
    → IsBytes out
IsLooped-IsBytes {q} {hi} l b i = elim (Bool-cases (ltb q i && leb i (q + hi))) [
  | inl e ↦ omega (arith, l.inside i (i - q - 1) (omega arith) (ground arith) (ground arith))
  | inr e ↦ omega (arith, l.outside i (ground arith), b i)
]

module _ (value : List ℕ) (px bound q : ℕ) where
  abbrev byte_of : ℕ → ℕ
  byte_of k = middle_byte (get_or value k 0) (get_or value (k + 1) 0) px

  cover_loop-suc :
      (fuel : ℕ) (ori : List ℕ) (k process : ℕ)
      → process < bound
      → bound < 2 ^ 16
      → k + 1 < length value
      → q + k + 1 < length ori
      → cover_loop value px bound (suc fuel) ori (q + k) k process
        ≡ cover_loop value px bound fuel
            (set ori (q + k + 1) (byte_of k))
            (q + k + 1)
            (k + 1)
            (process + 8)
  unfolding cover_loop store
  cover_loop-suc fuel ori k process h w p r =
      ground (arith, get_elem?-eq-get_or value k 0, get_elem?-eq-get_or value (k + 1) 0)

  IsLooped-set :
      {k hi : ℕ} {ori out : List ℕ}
      → k < hi
      → q + k + 1 < length ori
      → IsLooped value px q (k + 1) hi (set ori (q + k + 1) (byte_of k)) out
      → IsLooped value px q k hi ori out
  IsLooped-set {k} {hi} {ori} {out} below in_range rest = record {
    same_length = rest.same_length ∙ length-set ori (q + k + 1) (byte_of k);
    inside = λ i j p l e. elim (Bool-cases (j == k)) [
      | inl same ↦
          let here : i ≡ q + k + 1 = omega (arith, (==_iff j k).0 same) in
          rest.outside i (inl (omega arith))
          ∙ ap (λ t. get_or (set ori (q + k + 1) (byte_of k)) t 0) here
          ∙ get_or-set_self ori (q + k + 1) (byte_of k) 0 in_range
          ∙ ap byte_of (omega (arith, (==_iff j k).0 same))
      | inr other ↦ rest.inside i j (ground arith) l e
    ];
    outside = λ i p. ground (arith, rest.outside i, get_or-set_ne ori (q + k + 1) i (byte_of k) 0);
  }

  pub cover_loop-IsLooped :
      (n fuel : ℕ) (ori : List ℕ) (ptr k process hi : ℕ)
      → n < fuel
      → ptr ≡ q + k
      → process + px ≡ 8 * (k + 1)
      → px < 8
      → k + n ≡ hi
      → bound + px ≤ 8 * (hi + 1)
      → (hi ≡ k) ⊎ (8 * hi < bound + px)
      → bound < 2 ^ 16
      → hi < length value
      → q + hi < length ori
      → (out : List ℕ) × (cover_loop value px bound fuel ori ptr k process
          ≡ some (out, q + hi, hi, 8 * (hi + 1) - px))
        × IsLooped value px q k hi ori out
  cover_loop-IsLooped n zero ori ptr k process hi f t e x g a b w p r = absurd (omega arith)
  cover_loop-IsLooped zero (suc fuel) ori ptr k process hi f t e x g a b w p r = (
    ori,
    unfold cover_loop in ground arith,
    record {
      same_length = refl;
      inside = λ i j l u y. absurd (omega arith);
      outside = λ i l. refl;
    },
  )
  cover_loop-IsLooped (suc n) (suc fuel) ori ptr k process hi f t e x g a b w p r =
      let (out, runs, looped) =
        cover_loop-IsLooped n fuel (set ori (q + k + 1) (byte_of k)) (q + k + 1) (k + 1)
          (process + 8) hi (omega arith) (omega arith) (omega arith) x (omega arith) a (omega arith)
          w p (omega (arith, length-set ori (q + k + 1) (byte_of k))) in
      (
        out,
        ap (λ s. cover_loop value px bound (suc fuel) ori s k process) t
            ∙ cover_loop-suc fuel ori k process (omega arith) w (omega arith) (omega arith)
            ∙ runs,
        IsLooped-set (omega arith) (omega arith) looped,
      )
