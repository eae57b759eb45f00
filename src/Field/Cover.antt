-- ===== src/Field/Cover.antt =====
-- `pofbf_cover_bit`: which bits change, for a field within one byte and for one that crosses bytes.
pub mod Bits
pub mod Loop
use pofswitch.Base.{
  ℕ, zero, suc, ◌+◌, ◌-◌, ◌*◌, ◌/◌, ◌%◌, ◌^◌, ◌≤◌, ◌<◌, ◌≡◌, refl, sym, ap, ◌∙◌, ◌≢◌, ◌⊎◌, inl, inr,
  List, some, arith, get_or, set, length, Bool-cases, ◌&&◌, ◌==◌, ==_iff, ltb, leb,
  get_elem?-eq-get_or, length-set, get_or-set_self, get_or-set_ne, ◌>>=◌, u32,
}
use pofswitch.Field.{
  cover_one, cover_many, cover_loop, cover_tail, cover_bound, cover_bit, store, after_len,
}
use pofswitch.Field.Bits.{bit_at, mbit, IsBytes, IsBytes-set}
use Bits.{
  covered, IsPadded, one_byte, first_byte, last_byte, mbit-one_byte, mbit-first_byte,
  mbit-middle_byte, mbit-last_byte, covered_outside,
}
use Loop.{IsLooped, IsLooped-IsBytes, cover_loop-IsLooped}

-- Exactly the bits of the field are replaced, by the leading bits of the value.
pub record IsCovered (ori value : List ℕ) (pos len : ℕ) (out : List ℕ) : Type 0 where
  pub same_length : length out ≡ length ori
  pub bits : (j : ℕ) → bit_at out j ≡ covered ori value pos len j
  pub keeps_bytes : IsBytes ori → IsBytes out

-- One byte is written, and all bits are as wanted.
mbit-set :
    (want : ℕ → ℕ) (xs : List ℕ) (i v : ℕ)
    → i < length xs
    → ((r : ℕ) → r < 8 → mbit v r ≡ want (8 * i + r))
    → (j r : ℕ) → r < 8
    → (j ≢ i → mbit (get_or xs j 0) r ≡ want (8 * j + r))
    → mbit (get_or (set xs i v) j 0) r ≡ want (8 * j + r)
mbit-set want xs i v below here j r h there = elim (Bool-cases (j == i)) [
  | inl e ↦
      let same : j ≡ i = (==_iff j i).0 e in
      ap (λ t. mbit (get_or (set xs i v) t 0) r) same
      ∙ ap (λ t. mbit t r) (get_or-set_self xs i v 0 below)
      ∙ here r h
      ∙ ap (λ t. want (8 * t + r)) (sym same)
  | inr e ↦
      let other : j ≢ i = ground arith in
      ap (λ t. mbit t r) (get_or-set_ne xs i j v 0 (λ x. other (sym x))) ∙ there other
]

module _ (ori value : List ℕ) (pos len : ℕ) where
  IsCovered-of_bytes :
      (out : List ℕ)
      → length out ≡ length ori
      → ((i r : ℕ) → r < 8 → mbit (get_or out i 0) r ≡ covered ori value pos len (8 * i + r))
      → (IsBytes ori → IsBytes out)
      → IsCovered ori value pos len out
  IsCovered-of_bytes out e h b = record {
    same_length = e;
    keeps_bytes = b;
    bits = λ j. h (j / 8) (j % 8) (omega arith) ∙ ap (covered ori value pos len) (omega arith);
  }

  module _ (bytes : IsBytes value) (pos_len : 0 < len) (fits : pos + len ≤ 8 * length ori)
      (enough : pos % 8 + len ≤ 8 * length value) where
    cover_one-IsCovered :
        pos % 8 + len ≤ 8
        → (out : List ℕ) × (cover_one ori value pos len ≡ some out)
          × IsCovered ori value pos len out
    cover_one-IsCovered narrow =
        let new = one_byte (get_or ori (pos / 8) 0) (get_or value 0 0) (pos % 8) (pos % 8 + len) in
        (
          set ori (pos / 8) new,
          runs,
          IsCovered-of_bytes _ (length-set ori (pos / 8) new)
              (λ i r h.
                mbit-set (covered ori value pos len) ori (pos / 8) new (omega arith)
                  (λ r l. mbit-one_byte ori value pos len bytes r l narrow) i r h
                  (λ ne. covered_outside ori value pos len bytes i r h (omega arith)))
              (IsBytes-set ori (pos / 8) new (omega arith)),
        )
      where
        after : after_len pos len ≡ pos % 8 + len
        after = unfold after_len in ground arith

        runs :
            cover_one ori value pos len
            ≡ some (
                set ori
                  (pos / 8)
                  (one_byte (get_or ori (pos / 8) 0) (get_or value 0 0) (pos % 8) (pos % 8 + len)))
        runs =
            unfold cover_one store in
            ground
              (arith, after, get_elem?-eq-get_or ori (pos / 8) 0, get_elem?-eq-get_or value 0 0)

    -- The middle loop runs `rounds` times.
    abbrev rounds : ℕ
    rounds = (pos % 8 + len - 9) / 8

    abbrev begun : List ℕ
    begun = set ori (pos / 8) (first_byte (get_or ori (pos / 8) 0) (get_or value 0 0) (pos % 8))

    abbrev ended : List ℕ → List ℕ
    ended mid = set mid (pos / 8 + rounds + 1) (
        last_byte (get_or ori (pos / 8 + rounds + 1) 0) (get_or value rounds 0)
          (get_or value (rounds + 1) 0) (pos % 8) (pos % 8 + len - 8 * (rounds + 1)))

    module _ (wide : 8 < pos % 8 + len) (long : 8 ≤ len) (w : len < 2 ^ 16)
        (padded : IsPadded value len) (mid : List ℕ)
        (looped : IsLooped value (pos % 8) (pos / 8) 0 rounds begun mid) where
      length-mid : length mid ≡ length ori
      length-mid = looped.same_length ∙ length-set ori (pos / 8) _

      -- The bytes before and behind the loop's, but for the last one.
      mbit-begun :
          (i r : ℕ)
          → r < 8
          → (i ≤ pos / 8) ⊎ (pos / 8 + rounds + 1 < i)
          → mbit (get_or begun i 0) r ≡ covered ori value pos len (8 * i + r)
      mbit-begun i r h out =
          mbit-set (covered ori value pos len) ori (pos / 8)
            (first_byte (get_or ori (pos / 8) 0) (get_or value 0 0) (pos % 8)) (omega arith)
            (λ r l. mbit-first_byte ori value pos len bytes r l wide) i r h
            (λ ne. covered_outside ori value pos len bytes i r h (omega arith))

      mbit-mid :
          (i r : ℕ)
          → r < 8
          → i ≢ pos / 8 + rounds + 1
          → mbit (get_or mid i 0) r ≡ covered ori value pos len (8 * i + r)
      mbit-mid i r h ne = elim (Bool-cases (ltb (pos / 8) i && leb i (pos / 8 + rounds))) [
        | inl e ↦
            let k = i - (pos / 8) - 1 in
            let here : pos / 8 + k + 1 ≡ i = ground arith in
            ap (λ t. mbit t r) (looped.inside i k (omega arith) (ground arith) (sym here))
            ∙ mbit-middle_byte ori value pos len bytes k r h (ground arith)
            ∙ ap (λ t. covered ori value pos len (8 * t + r)) here
        | inr e ↦
            let out : (i ≤ pos / 8) ⊎ (pos / 8 + rounds + 1 < i) = ground arith in
            ap (λ t. mbit t r) (looped.outside i (omega arith)) ∙ mbit-begun i r h out
      ]

      mbit-ended :
          (i r : ℕ)
          → r < 8
          → mbit (get_or (ended mid) i 0) r ≡ covered ori value pos len (8 * i + r)
      mbit-ended i r h =
          mbit-set (covered ori value pos len) mid (pos / 8 + rounds + 1) _
            (omega (arith, length-mid))
            (λ r l.
              mbit-last_byte ori value pos len bytes rounds r l (omega arith) (omega arith) padded)
            i r h (mbit-mid i r h)

      cover_tail_lem :
          cover_tail value (pos % 8) len (mid, pos / 8 + rounds, rounds, 8 * (rounds + 1) - pos % 8)
          ≡ some (ended mid)
      cover_tail_lem =
          let q = pos / 8 in
          let n = rounds in
          let untouched : get_or mid (q + n + 1) 0 ≡ get_or ori (q + n + 1) 0 =
            looped.outside (q + n + 1) (inr (omega arith))
            ∙ get_or-set_ne ori q (q + n + 1) _ 0 (omega arith) in
          let left : u32 (len + 2 ^ 32 - (8 * (n + 1) - pos % 8)) ≡ pos % 8 + len - 8 * (n + 1) =
            omega arith in
          unfold cover_tail store in
          ground (
            arith,
            left,
            untouched,
            length-mid,
            get_elem?-eq-get_or value n 0,
            get_elem?-eq-get_or value (n + 1) 0,
            get_elem?-eq-get_or mid (q + n + 1) 0,
          )

    cover_many_enters :
        8 ≤ len
        → len < 2 ^ 16
        → cover_many ori value pos len ≡ (
            cover_loop value (pos % 8) (len - 8) (length ori) begun (pos / 8) 0 (8 - pos % 8)
            >>= cover_tail value (pos % 8) len)
    cover_many_enters long w =
        let bound : cover_bound len ≡ len - 8 = unfold cover_bound in omega arith in
        unfold cover_many store in
        rw bound
          (ground (arith, get_elem?-eq-get_or ori (pos / 8) 0, get_elem?-eq-get_or value 0 0))

    cover_many-IsCovered :
        8 < pos % 8 + len
        → 8 ≤ len
        → len < 2 ^ 16
        → IsPadded value len
        → (out : List ℕ) × (cover_many ori value pos len ≡ some out)
          × IsCovered ori value pos len out
    cover_many-IsCovered wide long w padded =
        let q = pos / 8 in
        let px = pos % 8 in
        let n = rounds in
        let (mid, runs, looped) =
          cover_loop-IsLooped value px (len - 8) q n (length ori) begun q 0 (8 - px) n (omega arith)
            (omega arith) (omega arith) (omega arith) (omega arith) (omega arith) (omega arith)
            (omega arith) (omega arith)
            (omega (arith, length-set ori q (first_byte (get_or ori q 0) (get_or value 0 0) px))) in
        (
          ended mid,
          cover_many_enters long w
              ∙ ap (λ t. t >>= cover_tail value (pos % 8) len) runs
              ∙ cover_tail_lem wide long w padded mid looped,
          IsCovered-of_bytes (ended mid)
              (length-set mid _ _ ∙ length-mid wide long w padded mid looped)
              (mbit-ended wide long w padded mid looped)
              (λ b.
                IsBytes-set mid _ _ (omega arith)
                  (IsLooped-IsBytes looped (IsBytes-set ori _ _ (omega arith) b))),
        )

    -- For a field within one byte, or of at least 8 bits, a value of bytes that is zero behind the
    -- field up to a full byte and reaches as far as the shifted field, and data that holds the
    -- field, `pofbf_cover_bit` makes no access out of range, replaces exactly the bits of the field
    -- by the leading bits of the value, and keeps the length and every other bit.
    pub cover_bit-IsCovered :
        (pos % 8 + len ≤ 8) ⊎ (8 ≤ len)
        → len < 2 ^ 16
        → IsPadded value len
        → (out : List ℕ) × (cover_bit ori value pos len ≡ some out)
          × IsCovered ori value pos len out
    cover_bit-IsCovered shape w padded = elim (Bool-cases (leb len (8 - pos % 8))) [
      | inl e ↦
          let (out, runs, c) = cover_one-IsCovered (ground arith) in
          (out, unfold cover_bit in rw e runs, c)
      | inr e ↦
          let (out, runs, c) = cover_many-IsCovered (ground arith) (ground arith) w padded in
          (out, unfold cover_bit in rw e runs, c)
    ]
