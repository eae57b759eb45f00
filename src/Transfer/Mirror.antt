-- ===== src/Transfer/Mirror.antt =====
-- A field that is swapped is mirrored in its place: the bytes of a message after a conversion.
use pofswitch.Base.{
  ℕ, ◌+◌, ◌-◌, ◌*◌, ◌≤◌, ◌≡◌, refl, ap, ◌∙◌, arith, Bool, true, false, some, List, [], ◌∷◌, ◌++◌,
  leb, ltb, leb-true, not, ◌&&◌, ◌||◌, if◌then◌else◌, length, get_or, take, drop, length-append,
  length-take, length-drop, get_or-append, get_or-take, get_or-drop, Bool-cases, inl, inr,
}
use pofswitch.Field.Bits.{IsBytes, IsBytes-append, IsBytes-take, IsBytes-drop}
use pofswitch.Transfer.{Field, place, width, converted, transfer_field, run}
use pofswitch.Transfer.Bytes.{converted-IsSwapped}

abbrev in_span : ℕ → ℕ → ℕ → Bool
in_span at n j = leb at j && ltb j (at + n)

abbrev pub in_field : Field → ℕ → Bool
in_field f j = in_span (place f) (width f) j

-- Where a byte of the message comes from when a field is swapped, and when fields are in their order.
abbrev mirrored : ℕ → ℕ → ℕ → ℕ
mirrored at n j = if in_span at n j then 2 * at + n - 1 - j else j

abbrev pub mirror : Field → ℕ → ℕ
mirror f j = mirrored (place f) (width f) j

abbrev pub mirror_all : List Field → ℕ → ℕ
mirror_all [] j = j
mirror_all (f ∷ fs) j = mirror f (mirror_all fs j)

-- A conversion that moves the bytes of a message and does nothing else.
pub record IsMoved (from : ℕ → ℕ) (buf out : List ℕ) : Type 0 where
  pub same_length : length out ≡ length buf
  pub bytes : IsBytes out
  pub moves : (j : ℕ) → get_or out j 0 ≡ get_or buf (from j) 0

get_or-spliced :
    (buf mid : List ℕ) (at n j : ℕ)
    → length mid ≡ n
    → at + n ≤ length buf
    → get_or (take at buf ++ (mid ++ drop (at + n) buf)) j 0
      ≡ (if leb at j && ltb j (at + n) then get_or mid (j - at) 0 else get_or buf j 0)
get_or-spliced buf mid at n j w h = elim (Bool-cases (ltb j at)) [
  | inl e ↦
      get_or-append (take at buf) (mid ++ drop (at + n) buf) j 0
      ∙ ground (arith, length-take at buf, get_or-take at buf j 0)
  | inr e ↦
      get_or-append (take at buf) (mid ++ drop (at + n) buf) j 0
      ∙ ground (
        arith,
        length-take at buf,
        get_or-append mid (drop (at + n) buf) (j - at) 0,
        get_or-drop (at + n) buf (j - at - n) 0,
        ap (λ t. get_or buf t 0) {x = at + n + (j - at - n)}
            {y = if leb (at + n) j then j else at + n} (ground arith),
        ap (λ t. get_or mid (j - t) 0) (length-take at buf (omega arith)),
        ap (λ t. get_or (mid ++ drop (at + n) buf) (j - t) 0) (length-take at buf (omega arith)),
        ap (λ t. get_or (drop (at + n) buf) (j - at - t) 0) w,
      )
]

transfer_field-IsMoved :
    (f : Field) (buf : List ℕ)
    → IsBytes buf
    → place f + width f ≤ length buf
    → (out : List ℕ) × (transfer_field f buf ≡ some out) × IsMoved (mirror f) buf out
unfolding transfer_field
transfer_field-IsMoved f buf b h =
    let front = take (place f) buf in
    let mid = converted f buf in
    let back = drop (place f + width f) buf in
    let s = converted-IsSwapped f buf b in
    (
      front ++ (mid ++ back),
      rw (leb-true (place f + width f) (length buf) h) refl,
      record {
        same_length = omega (
          arith,
          length-append front (mid ++ back),
          length-append mid back,
          s.same_width,
          length-take (place f) buf (omega arith),
          length-drop (place f + width f) buf,
        );
        bytes =
            IsBytes-append front (mid ++ back) (IsBytes-take (place f) buf b)
              (IsBytes-append mid back s.bytes (IsBytes-drop (place f + width f) buf b));
        moves = λ j.
            get_or-spliced buf mid (place f) (width f) j s.same_width h
            ∙ elim (Bool-cases (in_field f j)) [
              | inl e ↦
                  rw (e, s.swaps (j - place f) (ground arith))
                    (ap (λ t. get_or buf t 0) (ground arith))
              | inr e ↦ rw e refl
            ];
      },
    )

-- Whether every field ends within `n` bytes.
abbrev pub all_within : ℕ → List Field → Bool
all_within n [] = true
all_within n (f ∷ fs) = leb (place f + width f) n && all_within n fs

-- Whether no byte is in two fields.
abbrev is_apart_span : ℕ → ℕ → ℕ → ℕ → Bool
is_apart_span at n at' n' = leb (at + n) at' || leb (at' + n') at

abbrev pub is_apart : Field → Field → Bool
is_apart f g = is_apart_span (place f) (width f) (place g) (width g)

abbrev pub apart_from : Field → List Field → Bool
apart_from f [] = true
apart_from f (g ∷ gs) = is_apart f g && apart_from f gs

abbrev pub all_apart : List Field → Bool
all_apart [] = true
all_apart (f ∷ fs) = apart_from f fs && all_apart fs

pub run-IsMoved :
    (fs : List Field) (buf : List ℕ)
    → IsBytes buf
    → all_within (length buf) fs ≡ true
    → (out : List ℕ) × (run fs buf ≡ some out) × IsMoved (mirror_all fs) buf out
unfolding run
run-IsMoved [] buf b h = (buf, refl, record { same_length = refl; bytes = b; moves = λ j. refl })
run-IsMoved (f ∷ fs) buf b h =
    let (mid, first, m) = transfer_field-IsMoved f buf b (ground arith) in
    let (out, rest, n) =
      run-IsMoved fs mid m.bytes (ap (λ t. all_within t fs) m.same_length ∙ ground arith) in
    (
      out,
      rw first rest,
      record {
        same_length = n.same_length ∙ m.same_length;
        bytes = n.bytes;
        moves = λ j. n.moves j ∙ m.moves (mirror_all fs j);
      },
    )

-- A byte outside of the fields stays where it is.
abbrev pub outside : List Field → ℕ → Bool
outside [] j = true
outside (f ∷ fs) j = not (in_field f j) && outside fs j

pub mirror_all-outside : (fs : List Field) (j : ℕ) → outside fs j ≡ true → mirror_all fs j ≡ j
mirror_all-outside [] j h = refl
mirror_all-outside (f ∷ fs) j h =
    ap (mirror f) (mirror_all-outside fs j (ground arith)) ∙ ground arith

stays_out :
    (at n at' n' j : ℕ)
    → is_apart_span at n at' n' ≡ true
    → in_span at n j ≡ false
    → in_span at n (mirrored at' n' j) ≡ false
stays_out at n at' n' j a h = ground arith

is_out :
    (at n at' n' j : ℕ)
    → is_apart_span at n at' n' ≡ true
    → in_span at n j ≡ true
    → in_span at' n' j ≡ false
is_out at n at' n' j a h = ground arith

stays_in : (at n j : ℕ) → in_span at n j ≡ true → in_span at n (mirrored at n j) ≡ true
stays_in at n j h = ground arith

mirrored-mirrored : (at n j : ℕ) → mirrored at n (mirrored at n j) ≡ j
mirrored-mirrored at n j = ground arith

and_true : (a b : Bool) → (a && b) ≡ true → (a ≡ true) × (b ≡ true)
and_true true b h = (refl, h)
and_true false b h = absurd (ground arith)

in_apart :
    (f : Field) (fs : List Field) (j : ℕ)
    → apart_from f fs ≡ true
    → in_field f j ≡ true
    → outside fs j ≡ true
in_apart f [] j a h = refl
in_apart f (g ∷ gs) j a h =
    let (x, y) = and_true (is_apart f g) (apart_from f gs) a in
    rw (is_out (place f) (width f) (place g) (width g) j x h, in_apart f gs j y h) refl

out_apart :
    (f : Field) (fs : List Field) (j : ℕ)
    → apart_from f fs ≡ true
    → in_field f j ≡ false
    → in_field f (mirror_all fs j) ≡ false
out_apart f [] j a h = h
out_apart f (g ∷ gs) j a h =
    let (x, y) = and_true (is_apart f g) (apart_from f gs) a in
    stays_out (place f) (width f) (place g) (width g) (mirror_all gs j) x (out_apart f gs j y h)

mirror_out : (f : Field) (j : ℕ) → in_field f j ≡ false → mirror f j ≡ j
mirror_out f j h = rw h refl

kept :
    (f : Field) (fs : List Field) (j : ℕ)
    → apart_from f fs ≡ true
    → in_field f j ≡ true
    → mirror_all fs j ≡ j
kept f fs j a h = mirror_all-outside fs j (in_apart f fs j a h)

-- Fields that are apart are in their order again after two conversions.
pub mirror_all-mirror_all :
    (fs : List Field) (j : ℕ) → all_apart fs ≡ true → mirror_all fs (mirror_all fs j) ≡ j
mirror_all-mirror_all [] j a = refl
mirror_all-mirror_all (f ∷ fs) j a =
    let (x, y) = and_true (apart_from f fs) (all_apart fs) a in
    elim (Bool-cases (in_field f j)) [
      | inl e ↦
          ap (λ t. mirror f (mirror_all fs (mirror f t))) (kept f fs j x e)
          ∙ ap (mirror f) (kept f fs (mirror f j) x (stays_in (place f) (width f) j e))
          ∙ mirrored-mirrored (place f) (width f) j
      | inr e ↦
          ap (λ t. mirror f (mirror_all fs t))
            (mirror_out f (mirror_all fs j) (out_apart f fs j x e))
          ∙ ap (mirror f) (mirror_all-mirror_all fs j y)
          ∙ mirror_out f j e
    ]
