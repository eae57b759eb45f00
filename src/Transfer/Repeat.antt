-- ===== src/Transfer/Repeat.antt =====
-- The actions of a group, converted twice.
use pofswitch.Base.{
  ℕ, zero, suc, ◌+◌, ◌-◌, ◌*◌, ◌<◌, ◌≤◌, ◌≡◌, ◌⊎◌, refl, sym, ap, ◌∙◌, arith, true, some, List, [],
  ◌∷◌, ◌++◌, ltb, length, get_or, take, drop, replicate, inl, inr, length-append, length-take,
  length-drop, get_or_ext, get_or-append, get_or-take, get_or-drop, Bool-cases, if◌then◌else◌,
}
use pofswitch.Field.Bits.{IsBytes, IsBytes-append, IsBytes-take, IsBytes-drop}
use pofswitch.Transfer.Actions.{action, actions}
use pofswitch.ByteOrder.{load16, load32, bytes16, bytes32, htons, htonl}
use pofswitch.Datapath.Kind.{action_type}
use pofswitch.Transfer.{Field, short, long, run, value, converted, transfer_field}
use pofswitch.Transfer.Instructions.{group, from_place}
use pofswitch.Transfer.Mirror.{IsMoved, mirror_all, all_within, mirror_all-mirror_all}
use pofswitch.Transfer.Twice.{Turns, run-Turns}
use pofswitch.Transfer.Ordered.{IsOrdered, action-Turns}

pub take-drop : {A : Type 0} (n : ℕ) (xs : List A) → take n xs ++ drop n xs ≡ xs
take-drop zero xs = refl
take-drop (suc n) [] = refl
take-drop (suc n) (x ∷ xs) = ap (λ t. x ∷ t) (take-drop n xs)

pub take-append : {A : Type 0} (n : ℕ) (xs ys : List A) → length xs ≡ n → take n (xs ++ ys) ≡ xs
take-append zero [] ys e = refl
take-append zero (x ∷ xs) ys e = absurd (omega arith)
take-append (suc n) [] ys e = absurd (omega arith)
take-append (suc n) (x ∷ xs) ys e = ap (λ t. x ∷ t) (take-append n xs ys (omega arith))

pub drop-append : {A : Type 0} (n : ℕ) (xs ys : List A) → length xs ≡ n → drop n (xs ++ ys) ≡ ys
drop-append zero [] ys e = refl
drop-append zero (x ∷ xs) ys e = absurd (omega arith)
drop-append (suc n) [] ys e = absurd (omega arith)
drop-append (suc n) (x ∷ xs) ys e = drop-append n xs ys (omega arith)

-- An action with a length, or a place of the array that is not used.
abbrev pub IsEntry : List ℕ → Type 0
IsEntry p = IsOrdered p ⊎ (p ≡ replicate 48 0)

zeros_action : action (replicate 48 0) ≡ some (replicate 48 0)
unfolding action action_type run value transfer_field converted bytes16 bytes32 htons htonl load16
    load32
zeros_action = refl

entry-Turns :
    (p : List ℕ) → IsBytes p → length p ≡ 48 → IsEntry p → (out : List ℕ) × Turns action p out
entry-Turns p b e (inl o) = action-Turns p b e o
entry-Turns p b e (inr z) =
    (p, record { there = still; back = still; same_length = refl; bytes = b })
  where
    still : action p ≡ some p
    still = rw z zeros_action

-- The first `n` actions of a list of bytes.
abbrev pub AllEntries : ℕ → List ℕ → Type 0
AllEntries zero p = p ≡ p
AllEntries (suc n) p = IsEntry (take 48 p) × AllEntries n (drop 48 p)

actions-Turns :
    (n : ℕ) (p : List ℕ)
    → IsBytes p
    → 48 * n ≤ length p
    → AllEntries n p
    → (out : List ℕ) × Turns (actions n) p out
unfolding actions
actions-Turns zero p b h a =
    (p, record { there = refl; back = refl; same_length = refl; bytes = b })
actions-Turns (suc n) p b h (x, xs) =
    let (first, t) =
      entry-Turns (take 48 p) (IsBytes-take 48 p b) (length-take 48 p (omega arith)) x in
    let (rest, u) =
      actions-Turns n (drop 48 p) (IsBytes-drop 48 p b) (omega (arith, length-drop 48 p)) xs in
    let whole = t.same_length ∙ length-take 48 p (omega arith) in
    (
      first ++ rest,
      record {
        there = rw (t.there, u.there) refl;
        back =
            rw (take-append 48 first rest whole, drop-append 48 first rest whole, t.back, u.back)
              (ap some (take-drop 48 p));
        same_length =
            omega (arith, length-append first rest, whole, u.same_length, length-drop 48 p);
        bytes = IsBytes-append first rest t.bytes u.bytes;
      },
    )

abbrev group_fields : List Field
group_fields = long 4 ∷ long 8 ∷ short 12 ∷ []

-- Bytes in front of the actions come from in front of them, and the others stay.
front : (j : ℕ) → j < 16 → mirror_all group_fields j < 16
front j h = ground arith

behind : (j : ℕ) → 16 ≤ j → mirror_all group_fields j ≡ j
behind j h = ground arith

front_bytes :
    (x rest : List ℕ) (j : ℕ)
    → 16 ≤ length x
    → get_or (take 16 x ++ rest) j 0 ≡ (if ltb j 16 then get_or x j 0 else get_or rest (j - 16) 0)
front_bytes x rest j h = elim (Bool-cases (ltb j 16)) [
  | inl e ↦
      rw e (
        get_or-append (take 16 x) rest j 0 ∙ ground (arith, length-take 16 x, get_or-take 16 x j 0))
  | inr e ↦ rw e (
      get_or-append (take 16 x) rest j 0
      ∙ ground (arith, length-take 16 x, ap (λ t. get_or rest (j - t) 0) (length-take 16 x h)))
]

ltb-true : (a b : ℕ) → a < b → ltb a b ≡ true
ltb-true a b h = ground arith

-- The fields in front are converted back whatever the actions are now.
same_front :
    (p q s rest : List ℕ)
    → IsMoved (mirror_all group_fields) p q
    → IsMoved (mirror_all group_fields) (take 16 q ++ rest) s
    → 16 ≤ length p
    → s ≡ take 16 p ++ rest
same_front p q s rest m n h = get_or_ext 0 s (take 16 p ++ rest) lengths bytes
  where
    h' : 16 ≤ length q
    h' = omega (arith, m.same_length)

    lengths : length s ≡ length (take 16 p ++ rest)
    lengths = omega (
      arith,
      n.same_length,
      length-append (take 16 q) rest,
      length-append (take 16 p) rest,
      length-take 16 p h,
      length-take 16 q h',
    )

    from : ℕ → ℕ
    from j = mirror_all group_fields j

    bytes : (j : ℕ) → get_or s j 0 ≡ get_or (take 16 p ++ rest) j 0
    bytes j = n.moves j ∙ front_bytes q rest (from j) h' ∙ elim (Bool-cases (ltb j 16)) [
      | inl e ↦ rw (ltb-true (from j) 16 (front j (ground arith))) (
          m.moves (from j)
          ∙ ap (λ t. get_or p t 0) (mirror_all-mirror_all group_fields j refl)
          ∙ sym (front_bytes p rest j h ∙ rw e refl))
      | inr e ↦
          ap (λ t. if ltb t 16 then get_or q t 0 else get_or rest (t - 16) 0)
            (behind j (ground arith))
          ∙ rw e (sym (front_bytes p rest j h ∙ rw e refl))
    ]

same_behind : (p q : List ℕ) → IsMoved (mirror_all group_fields) p q → drop 16 q ≡ drop 16 p
same_behind p q m =
    get_or_ext 0 (drop 16 q) (drop 16 p)
      (omega (arith, length-drop 16 p, length-drop 16 q, m.same_length))
      λ j.
        get_or-drop 16 q j 0
        ∙ m.moves (16 + j)
        ∙ ap (λ t. get_or p t 0) (behind (16 + j) (omega arith))
        ∙ sym (get_or-drop 16 p j 0)

-- The actions behind the first 16 bytes.
at_actions :
    (q rest : List ℕ)
    → actions 4 (drop 16 q) ≡ some rest
    → from_place 16 (actions 4) q ≡ some (take 16 q ++ rest)
at_actions q rest e = rw e refl

again :
    (p s rest : List ℕ)
    → 16 ≤ length p
    → s ≡ take 16 p ++ rest
    → actions 4 rest ≡ some (drop 16 p)
    → from_place 16 (actions 4) s ≡ some p
again p s rest h e f =
    ap (from_place 16 (actions 4)) e
    ∙ rw
        (
          drop-append 16 (take 16 p) rest (length-take 16 p h),
          take-append 16 (take 16 p) rest (length-take 16 p h),
          f,
        )
        (ap some (take-drop 16 p))

-- A group message of 16 bytes and four actions, each with a length of 1 to 255 bytes in either order or
-- not used and zero, is converted within its bounds, and converted again it is the message that it was.
pub group-group :
    (p : List ℕ)
    → IsBytes p
    → length p ≡ 208
    → AllEntries 4 (drop 16 p)
    → (out : List ℕ) × (group p ≡ some out) × (group out ≡ some p)
unfolding group
group-group p b e a =
    let (q, t, m) = run-Turns group_fields p b (ap (λ n. all_within n group_fields) e) refl in
    let (rest, u) =
      actions-Turns 4 (drop 16 p) (IsBytes-drop 16 p b) (omega (arith, e, length-drop 16 p)) a in
    let out = take 16 q ++ rest in
    let size : length out ≡ 208 = omega (
      arith,
      e,
      t.same_length,
      length-append (take 16 q) rest,
      length-take 16 q,
      u.same_length,
      length-drop 16 p,
    ) in
    let bytes = IsBytes-append (take 16 q) rest (IsBytes-take 16 q t.bytes) u.bytes in
    let (s, v, n) =
      run-Turns group_fields out bytes (ap (λ n. all_within n group_fields) size) refl in
    (
      out,
      rw t.there (at_actions q rest (ap (actions 4) (same_behind p q m) ∙ u.there)),
      rw v.there
          (again p s rest (omega (arith, e)) (same_front p q s rest m n (omega (arith, e))) u.back),
    )
