-- ===== src/Transfer/InOrder.antt =====
-- The conversions of messages in common/pof_byte_transfer.c against the structures of
-- include/pof_global.h.
use pofswitch.Base.{
  ℕ, zero, suc, ◌+◌, ◌-◌, ◌≤◌, ◌<◌, ◌≡◌, refl, sym, ap, ◌∙◌, Bool, true, false, some, List, [], ◌∷◌,
  ◌++◌, arith, length, get_or, get_or_ext, take, drop, ltb, ◌==◌, ==_iff, if◌then◌else◌, Bool-cases,
  inl, inr, holds_below, holds_below-elim, length-append, length-take, length-drop, get_or-append,
  get_or-take, get_or-drop,
}
use pofswitch.Field.Bits.{IsBytes}
use pofswitch.Transfer.{run}
use pofswitch.Transfer.Messages.{
  Message, of_error, of_packet_in, of_header, of_port, of_port_status, of_flow_table, of_meter,
  of_counter, of_switch_features, of_flow_table_resource, of_switch_config, of_queryall_request,
  fields, size,
}
use pofswitch.Transfer.Layouts.{Member, raw, number, layout, backwards, in_order}
use pofswitch.Transfer.Mirror.{mirror_all, all_within}
use pofswitch.Transfer.Twice.{run-Turns, fields_within, fields_apart}

-- Where a byte of the message in the other order comes from, and the bytes of the members.
abbrev moved_from : ℕ → Bool → ℕ → ℕ → ℕ
moved_from n swapped rest j = if ltb j n then (if swapped then n - 1 - j else j) else n + rest

abbrev origin : List Member → ℕ → ℕ
origin [] j = j
origin (raw n ∷ ms) j = moved_from n false (origin ms (j - n)) j
origin (number n ∷ ms) j = moved_from n true (origin ms (j - n)) j

abbrev total : List Member → ℕ
total [] = 0
total (raw n ∷ ms) = n + total ms
total (number n ∷ ms) = n + total ms

length-backwards : (n : ℕ) (buf : List ℕ) → length (backwards n buf) ≡ n
length-backwards zero buf = refl
length-backwards (suc n) buf = ap suc (length-backwards n buf)

get_or-backwards :
    (n : ℕ) (buf : List ℕ) (j : ℕ) → j < n → get_or (backwards n buf) j 0 ≡ get_or buf (n - 1 - j) 0
get_or-backwards zero buf j h = absurd (omega arith)
get_or-backwards (suc n) buf zero h = ap (λ t. get_or buf t 0) (omega arith)
get_or-backwards (suc n) buf (suc j) h =
    get_or-backwards n buf j (omega arith) ∙ ap (λ t. get_or buf t 0) (omega arith)

length-in_order :
    (ms : List Member) (buf : List ℕ)
    → total ms ≤ length buf
    → length (in_order ms buf) ≡ length buf
length-in_order [] buf h = refl
length-in_order (raw n ∷ ms) buf h = omega (
  arith,
  length-append (take n buf) (in_order ms (drop n buf)),
  length-take n buf (omega arith),
  length-drop n buf,
  length-in_order ms (drop n buf) (omega (arith, length-drop n buf)),
)
length-in_order (number n ∷ ms) buf h = omega (
  arith,
  length-append (backwards n buf) (in_order ms (drop n buf)),
  length-backwards n buf,
  length-drop n buf,
  length-in_order ms (drop n buf) (omega (arith, length-drop n buf)),
)

-- A member in front of the others.
get_or-member :
    (n : ℕ) (swapped : Bool) (front rest buf : List ℕ) (from : ℕ → ℕ) (j : ℕ)
    → length front ≡ n
    → (j < n → get_or front j 0 ≡ get_or buf (if swapped then n - 1 - j else j) 0)
    → get_or rest (j - n) 0 ≡ get_or (drop n buf) (from (j - n)) 0
    → get_or (front ++ rest) j 0 ≡ get_or buf (moved_from n swapped (from (j - n)) j) 0
get_or-member n swapped front rest buf from j w a b =
    get_or-append front rest j 0 ∙ elim (Bool-cases (ltb j n)) [
      | inl e ↦ rw (w, e) (a (ground arith))
      | inr e ↦ rw (w, e) (b ∙ get_or-drop n buf (from (j - n)) 0)
    ]

get_or-in_order :
    (ms : List Member) (buf : List ℕ) (j : ℕ)
    → total ms ≤ length buf
    → get_or (in_order ms buf) j 0 ≡ get_or buf (origin ms j) 0
get_or-in_order [] buf j h = refl
get_or-in_order (raw n ∷ ms) buf j h =
    get_or-member n false (take n buf) (in_order ms (drop n buf)) buf (origin ms) j
      (length-take n buf (omega arith)) (get_or-take n buf j 0)
      (get_or-in_order ms (drop n buf) (j - n) (omega (arith, length-drop n buf)))
get_or-in_order (number n ∷ ms) buf j h =
    get_or-member n true (backwards n buf) (in_order ms (drop n buf)) buf (origin ms) j
      (length-backwards n buf) (get_or-backwards n buf j)
      (get_or-in_order ms (drop n buf) (j - n) (omega (arith, length-drop n buf)))

get_or-behind : (xs : List ℕ) (j : ℕ) → length xs ≤ j → get_or xs j 0 ≡ 0
get_or-behind [] j h = refl
get_or-behind (x ∷ xs) zero h = absurd (omega arith)
get_or-behind (x ∷ xs) (suc j) h = get_or-behind xs j (omega arith)

-- The fields that the code swaps are the numbers of the structure.
abbrev IsComplete : Message → Type 0
IsComplete m = holds_below (λ j. mirror_all (fields m) j == origin (layout m) j) (size m) ≡ true

complete : (m : Message) → IsComplete m
unfolding holds_below
complete of_error = refl
complete of_packet_in = refl
complete of_header = refl
complete of_port = refl
complete of_port_status = refl
complete of_flow_table = refl
complete of_meter = refl
complete of_counter = refl
complete of_switch_features = refl
complete of_flow_table_resource = refl
complete of_switch_config = refl
complete of_queryall_request = refl

whole : (m : Message) → total (layout m) ≡ size m
whole of_error = refl
whole of_packet_in = refl
whole of_header = refl
whole of_port = refl
whole of_port_status = refl
whole of_flow_table = refl
whole of_meter = refl
whole of_counter = refl
whole of_switch_features = refl
whole of_flow_table_resource = refl
whole of_switch_config = refl
whole of_queryall_request = refl

-- A message of any of the kinds whose fields have fixed places, of bytes and of the length of its
-- structure, is converted to the message with the bytes of each number of the structure in the other
-- order and nothing else changed; and that message is converted to the one that it was.
pub run-in_order :
    (m : Message) (buf : List ℕ)
    → IsBytes buf
    → length buf ≡ size m
    → (run (fields m) buf ≡ some (in_order (layout m) buf))
      × (run (fields m) (in_order (layout m) buf) ≡ some buf)
run-in_order m buf b e =
    let (out, t, moved) =
      run-Turns (fields m) buf b (ap (λ t. all_within t (fields m)) e ∙ fields_within m)
        (fields_apart m) in
    let fits : total (layout m) ≤ length buf = omega (arith, whole m) in
    let same_length : length (in_order (layout m) buf) ≡ length buf =
      length-in_order (layout m) buf fits in
    let same : out ≡ in_order (layout m) buf =
      get_or_ext 0 out (in_order (layout m) buf) (t.same_length ∙ sym same_length) (λ j.
        elim (Bool-cases (ltb j (size m))) [
          | inl l ↦
              moved.moves j
              ∙ ap (λ i. get_or buf i 0)
                  ((==_iff _ _).0 (holds_below-elim _ (size m) j (complete m) (ground arith)))
              ∙ sym (get_or-in_order (layout m) buf j fits)
          | inr l ↦
              get_or-behind out j (ground (arith, t.same_length))
              ∙ sym (get_or-behind (in_order (layout m) buf) j (ground (arith, same_length)))
        ]) in
    (t.there ∙ ap some same, ap (run (fields m)) (sym same) ∙ t.back)
