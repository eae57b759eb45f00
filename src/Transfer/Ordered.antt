-- ===== src/Transfer/Ordered.antt =====
-- The conversion of an action, done twice: its length tells the order that it is in.
use pofswitch.Base.{
  ℕ, ◌<◌, ◌≡◌, ◌⊎◌, refl, sym, ap, ◌∙◌, arith, Bool, true, false, Option, none, some, List, [], ◌∷◌,
  ◌++◌, leb, ltb, ◌==◌, ◌&&◌, if◌then◌else◌, ◌>>=◌, length, get_or, inl, inr, Option-cases,
}
use pofswitch.Field.Bits.{IsBytes}
use pofswitch.ByteOrder.{load16}
use pofswitch.Datapath.Kind.{ActionType, action_type}
use pofswitch.Transfer.{Field, short, long, run, match, value, transfer_field}
use pofswitch.Transfer.Actions.{
  action, action_data, action_head, action_output, action_delete_field, action_set_field,
  action_set_field_from_metadata, action_modify_field, action_add_field, action_calculate_checksum,
  action_number,
}
use pofswitch.Transfer.Mirror.{
  IsMoved, mirror_all, all_within, all_apart, outside, mirror_all-outside, run-IsMoved,
}
use pofswitch.Transfer.Twice.{Turns, run-Turns}

and_true : (a b : Bool) → (a && b) ≡ true → (a ≡ true) × (b ≡ true)
and_true true b h = (refl, h)
and_true false b h = absurd (ground arith)

run-append : (fs gs : List Field) (p : List ℕ) → run (fs ++ gs) p ≡ (run fs p >>= run gs)
unfolding run
run-append [] gs p = refl
run-append (f ∷ fs) gs p = elim (Option-cases (transfer_field f p)) [
  | inl e ↦ rw e refl
  | inr (q, e) ↦ rw e (run-append fs gs q)
]

-- Fields of an action's data: within the action, apart, and neither in its head nor at a byte.
abbrev is_body : ℕ → List Field → Bool
is_body at fs =
    (all_within 48 fs && all_apart fs)
    && ((outside fs 0 && outside fs 1) && ((outside fs 2 && outside fs 3) && outside fs at))

-- A conversion of the data of an action, which leaves its type and its length.
record BodyTurns (f : List ℕ → Option (List ℕ)) (p out : List ℕ) : Type 0 where
  turns : Turns f p out
  same_type : load16 out 0 ≡ load16 p 0
  same_len : load16 out 2 ≡ load16 p 2

stays :
    (hs : List Field) (out p : List ℕ)
    → IsMoved (mirror_all hs) p out
    → (j : ℕ) → outside hs j ≡ true
    → get_or out j 0 ≡ get_or p j 0
stays hs out p m j o = m.moves j ∙ ap (λ i. get_or p i 0) (mirror_all-outside hs j o)

-- The data is converted by one of two lists of fields, which a byte of the action chooses.
chosen_turns :
    (f : List ℕ → Option (List ℕ)) (at : ℕ) (fs gs : List Field)
    → ((q : List ℕ) (b : Bool)
        → IsBytes q
        → length q ≡ 48
        → (get_or q at 0 == 0) ≡ b
        → f q ≡ run (if b then fs else gs) q)
    → is_body at fs ≡ true
    → is_body at gs ≡ true
    → (p : List ℕ) → IsBytes p
    → length p ≡ 48
    → (out : List ℕ) × BodyTurns f p out
unfolding load16
chosen_turns f at fs gs by x y p b e = go (get_or p at 0 == 0) refl
  where
    fits : (c : Bool) → is_body at (if c then fs else gs) ≡ true
    fits true = x
    fits false = y

    go : (c : Bool) → (get_or p at 0 == 0) ≡ c → (out : List ℕ) × BodyTurns f p out
    go c h =
        let hs = if c then fs else gs in
        let (u, v) = and_true (all_within 48 hs && all_apart hs) _ (fits c) in
        let (w, a) = and_true (all_within 48 hs) (all_apart hs) u in
        let (k, l) = and_true (outside hs 0 && outside hs 1) _ v in
        let (o0, o1) = and_true (outside hs 0) (outside hs 1) k in
        let (k', o) = and_true (outside hs 2 && outside hs 3) (outside hs at) l in
        let (o2, o3) = and_true (outside hs 2) (outside hs 3) k' in
        let (out, t, m) = run-Turns hs p b (ap (λ n. all_within n hs) e ∙ w) a in
        (
          out,
          record {
            turns = record {
              there = by p c b e h ∙ t.there;
              back =
                  by out c t.bytes (t.same_length ∙ e)
                    (ap (λ i. i == 0) (stays hs out p m at o) ∙ h)
                  ∙ t.back;
              same_length = t.same_length;
              bytes = t.bytes;
            };
            same_type = omega (arith, stays hs out p m 0 o0, stays hs out p m 1 o1);
            same_len = omega (arith, stays hs out p m 2 o2, stays hs out p m 3 o3);
          },
        )

fixed_turns :
    (fs : List Field)
    → is_body 0 fs ≡ true
    → (p : List ℕ) → IsBytes p
    → length p ≡ 48
    → (out : List ℕ) × BodyTurns (run fs) p out
fixed_turns fs x p b e = chosen_turns (run fs) 0 fs fs (λ q c b e h. both c q) x x p b e
  where
    both : (c : Bool) (q : List ℕ) → run fs q ≡ run (if c then fs else fs) q
    both true q = refl
    both false q = refl

unchanged_turns : (p : List ℕ) → IsBytes p → (out : List ℕ) × BodyTurns (λ q. some q) p out
unchanged_turns p b = (
  p,
  record {
    turns = record { there = refl; back = refl; same_length = refl; bytes = b };
    same_type = refl;
    same_len = refl;
  },
)

abbrev output_rest : List Field
output_rest = short 6 ∷ short 8 ∷ short 10 ∷ []

output_by :
    (q : List ℕ) (b : Bool)
    → IsBytes q
    → length q ≡ 48
    → (get_or q 4 0 == 0) ≡ b
    → action_output q ≡ run (if b then long 12 ∷ output_rest else match 12 ++ output_rest) q
unfolding action_output value
output_by q true c e h = rw h (sym (run-append (long 12 ∷ []) output_rest q))
output_by q false c e h = rw h (sym (run-append (match 12) output_rest q))

-- The kind of the length stands behind what is swapped first.
delete_by :
    (q : List ℕ) (b : Bool)
    → IsBytes q
    → length q ≡ 48
    → (get_or q 6 0 == 0) ≡ b
    → action_delete_field q ≡ run (if b then short 4 ∷ long 12 ∷ [] else short 4 ∷ match 12) q
unfolding action_delete_field value
delete_by q b c e h =
    let (mid, first, m) =
      run-IsMoved (short 4 ∷ []) q c (ap (λ t. all_within t (short 4 ∷ [])) e) in
    let kind = ap (λ i. i == 0) (stays (short 4 ∷ []) mid q m 6 refl) ∙ h in
    rw first (next b mid kind ∙ sym (joined b mid first))
  where
    rest : Bool → List Field
    rest true = long 12 ∷ []
    rest false = match 12

    next : (b : Bool) (mid : List ℕ) → (get_or mid 6 0 == 0) ≡ b → value 6 12 mid ≡ run (rest b) mid
    next true mid k = rw k refl
    next false mid k = rw k refl

    joined :
        (b : Bool) (mid : List ℕ)
        → run (short 4 ∷ []) q ≡ some mid
        → run (if b then short 4 ∷ long 12 ∷ [] else short 4 ∷ match 12) q ≡ run (rest b) mid
    joined true mid f = run-append (short 4 ∷ []) (long 12 ∷ []) q ∙ rw f refl
    joined false mid f = run-append (short 4 ∷ []) (match 12) q ∙ rw f refl

data_turns :
    (t : Option ActionType) (p : List ℕ)
    → IsBytes p
    → length p ≡ 48
    → (out : List ℕ) × BodyTurns (action_data t) p out
unfolding action_data
data_turns none p b e = unchanged_turns p b
data_turns (some ActionType.output) p b e =
    chosen_turns action_output 4 (long 12 ∷ output_rest) (match 12 ++ output_rest) output_by refl
      refl p b e
data_turns (some ActionType.set_field) p b e = fixed_turns action_set_field refl p b e
data_turns (some ActionType.set_field_from_metadata) p b e =
    fixed_turns action_set_field_from_metadata refl p b e
data_turns (some ActionType.modify_field) p b e = fixed_turns action_modify_field refl p b e
data_turns (some ActionType.add_field) p b e = fixed_turns action_add_field refl p b e
data_turns (some ActionType.delete_field) p b e =
    chosen_turns action_delete_field 6 (short 4 ∷ long 12 ∷ []) (short 4 ∷ match 12) delete_by refl
      refl p b e
data_turns (some ActionType.calculate_checksum) p b e =
    fixed_turns action_calculate_checksum refl p b e
data_turns (some ActionType.group) p b e = fixed_turns action_number refl p b e
data_turns (some ActionType.drop) p b e = fixed_turns action_number refl p b e
data_turns (some ActionType.packet_in) p b e = fixed_turns action_number refl p b e
data_turns (some ActionType.counter) p b e = fixed_turns action_number refl p b e
data_turns (some ActionType.experimenter) p b e = unchanged_turns p b

-- The length of an action in the order of the machine: 1 to 255 bytes.
abbrev pub is_short : ℕ → Bool
is_short len = ltb 0 len && leb len 255

-- The two branches of `action`.
in_network :
    (p : List ℕ)
    → ltb 255 (load16 p 2) ≡ true
    → action p ≡ (run action_head p >>= (λ q. action_data (action_type (load16 q 0)) q))
unfolding action
in_network p h = rw h refl

in_machine :
    (p : List ℕ)
    → ltb 255 (load16 p 2) ≡ false
    → action p ≡ (action_data (action_type (load16 p 0)) p >>= run action_head)
unfolding action
in_machine p h = rw h refl

-- The length of an action is 1 to 255 bytes, in the order of the network or in that of the machine.
abbrev pub IsOrdered : List ℕ → Type 0
IsOrdered p =
    (is_short (get_or p 2 0) ≡ true) × (get_or p 3 0 ≡ 0)
    ⊎ (is_short (get_or p 3 0) ≡ true) × (get_or p 2 0 ≡ 0)

-- An action whose length is ordered is recognised to be in its order, whatever its type is.
pub action-Turns :
    (p : List ℕ) → IsBytes p → length p ≡ 48 → IsOrdered p → (out : List ℕ) × Turns action p out
unfolding load16
action-Turns p b e (inl (s, z)) =
    let (q, t) = data_turns (action_type (load16 p 0)) p b e in
    let (out, u, m) = run-Turns action_head q t.turns.bytes (within q t.turns.same_length) refl in
    (
      out,
      record {
        there = in_machine p (ground (arith, b 2)) ∙ rw (t.turns.there, u.there) refl;
        back =
            in_network out (len_out q out m t.same_len (t.turns.bytes 2) (t.turns.bytes 3))
            ∙ rw (u.back, t.same_type) t.turns.back;
        same_length = u.same_length ∙ t.turns.same_length;
        bytes = u.bytes;
      },
    )
  where
    within : (q : List ℕ) → length q ≡ length p → all_within (length q) action_head ≡ true
    within q l = ap (λ n. all_within n action_head) (l ∙ e)

    len_out :
        (q out : List ℕ)
        → IsMoved (mirror_all action_head) q out
        → load16 q 2 ≡ load16 p 2
        → get_or q 2 0 < 256
        → get_or q 3 0 < 256
        → ltb 255 (load16 out 2) ≡ true
    len_out q out m l x y = ground (arith, m.moves 2, m.moves 3)
action-Turns p b e (inr (s, z)) =
    let (q, u, m) = run-Turns action_head p b (ap (λ n. all_within n action_head) e) refl in
    let (out, t) = data_turns (action_type (load16 q 0)) q u.bytes (u.same_length ∙ e) in
    (
      out,
      record {
        there = in_network p (ground (arith, b 3)) ∙ rw u.there t.turns.there;
        back = in_machine out (len_out q out m t.same_len) ∙ rw (t.same_type, t.turns.back) u.back;
        same_length = t.turns.same_length ∙ u.same_length;
        bytes = t.turns.bytes;
      },
    )
  where
    len_out :
        (q out : List ℕ)
        → IsMoved (mirror_all action_head) p q
        → load16 out 2 ≡ load16 q 2
        → ltb 255 (load16 out 2) ≡ false
    len_out q out m l = ground (arith, m.moves 2, m.moves 3, b 3)
