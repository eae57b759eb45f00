-- ===== src/Datapath/Finish.antt =====
-- The loop over the actions of a packet: it ends when none is a group action, and it ends with the
-- actions of the group when the first is one.
use mathlib.Core.Path.{subst}
use pofswitch.Base.{
  ℕ, zero, suc, ◌^◌, ◌<◌, ◌≡◌, refl, sym, ap, ◌∙◌, Bool, true, false, Option, none, some, List, [],
  ◌∷◌, arith, drop, get_elem?, Bool-cases, inl, inr, ◌==◌, ◌&&◌, ◌||◌, not, if◌then◌else◌,
}
use pofswitch.ByteOrder.{load32}
use pofswitch.Error.{Error, Outcome, done, fault, pof_ok, failed, group_mod_failed, GroupModCode}
use pofswitch.Hmap.{Node}
use pofswitch.Resource.{GroupInfo}
use pofswitch.Resource.Group.{get_group_with_id}
use pofswitch.Resource.Counter.{counter_increase}
use pofswitch.Datapath.Actions.{on_resource}
use pofswitch.Resource.{Action}
use pofswitch.Datapath.{Machine, World, rel_len}
use pofswitch.Datapath.Kind.{ActionType, action_type, action_types}
use pofswitch.Datapath.Execute.{
  Run, and_run, then_run, put_actions, bad_type, execute_action, execute_group, action_round,
  action_execute,
}
use pofswitch.Datapath.Invariant.{IsStep-refl}
use pofswitch.Datapath.Acts.{Acts, succeeds, fails, breaks, IsCounted, execute_action-Acts}

-- The first `n` actions are there, and none of them is a group action.
abbrev pub no_group : ℕ → List Action → Bool
no_group zero act = true
no_group (suc n) [] = false
no_group (suc n) (a ∷ act) = not (a.kind == 7) && no_group n act

abbrev is_group : Option ActionType → Bool
is_group (some ActionType.group) = true
is_group _ = false

not_group : (n : ℕ) → (n == 7) ≡ false → is_group (action_type n) ≡ false
unfolding action_type
not_group n e = elim (Bool-cases (n == 0xffff)) [ inl f ↦ rw f refl | inr f ↦ rw f (go n e) ]
  where
    go : (n : ℕ) → (n == 7) ≡ false → is_group (get_elem? action_types n) ≡ false
    go zero e = refl
    go (suc zero) e = refl
    go (suc (suc zero)) e = refl
    go (suc (suc (suc zero))) e = refl
    go (suc (suc (suc (suc zero)))) e = refl
    go (suc (suc (suc (suc (suc zero))))) e = refl
    go (suc (suc (suc (suc (suc (suc zero)))))) e = refl
    go (suc (suc (suc (suc (suc (suc (suc zero))))))) e = absurd (ground arith)
    go (suc (suc (suc (suc (suc (suc (suc (suc zero)))))))) e = refl
    go (suc (suc (suc (suc (suc (suc (suc (suc (suc zero))))))))) e = refl
    go (suc (suc (suc (suc (suc (suc (suc (suc (suc (suc zero)))))))))) e = refl
    go (suc (suc (suc (suc (suc (suc (suc (suc (suc (suc (suc n))))))))))) e = refl

-- A round without a group action ends.
abbrev Round : World → (Machine → Run) → Action → Machine → Type 0
Round w run a m = (o : Outcome Machine) × (action_round w run a m ≡ some o) × Acts m o

round_lem :
    (w : World) (run : Machine → Run) (a : Action) (m : Machine)
    → (a.kind == 7) ≡ false
    → Round w run a m
unfolding action_round
round_lem w run a m e = go (action_type a.kind) (not_group a.kind e)
  where
    other :
        (t : ActionType)
        → (o : Outcome Machine) × (some (execute_action w t a.action_data m) ≡ some o) × Acts m o
    other t = (execute_action w t a.action_data m, refl, execute_action-Acts w t a.action_data m)

    go :
        (t : Option ActionType)
        → is_group t ≡ false
        → (o : Outcome Machine) × (elim t [
          | none ↦ some (bad_type m)
          | some ActionType.group ↦ execute_group run a.action_data m
          | some t ↦ some (execute_action w t a.action_data m)
        ]
            ≡ some o)
          × Acts m o
    go none e = (bad_type m, refl, fails IsStep-refl)
    go (some ActionType.output) e = other ActionType.output
    go (some ActionType.set_field) e = other ActionType.set_field
    go (some ActionType.set_field_from_metadata) e = other ActionType.set_field_from_metadata
    go (some ActionType.modify_field) e = other ActionType.modify_field
    go (some ActionType.add_field) e = other ActionType.add_field
    go (some ActionType.delete_field) e = other ActionType.delete_field
    go (some ActionType.calculate_checksum) e = other ActionType.calculate_checksum
    go (some ActionType.group) e = absurd (ground arith)
    go (some ActionType.drop) e = other ActionType.drop
    go (some ActionType.packet_in) e = other ActionType.packet_in
    go (some ActionType.counter) e = other ActionType.counter
    go (some ActionType.experimenter) e = other ActionType.experimenter

abbrev Ended : Run → Type 0
Ended r = (o : Outcome Machine) × (r ≡ some o)

Ended-if :
    (b : Bool) {x y : Run}
    → (b ≡ true → Ended x)
    → (b ≡ false → Ended y)
    → Ended (if b then x else y)
Ended-if true p q = p refl
Ended-if false p q = q refl

-- The loop after a round that ended.
Ended-and_run :
    {m : Machine} {o : Outcome Machine} {again : Machine → Run}
    → Acts m o
    → ((n : Machine) → IsCounted m.packet n.packet → Ended (again n))
    → Ended (and_run (some o) again)
Ended-and_run (succeeds {n} s c) k = k n c
Ended-and_run (fails {e} {n} s) k = (done (failed e) n, refl)
Ended-and_run breaks k = (fault, refl)

next_ends :
    (w : World) (again : Machine → Run) (m : Machine) (n : ℕ) (act : List Action)
    → no_group (suc n) act ≡ true
    → ((o : Machine) → IsCounted m.packet o.packet → Ended (again o))
    → Ended (elim act [ [] ↦ some fault | a ∷ _ ↦ and_run (action_round w again a m) again ])
next_ends w again m n [] g k = absurd (ground arith)
next_ends w again m n (a ∷ act) g k =
    let (o, e, acts) = round_lem w again a m (ground arith) in
    subst (λ r. Ended (and_run r again)) (sym e) (Ended-and_run acts k)

rest_no_group :
    (n : ℕ) (act : List Action) → no_group (suc n) act ≡ true → no_group n (drop 1 act) ≡ true
rest_no_group n [] g = absurd (ground arith)
rest_no_group n (a ∷ act) g = ground arith

-- For a list of at most 255 actions without a group action, the loop over the actions ends in as
-- many rounds and the one in which it stops, whatever the actions do.
pub action_execute-ends :
    (w : World) (n : ℕ) (m : Machine)
    → n < 2 ^ 8
    → m.packet.act_num ≡ n
    → no_group n m.packet.act ≡ true
    → (o : Outcome Machine) × (action_execute w (suc n) m ≡ some o)
unfolding action_execute
action_execute-ends w zero m h e g =
    Ended-if (m.packet.packet_done || m.packet.act_num == 0) (λ t. (done pof_ok m, refl))
      (λ f. absurd (ground arith))
action_execute-ends w (suc n) m h e g =
    Ended-if (m.packet.packet_done || m.packet.act_num == 0) (λ t. (done pof_ok m, refl))
      (λ f.
        next_ends w (action_execute w (suc n)) m n m.packet.act g
          (λ o c. action_execute-ends w n o (omega arith) (omega (arith, c.one_less)) (fewer o c)))
  where
    fewer : (o : Machine) → IsCounted m.packet o.packet → no_group n o.packet.act ≡ true
    fewer o c = elim (c.next) [
      | inl z ↦ ap (λ t. no_group t o.packet.act) {x = n} {y = 0} (omega (arith, c.one_less))
      | inr q ↦ ap (no_group n) q ∙ rest_no_group n m.packet.act g
    ]

abbrev stopped : Machine → Bool
stopped m = m.packet.packet_done || m.packet.act_num == 0

-- The loop returns POF_OK only when it is to stop.
data Exits : Run → Type 0 where
  runs_out : Exits none
  stops : {n : Machine} → stopped n ≡ true → Exits (some (done pof_ok n))
  errs : {e : Error} {n : Machine} → Exits (some (done (failed e) n))
  faults : Exits (some fault)

Exits-and_run : (o : Run) {k : Machine → Run} → ((n : Machine) → Exits (k n)) → Exits (and_run o k)
Exits-and_run none k = runs_out
Exits-and_run (some (done pof_ok n)) k = k n
Exits-and_run (some (done (failed e) n)) k = errs
Exits-and_run (some fault) k = faults

Exits-if : (b : Bool) {x y : Run} → (b ≡ true → Exits x) → Exits y → Exits (if b then x else y)
Exits-if true p q = p refl
Exits-if false p q = q

action_execute-Exits : (w : World) (fuel : ℕ) (m : Machine) → Exits (action_execute w fuel m)
unfolding action_execute
action_execute-Exits w zero m = runs_out
action_execute-Exits w (suc fuel) m =
    Exits-if (stopped m) stops (go (action_execute-Exits w fuel) m.packet.act)
  where
    go :
        ((n : Machine) → Exits (action_execute w fuel n))
        → (act : List Action)
        → Exits (elim act [
          | [] ↦ some fault
          | a ∷ _ ↦ and_run (action_round w (action_execute w fuel) a m) (action_execute w fuel)
        ])
    go k [] = faults
    go k (a ∷ _) = Exits-and_run (action_round w (action_execute w fuel) a m) k

execute_group-Exits :
    (run : Machine → Run) (p : List ℕ) (m : Machine)
    → ((n : Machine) → Exits (run n))
    → Exits (execute_group run p m)
unfolding execute_group
execute_group-Exits run p m k = go (get_group_with_id (load32 p 0) m.slot.resource)
  where
    go :
        (found : Option (Option (Node GroupInfo)))
        → Exits (elim found [
          | none ↦ some fault
          | some none ↦ some (done (failed (group_mod_failed GroupModCode.unknown_group)) m)
          | some (some group) ↦
              then_run
                (on_resource m (
                  counter_increase m.spare group.obj.counter_id (rel_len m.packet) m.slot.resource))
                (λ m'. run (put_actions group.obj.action group.obj.action_number m'))
        ])
    go none = faults
    go (some none) = errs
    go (some (some group)) =
        Exits-and_run
          (some (
            on_resource m
              (counter_increase m.spare group.obj.counter_id (rel_len m.packet) m.slot.resource)))
          (λ n. k _)

-- A run that is to stop is not continued.
stopped_again :
    (w : World) (fuel : ℕ) (o : Run) → Exits o → and_run o (action_execute w (suc fuel)) ≡ o
unfolding action_execute
stopped_again w fuel none e = refl
stopped_again w fuel (some (done pof_ok n)) (stops e) = rw e refl
stopped_again w fuel (some (done (failed r) n)) e = refl
stopped_again w fuel (some fault) e = refl

pub if_false : {A : Type 0} (b : Bool) (x y : A) → b ≡ false → (if b then x else y) ≡ y
if_false true x y e = absurd (ground arith)
if_false false x y e = refl

group_round :
    (w : World) (run : Machine → Run) (a : Action) (m : Machine)
    → a.kind ≡ 7
    → action_round w run a m ≡ execute_group run a.action_data m
unfolding action_round action_type
group_round w run a m k =
    ap
      (λ n. elim (action_type n) [
        | none ↦ some (bad_type m)
        | some ActionType.group ↦ execute_group run a.action_data m
        | some t ↦ some (execute_action w t a.action_data m)
      ])
      k

-- While a packet is not done, a list that starts with a group action runs the actions of the group
-- and nothing else: what stands behind the group action in the list is not executed.
pub action_execute-execute_group :
    (w : World) (fuel : ℕ) (m : Machine) (a : Action) (act : List Action)
    → m.packet.act ≡ a ∷ act
    → a.kind ≡ 7
    → m.packet.packet_done ≡ false
    → 0 < m.packet.act_num
    → action_execute w (suc (suc fuel)) m
      ≡ execute_group (action_execute w (suc fuel)) a.action_data m
unfolding action_execute
action_execute-execute_group w fuel m a act e k d n =
    let again = action_execute w (suc fuel) in
    if_false (stopped m) _ _ (ground arith)
    ∙ ap (λ l. elim l [ [] ↦ some fault | b ∷ _ ↦ and_run (action_round w again b m) again ]) e
    ∙ ap (λ r. and_run r again) (group_round w again a m k)
    ∙ stopped_again w fuel (execute_group again a.action_data m)
        (execute_group-Exits again a.action_data m (action_execute-Exits w (suc fuel)))
