-- ===== src/Resource/Groups.antt =====
-- The operations of local_resource/pof_group.c as operations on two finite maps, of groups and of
-- counters: each group operation also runs one on the counter that the request names.
pub mod Add
pub mod Change
use pofswitch.Base.{
  ℕ, zero, suc, ◌≤◌, ◌≡◌, refl, ap, Bool, Option, none, some, arith, ◌==◌, leb, if◌then◌else◌, List,
  [], ◌∷◌, ◌++◌, length, take, drop,
}
use pofswitch.Error.{
  Ret, Outcome, done, pof_ok, failed, group_mod_failed, software_failed, GroupModCode, SoftCode,
}
use pofswitch.Resource.{LocalResource, GroupInfo, CounterInfo, Action}
use pofswitch.Resource.Group.{PofGroup, copy_actions, map_group_create}
use pofswitch.Resource.Counters.{
  CounterTable, init_spec, counter_init-refines, counter_delete-refines,
}
use pofswitch.Resource.Counters
use pofswitch.Resource.Valid.{IsRegistry, view}
use pofswitch.Resource.Refines.{is_some}

abbrev pub GroupTable : Type 0
GroupTable = ℕ → Option GroupInfo

pub copy_actions-runs :
    (n : ℕ) (src dst : List Action)
    → n ≤ length src
    → n ≤ length dst
    → copy_actions n src dst ≡ some (take n src ++ drop n dst)
unfolding copy_actions
copy_actions-runs zero src dst h k = refl
copy_actions-runs (suc n) [] dst h k = absurd (omega arith)
copy_actions-runs (suc n) (a ∷ src) [] h k = absurd (omega arith)
copy_actions-runs (suc n) (a ∷ src) (b ∷ dst) h k =
    rw (copy_actions-runs n src dst (omega arith) (omega arith)) refl

pub length-copied :
    (n : ℕ) (src dst : List Action)
    → n ≤ length src
    → n ≤ length dst
    → length (take n src ++ drop n dst) ≡ length dst
length-copied zero src dst h k = refl
length-copied (suc n) [] dst h k = absurd (omega arith)
length-copied (suc n) (a ∷ src) [] h k = absurd (omega arith)
length-copied (suc n) (a ∷ src) (b ∷ dst) h k =
    ap suc (length-copied n src dst (omega arith) (omega arith))

-- A group with the fields of the request; the actions past its number stay.
abbrev pub filled : PofGroup → GroupInfo → GroupInfo
filled req group = record {
  kind = req.kind;
  action_number = req.action_number;
  id = req.group_id;
  counter_id = req.counter_id;
  action = take req.action_number req.action ++ drop req.action_number group.action;
}

abbrev pub group_error : GroupModCode → Ret
group_error code = failed (group_mod_failed code)

-- The rest of an operation after one on a counter.
abbrev pub after_counter :
    GroupTable → Ret × CounterTable → Ret × GroupTable → Ret × GroupTable × CounterTable
after_counter t (failed e, ct) rest = (failed e, t, ct)
after_counter t (pof_ok, ct) (ret, t') = (ret, t', ct)

-- The specifications: what an operation returns and the finite maps that it leaves.
abbrev pub inserted : Bool → PofGroup → GroupTable → Ret × GroupTable
inserted memory req t =
    if memory
    then (pof_ok, λ g. if req.group_id == g then some (filled req map_group_create) else t g)
    else (failed (software_failed SoftCode.allocate_resource_failure), t)

abbrev pub add_spec :
    ℕ → ℕ → Bool → Bool → PofGroup → GroupTable → CounterTable → Ret × GroupTable × CounterTable
add_spec num_max counter_max counter_memory memory req t ct =
    if leb num_max req.group_id
    then (group_error GroupModCode.invalid_group, t, ct)
    else if is_some (t req.group_id)
    then (group_error GroupModCode.group_exists, t, ct)
    else after_counter t (init_spec counter_max counter_memory req.counter_id ct)
        (inserted memory req t)

abbrev pub modify_spec : ℕ → PofGroup → GroupTable → CounterTable → Ret × GroupTable × CounterTable
modify_spec num_max req t ct =
    if leb num_max req.group_id
    then (group_error GroupModCode.invalid_group, t, ct)
    else elim (t req.group_id) [
      | none ↦ (group_error GroupModCode.unknown_group, t, ct)
      | some group ↦
          if req.counter_id == group.counter_id
          then (pof_ok, (λ g. if req.group_id == g then some (filled req group) else t g), ct)
          else (group_error GroupModCode.bad_counter_id, t, ct)
    ]

abbrev pub delete_spec :
    ℕ → ℕ → PofGroup → GroupTable → CounterTable → Ret × GroupTable × CounterTable
delete_spec num_max counter_max req t ct =
    if leb num_max req.group_id
    then (group_error GroupModCode.invalid_group, t, ct)
    else elim (t req.group_id) [
      | none ↦ (group_error GroupModCode.unknown_group, t, ct)
      | some group ↦
          after_counter t (Counters.change_spec counter_max (λ c. none) req.counter_id ct)
            (pof_ok, λ g. if req.group_id == g then none else t g)
    ]

-- Valid groups and counters; each group has an array of four actions.
pub record IsGroups (lr : LocalResource) : Type 0 where
  pub groups : IsRegistry GroupInfo.id lr.groups
  pub counters : IsRegistry CounterInfo.id lr.counters
  pub arrays : (g : ℕ) (group : GroupInfo) → view lr.groups g ≡ some group → length group.action ≡ 4

-- A request whose actions fit: the number is at most four, and so many actions come with it.
abbrev pub IsRequest : PofGroup → Type 0
IsRequest req = (req.action_number ≤ 4) × (req.action_number ≤ length req.action)

-- The operation ends, with the value and the finite maps that are given; what it leaves is valid,
-- under the same limits, and nothing but the two maps is touched.
pub record IsRefined (lr : LocalResource) (out : Outcome LocalResource)
    (spec : Ret × GroupTable × CounterTable) : Type 0 where
  pub after : LocalResource
  pub runs : out ≡ done (spec.0) after
  pub keeps : IsGroups after
  pub groups : (g : ℕ) → view after.groups g ≡ spec.1 g
  pub counters : (id : ℕ) → view after.counters id ≡ spec.2 id
  pub frame : after ≡ record lr { groups = after.groups; counters = after.counters }
