-- ===== src/Resource/Group.antt =====
-- local_resource/pof_group.c: every operation on the groups but the replies to the controller.
-- The actions of a group are an array of four; a copy past the end of an array is a fault.
use pofswitch.Base.{
  ℕ, zero, suc, ◌==◌, Bool, Option, none, some, List, [], ◌∷◌, replicate, leb, if◌then◌else◌, ◌>>=◌,
}
use pofswitch.Error.{
  Outcome, done, and_then, pof_ok, failed, group_mod_failed, software_failed, GroupModCode,
  SoftCode,
}
use pofswitch.Hmap.{Node}
use pofswitch.Resource.{LocalResource, GroupInfo, Action}
use pofswitch.Resource.Steps.{
  get_with_id, insert, delete, write, init, empty, or_fault, hash_for_linear,
}
use pofswitch.Resource.Counter.{counter_init, counter_delete}

-- `struct pof_group`, the request, without the command and the padding.
pub record PofGroup : Type 0 where
  pub kind : ℕ
  pub action_number : ℕ
  pub group_id : ℕ
  pub counter_id : ℕ
  pub action : List Action

unfoldable pub get_group_with_id : ℕ → LocalResource → Option (Option (Node GroupInfo))
get_group_with_id id lr = get_with_id id lr.groups

unfoldable pub map_group_insert : Node GroupInfo → LocalResource → Option LocalResource
map_group_insert node lr = do groups' ← insert node lr.groups; some (record lr { groups = groups' })

unfoldable pub map_group_delete : Node GroupInfo → LocalResource → Option LocalResource
map_group_delete node lr = do groups' ← delete node lr.groups; some (record lr { groups = groups' })

-- `memcpy` of the first `n` actions.
unfoldable pub copy_actions : ℕ → List Action → List Action → Option (List Action)
copy_actions zero src dst = some dst
copy_actions (suc n) [] dst = none
copy_actions (suc n) (a ∷ src) [] = none
copy_actions (suc n) (a ∷ src) (b ∷ dst) = do rest ← copy_actions n src dst; some (a ∷ rest)

unfoldable pub group_fill : PofGroup → GroupInfo → Option GroupInfo
unfolding copy_actions
group_fill pof_group group = do
  actions ← copy_actions pof_group.action_number pof_group.action group.action
  some (record {
    kind = pof_group.kind;
    action_number = pof_group.action_number;
    id = pof_group.group_id;
    counter_id = pof_group.counter_id;
    action = actions;
  })

abbrev zero_action : Action
zero_action = record { kind = 0; len = 0; action_data = replicate 44 0 }

-- `map_groupCreate` zeroes the structure.
abbrev pub map_group_create : GroupInfo
map_group_create = record {
  kind = 0;
  action_number = 0;
  id = 0;
  counter_id = 0;
  action = replicate 4 zero_action;
}

-- A group is created, filled and inserted once its counter stands.
unfoldable pub insert_group : Option ℕ → PofGroup → LocalResource → Outcome LocalResource
insert_group none pof_group lr =
    done (failed (software_failed SoftCode.allocate_resource_failure)) lr
insert_group (some addr) pof_group lr = or_fault (group_fill pof_group map_group_create) (λ group.
    or_fault
      (map_group_insert (record { addr = addr; hash = hash_for_linear group.id; obj = group }) lr)
      (λ lr'. done pof_ok lr'))

unfoldable pub add_group_entry :
    Option ℕ → Option ℕ → PofGroup → LocalResource → Outcome LocalResource
add_group_entry counter_alloc alloc pof_group lr =
    if leb lr.groups.num_max pof_group.group_id
    then done (failed (group_mod_failed GroupModCode.invalid_group)) lr
    else or_fault (get_group_with_id pof_group.group_id lr) (λ group. elim group [
      | some node ↦ done (failed (group_mod_failed GroupModCode.group_exists)) lr
      | none ↦
          and_then (counter_init counter_alloc pof_group.counter_id lr)
            (insert_group alloc pof_group)
    ])

-- The tests that `poflr_modify_group_entry` and `poflr_delete_group_entry` begin with.
abbrev pub with_group :
    ℕ → LocalResource → (Node GroupInfo → Outcome LocalResource) → Outcome LocalResource
with_group group_id lr body =
    if leb lr.groups.num_max group_id
    then done (failed (group_mod_failed GroupModCode.invalid_group)) lr
    else or_fault (get_group_with_id group_id lr) (λ group. elim group [
      | none ↦ done (failed (group_mod_failed GroupModCode.unknown_group)) lr
      | some node ↦ body node
    ])

unfoldable pub modify_group_entry : PofGroup → LocalResource → Outcome LocalResource
modify_group_entry pof_group lr = with_group pof_group.group_id lr (λ node.
    if pof_group.counter_id == node.obj.counter_id
    then or_fault (group_fill pof_group node.obj) (λ group.
      or_fault (write node group lr.groups)
        (λ groups'. done pof_ok (record lr { groups = groups' })))
    else done (failed (group_mod_failed GroupModCode.bad_counter_id)) lr)

-- The counter that is deleted is the one of the request.
unfoldable pub delete_group_entry : PofGroup → LocalResource → Outcome LocalResource
delete_group_entry pof_group lr = with_group pof_group.group_id lr (λ node.
    and_then (counter_delete pof_group.counter_id lr)
      (λ lr'. or_fault (map_group_delete node lr') (λ lr''. done pof_ok lr'')))

unfoldable pub init_group : Bool → Bool → LocalResource → Outcome LocalResource
init_group map_ok buckets_ok lr =
    let groups' = init map_ok buckets_ok lr.groups in
    let lr' = record lr { groups = groups' } in
    elim groups'.map [
      | none ↦ done (failed (software_failed SoftCode.allocate_resource_failure)) lr'
      | some map ↦ done pof_ok lr'
    ]

unfoldable pub empty_group : LocalResource → Outcome LocalResource
empty_group lr = done pof_ok (record lr { groups = empty lr.groups })
