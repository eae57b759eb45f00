-- ===== src/Resource/Groups/Change.antt =====
-- The change and the removal of a group, the removal after that of the request's counter.
use pofswitch.Base.{refl, sym, ◌∙◌, inl, inr, none, some, ◌==◌, leb, if◌then◌else◌, Bool-cases}
use pofswitch.Error.{Ret, done, and_then, pof_ok, failed}
use pofswitch.Hmap.{Node}
use pofswitch.Resource.{Registry, LocalResource, GroupInfo, CounterInfo}
use pofswitch.Resource.Group.{
  PofGroup, get_group_with_id, map_group_delete, group_fill, modify_group_entry, delete_group_entry,
}
use pofswitch.Resource.Refines.{runs_framed}
use pofswitch.Resource.Counters.{put_counters, CounterTable, counter_delete-refines}
use pofswitch.Resource.Groups.{
  filled, after_counter, modify_spec, delete_spec, IsGroups, IsRequest, IsRefined,
}
use pofswitch.Resource.Steps.{or_fault, write}
use pofswitch.Resource.Valid.{IsStep, IsFound, view, lookup-cases, delete-IsStep, write-IsStep}
use pofswitch.Resource.Groups.Add.{group_fill-runs, arrays_after, four_filled, stays}

module _ (lr : LocalResource) (v : IsGroups lr) (req : PofGroup) where
  refilled :
      (node : Node GroupInfo)
      → IsRequest req
      → IsFound GroupInfo.id lr.groups req.group_id node
      → IsRefined lr
          (or_fault (group_fill req node.obj) (λ group.
            or_fault
              (write node group lr.groups)
              (λ groups'. done pof_ok (record lr { groups = groups' }))))
          (
            pof_ok,
            (λ g. if req.group_id == g then some (filled req node.obj) else view lr.groups g),
            view lr.counters,
          )
  refilled node fits found =
      let group = filled req node.obj in
      let four = v.arrays req.group_id node.obj found.viewed in
      let (r, runs, step, _) =
        write-IsStep GroupInfo.id lr.groups v.groups req.group_id node found group refl in
      record {
        after = record lr { groups = r };
        runs = rw (group_fill-runs req node.obj fits four, runs) refl;
        keeps = record {
          groups = step.keeps;
          counters = v.counters;
          arrays = λ g x e.
              arrays_after (view lr.groups) req.group_id (some group) v.arrays
                (four_filled req node.obj fits four) g x (sym (step.views g) ∙ e);
        };
        groups = step.views;
        counters = λ id. refl;
        frame = refl;
      }

  -- `poflr_modify_group_entry` of a request whose actions fit, on valid groups and counters, returns
  -- and leaves what `modify_spec` says: the counter of a group cannot be changed.
  pub modify_group_entry-refines :
      IsRequest req
      → IsRefined lr
          (modify_group_entry req lr)
          (modify_spec lr.groups.num_max req (view lr.groups) (view lr.counters))
  unfolding modify_group_entry get_group_with_id
  modify_group_entry-refines fits = elim (Bool-cases (leb lr.groups.num_max req.group_id)) [
    | inl f ↦ rw f (stays v _ _ refl)
    | inr f ↦ elim (lookup-cases GroupInfo.id lr.groups v.groups req.group_id) [
      | inl (absent, unseen) ↦ rw (f, absent, unseen) (stays v _ _ refl)
      | inr (node, found) ↦ elim (Bool-cases (req.counter_id == node.obj.counter_id)) [
        | inl e ↦ rw (f, found.gets, found.viewed, e) (refilled node fits found)
        | inr e ↦ rw (f, found.gets, found.viewed, e) (stays v _ _ refl)
      ]
    ]
  ]

  then_delete :
      (node : Node GroupInfo) (c : Registry CounterInfo) (spec : Ret × CounterTable)
      → IsStep CounterInfo.id lr.counters c (spec.1)
      → IsFound GroupInfo.id lr.groups req.group_id node
      → IsRefined lr
          (and_then
            (done (spec.0) (record lr { counters = c }))
            (λ lr'. or_fault (map_group_delete node lr') (λ lr''. done pof_ok lr'')))
          (after_counter
            (view lr.groups)
            spec
            (pof_ok, λ g. if req.group_id == g then none else view lr.groups g))
  unfolding map_group_delete
  then_delete node c (failed e, ct) step found = record {
    after = record lr { counters = c };
    runs = refl;
    keeps = record { groups = v.groups; counters = step.keeps; arrays = v.arrays };
    groups = λ g. refl;
    counters = step.views;
    frame = refl;
  }
  then_delete node c (pof_ok, ct) step found =
      let (r, runs, less, _) =
        delete-IsStep GroupInfo.id lr.groups v.groups req.group_id node found in
      record {
        after = record lr { groups = r; counters = c };
        runs = rw runs refl;
        keeps = record {
          groups = less.keeps;
          counters = step.keeps;
          arrays = λ g x e.
              arrays_after (view lr.groups) req.group_id none v.arrays (λ y h. cc) g x
                (sym (less.views g) ∙ e);
        };
        groups = less.views;
        counters = step.views;
        frame = refl;
      }

  -- `poflr_delete_group_entry` on valid groups and counters returns and leaves what `delete_spec`
  -- says: the counter that is deleted is the one that the request names, whatever the group's is,
  -- and if that fails the group stays.
  pub delete_group_entry-refines :
      IsRefined lr
        (delete_group_entry req lr)
        (delete_spec lr.groups.num_max lr.counters.num_max req (view lr.groups) (view lr.counters))
  unfolding delete_group_entry get_group_with_id
  delete_group_entry-refines = elim (Bool-cases (leb lr.groups.num_max req.group_id)) [
    | inl f ↦ rw f (stays v _ _ refl)
    | inr f ↦ elim (lookup-cases GroupInfo.id lr.groups v.groups req.group_id) [
      | inl (absent, unseen) ↦ rw (f, absent, unseen) (stays v _ _ refl)
      | inr (node, found) ↦
          let c = counter_delete-refines lr v.counters req.counter_id in
          let runs = runs_framed CounterInfo.id LocalResource.counters put_counters lr _ _ c in
          rw (f, found.gets, found.viewed, runs) (then_delete node c.after.counters _ c.step found)
    ]
  ]
