-- ===== src/Resource/Groups/Add.antt =====
-- The insertion of a group, after that of its counter.
use pofswitch.Base.{
  ℕ, ◌+◌, ◌^◌, ◌<◌, ◌≡◌, refl, sym, ap, ◌∙◌, inl, inr, Option, none, some, arith, ◌==◌, leb,
  if◌then◌else◌, Bool-cases, length,
}
use pofswitch.Error.{Ret, Outcome, done, and_then, pof_ok, failed}
use pofswitch.Resource.{Registry, LocalResource, GroupInfo, CounterInfo}
use pofswitch.Resource.Group.{
  PofGroup, get_group_with_id, map_group_insert, group_fill, map_group_create, insert_group,
  add_group_entry,
}
use pofswitch.Resource.Refines.{runs_framed}
use pofswitch.Resource.Counters.{put_counters, CounterTable, counter_init-refines}
use pofswitch.Resource.Groups.{
  GroupTable, copy_actions-runs, length-copied, filled, after_counter, inserted, add_spec, IsGroups,
  IsRequest, IsRefined,
}
use pofswitch.Resource.Steps.{get_with_id}
use pofswitch.Resource.Valid.{IsStep, IsNew, view, lookup-cases, insert-IsStep}
use pofswitch.Resource.Refines.{is_some}

pub group_fill-runs :
    (req : PofGroup) (group : GroupInfo)
    → IsRequest req
    → length group.action ≡ 4
    → group_fill req group ≡ some (filled req group)
unfolding group_fill
group_fill-runs req group (n, m) four =
    rw (copy_actions-runs req.action_number req.action group.action m (omega (arith, four))) refl

-- The arrays of the groups, after one group was added or replaced.
pub arrays_after :
    (t : GroupTable) (id : ℕ) (new : Option GroupInfo)
    → ((g : ℕ) (group : GroupInfo) → t g ≡ some group → length group.action ≡ 4)
    → ((group : GroupInfo) → new ≡ some group → length group.action ≡ 4)
    → (g : ℕ) (group : GroupInfo) → (if id == g then new else t g) ≡ some group
    → length group.action ≡ 4
arrays_after t id new old fresh g group e = ground (arith, old g group, fresh group)

pub four_filled :
    (req : PofGroup) (group : GroupInfo)
    → IsRequest req
    → length group.action ≡ 4
    → (x : GroupInfo) → some (filled req group) ≡ some x
    → length x.action ≡ 4
four_filled req group (n, m) four x e =
    let same : filled req group ≡ x = cc in
    ap (λ y. length y.action) (sym same)
    ∙ length-copied req.action_number req.action group.action m (omega (arith, four))
    ∙ four

-- An operation that returns a value at once.
pub stays :
    {lr : LocalResource} (v : IsGroups lr) (out : Outcome LocalResource) (ret : Ret)
    → out ≡ done ret lr
    → IsRefined lr out (ret, view lr.groups, view lr.counters)
stays {lr} v out ret runs = record {
  after = lr;
  runs = runs;
  keeps = v;
  groups = λ g. refl;
  counters = λ id. refl;
  frame = refl;
}

module _ (lr : LocalResource) (v : IsGroups lr) (req : PofGroup) (fits : IsRequest req) where
  insert_group-refines :
      (alloc : Option ℕ) (ct : CounterTable)
      → ((id : ℕ) → view lr.counters id ≡ ct id)
      → get_with_id req.group_id lr.groups ≡ some none
      → ((a : ℕ) → alloc ≡ some a → IsNew a lr.groups)
      → lr.groups.num + 1 < 2 ^ 32
      → req.group_id < lr.groups.num_max
      → IsRefined lr (insert_group alloc req lr) (
          after_counter
            (view lr.groups)
            (pof_ok, ct)
            (inserted (is_some alloc) req (view lr.groups)))
  unfolding insert_group map_group_insert
  insert_group-refines none ct seen absent new room below = record {
    after = lr;
    runs = refl;
    keeps = v;
    groups = λ g. refl;
    counters = seen;
    frame = refl;
  }
  insert_group-refines (some a) ct seen absent new room below =
      let group = filled req map_group_create in
      let (r, runs, step, _) =
        insert-IsStep GroupInfo.id lr.groups v.groups
          (record { addr = a; hash = req.group_id; obj = group }) absent (new a refl) room refl
          below in
      record {
        after = record lr { groups = r };
        runs = rw (group_fill-runs req map_group_create fits refl, runs) refl;
        keeps = record {
          groups = step.keeps;
          counters = v.counters;
          arrays = λ g x e.
              arrays_after (view lr.groups) req.group_id (some group) v.arrays
                (four_filled req map_group_create fits refl) g x (sym (step.views g) ∙ e);
        };
        groups = step.views;
        counters = seen;
        frame = refl;
      }

module _ (lr : LocalResource) (v : IsGroups lr) (req : PofGroup) (fits : IsRequest req) where
  then_insert :
      (alloc : Option ℕ) (c : Registry CounterInfo) (spec : Ret × CounterTable)
      → IsStep CounterInfo.id lr.counters c (spec.1)
      → get_with_id req.group_id lr.groups ≡ some none
      → ((a : ℕ) → alloc ≡ some a → IsNew a lr.groups)
      → lr.groups.num + 1 < 2 ^ 32
      → req.group_id < lr.groups.num_max
      → IsRefined lr
          (and_then (done (spec.0) (record lr { counters = c })) (insert_group alloc req))
          (after_counter (view lr.groups) spec (inserted (is_some alloc) req (view lr.groups)))
  then_insert alloc c (failed e, ct) step absent new room below = record {
    after = record lr { counters = c };
    runs = refl;
    keeps = record { groups = v.groups; counters = step.keeps; arrays = v.arrays };
    groups = λ g. refl;
    counters = step.views;
    frame = refl;
  }
  then_insert alloc c (pof_ok, ct) step absent new room below =
      let i =
        insert_group-refines (record lr { counters = c })
          (record { groups = v.groups; counters = step.keeps; arrays = v.arrays }) req fits alloc ct
          step.views absent new room below in
      record {
        after = i.after;
        runs = i.runs;
        keeps = i.keeps;
        groups = i.groups;
        counters = i.counters;
        frame = i.frame;
      }

  -- `poflr_add_group_entry` of a request whose actions fit, on valid groups and counters, with memory
  -- at new addresses if any and room for one more of each, returns and leaves what `add_spec` says:
  -- a counter that it creates stays when there is no memory for the group.
  pub add_group_entry-refines :
      (counter_alloc alloc : Option ℕ)
      → ((a : ℕ) → counter_alloc ≡ some a → IsNew a lr.counters)
      → ((a : ℕ) → alloc ≡ some a → IsNew a lr.groups)
      → lr.counters.num + 1 < 2 ^ 32
      → lr.groups.num + 1 < 2 ^ 32
      → IsRefined lr (add_group_entry counter_alloc alloc req lr) (
          add_spec lr.groups.num_max lr.counters.num_max
            (is_some counter_alloc)
            (is_some alloc)
            req
            (view lr.groups)
            (view lr.counters))
  unfolding add_group_entry get_group_with_id
  add_group_entry-refines counter_alloc alloc counter_new new counter_room room =
      elim (Bool-cases (leb lr.groups.num_max req.group_id)) [
        | inl f ↦ rw f (stays v _ _ refl)
        | inr f ↦ elim (lookup-cases GroupInfo.id lr.groups v.groups req.group_id) [
          | inr (node, found) ↦ rw (f, found.gets, found.viewed) (stays v _ _ refl)
          | inl (absent, unseen) ↦
              let c =
                counter_init-refines lr v.counters counter_alloc req.counter_id counter_new
                  counter_room in
              let runs = runs_framed CounterInfo.id LocalResource.counters put_counters lr _ _ c in
              rw (f, absent, unseen, runs)
                (then_insert alloc c.after.counters _ c.step absent new room (ground arith))
        ]
      ]
