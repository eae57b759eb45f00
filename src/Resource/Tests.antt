-- ===== src/Resource/Tests.antt =====
-- A switch with room for four groups, meters and counters, and the theorems at it.
use pofswitch.Base.{ℕ, ◌≡◌, refl, sym, ◌∙◌, none, some, true, [], ◌∷◌, arith}
use pofswitch.Resource.{Registry, LocalResource, GroupInfo, MeterInfo, CounterInfo, Action}
use pofswitch.Resource.Steps.{init, empty}
use pofswitch.Resource.Valid.{IsRegistry, IsStep, IsNew, view}
use pofswitch.Resource.Refines
use pofswitch.Resource.Refines.{is_some}
use pofswitch.Resource.Created.{init-IsStep, init-IsNew}
use pofswitch.Resource.Emptied.{empty-IsStep}
use pofswitch.Resource.Counter.{counter_init, counter_delete, counter_increase}
use pofswitch.Resource.Counters
use pofswitch.Resource.Counters.{
  init_spec, put_counters, increased, counter_init-refines, counter_delete-refines,
  counter_clear-refines, counter_increase-refines,
}
use pofswitch.Resource.Meter.{add_meter_entry, delete_meter_entry}
use pofswitch.Resource.Meters
use pofswitch.Resource.Meters.{
  put_meters, add_meter_entry-refines, modify_meter_entry-refines, delete_meter_entry-refines,
}
use pofswitch.Resource.Group.{PofGroup, add_group_entry, modify_group_entry, delete_group_entry}
use pofswitch.Resource.Groups
use pofswitch.Resource.Groups.{modify_spec, delete_spec, IsGroups}
use pofswitch.Resource.Groups.Add.{add_group_entry-refines}
use pofswitch.Resource.Groups.Change.{modify_group_entry-refines, delete_group_entry-refines}

abbrev blank : {A : Type 0} → Registry A
blank = record { map = none; num_max = 4; num = 0 }

switch : LocalResource
switch = record {
  slot_id = 0;
  groups = init true true blank;
  meters = init true true blank;
  counters = init true true blank;
}

blank-IsStep : {A : Type 0} (id_of : A → ℕ) → IsStep id_of blank (init true true blank) (λ id. none)
blank-IsStep id_of = init-IsStep id_of 2 blank (omega arith) (omega arith) (omega arith) refl

switch-counters : IsRegistry CounterInfo.id switch.counters
unfolding switch
switch-counters = (blank-IsStep CounterInfo.id).keeps

switch-meters : IsRegistry MeterInfo.id switch.meters
unfolding switch
switch-meters = (blank-IsStep MeterInfo.id).keeps

some-none : (g : GroupInfo) → ¬ (none ≡ some g)
some-none g e = cc

switch-IsGroups : IsGroups switch
unfolding switch
switch-IsGroups = record {
  groups = (blank-IsStep GroupInfo.id).keeps;
  counters = (blank-IsStep CounterInfo.id).keeps;
  arrays = λ g x e. absurd (some-none x (sym ((blank-IsStep GroupInfo.id).views g) ∙ e));
}

counters-IsNew : (a : ℕ) → IsNew a switch.counters
unfolding switch
counters-IsNew a = init-IsNew a true true blank

meters-IsNew : (a : ℕ) → IsNew a switch.meters
unfolding switch
meters-IsNew a = init-IsNew a true true blank

groups-IsNew : (a : ℕ) → IsNew a switch.groups
unfolding switch
groups-IsNew a = init-IsNew a true true blank

counters_num : switch.counters.num ≡ 0
unfolding switch init
counters_num = refl

meters_num : switch.meters.num ≡ 0
unfolding switch init
meters_num = refl

groups_num : switch.groups.num ≡ 0
unfolding switch init
groups_num = refl

counters_max : switch.counters.num_max ≡ 4
unfolding switch init
counters_max = refl

no_counters : (id : ℕ) → view switch.counters id ≡ none
unfolding switch
no_counters = (blank-IsStep CounterInfo.id).views

counter_init-refines_example :
    Refines.IsRefined CounterInfo.id LocalResource.counters put_counters switch
      (counter_init (some 64) 3 switch)
      (init_spec switch.counters.num_max true 3 (view switch.counters))
counter_init-refines_example =
    counter_init-refines switch switch-counters (some 64) 3 (λ a e. counters-IsNew a)
      (omega (arith, counters_num))

first_counter :
    Refines.IsRefined CounterInfo.id LocalResource.counters put_counters switch
      (counter_init (some 64) 3 switch)
      (init_spec switch.counters.num_max true 3 (view switch.counters))
first_counter =
    counter_init-refines switch switch-counters (some 64) 3 (λ a e. counters-IsNew a)
      (omega (arith, counters_num))

-- The switch with the counter 3.
counted : LocalResource
counted = first_counter.after

counted-counters : IsRegistry CounterInfo.id counted.counters
unfolding counted
counted-counters = first_counter.step.keeps

counted_view : view counted.counters 3 ≡ some (Counters.zero_counter 3)
unfolding counted
counted_view = first_counter.step.views 3 ∙ rw (counters_max, no_counters 3) refl

some_counter : (c : CounterInfo) → ¬ (some c ≡ none)
some_counter c e = cc

counter_delete-refines_example :
    Refines.IsRefined CounterInfo.id LocalResource.counters put_counters counted
      (counter_delete 3 counted)
      (Counters.change_spec counted.counters.num_max (λ c. none) 3 (view counted.counters))
counter_delete-refines_example = counter_delete-refines counted counted-counters 3

counter_increase-refines_example :
    Refines.IsRefined CounterInfo.id LocalResource.counters put_counters counted
      (counter_increase (some 512) 3 60 counted)
      (Counters.change_spec counted.counters.num_max
        (λ c. some (increased 60 c))
        3
        (view counted.counters))
counter_increase-refines_example =
    counter_increase-refines counted counted-counters (some 512) 3 60
      (λ _ _ e. some_counter _ (sym counted_view ∙ e))

add_meter_entry-refines_example :
    Refines.IsRefined MeterInfo.id LocalResource.meters put_meters switch
      (add_meter_entry (some 96) 2 1000 switch)
      (Meters.add_spec switch.meters.num_max true 2 1000 (view switch.meters))
add_meter_entry-refines_example =
    add_meter_entry-refines switch switch-meters (some 96) 2 1000 (λ a e. meters-IsNew a)
      (omega (arith, meters_num))

first_meter :
    Refines.IsRefined MeterInfo.id LocalResource.meters put_meters switch
      (add_meter_entry (some 96) 2 1000 switch)
      (Meters.add_spec switch.meters.num_max true 2 1000 (view switch.meters))
first_meter =
    add_meter_entry-refines switch switch-meters (some 96) 2 1000 (λ a e. meters-IsNew a)
      (omega (arith, meters_num))

-- The switch with the meter 2.
metered : LocalResource
metered = first_meter.after

metered-meters : IsRegistry MeterInfo.id metered.meters
unfolding metered
metered-meters = first_meter.step.keeps

delete_meter_entry-refines_example :
    Refines.IsRefined MeterInfo.id LocalResource.meters put_meters metered
      (delete_meter_entry 2 0 metered)
      (Meters.change_spec metered.meters.num_max (λ m. none) 2 (view metered.meters))
delete_meter_entry-refines_example = delete_meter_entry-refines metered metered-meters 2 0

empty-IsStep_example :
    IsStep MeterInfo.id metered.meters (empty metered.meters) (λ id. none)
    × ((empty metered.meters).num ≡ 0)
empty-IsStep_example = empty-IsStep MeterInfo.id metered.meters metered-meters

output : Action
output = record { kind = 0; len = 4; action_data = 1 ∷ [] }

request : PofGroup
request = record {
  kind = 1;
  action_number = 1;
  group_id = 2;
  counter_id = 3;
  action = output ∷ output ∷ output ∷ output ∷ [];
}

request-IsRequest : Groups.IsRequest request
unfolding request
request-IsRequest = (omega arith, omega arith)

add_group_entry-refines_example :
    Groups.IsRefined switch (add_group_entry (some 64) (some 128) request switch) (
      Groups.add_spec switch.groups.num_max switch.counters.num_max true true request
        (view switch.groups)
        (view switch.counters))
add_group_entry-refines_example =
    add_group_entry-refines switch switch-IsGroups request request-IsRequest (some 64) (some 128)
      (λ a e. counters-IsNew a) (λ a e. groups-IsNew a) (omega (arith, counters_num))
      (omega (arith, groups_num))

first_group : Groups.IsRefined switch (add_group_entry (some 64) (some 128) request switch) (
    Groups.add_spec switch.groups.num_max switch.counters.num_max true true request
      (view switch.groups)
      (view switch.counters))
first_group =
    add_group_entry-refines switch switch-IsGroups request request-IsRequest (some 64) (some 128)
      (λ a e. counters-IsNew a) (λ a e. groups-IsNew a) (omega (arith, counters_num))
      (omega (arith, groups_num))

-- The switch with the group 2 and its counter 3.
grouped : LocalResource
grouped = first_group.after

grouped-IsGroups : IsGroups grouped
unfolding grouped
grouped-IsGroups = first_group.keeps

modify_group_entry-refines_example :
    Groups.IsRefined grouped
      (modify_group_entry request grouped)
      (modify_spec grouped.groups.num_max request (view grouped.groups) (view grouped.counters))
modify_group_entry-refines_example =
    modify_group_entry-refines grouped grouped-IsGroups request request-IsRequest

delete_group_entry-refines_example : Groups.IsRefined grouped (delete_group_entry request grouped) (
    delete_spec grouped.groups.num_max grouped.counters.num_max request
      (view grouped.groups)
      (view grouped.counters))
delete_group_entry-refines_example = delete_group_entry-refines grouped grouped-IsGroups request
