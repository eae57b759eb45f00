-- ===== src/Resource/Meter.antt =====
-- local_resource/pof_meter.c: every operation on the meters but the replies to the controller.
use pofswitch.Base.{ℕ, Bool, Option, none, some, leb, if◌then◌else◌, ◌>>=◌}
use pofswitch.Error.{
  Outcome, done, pof_ok, failed, meter_mod_failed, software_failed, MeterModCode, SoftCode,
}
use pofswitch.Hmap.{Node}
use pofswitch.Resource.{LocalResource, MeterInfo}
use pofswitch.Resource.Steps.{
  get_with_id, insert, delete, write, init, empty, or_fault, hash_for_linear,
}

unfoldable pub get_meter_with_id : ℕ → LocalResource → Option (Option (Node MeterInfo))
get_meter_with_id id lr = get_with_id id lr.meters

unfoldable pub map_meter_insert : Node MeterInfo → LocalResource → Option LocalResource
map_meter_insert node lr = do meters' ← insert node lr.meters; some (record lr { meters = meters' })

unfoldable pub map_meter_delete : Node MeterInfo → LocalResource → Option LocalResource
map_meter_delete node lr = do meters' ← delete node lr.meters; some (record lr { meters = meters' })

unfoldable pub map_meter_create : ℕ → ℕ → ℕ → Node MeterInfo
map_meter_create addr meter_id rate = record {
  addr = addr;
  hash = hash_for_linear meter_id;
  obj = record { id = meter_id; rate = rate };
}

unfoldable pub add_meter_entry : Option ℕ → ℕ → ℕ → LocalResource → Outcome LocalResource
add_meter_entry alloc meter_id rate lr =
    if leb lr.meters.num_max meter_id
    then done (failed (meter_mod_failed MeterModCode.invalid_meter)) lr
    else or_fault (get_meter_with_id meter_id lr) (λ meter. elim meter [
      | some node ↦ done (failed (meter_mod_failed MeterModCode.meter_exists)) lr
      | none ↦ elim alloc [
        | none ↦ done (failed (software_failed SoftCode.allocate_resource_failure)) lr
        | some addr ↦
            or_fault (map_meter_insert (map_meter_create addr meter_id rate) lr)
              (λ lr'. done pof_ok lr')
      ]
    ])

-- The tests that `poflr_modify_meter_entry` and `poflr_delete_meter_entry` begin with.
abbrev pub with_meter :
    ℕ → LocalResource → (Node MeterInfo → Outcome LocalResource) → Outcome LocalResource
with_meter meter_id lr body =
    if leb lr.meters.num_max meter_id
    then done (failed (meter_mod_failed MeterModCode.invalid_meter)) lr
    else or_fault (get_meter_with_id meter_id lr) (λ meter. elim meter [
      | none ↦ done (failed (meter_mod_failed MeterModCode.unknown_meter)) lr
      | some node ↦ body node
    ])

unfoldable pub modify_meter_entry : ℕ → ℕ → LocalResource → Outcome LocalResource
modify_meter_entry meter_id rate lr = with_meter meter_id lr (λ node.
    or_fault (write node (record (node.obj) { rate = rate }) lr.meters)
      (λ meters'. done pof_ok (record lr { meters = meters' })))

unfoldable pub delete_meter_entry : ℕ → ℕ → LocalResource → Outcome LocalResource
delete_meter_entry meter_id rate lr =
    with_meter meter_id lr (λ node. or_fault (map_meter_delete node lr) (λ lr'. done pof_ok lr'))

unfoldable pub init_meter : Bool → Bool → LocalResource → Outcome LocalResource
init_meter map_ok buckets_ok lr =
    let meters' = init map_ok buckets_ok lr.meters in
    let lr' = record lr { meters = meters' } in
    elim meters'.map [
      | none ↦ done (failed (software_failed SoftCode.allocate_resource_failure)) lr'
      | some map ↦ done pof_ok lr'
    ]

unfoldable pub empty_meter : LocalResource → Outcome LocalResource
empty_meter lr = done pof_ok (record lr { meters = empty lr.meters })
