-- ===== src/Resource/Meters.antt =====
-- The operations of local_resource/pof_meter.c as operations on a finite map of meters.
use pofswitch.Base.{
  ℕ, ◌+◌, ◌^◌, ◌<◌, ◌≡◌, refl, inl, inr, Bool, Option, none, some, arith, ◌==◌, leb, if◌then◌else◌,
  Bool-cases, Option-cases,
}
use pofswitch.Error.{
  Ret, Outcome, done, pof_ok, failed, meter_mod_failed, software_failed, MeterModCode, SoftCode,
}
use pofswitch.Hmap.{Node}
use pofswitch.Resource.{Registry, LocalResource, MeterInfo}
use pofswitch.Resource.Meter.{
  get_meter_with_id, map_meter_insert, map_meter_delete, map_meter_create, with_meter,
  add_meter_entry, modify_meter_entry, delete_meter_entry,
}
use pofswitch.Resource.Steps.{get_with_id, or_fault}
use pofswitch.Resource.Valid.{
  IsRegistry, IsStep, IsFound, IsNew, view, lookup-cases, insert-IsStep, delete-IsStep,
  write-IsStep,
}
use pofswitch.Resource.Refines.{IsRefined, unchanged, changed, is_some}

abbrev pub MeterTable : Type 0
MeterTable = ℕ → Option MeterInfo

abbrev pub put_meters : LocalResource → Registry MeterInfo → LocalResource
put_meters lr c = record lr { meters = c }

abbrev meter_error : MeterModCode → Ret
meter_error code = failed (meter_mod_failed code)

-- The specifications: what an operation returns and the finite map that it leaves.
abbrev pub add_spec : ℕ → Bool → ℕ → ℕ → MeterTable → Ret × MeterTable
add_spec num_max memory id rate t =
    if leb num_max id
    then (meter_error MeterModCode.invalid_meter, t)
    else if is_some (t id)
    then (meter_error MeterModCode.meter_exists, t)
    else if memory
    then (pof_ok, λ g. if id == g then some (record { id = id; rate = rate }) else t g)
    else (failed (software_failed SoftCode.allocate_resource_failure), t)

-- An operation on a meter that has to exist; `change` is what becomes of it.
abbrev pub change_spec : ℕ → (MeterInfo → Option MeterInfo) → ℕ → MeterTable → Ret × MeterTable
change_spec num_max change id t =
    if leb num_max id then (meter_error MeterModCode.invalid_meter, t) else elim (t id) [
      | none ↦ (meter_error MeterModCode.unknown_meter, t)
      | some c ↦ (pof_ok, λ g. if id == g then change c else t g)
    ]

module _ (lr : LocalResource) (v : IsRegistry MeterInfo.id lr.meters) where
  abbrev Goal : Outcome LocalResource → Ret × MeterTable → Type 0
  Goal = IsRefined MeterInfo.id LocalResource.meters put_meters lr

  stays :
      (out : Outcome LocalResource) (ret : Ret) → out ≡ done ret lr → Goal out (ret, view lr.meters)
  stays out ret = unchanged MeterInfo.id LocalResource.meters put_meters lr out ret v refl

  moves :
      (out : Outcome LocalResource) (c : Registry MeterInfo) (t : MeterTable)
      → out ≡ done pof_ok (put_meters lr c)
      → IsStep MeterInfo.id lr.meters c t
      → Goal out (pof_ok, t)
  moves out c t = changed MeterInfo.id LocalResource.meters put_meters lr out c t refl

  add_new :
      (a id rate : ℕ)
      → get_with_id id lr.meters ≡ some none
      → IsNew a lr.meters
      → lr.meters.num + 1 < 2 ^ 32
      → id < lr.meters.num_max
      → Goal
          (or_fault (map_meter_insert (map_meter_create a id rate) lr) (λ lr'. done pof_ok lr'))
          (
            pof_ok,
            λ g. if id == g then some (record { id = id; rate = rate }) else view lr.meters g,
          )
  unfolding map_meter_insert map_meter_create
  add_new a id rate absent new room below =
      let (c, runs, step, _) =
        insert-IsStep MeterInfo.id lr.meters v (map_meter_create a id rate) absent new room refl
          below in
      moves _ c _ (rw runs refl) step

  -- `poflr_add_meter_entry` on valid meters, with memory at a new address if any and room for one
  -- more, returns and leaves what `add_spec` says.
  pub add_meter_entry-refines :
      (alloc : Option ℕ) (id rate : ℕ)
      → ((a : ℕ) → alloc ≡ some a → IsNew a lr.meters)
      → lr.meters.num + 1 < 2 ^ 32
      → IsRefined MeterInfo.id LocalResource.meters put_meters lr
          (add_meter_entry alloc id rate lr)
          (add_spec lr.meters.num_max (is_some alloc) id rate (view lr.meters))
  unfolding add_meter_entry get_meter_with_id
  add_meter_entry-refines alloc id rate fresh room = elim (Bool-cases (leb lr.meters.num_max id)) [
    | inl f ↦ rw f (stays _ _ refl)
    | inr f ↦ elim (lookup-cases MeterInfo.id lr.meters v id) [
      | inr (node, found) ↦ rw (f, found.gets, found.viewed) (stays _ _ refl)
      | inl (absent, unseen) ↦ elim (Option-cases alloc) [
        | inl no_memory ↦ rw (f, absent, unseen, no_memory) (stays _ _ refl)
        | inr (a, memory) ↦
            rw (f, absent, unseen, memory)
              (add_new a id rate absent (fresh a memory) room (ground arith))
      ]
    ]
  ]

  with_meter-refines :
      (id : ℕ) (body : Node MeterInfo → Outcome LocalResource)
      (change : MeterInfo → Option MeterInfo)
      → ((node : Node MeterInfo)
          → IsFound MeterInfo.id lr.meters id node
          → Goal (body node) (pof_ok, λ g. if id == g then change node.obj else view lr.meters g))
      → Goal (with_meter id lr body) (change_spec lr.meters.num_max change id (view lr.meters))
  unfolding get_meter_with_id
  with_meter-refines id body change h = elim (Bool-cases (leb lr.meters.num_max id)) [
    | inl f ↦ rw f (stays _ _ refl)
    | inr f ↦ elim (lookup-cases MeterInfo.id lr.meters v id) [
      | inr (node, found) ↦ rw (f, found.gets, found.viewed) (h node found)
      | inl (absent, unseen) ↦ rw (f, absent, unseen) (stays _ _ refl)
    ]
  ]

  -- `poflr_modify_meter_entry` on valid meters returns and leaves what `change_spec` says for the
  -- setting of the rate.
  pub modify_meter_entry-refines :
      (id rate : ℕ)
      → IsRefined MeterInfo.id LocalResource.meters put_meters lr
          (modify_meter_entry id rate lr)
          (change_spec lr.meters.num_max (λ m. some (record m { rate = rate })) id (view lr.meters))
  unfolding modify_meter_entry
  modify_meter_entry-refines id rate = with_meter-refines id _ _ (λ node found.
      let (c, runs, step, _) =
        write-IsStep MeterInfo.id lr.meters v id node found (record (node.obj) { rate = rate })
          found.same_id in
      moves _ c _ (rw runs refl) step)

  -- `poflr_delete_meter_entry` on valid meters returns and leaves what `change_spec` says for the
  -- removal.
  pub delete_meter_entry-refines :
      (id rate : ℕ)
      → IsRefined MeterInfo.id LocalResource.meters put_meters lr
          (delete_meter_entry id rate lr)
          (change_spec lr.meters.num_max (λ m. none) id (view lr.meters))
  unfolding delete_meter_entry map_meter_delete
  delete_meter_entry-refines id rate =
      with_meter-refines id _ (λ m. none)
        (λ node found.
          let (c, runs, step, _) = delete-IsStep MeterInfo.id lr.meters v id node found in
          moves _ c _ (rw runs refl) step)
