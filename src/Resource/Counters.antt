-- ===== src/Resource/Counters.antt =====
-- The operations of local_resource/pof_counter.c as operations on a finite map of counters.
use pofswitch.Base.{
  Option-cases, ℕ, ◌+◌, ◌^◌, ◌<◌, ◌≡◌, ◌≢◌, refl, inl, inr, Bool, Option, none, some, arith, ◌==◌,
  leb, if◌then◌else◌, u64, Bool-cases,
}
use pofswitch.Error.{
  Ret, Outcome, done, pof_ok, failed, counter_mod_failed, software_failed, CounterModCode, SoftCode,
}
use pofswitch.Hmap.{Node}
use pofswitch.Resource.{Registry, LocalResource, CounterInfo}
use pofswitch.Resource.Counter.{
  get_counter_with_id, map_counter_insert, map_counter_delete, map_counter_create, store_counter,
  with_counter, counter_init, counter_delete, counter_clear, counter_increase,
}
use pofswitch.Resource.Steps.{get_with_id, or_fault}
use pofswitch.Resource.Valid.{
  IsRegistry, IsStep, IsFound, IsNew, view, lookup-cases, insert-IsStep, delete-IsStep,
  write-IsStep,
}
use pofswitch.Resource.Refines.{IsRefined, unchanged, changed, is_some}

abbrev pub CounterTable : Type 0
CounterTable = ℕ → Option CounterInfo

abbrev pub put_counters : LocalResource → Registry CounterInfo → LocalResource
put_counters lr c = record lr { counters = c }

abbrev pub bad_id : Ret
bad_id = failed (counter_mod_failed CounterModCode.bad_counter_id)

abbrev pub zero_counter : ℕ → CounterInfo
zero_counter id = record { id = id; value = 0; byte_value = 0 }

-- The specifications: what an operation returns and the finite map that it leaves.
abbrev pub init_spec : ℕ → Bool → ℕ → CounterTable → Ret × CounterTable
init_spec num_max memory id t =
    if id == 0
    then (pof_ok, t)
    else if leb num_max id
    then (bad_id, t)
    else if is_some (t id)
    then (pof_ok, t)
    else if memory
    then (pof_ok, λ g. if id == g then some (zero_counter id) else t g)
    else (failed (software_failed SoftCode.allocate_resource_failure), t)

abbrev pub increased : ℕ → CounterInfo → CounterInfo
increased byte_len c = record c {
  value = u64 (c.value + 1);
  byte_value = u64 (c.byte_value + byte_len);
}

-- An operation on a counter that has to exist; `change` is what becomes of it.
abbrev pub change_spec :
    ℕ → (CounterInfo → Option CounterInfo) → ℕ → CounterTable → Ret × CounterTable
change_spec num_max change id t =
    if id == 0 then (pof_ok, t) else if leb num_max id then (bad_id, t) else elim (t id) [
      | none ↦ (failed (counter_mod_failed CounterModCode.counter_unexist), t)
      | some c ↦ (pof_ok, λ g. if id == g then change c else t g)
    ]

module _ (lr : LocalResource) (v : IsRegistry CounterInfo.id lr.counters) where
  abbrev Goal : Outcome LocalResource → Ret × CounterTable → Type 0
  Goal = IsRefined CounterInfo.id LocalResource.counters put_counters lr

  stays :
      (out : Outcome LocalResource) (ret : Ret)
      → out ≡ done ret lr
      → Goal out (ret, view lr.counters)
  stays out ret = unchanged CounterInfo.id LocalResource.counters put_counters lr out ret v refl

  moves :
      (out : Outcome LocalResource) (c : Registry CounterInfo) (t : CounterTable)
      → out ≡ done pof_ok (put_counters lr c)
      → IsStep CounterInfo.id lr.counters c t
      → Goal out (pof_ok, t)
  moves out c t = changed CounterInfo.id LocalResource.counters put_counters lr out c t refl

  counter_init_new :
      (a id : ℕ)
      → get_with_id id lr.counters ≡ some none
      → IsNew a lr.counters
      → lr.counters.num + 1 < 2 ^ 32
      → id < lr.counters.num_max
      → Goal
          (or_fault (map_counter_insert (map_counter_create a id) lr) (λ lr'. done pof_ok lr'))
          (pof_ok, λ g. if id == g then some (zero_counter id) else view lr.counters g)
  unfolding map_counter_insert map_counter_create
  counter_init_new a id absent new room below =
      let (c, runs, step, _) =
        insert-IsStep CounterInfo.id lr.counters v (map_counter_create a id) absent new room refl
          below in
      moves _ c _ (rw runs refl) step

  -- `poflr_counter_init` on valid counters, with memory at a new address if any and room for one
  -- more, returns and leaves what `init_spec` says.
  pub counter_init-refines :
      (alloc : Option ℕ) (id : ℕ)
      → ((a : ℕ) → alloc ≡ some a → IsNew a lr.counters)
      → lr.counters.num + 1 < 2 ^ 32
      → IsRefined CounterInfo.id LocalResource.counters put_counters lr
          (counter_init alloc id lr)
          (init_spec lr.counters.num_max (is_some alloc) id (view lr.counters))
  unfolding counter_init get_counter_with_id
  counter_init-refines alloc id fresh room = elim (Bool-cases (id == 0)) [
    | inl e ↦ rw e (stays _ _ refl)
    | inr e ↦ elim (Bool-cases (leb lr.counters.num_max id)) [
      | inl f ↦ rw (e, f) (stays _ _ refl)
      | inr f ↦ elim (lookup-cases CounterInfo.id lr.counters v id) [
        | inr (node, found) ↦ rw (e, f, found.gets, found.viewed) (stays _ _ refl)
        | inl (absent, unseen) ↦ elim (Option-cases alloc) [
          | inl no_memory ↦ rw (e, f, absent, unseen, no_memory) (stays _ _ refl)
          | inr (a, memory) ↦
              rw (e, f, absent, unseen, memory)
                (counter_init_new a id absent (fresh a memory) room (ground arith))
        ]
      ]
    ]
  ]

  with_counter-refines :
      (id : ℕ) (body : Node CounterInfo → Outcome LocalResource)
      (change : CounterInfo → Option CounterInfo)
      → ((node : Node CounterInfo)
          → IsFound CounterInfo.id lr.counters id node
          → Goal (body node) (pof_ok, λ g. if id == g then change node.obj else view lr.counters g))
      → Goal
          (with_counter id lr body)
          (change_spec lr.counters.num_max change id (view lr.counters))
  unfolding get_counter_with_id
  with_counter-refines id body change h = elim (Bool-cases (id == 0)) [
    | inl e ↦ rw e (stays _ _ refl)
    | inr e ↦ elim (Bool-cases (leb lr.counters.num_max id)) [
      | inl f ↦ rw (e, f) (stays _ _ refl)
      | inr f ↦ elim (lookup-cases CounterInfo.id lr.counters v id) [
        | inr (node, found) ↦ rw (e, f, found.gets, found.viewed) (h node found)
        | inl (absent, unseen) ↦ rw (e, f, absent, unseen) (stays _ _ refl)
      ]
    ]
  ]

  -- `poflr_counter_delete` on valid counters returns and leaves what `change_spec` says for the
  -- removal.
  pub counter_delete-refines :
      (id : ℕ)
      → IsRefined CounterInfo.id LocalResource.counters put_counters lr
          (counter_delete id lr)
          (change_spec lr.counters.num_max (λ c. none) id (view lr.counters))
  unfolding counter_delete map_counter_delete
  counter_delete-refines id =
      with_counter-refines id _ (λ c. none)
        (λ node found.
          let (c, runs, step, _) = delete-IsStep CounterInfo.id lr.counters v id node found in
          moves _ c _ (rw runs refl) step)

  stored :
      (id : ℕ) (node : Node CounterInfo) (c : CounterInfo)
      → IsFound CounterInfo.id lr.counters id node
      → c.id ≡ id
      → Goal (store_counter node c lr) (pof_ok, λ g. if id == g then some c else view lr.counters g)
  unfolding store_counter
  stored id node c found same =
      let (c', runs, step, _) = write-IsStep CounterInfo.id lr.counters v id node found c same in
      moves _ c' _ (rw runs refl) step

  -- `poflr_counter_clear` on valid counters returns and leaves what `change_spec` says for the
  -- setting of both values to zero.
  pub counter_clear-refines :
      (id : ℕ)
      → IsRefined CounterInfo.id LocalResource.counters put_counters lr (counter_clear id lr) (
          change_spec lr.counters.num_max
            (λ c. some (record c { value = 0; byte_value = 0 }))
            id
            (view lr.counters))
  unfolding counter_clear
  counter_clear-refines id = with_counter-refines id _ _ (λ node found.
      stored id node (record (node.obj) { value = 0; byte_value = 0 }) found found.same_id)

  -- `poflr_counter_increace` on valid counters, for an id that has a counter wherever it is in
  -- range, returns and leaves what `change_spec` says for the addition of one to the value and of the
  -- length to the byte value, both modulo 2 ^ 64.
  pub counter_increase-refines :
      (alloc : Option ℕ) (id byte_len : ℕ)
      → (id ≢ 0 → id < lr.counters.num_max → view lr.counters id ≢ none)
      → IsRefined CounterInfo.id LocalResource.counters put_counters lr
          (counter_increase alloc id byte_len lr)
          (change_spec lr.counters.num_max (λ c. some (increased byte_len c)) id (view lr.counters))
  unfolding counter_increase get_counter_with_id
  counter_increase-refines alloc id byte_len exists = elim (Bool-cases (id == 0)) [
    | inl e ↦ rw e (stays _ _ refl)
    | inr e ↦ elim (Bool-cases (leb lr.counters.num_max id)) [
      | inl f ↦ rw (e, f) (stays _ _ refl)
      | inr f ↦ elim (lookup-cases CounterInfo.id lr.counters v id) [
        | inr (node, found) ↦
            rw (e, f, found.gets, found.viewed)
              (stored id node (increased byte_len node.obj) found found.same_id)
        | inl (absent, unseen) ↦ absurd (exists (ground arith) (ground arith) unseen)
      ]
    ]
  ]
