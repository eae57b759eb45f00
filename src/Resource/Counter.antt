-- ===== src/Resource/Counter.antt =====
-- local_resource/pof_counter.c in the configuration POF_SD2N: every operation on the counters but
-- the replies to the controller. Counter id 0 means that no counter is wanted.
use pofswitch.Base.{ℕ, ◌+◌, Bool, Option, none, some, ◌==◌, leb, if◌then◌else◌, u64, ◌>>=◌}
use pofswitch.Error.{
  Outcome, done, fault, pof_ok, failed, counter_mod_failed, software_failed, CounterModCode,
  SoftCode,
}
use pofswitch.Hmap.{Node}
use pofswitch.Resource.{LocalResource, CounterInfo}
use pofswitch.Resource.Steps.{
  get_with_id, insert, delete, write, init, empty, or_fault, hash_for_linear,
}

unfoldable pub get_counter_with_id : ℕ → LocalResource → Option (Option (Node CounterInfo))
get_counter_with_id id lr = get_with_id id lr.counters

unfoldable pub map_counter_insert : Node CounterInfo → LocalResource → Option LocalResource
map_counter_insert node lr = do
  counters' ← insert node lr.counters
  some (record lr { counters = counters' })

unfoldable pub map_counter_delete : Node CounterInfo → LocalResource → Option LocalResource
map_counter_delete node lr = do
  counters' ← delete node lr.counters
  some (record lr { counters = counters' })

-- A store through the pointer to a counter.
unfoldable pub store_counter :
    Node CounterInfo → CounterInfo → LocalResource → Outcome LocalResource
store_counter node counter lr =
    or_fault (write node counter lr.counters)
      (λ counters'. done pof_ok (record lr { counters = counters' }))

unfoldable pub map_counter_create : ℕ → ℕ → Node CounterInfo
map_counter_create addr counter_id = record {
  addr = addr;
  hash = hash_for_linear counter_id;
  obj = record { id = counter_id; value = 0; byte_value = 0 };
}

unfoldable pub counter_init : Option ℕ → ℕ → LocalResource → Outcome LocalResource
counter_init alloc counter_id lr =
    if counter_id == 0
    then done pof_ok lr
    else if leb lr.counters.num_max counter_id
    then done (failed (counter_mod_failed CounterModCode.bad_counter_id)) lr
    else or_fault (get_counter_with_id counter_id lr) (λ counter. elim counter [
      | some node ↦ done pof_ok lr
      | none ↦ elim alloc [
        | none ↦ done (failed (software_failed SoftCode.allocate_resource_failure)) lr
        | some addr ↦
            or_fault (map_counter_insert (map_counter_create addr counter_id) lr)
              (λ lr'. done pof_ok lr')
      ]
    ])

-- The tests that `poflr_counter_delete` and `poflr_counter_clear` begin with.
abbrev pub with_counter :
    ℕ → LocalResource → (Node CounterInfo → Outcome LocalResource) → Outcome LocalResource
with_counter counter_id lr body =
    if counter_id == 0
    then done pof_ok lr
    else if leb lr.counters.num_max counter_id
    then done (failed (counter_mod_failed CounterModCode.bad_counter_id)) lr
    else or_fault (get_counter_with_id counter_id lr) (λ counter. elim counter [
      | none ↦ done (failed (counter_mod_failed CounterModCode.counter_unexist)) lr
      | some node ↦ body node
    ])

unfoldable pub counter_delete : ℕ → LocalResource → Outcome LocalResource
counter_delete counter_id lr =
    with_counter counter_id lr
      (λ node. or_fault (map_counter_delete node lr) (λ lr'. done pof_ok lr'))

unfoldable pub counter_clear : ℕ → LocalResource → Outcome LocalResource
counter_clear counter_id lr =
    with_counter counter_id lr
      (λ node. store_counter node (record (node.obj) { value = 0; byte_value = 0 }) lr)

-- The two stores of `poflr_counter_increace` through its local pointer, which may be NULL.
abbrev pub count_through : Option (Node CounterInfo) → ℕ → LocalResource → Outcome LocalResource
count_through none byte_len lr = fault
count_through (some node) byte_len lr =
    let value' = u64 (node.obj.value + 1) in
    let byte_value' = u64 (node.obj.byte_value + byte_len) in
    store_counter node (record (node.obj) { value = value'; byte_value = byte_value' }) lr

-- What goes on in the state that an operation leaves, whatever it returns.
abbrev pub in_state :
    Outcome LocalResource → (LocalResource → Outcome LocalResource) → Outcome LocalResource
in_state (done r lr) k = k lr
in_state fault k = fault

-- For an absent counter `poflr_counter_init`, to which `alloc` is given, may create it; neither its
-- return value nor the new counter is assigned to the local pointer.
unfoldable pub counter_increase : Option ℕ → ℕ → ℕ → LocalResource → Outcome LocalResource
unfolding counter_init
counter_increase alloc counter_id byte_len lr =
    if counter_id == 0
    then done pof_ok lr
    else if leb lr.counters.num_max counter_id
    then done (failed (counter_mod_failed CounterModCode.bad_counter_id)) lr
    else or_fault (get_counter_with_id counter_id lr) (λ counter. elim counter [
      | none ↦ in_state (counter_init alloc counter_id lr) (count_through none byte_len)
      | some node ↦ count_through (some node) byte_len lr
    ])

unfoldable pub init_counter : Bool → Bool → LocalResource → Outcome LocalResource
init_counter map_ok buckets_ok lr =
    let counters' = init map_ok buckets_ok lr.counters in
    let lr' = record lr { counters = counters' } in
    elim counters'.map [
      | none ↦ done (failed (software_failed SoftCode.allocate_resource_failure)) lr'
      | some map ↦ done pof_ok lr'
    ]

unfoldable pub empty_counter : LocalResource → Outcome LocalResource
empty_counter lr = done pof_ok (record lr { counters = empty lr.counters })
