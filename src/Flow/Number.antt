-- ===== src/Flow/Number.antt =====
-- The numbering of the tables in local_resource/pof_flow_table.c.
use pofswitch.Base.{
  ℕ, zero, suc, ◌+◌, ◌-◌, ◌<◌, ◌≡◌, ap, ◌∙◌, some, List, [], ◌∷◌, arith, length, get_or, leb-true,
  u8,
}
use pofswitch.Flow.{add_sizes, table_id_to_global, subtract_sizes, table_global_to_id}

-- The sizes of the types before one.
abbrev pub before : ℕ → List ℕ → ℕ
before zero sizes = 0
before (suc n) [] = 0
before (suc n) (m ∷ sizes) = m + before n sizes

add_sizes-before :
    (n : ℕ) (sizes : List ℕ) (global : ℕ)
    → n < length sizes
    → global + before n sizes < 256
    → add_sizes n sizes global ≡ some (global + before n sizes)
unfolding add_sizes
add_sizes-before zero sizes global h w = ap some (omega arith)
add_sizes-before (suc n) [] global h w = absurd (omega arith)
add_sizes-before (suc n) (m ∷ sizes) global h w =
    add_sizes-before n sizes (u8 (global + m)) (omega arith) (omega arith) ∙ ap some (omega arith)

subtract_sizes-before :
    (n : ℕ) (sizes : List ℕ) (type id : ℕ)
    → n < length sizes
    → id < get_or sizes n 0
    → before n sizes + id < 256
    → subtract_sizes sizes type (before n sizes + id) ≡ some (type + n, id)
unfolding subtract_sizes
subtract_sizes-before n [] type id h k w = absurd (omega arith)
subtract_sizes-before zero (m ∷ sizes) type id h k w = ground arith
subtract_sizes-before (suc n) (m ∷ sizes) type id h k w =
    rw (leb-true m (m + before n sizes + id) (omega arith)) (
      ap (subtract_sizes sizes (type + 1)) {x = u8 (m + before n sizes + id - m)}
        {y = before n sizes + id} (omega arith)
      ∙ subtract_sizes-before n sizes (type + 1) id (omega arith) k (omega arith)
      ∙ ap (λ t. some (t, id)) {x = type + 1 + n} {y = type + suc n} (omega arith))

-- The global number is the sum of the sizes before the type and the number within it.
pub table_id_to_global-before :
    (sizes : List ℕ) (type id : ℕ)
    → type < length sizes
    → before type sizes + id < 256
    → table_id_to_global sizes type id ≡ some (before type sizes + id)
unfolding table_id_to_global
table_id_to_global-before sizes type id h w =
    rw (add_sizes-before type sizes 0 h (omega arith)) (ap some (omega arith))

-- A table whose type is one of the switch's and whose number is below the size of its type, where the
-- sizes up to it fit in a byte, has a global number, from which `poflr_table_ID_to_id` finds the type
-- and the number again.
pub table_global_to_id-table_id_to_global :
    (sizes : List ℕ) (type id : ℕ)
    → type < length sizes
    → id < get_or sizes type 0
    → before type sizes + id < 256
    → (global : ℕ) × (table_id_to_global sizes type id ≡ some global)
      × (global < 256)
      × (table_global_to_id sizes global ≡ some (type, id))
table_global_to_id-table_id_to_global sizes type id h k w = (
  before type sizes + id,
  table_id_to_global-before sizes type id h w,
  omega arith,
  unfold table_global_to_id in
      subtract_sizes-before type sizes 0 id h k w ∙ ap (λ t. some (t, id)) (omega arith),
)
