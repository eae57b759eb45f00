-- ===== src/Flow/Asked.antt =====
-- The table that `poflr_create_flow_table` of local_resource/pof_flow_table.c is asked for, and the
-- parts of a table that `poflr_delete_flow_table` frees.
use pofswitch.Base.{
  ℕ, zero, suc, ◌-◌, ◌≤◌, ◌<◌, ◌≡◌, refl, sym, ap, ◌⊎◌, inl, inr, Bool, true, false, not, Option,
  none, some, List, [], ◌∷◌, ◌++◌, arith, length, ◌==◌, if◌then◌else◌, replicate, take,
  take-replicate, ◌&&◌, ◌||◌, ◌>>=◌,
}
use pofswitch.Hmap.{Hmap, create}
use pofswitch.Tree
use pofswitch.Tree.{Tree, TreeNode, null, node, is_null}
use pofswitch.Flow.{Match}
use pofswitch.Flow.Table.{TableInfo, EntryInfo}
use pofswitch.Flow.Tables.{Memory, PofFlowTable, strncpy, copy_fields, zero_field, free_entries}
use pofswitch.Resource.Refines.{is_some}

-- The characters in front of the first NUL.
abbrev pub text : List ℕ → List ℕ
text [] = []
text (zero ∷ xs) = []
text (suc c ∷ xs) = suc c ∷ text xs

-- The first 64 characters end the text or there are that many.
abbrev pub IsName : ℕ → List ℕ → Type 0
IsName n name = (n ≤ length name) ⊎ (length (text name) < length name)

-- The table that a request asks for: its name and its fields in arrays that are filled up with zeros,
-- without entries, and with a trie if it is a table of longest prefixes.
abbrev pub asked_table : Memory → PofFlowTable → ℕ → TableInfo
asked_table memory req g = record {
  id = g;
  kind = req.kind;
  name = take 64 (text req.name ++ replicate 64 0);
  entry_map = create memory.map memory.buckets req.size;
  entry_num = 0;
  size = req.size;
  key_len = req.key_len;
  tree = if req.kind == 1 then Tree.create memory.tree memory.root else none;
  match_field_num = req.match_field_num;
  match = take req.match_field_num req.match ++ replicate (8 - req.match_field_num) zero_field;
}

-- The table has a map of entries, and a trie with a root if its type needs one.
abbrev pub is_whole : TableInfo → Bool
is_whole table =
    is_some table.entry_map
    && (not (table.kind == 1) || elim (table.tree) [ none ↦ false | some t ↦ not (is_null t.root) ])

pub strncpy_lem :
    (n m : ℕ) (src : List ℕ)
    → n ≤ m
    → IsName n src
    → strncpy n src ≡ some (take n (text src ++ replicate m 0))
unfolding strncpy
strncpy_lem zero m src h i = refl
strncpy_lem (suc n) m [] h i = absurd (ground arith)
strncpy_lem (suc n) m (zero ∷ src) h i = ap some (sym (take-replicate (suc n) m 0 h))
strncpy_lem (suc n) m (suc c ∷ src) h i = rw (strncpy_lem n m src (omega arith) (ground arith)) refl

pub copy_fields_lem :
    (n m : ℕ) (src : List Match)
    → n ≤ m
    → n ≤ length src
    → copy_fields n src (replicate m zero_field) ≡ some (take n src ++ replicate (m - n) zero_field)
unfolding copy_fields
copy_fields_lem zero m src h i =
    let whole : m ≡ m - 0 = omega arith in ap (λ k. some (replicate k zero_field)) whole
copy_fields_lem (suc n) zero src h i = absurd (omega arith)
copy_fields_lem (suc n) (suc m) [] h i = absurd (omega arith)
copy_fields_lem (suc n) (suc m) (a ∷ src) h i =
    let less : suc m - suc n ≡ m - n = omega arith in
    rw (copy_fields_lem n m src (omega arith) (omega arith), less) refl

-- What `free_entries` reads.
pub free_entries-cases :
    (table : TableInfo)
    → ((free_entries table ≡ none) × (is_whole table ≡ false))
      ⊎ ((free_entries table ≡ some table) × (is_whole table ≡ true))
unfolding free_entries Tree.destroy Tree.node_destroy
free_entries-cases table = go table.entry_map (table.kind == 1) table.tree
  where
    rooted :
        (root : TreeNode)
        → let out = Tree.node_destroy root >>= (λ r. some table) in
          let whole = not (is_null root) in
          ((out ≡ none) × (whole ≡ false)) ⊎ ((out ≡ some table) × (whole ≡ true))
    rooted null = inl (refl, refl)
    rooted (node p l r) = inr (refl, refl)

    go :
        (map : Option (Hmap EntryInfo)) (lpm : Bool) (tree : Option Tree)
        → let out =
            map >>= (λ m. if lpm then Tree.destroy tree >>= (λ root. some table) else some table) in
          let whole =
            is_some map
            && (not lpm || elim tree [ none ↦ false | some t ↦ not (is_null t.root) ]) in
          ((out ≡ none) × (whole ≡ false)) ⊎ ((out ≡ some table) × (whole ≡ true))
    go none lpm tree = inl (refl, refl)
    go (some map) false tree = inr (refl, refl)
    go (some map) true none = inl (refl, refl)
    go (some map) true (some t) = rooted t.root
