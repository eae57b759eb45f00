-- ===== src/Resource/Valid.antt =====
-- A numbered map as a finite map from ids to structures: its invariant, and what each of the steps
-- that the counters, the meters and the groups share does to it.
use pofswitch.Base.{
  u32, ℕ, ◌+◌, ◌-◌, ◌^◌, ◌<◌, ◌≡◌, refl, sym, ap, ◌∙◌, ◌⊎◌, inl, inr, Option, none, some, arith,
  ◌==◌, if◌then◌else◌, Option-cases,
}
use pofswitch.Hmap.{Node, Hmap, node_get_with_hash, node_insert, node_delete, node_write}
use pofswitch.Hmap.Invariant.{IsHmap, IsKeyed, IsFresh}
use pofswitch.Hmap.Lookup.{
  get-insert, insert-IsHmap, insert-IsKeyed, get-delete, delete-IsHmap, delete-IsKeyed, n-delete,
  get-write, write-IsHmap, write-IsKeyed,
}
use pofswitch.Resource.{Registry}
use pofswitch.Resource.Steps.{get_with_id, insert, delete, write}

module _ {A : Type 0} where
  abbrev obj_of : Option (Node A) → Option A
  obj_of none = none
  obj_of (some node) = some node.obj

  abbrev view_of : Option (Hmap A) → ℕ → Option A
  view_of none id = none
  view_of (some map) id = obj_of (node_get_with_hash map id)

  -- The structure that the switch has for an id.
  abbrev pub view : Registry A → ℕ → Option A
  view r id = view_of r.map id

  -- An address that no node of the map has.
  abbrev pub IsNew : ℕ → Registry A → Type 0
  IsNew a r = (map : Hmap A) → r.map ≡ some map → IsFresh a map

  -- The map was created, obeys its invariant, has one node to an id, holds as many nodes as the
  -- number says, and each under its own id, which is below the limit.
  pub record IsRegistry (id_of : A → ℕ) (r : Registry A) : Type 0 where
    pub k : ℕ
    pub map : Hmap A
    pub stands : r.map ≡ some map
    pub valid : IsHmap k map
    pub keyed : IsKeyed map
    pub counted : r.num ≡ map.n
    pub small : map.n < 2 ^ 32
    pub ids :
        (id : ℕ) (node : Node A)
        → node_get_with_hash map id ≡ some node
        → (id_of node.obj ≡ id) × (id < r.num_max)

  -- A step to a valid map that stands for a given finite map, under the same limit.
  pub record IsStep (id_of : A → ℕ) (r r' : Registry A) (table : ℕ → Option A) : Type 0 where
    pub keeps : IsRegistry id_of r'
    pub views : (id : ℕ) → view r' id ≡ table id
    pub same_max : r'.num_max ≡ r.num_max

  pub record IsFound (id_of : A → ℕ) (r : Registry A) (id : ℕ) (node : Node A) : Type 0 where
    pub gets : get_with_id id r ≡ some (some node)
    pub viewed : view r id ≡ some node.obj
    pub same_id : id_of node.obj ≡ id
    pub below : id < r.num_max

module _ {A : Type 0} (id_of : A → ℕ) (r : Registry A) (v : IsRegistry id_of r) where
  pub lookup-cases :
      (id : ℕ)
      → ((get_with_id id r ≡ some none) × (view r id ≡ none))
        ⊎ ((node : Node A) × IsFound id_of r id node)
  unfolding get_with_id
  lookup-cases id = elim (Option-cases (node_get_with_hash v.map id)) [
    | inl e ↦ inl (rw (v.stands, e) refl, rw (v.stands, e) refl)
    | inr (node, e) ↦
        let (same_id, below) = v.ids id node e in
        inr (
          node,
          record {
            gets = rw (v.stands, e) refl;
            viewed = rw (v.stands, e) refl;
            same_id = same_id;
            below = below;
          },
        )
  ]

  gets :
      (id : ℕ) (o : Option (Node A)) → get_with_id id r ≡ some o → node_get_with_hash v.map id ≡ o
  unfolding get_with_id
  gets id o e = some_eq _ o (sym (rw v.stands refl) ∙ e)
    where
      some_eq : (a b : Option (Node A)) → some a ≡ some b → a ≡ b
      some_eq a b h = cc

  viewed : (id : ℕ) → view r id ≡ obj_of (node_get_with_hash v.map id)
  viewed id = rw v.stands refl

  -- A step to the map `map'`, whose lookups are known.
  stepped :
      (map' : Hmap A) (num' : ℕ) (nodes : ℕ → Option (Node A)) (table : ℕ → Option A)
      → IsHmap v.k map'
      → IsKeyed map'
      → num' ≡ map'.n
      → map'.n < 2 ^ 32
      → ((id : ℕ) → node_get_with_hash map' id ≡ nodes id)
      → ((id : ℕ) → obj_of (nodes id) ≡ table id)
      → ((id : ℕ) (x : Node A) → nodes id ≡ some x → (id_of x.obj ≡ id) × (id < r.num_max))
      → IsStep id_of r (record r { map = some map'; num = num' }) table
  stepped map' num' nodes table valid keyed counted small lookups objs ids = record {
    keeps = record {
      k = v.k;
      map = map';
      stands = refl;
      valid = valid;
      keyed = keyed;
      counted = counted;
      small = small;
      ids = λ id x e. ids id x (sym (lookups id) ∙ e);
    };
    views = λ id. ap obj_of (lookups id) ∙ objs id;
    same_max = refl;
  }

  pub insert-IsStep :
      (node : Node A)
      → get_with_id node.hash r ≡ some none
      → IsNew node.addr r
      → r.num + 1 < 2 ^ 32
      → id_of node.obj ≡ node.hash
      → node.hash < r.num_max
      → (r' : Registry A) × (insert node r ≡ some r')
        × IsStep id_of r r' (λ id. if node.hash == id then some node.obj else view r id)
        × (r'.num ≡ r.num + 1)
  insert-IsStep node absent fresh room same below =
      let valid =
        insert-IsHmap v.k v.map node v.valid (fresh v.map v.stands) (omega (arith, v.counted)) in
      let keyed = insert-IsKeyed v.k v.map node v.valid v.keyed (gets node.hash none absent) in
      let counted : u32 (r.num + 1) ≡ (node_insert v.map node).n =
        unfold node_insert in ap (λ n. u32 (n + 1)) v.counted in
      (
        record r { map = some (node_insert v.map node); num = u32 (r.num + 1) },
        unfold insert in rw v.stands refl,
        stepped (node_insert v.map node) (u32 (r.num + 1))
            (λ id. if node.hash == id then some node else node_get_with_hash v.map id) _ valid keyed
            counted (omega (arith, counted)) (λ id. get-insert v.k id v.map node v.valid)
            (λ id. ground (arith, viewed id)) (λ id x e. ground (arith, v.ids id x)),
        omega arith,
      )

  module _ (id : ℕ) (node : Node A) (found : IsFound id_of r id node) where
    here : node_get_with_hash v.map id ≡ some node
    here = gets id (some node) found.gets

    pub delete-IsStep :
        (r' : Registry A) × (delete node r ≡ some r')
        × IsStep id_of r r' (λ g. if id == g then none else view r g)
        × (r'.num + 1 ≡ r.num)
    delete-IsStep =
        let less = n-delete v.k id v.map node v.valid here v.small in
        let counted : u32 (r.num + 2 ^ 32 - 1) ≡ (node_delete v.map node).n =
          omega (arith, v.counted, v.small, less) in
        (
          record r { map = some (node_delete v.map node); num = u32 (r.num + 2 ^ 32 - 1) },
          unfold delete in rw v.stands refl,
          stepped (node_delete v.map node) (u32 (r.num + 2 ^ 32 - 1))
              (λ g. if id == g then none else node_get_with_hash v.map g) _
              (delete-IsHmap v.k id v.map node v.valid here v.small)
              (delete-IsKeyed v.k id v.map node v.valid here v.keyed) counted
              (omega (arith, less, v.small))
              (λ g. get-delete v.k id v.map node v.valid here g v.keyed)
              (λ g. ground (arith, viewed g)) (λ g x e. ground (arith, v.ids g x)),
          omega (arith, counted, less, v.counted),
        )

    pub write-IsStep :
        (obj : A)
        → id_of obj ≡ id
        → (r' : Registry A) × (write node obj r ≡ some r')
          × IsStep id_of r r' (λ g. if id == g then some obj else view r g)
          × (r'.num ≡ r.num)
    write-IsStep obj same = (
      record r { map = some (node_write v.map node obj) },
      unfold write in rw v.stands refl,
      stepped (node_write v.map node obj) r.num
          (λ g. if id == g then some (record node { obj = obj }) else node_get_with_hash v.map g) _
          (write-IsHmap v.k id v.map node v.valid here obj)
          (write-IsKeyed v.k id v.map node v.valid here obj v.keyed)
          (unfold node_write in v.counted) (unfold node_write in v.small)
          (λ g. get-write v.k id v.map node v.valid here g obj) (λ g. ground (arith, viewed g))
          (λ g x e. ground (arith, found.below, v.ids g x)),
      refl,
    )
