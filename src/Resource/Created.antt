-- ===== src/Resource/Created.antt =====
-- `poflr_init_counter`, `poflr_init_meter` and `poflr_init_group`: `hmap_create` of the limit.
use mathlib.Core.Path.{subst}
use pofswitch.Hmap.Chain.{All}
use pofswitch.Base.{
  Bool, false, List, [], replicate, get_or, get_or-replicate, ◌-◌, ◌≢◌, ℕ, suc, ◌^◌, ◌≤◌, ◌<◌, ◌≡◌,
  refl, sym, ◌∙◌, true, none, some, arith,
}
use pofswitch.Hmap.{Hmap, buckets_num, create, Node}
use pofswitch.Hmap.Size.{create-IsHmap}
use pofswitch.Resource.{Registry}
use pofswitch.Resource.Steps.{init}
use pofswitch.Resource.Valid.{IsNew, IsStep}

some-none : {A : Type 0} (x : Node A) → ¬ (none ≡ some x)
some-none x e = cc

none-some : {A : Type 0} (x : Hmap A) → ¬ (none ≡ some x)
none-some x e = cc

-- With memory, under a limit from 1 to 2 ^ 32 - 1 given by the power of two below it, and with the
-- number 0, the initialisation leaves a valid map in which no id has a structure.
pub init-IsStep :
    {A : Type 0} (id_of : A → ℕ) (k : ℕ) (r : Registry A)
    → k < 32
    → 2 ^ k ≤ r.num_max
    → r.num_max < 2 ^ suc k
    → r.num ≡ 0
    → IsStep id_of r (init true true r) (λ id. none)
unfolding init
init-IsStep {A} id_of k r w h l zero_num =
    let (map, runs, valid, keyed, nothing, no_nodes) = create-IsHmap {A = A} k r.num_max w h l in
    rw runs (record {
      keeps = record {
        k = k;
        map = map;
        stands = refl;
        valid = valid;
        keyed = keyed;
        counted = zero_num ∙ sym no_nodes;
        small = omega (arith, no_nodes);
        ids = λ id x e. absurd (some-none x (sym (nothing id) ∙ e));
      };
      views = λ id. rw (nothing id) refl;
      same_max = refl;
    })

-- A map that was just created has no address.
pub init-IsNew :
    {A : Type 0} (a : ℕ) (map_ok buckets_ok : Bool) (r : Registry A)
    → IsNew a (init map_ok buckets_ok r)
unfolding init create
init-IsNew a false buckets_ok r map e i = absurd (none-some map e)
init-IsNew a true false r map e i = absurd (none-some map e)
init-IsNew {A} a true true r map e i =
    let made : Hmap A = record {
      buckets = replicate (buckets_num r.num_max) [];
      mask = buckets_num r.num_max - 1;
      n = 0;
    } in
    let same : made ≡ map = cc in
    subst (λ m. All (λ y. y.addr ≢ a) (get_or m.buckets i [])) same
      (rw (get_or-replicate {A = List (Node A)} (buckets_num r.num_max) i []) tt)
