-- ===== src/Resource/Refines.antt =====
-- What it is for an operation of local_resource/ to implement an operation on a finite map.
use pofswitch.Base.{ℕ, ◌≡◌, refl, ap, ◌∙◌, Bool, true, false, Option, none, some}
use pofswitch.Error.{Ret, Outcome, done, pof_ok}
use pofswitch.Resource.{Registry, LocalResource}
use pofswitch.Resource.Valid.{IsRegistry, IsStep, view}

module _ {A : Type 0} (id_of : A → ℕ) (part : LocalResource → Registry A)
    (put : LocalResource → Registry A → LocalResource) where
  -- The operation ends, with the value and the finite map that are given; the map that it leaves
  -- is valid, the limit is the same, and nothing but this map is touched.
  pub record IsRefined (lr : LocalResource) (out : Outcome LocalResource)
      (spec : Ret × (ℕ → Option A)) : Type 0 where
    pub after : LocalResource
    pub runs : out ≡ done (spec.0) after
    pub step : IsStep id_of (part lr) (part after) (spec.1)
    pub frame : after ≡ put lr (part after)

  -- An operation that returns a value at once.
  pub unchanged :
      (lr : LocalResource) (out : Outcome LocalResource) (ret : Ret)
      → IsRegistry id_of (part lr)
      → lr ≡ put lr (part lr)
      → out ≡ done ret lr
      → IsRefined lr out (ret, view (part lr))
  unchanged lr out ret v same runs = record {
    after = lr;
    runs = runs;
    step = record { keeps = v; views = λ id. refl; same_max = refl };
    frame = same;
  }

  -- An operation that returns POF_OK with a new map.
  pub changed :
      (lr : LocalResource) (out : Outcome LocalResource) (r' : Registry A) (table : ℕ → Option A)
      → part (put lr r') ≡ r'
      → out ≡ done pof_ok (put lr r')
      → IsStep id_of (part lr) r' table
      → IsRefined lr out (pof_ok, table)
  changed lr out r' table e runs s = record {
    after = put lr r';
    runs = runs;
    step = rw e s;
    frame = rw e refl;
  }

  -- The state that it leaves is the old one with the new map.
  pub runs_framed :
      (lr : LocalResource) (out : Outcome LocalResource) (spec : Ret × (ℕ → Option A))
      (i : IsRefined lr out spec)
      → out ≡ done (spec.0) (put lr (part i.after))
  runs_framed lr out spec i = i.runs ∙ ap (done (spec.0)) i.frame

abbrev pub is_some {ℓ} : {A : Type ℓ} → Option A → Bool
is_some none = false
is_some (some a) = true
