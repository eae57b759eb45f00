-- ===== src/Field/Keep.antt =====
-- Whatever the two routines are given: a result has the length of the buffer that was written to, and
-- holds bytes if the buffer did.

use pofswitch.Base.{
  ℕ, zero, suc, ◌+◌, ◌-◌, ◌%◌, ◌≡◌, refl, ◌∙◌, Bool, true, false, Option, none, some, List, ltb,
  leb, if◌then◌else◌, ◌>>=◌, length, get_elem?, length-set, Bool-cases, inl, inr, u8,
}
use pofswitch.Field.{
  store, copy_loop, copy_tail, copy_bit, cover_one, cover_many, cover_loop, cover_tail, cover_bit,
}
use pofswitch.Field.Bits.{IsBytes, IsBytes-set, u8-byte}

pub record IsLike (xs ys : List ℕ) : Type 0 where
  pub same_length : length ys ≡ length xs
  pub keeps_bytes : IsBytes xs → IsBytes ys

pub IsLike-refl : {xs : List ℕ} → IsLike xs xs
IsLike-refl = record { same_length = refl; keeps_bytes = λ b. b }

pub IsLike-trans : {xs ys zs : List ℕ} → IsLike xs ys → IsLike ys zs → IsLike xs zs
IsLike-trans p q = record {
  same_length = q.same_length ∙ p.same_length;
  keeps_bytes = λ b. q.keeps_bytes (p.keeps_bytes b);
}

-- What a step that may fault gives, if it gives something.
pub data Gives {A : Type 0} (P : A → Type 0) : Option A → Type 0 where
  nothing : Gives P none
  gives : {a : A} → P a → Gives P (some a)

pub Gives-bind :
    {A B : Type 0} {P : A → Type 0} {Q : B → Type 0} {o : Option A} {f : A → Option B}
    → Gives P o
    → ((a : A) → P a → Gives Q (f a))
    → Gives Q (o >>= f)
Gives-bind nothing k = nothing
Gives-bind (gives {a} p) k = k a p

-- A step about which nothing is known.
pub Gives-any :
    {A B : Type 0} {Q : B → Type 0} (o : Option A) {f : A → Option B}
    → ((a : A) → Gives Q (f a))
    → Gives Q (o >>= f)
Gives-any none k = nothing
Gives-any (some a) k = k a

pub Gives-if :
    {A : Type 0} {P : A → Type 0} (b : Bool) {x y : Option A}
    → Gives P x
    → Gives P y
    → Gives P (if b then x else y)
Gives-if true p q = p
Gives-if false p q = q

pub store-IsLike : (xs : List ℕ) (i v : ℕ) → Gives (IsLike xs) (store xs i v)
unfolding store
store-IsLike xs i v =
    Gives-if (ltb i (length xs))
      (gives (record {
        same_length = length-set xs i (u8 v);
        keeps_bytes = IsBytes-set xs i (u8 v) (u8-byte v);
      }))
      nothing

pub Gives-map :
    {A : Type 0} {P Q : A → Type 0} {o : Option A} → Gives P o → ((a : A) → P a → Q a) → Gives Q o
Gives-map nothing k = nothing
Gives-map (gives {a} p) k = gives (k a p)

stored : {xs : List ℕ} (ys : List ℕ) (i v : ℕ) → IsLike xs ys → Gives (IsLike xs) (store ys i v)
stored ys i v p = Gives-map (store-IsLike ys i v) (λ zs q. IsLike-trans p q)

abbrev Looped : List ℕ → List ℕ × ℕ × ℕ × ℕ → Type 0
Looped xs r = IsLike xs r.0

cover_loop-IsLike :
    (value : List ℕ) (px bound fuel : ℕ) (ori : List ℕ) (ptr k n : ℕ) (xs : List ℕ)
    → IsLike xs ori
    → Gives (Looped xs) (cover_loop value px bound fuel ori ptr k n)
unfolding cover_loop
cover_loop-IsLike value px bound zero ori ptr k n xs p = nothing
cover_loop-IsLike value px bound (suc fuel) ori ptr k n xs p = elim (Bool-cases (ltb n bound)) [
  | inl e ↦
      rw (cover_loop, e)
        (Gives-any (get_elem? value k) (λ a. Gives-any (get_elem? value (k + 1)) (λ b.
          Gives-bind (stored ori (ptr + 1) _ p)
            (λ ori' q. cover_loop-IsLike value px bound fuel ori' (ptr + 1) (k + 1) _ xs q))))
  | inr e ↦ rw (cover_loop, e) (gives p)
]

cover_tail-IsLike :
    (value : List ℕ) (px len : ℕ) (xs : List ℕ) (r : List ℕ × ℕ × ℕ × ℕ)
    → Looped xs r
    → Gives (IsLike xs) (cover_tail value px len r)
unfolding cover_tail
cover_tail-IsLike value px len xs (ori, ptr, k, n) p = Gives-any (get_elem? value k) (λ a.
    Gives-any (get_elem? value (k + 1))
      (λ b. Gives-any (get_elem? ori (ptr + 1)) (λ c. stored ori (ptr + 1) _ p)))

cover_one-IsLike :
    (ori value : List ℕ) (pos len : ℕ) → Gives (IsLike ori) (cover_one ori value pos len)
unfolding cover_one
cover_one-IsLike ori value pos len =
    Gives-any (get_elem? ori _) (λ p. Gives-any (get_elem? value 0) (λ v. store-IsLike ori _ _))

cover_many-IsLike :
    (ori value : List ℕ) (pos len : ℕ) → Gives (IsLike ori) (cover_many ori value pos len)
unfolding cover_many
cover_many-IsLike ori value pos len = Gives-any (get_elem? ori _) (λ p.
    Gives-any (get_elem? value 0) (λ v. Gives-bind (store-IsLike ori _ _) (λ ori' q.
      Gives-bind (cover_loop-IsLike value _ _ _ ori' _ _ _ ori q)
        (λ r l. cover_tail-IsLike value _ len ori r l))))

pub cover_bit-IsLike :
    (ori value : List ℕ) (pos len : ℕ) → Gives (IsLike ori) (cover_bit ori value pos len)
unfolding cover_bit
cover_bit-IsLike ori value pos len =
    Gives-if (leb len (8 - pos % 8)) (cover_one-IsLike ori value pos len)
      (cover_many-IsLike ori value pos len)

copy_loop-IsLike :
    (src : List ℕ) (ox len fuel ptr : ℕ) (res : List ℕ) (k n : ℕ) (xs : List ℕ)
    → IsLike xs res
    → Gives (λ (r : List ℕ × ℕ × ℕ). IsLike xs r.0) (copy_loop src ox len fuel ptr res k n)
unfolding copy_loop
copy_loop-IsLike src ox len zero ptr res k n xs p = nothing
copy_loop-IsLike src ox len (suc fuel) ptr res k n xs p = elim (Bool-cases (ltb n len)) [
  | inl e ↦
      rw (copy_loop, e)
        (Gives-any (get_elem? src ptr) (λ a. Gives-any (get_elem? src (ptr + 1)) (λ b.
          Gives-bind (stored res k _ p)
            (λ res' q. copy_loop-IsLike src ox len fuel (ptr + 1) res' (k + 1) _ xs q))))
  | inr e ↦ rw (copy_loop, e) (gives p)
]

copy_tail-IsLike :
    (len : ℕ) (xs : List ℕ) (r : List ℕ × ℕ × ℕ)
    → IsLike xs r.0
    → Gives (IsLike xs) (copy_tail len r)
unfolding copy_tail
copy_tail-IsLike len xs (res, zero, n) p = nothing
copy_tail-IsLike len xs (res, suc k, n) p = Gives-any (get_elem? res k) (λ last. stored res k _ p)

pub copy_bit-IsLike :
    (src : Option (List ℕ)) (res : List ℕ) (offset len : ℕ)
    → Gives (IsLike res) (copy_bit src res offset len)
unfolding copy_bit
copy_bit-IsLike none res offset len = gives IsLike-refl
copy_bit-IsLike (some src) res offset len =
    Gives-bind (copy_loop-IsLike src _ _ _ _ res _ _ res IsLike-refl)
      (λ r l. copy_tail-IsLike len res r l)
