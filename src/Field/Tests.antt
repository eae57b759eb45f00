-- ===== src/Field/Tests.antt =====
-- The field routines on a packet of four bytes, and the theorems on them at concrete fields.
use pofswitch.Base.{ℕ, ◌<◌, ◌≡◌, refl, inr, List, [], ◌∷◌, none, some, arith}
use pofswitch.Field.{
  copy_bit, cover_bit, cover_many, cover_bound, cover_tail, cover_loop, copy_loop, copy_tail, store,
}
use pofswitch.Field.Bits.{bit_at, IsBytes, are_bytes-IsBytes}
use pofswitch.Field.Copy.{IsField, copy_bit-IsField}
use pofswitch.Field.Cover.{IsCovered, cover_bit-IsCovered}
use pofswitch.Field.RoundTrip.{cover_bit-copy_bit, copy_bit-cover_bit}
use pofswitch.Field.Short.{cover_bit-runs_away}

abbrev packet : List ℕ
packet = 0x12 ∷ 0x34 ∷ 0x56 ∷ 0x78 ∷ []

abbrev scratch : List ℕ
scratch = 0 ∷ 0xff ∷ 0 ∷ []

abbrev value : List ℕ
value = 0xab ∷ 0xcd ∷ 0 ∷ []

packet-IsBytes : IsBytes packet
packet-IsBytes = are_bytes-IsBytes packet refl

scratch-IsBytes : IsBytes scratch
scratch-IsBytes = are_bytes-IsBytes scratch refl

value-IsBytes : IsBytes value
value-IsBytes = are_bytes-IsBytes value refl

cover_bit_test : cover_bit packet value 4 16 ≡ some (0x1a ∷ 0xbc ∷ 0xd6 ∷ 0x78 ∷ [])
unfolding cover_bit cover_many cover_bound cover_tail cover_loop store
cover_bit_test = refl

copy_bit_test : copy_bit (some packet) scratch 4 12 ≡ some (0x23 ∷ 0x40 ∷ 0 ∷ [])
unfolding copy_bit copy_loop copy_tail store
copy_bit_test = refl

cover_bit-copy_bit_example :
    (field : List ℕ) × (copy_bit (some packet) scratch 4 12 ≡ some field)
    × (cover_bit packet field 4 12 ≡ some packet)
cover_bit-copy_bit_example =
    cover_bit-copy_bit 4 12 (omega arith) (omega arith) (inr (omega arith)) packet scratch
      packet-IsBytes scratch-IsBytes (omega arith) (omega arith) (omega arith)

copy_bit-cover_bit_example :
    (mid out : List ℕ) × (cover_bit packet value 4 16 ≡ some mid)
    × (copy_bit (some mid) scratch 4 16 ≡ some out)
    × ((j : ℕ) → j < 16 → bit_at out j ≡ bit_at value j)
copy_bit-cover_bit_example =
    copy_bit-cover_bit 4 16 (omega arith) (omega arith) (inr (omega arith)) packet value scratch
      packet-IsBytes value-IsBytes (omega arith) (omega arith) (omega arith)
      (λ j h l. absurd (omega arith))

cover_bit-IsCovered_example :
    (out : List ℕ) × (cover_bit packet value 4 16 ≡ some out) × IsCovered packet value 4 16 out
cover_bit-IsCovered_example =
    cover_bit-IsCovered packet value 4 16 value-IsBytes (omega arith) (omega arith) (omega arith)
      (inr (omega arith)) (omega arith) (λ j h l. absurd (omega arith))

copy_bit-IsField_example :
    (out : List ℕ) × (copy_bit (some packet) scratch 4 12 ≡ some out)
    × IsField packet 4 12 scratch out
copy_bit-IsField_example =
    copy_bit-IsField packet scratch 4 12 packet-IsBytes (omega arith) (omega arith) (omega arith)
      (omega arith)

cover_bit-runs_away_example : cover_bit packet value 6 4 ≡ none
cover_bit-runs_away_example =
    cover_bit-runs_away packet value 6 4 (omega arith) (omega arith) (omega arith)
