-- ===== src/Flow/Exact.antt =====
-- `entryLookup_EM` of local_resource/pof_flow_table.c and the hash of keys of two words.
use pofswitch.Base.{
  ℕ, ◌≡◌, refl, sym, ap, ◌∙◌, some, List, [], ◌∷◌, bit_xor, bit_xor_comm, bit_xor-zero,
}
use pofswitch.Flow.Table.{TableInfo, hash_for_bytes, hash_for_uint32, word, entry_lookup_em}

abbrev pub two_words : ℕ → ℕ → ℕ → ℕ → ℕ → ℕ → ℕ → ℕ → List ℕ
two_words a b c d e f g h = a ∷ b ∷ c ∷ d ∷ e ∷ f ∷ g ∷ h ∷ []

hash_of_two_words :
    (a b c d e f g h : ℕ)
    → hash_for_bytes 8 (two_words a b c d e f g h) 0
      ≡ some (bit_xor (hash_for_uint32 (word a b c d)) (hash_for_uint32 (word e f g h)))
unfolding hash_for_bytes
hash_of_two_words a b c d e f g h =
    ap (λ t. some (bit_xor t (hash_for_uint32 (word e f g h))))
      (bit_xor-zero (hash_for_uint32 (word a b c d)))

hash_swapped :
    (a b c d e f g h : ℕ)
    → hash_for_bytes 8 (two_words a b c d e f g h) 0
      ≡ hash_for_bytes 8 (two_words e f g h a b c d) 0
hash_swapped a b c d e f g h =
    hash_of_two_words a b c d e f g h
    ∙ ap some (bit_xor_comm (hash_for_uint32 (word a b c d)) (hash_for_uint32 (word e f g h)))
    ∙ sym (hash_of_two_words e f g h a b c d)

-- Known defect: in an exact-match table with keys of 64 bits, the lookup of a key and that of the key
-- with its two words exchanged find the same entry, whatever the table holds.
pub entry_lookup_em-exchanged :
    (table : TableInfo) (a b c d e f g h : ℕ)
    → table.key_len ≡ 64
    → entry_lookup_em (two_words a b c d e f g h) table
      ≡ entry_lookup_em (two_words e f g h a b c d) table
unfolding entry_lookup_em
entry_lookup_em-exchanged table a b c d e f g h len = rw (len, hash_swapped a b c d e f g h) refl
