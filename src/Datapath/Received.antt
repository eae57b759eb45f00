-- ===== src/Datapath/Received.antt =====
-- What `pofdp_recv_raw_task` of datapath/pof_datapath.c forwards of what it receives.
use pofswitch.Base.{
  ℕ, zero, suc, ◌+◌, ◌-◌, ◌≤◌, ◌<◌, ◌≡◌, refl, ap, ◌∙◌, inl, inr, Bool, true, false, not, Option,
  none, some, List, [], ◌∷◌, ◌++◌, arith, length, take, drop, replicate, ◌==◌, ◌||◌, ◌&&◌, ltb, leb,
  if◌then◌else◌, Bool-cases, length-append, length-replicate, length-take,
}
use pofswitch.Field.Bits.{IsBytes, IsBytes-append, IsBytes-replicate}
use pofswitch.Hmap.{Node}
use pofswitch.Flow.Table.{TableInfo}
use pofswitch.Flow.Tables.{Slot, get_table_with_id}
use pofswitch.Resource.Refines.{is_some}
use pofswitch.Datapath.{Packet}
use pofswitch.Datapath.Receive.{Receiver, received, recv_raw}
use pofswitch.Datapath.Invariant.{IsPacket}

take_whole : (n : ℕ) (xs : List ℕ) → length xs ≤ n → take n xs ≡ xs
take_whole zero [] h = refl
take_whole zero (x ∷ xs) h = absurd (omega arith)
take_whole (suc n) [] h = refl
take_whole (suc n) (x ∷ xs) h = ap (λ t. x ∷ t) (take_whole n xs (omega arith))

take_long : (xs : List ℕ) → leb (length xs) 1920 ≡ false → 1920 < length (take 2048 xs)
take_long xs h = elim (Bool-cases (leb (length xs) 2048)) [
  | inl e ↦ rw (take_whole 2048 xs (ground arith)) (ground arith)
  | inr e ↦ rw (length-take 2048 xs (ground arith)) (omega arith)
]

drop-replicate : (n m : ℕ) → drop {A = ℕ} n (replicate m 0) ≡ replicate (m - n) 0
drop-replicate zero m = let all : m ≡ m - 0 = omega arith in ap (λ k. replicate {A = ℕ} k 0) all
drop-replicate (suc n) zero =
    let no : 0 ≡ 0 - suc n = omega arith in ap (λ k. replicate {A = ℕ} k 0) no
drop-replicate (suc n) (suc m) =
    let less : m - n ≡ suc m - suc n = omega arith in
    drop-replicate n m ∙ ap (λ k. replicate {A = ℕ} k 0) less

-- The buffer of a packet with these bytes behind the 128 that are kept free.
abbrev pub laid_out : List ℕ → List ℕ
laid_out bytes = replicate 128 0 ++ bytes ++ replicate (1920 - length bytes) 0

-- A packet that holds the bytes, and nothing else, from its pointer on.
pub record Holds (port_id : ℕ) (bytes : List ℕ) (p : Packet) : Type 0 where
  pub valid : IsPacket p
  pub buf : p.buf ≡ laid_out bytes
  pub at : p.buf_offset ≡ 128
  pub left : p.left_len ≡ length bytes
  pub all : p.ori_len ≡ length bytes
  pub port : p.ori_port_id ≡ port_id

-- What is forwarded: bytes that arrive at an enabled port, are not too many for a frame, do not go out
-- of it and pass the filter, if there is a first table.
abbrev pub is_wanted : Receiver → Bool → List ℕ → Option (Node TableInfo) → Bool
is_wanted port outgoing bytes first_table =
    ltb 0 (length bytes)
    && not (port.of_enable == 0)
    && not outgoing
    && leb (length bytes) 1514
    && port.accepts bytes
    && is_some first_table

abbrev pub Receives :
    Receiver → Bool → List ℕ → Option (Node TableInfo) → Option (Option Packet) → Type 0
Receives port outgoing bytes first_table out =
    if leb (length bytes) 1920
    then if is_wanted port outgoing bytes first_table
      then ((p : Packet) × (out ≡ some (some p)) × Holds port.port_id bytes p)
      else out ≡ some none
    else out ≡ none

received-Holds :
    (port_id : ℕ) (bytes : List ℕ)
    → IsBytes bytes
    → length bytes ≤ 1920
    → Holds port_id bytes (received port_id (length bytes) (laid_out bytes))
unfolding received
received-Holds port_id bytes b h = record {
  valid = record {
    buf_length = omega (
      arith,
      length-append (replicate 128 0) (bytes ++ replicate (1920 - length bytes) 0),
      length-append bytes (replicate (1920 - length bytes) 0),
      length-replicate {A = ℕ} 128 0,
      length-replicate {A = ℕ} (1920 - length bytes) 0,
    );
    buf_bytes =
        IsBytes-append (replicate 128 0) (bytes ++ replicate (1920 - length bytes) 0)
          (IsBytes-replicate 128)
          (IsBytes-append bytes (replicate (1920 - length bytes) 0) b
            (IsBytes-replicate (1920 - length bytes)));
    metadata_length = refl;
    metadata_bytes = λ i. omega arith;
    out_length = length-replicate {A = ℕ} 2048 0;
    small = omega arith;
    placed = (0, refl);
  };
  buf = refl;
  at = refl;
  left = refl;
  all = refl;
  port = refl;
}

too_long : (n : ℕ) → 1920 < n → leb (128 + n) 2048 ≡ false
too_long n h = ground arith

short_enough : (n : ℕ) → leb n 1920 ≡ true → n ≤ 1920
short_enough n h = ground arith

fitting : (n : ℕ) → n ≤ 1920 → leb (128 + n) 2048 ≡ true
fitting n h = ground arith

nonempty : (n : ℕ) → ltb 0 n ≡ not (n == 0)
nonempty n = ground arith

within : (n : ℕ) → leb n 1514 ≡ not (ltb 1514 n)
within n = ground arith

-- The guards of the code, which drop, and the conditions, which want.
guards :
    (a b c d e f : Bool)
    → (not a && not b && not c && not d && e && f) ≡ (not (a || b || c || d || not e) && f)
guards true b c d e f = refl
guards false true c d e f = refl
guards false false true d e f = refl
guards false false false true e f = refl
guards false false false false true f = refl
guards false false false false false f = refl

picked :
    (P : Packet → Type 0) (x : Bool) (table : Option (Node TableInfo)) (p : Packet)
    → P p
    → let out : Option (Option Packet) =
        if x then some none else if is_some table then some (some p) else some none in
      (if not x && is_some table
        then ((q : Packet) × (out ≡ some (some q)) × P q)
        else out ≡ some none)
picked P true table p h = refl
picked P false none p h = refl
picked P false (some node) p h = (p, refl, h)

-- Of up to 1920 bytes that arrive, `pofdp_recv_raw_task` forwards those that its guards let pass, as a
-- packet with buffers of their lengths that hold bytes, its pointers in place and the bytes behind the
-- 128 that are kept free, and drops the others, provided that the slot has a map of tables; more
-- bytes, which the bound that it gives to `recvfrom` allows, are stored behind the end of the buffer.
pub recv_raw-Receives :
    (port : Receiver) (outgoing : Bool) (bytes : List ℕ) (slot : Slot)
    (first_table : Option (Node TableInfo))
    → IsBytes bytes
    → get_table_with_id 0 slot ≡ some first_table
    → Receives port outgoing bytes first_table
        (recv_raw port (record { frame = some bytes; outgoing = outgoing }) slot)
unfolding recv_raw
recv_raw-Receives port outgoing bytes slot first_table b found =
    elim (Bool-cases (leb (length bytes) 1920)) [
      | inr h ↦
          let long = take_long bytes h in
          let over : leb (128 + length (take 2048 bytes)) 2048 ≡ false = too_long _ long in
          rw (h, over) refl
      | inl h ↦
          let short : length bytes ≤ 1920 = short_enough _ h in
          let fits : leb (128 + length bytes) 2048 ≡ true = fitting _ short in
          let some_bytes : ltb 0 (length bytes) ≡ not (length bytes == 0) =
            nonempty (length bytes) in
          let few : leb (length bytes) 1514 ≡ not (ltb 1514 (length bytes)) =
            within (length bytes) in
          let rest : drop {A = ℕ} (128 + length bytes) (replicate 2048 0)
              ≡ replicate (1920 - length bytes) 0 =
            drop-replicate (128 + length bytes) 2048
            ∙ ap (λ k. replicate {A = ℕ} k 0) (omega arith) in
          rw (h, take_whole 2048 bytes (omega arith), fits, found, rest, some_bytes, few)
            (rw
              (guards (length bytes == 0) (port.of_enable == 0) outgoing (ltb 1514 (length bytes))
                (port.accepts bytes) (is_some first_table))
              (picked (Holds port.port_id bytes) _ first_table _
                (received-Holds port.port_id bytes b short)))
    ]
