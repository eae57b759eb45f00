-- ===== src/Transfer/Tests.antt =====
-- A header and an action to send a packet out, as they come from the network, and the theorems at them.
use pofswitch.Base.{ℕ, ◌≡◌, refl, inr, inl, ◌++◌, List, [], ◌∷◌, some, replicate}
use pofswitch.Field.Bits.{are_bytes-IsBytes}
use pofswitch.ByteOrder.{htons, htonl, load16, load32, bytes16, bytes32}
use pofswitch.Datapath.Kind.{action_type}
use pofswitch.Transfer.{run, transfer_field, converted}
use pofswitch.Transfer.Messages.{of_header, fields}
use pofswitch.Transfer.Actions.{action}
use pofswitch.Transfer.Layouts.{layout, in_order}
use pofswitch.Transfer.InOrder.{run-in_order}
use pofswitch.Transfer.Instructions.{group}
use pofswitch.Transfer.Repeat.{group-group}

abbrev hello : List ℕ
hello = 4 ∷ 0 ∷ 0 ∷ 8 ∷ 0 ∷ 0 ∷ 1 ∷ 2 ∷ []

hello_test : run (fields of_header) hello ≡ some (4 ∷ 0 ∷ 8 ∷ 0 ∷ 2 ∷ 1 ∷ 0 ∷ 0 ∷ [])
unfolding run transfer_field converted bytes16 bytes32 htons htonl load16 load32
hello_test = refl

run-in_order_example :
    (run (fields of_header) hello ≡ some (in_order (layout of_header) hello))
    × (run (fields of_header) (in_order (layout of_header) hello) ≡ some hello)
run-in_order_example = run-in_order of_header hello (are_bytes-IsBytes hello refl) refl

-- An action of type 0 and 20 bytes that sends out through port 3 of slot 0.
abbrev sends : List ℕ
sends = 0 ∷ 0 ∷ 0 ∷ 20 ∷ 0 ∷ 0 ∷ 0 ∷ 16 ∷ 0 ∷ 0 ∷ 0 ∷ 0 ∷ 0 ∷ 0 ∷ 0 ∷ 3 ∷ replicate 32 0

sends_test :
    action sends
    ≡ some (0 ∷ 0 ∷ 20 ∷ 0 ∷ 0 ∷ 0 ∷ 16 ∷ 0 ∷ 0 ∷ 0 ∷ 0 ∷ 0 ∷ 3 ∷ 0 ∷ 0 ∷ 0 ∷ replicate 32 0)
unfolding action action_type run transfer_field converted bytes16 bytes32 htons htonl load16 load32
sends_test = refl

-- A group of that action, with three places that are not used.
abbrev sends_group : List ℕ
sends_group =
    (0 ∷ 0 ∷ 1 ∷ 0 ∷ 0 ∷ 0 ∷ 0 ∷ 9 ∷ 0 ∷ 0 ∷ 0 ∷ 1 ∷ 0 ∷ 0 ∷ 0 ∷ 0 ∷ sends) ++ replicate 144 0

group-group_example :
    (out : List ℕ) × (group sends_group ≡ some out) × (group out ≡ some sends_group)
group-group_example =
    group-group sends_group (are_bytes-IsBytes sends_group refl) refl
      (inl (inr (refl, refl)), (inr refl, (inr refl, (inr refl, refl))))
