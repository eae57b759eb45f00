-- ===== src/Transfer/Twice.antt =====
-- The conversions of messages, done twice.
use pofswitch.Base.{ℕ, ◌≡◌, refl, ap, ◌∙◌, true, Option, some, List, length, get_or, get_or_ext}
use pofswitch.Field.Bits.{IsBytes}
use pofswitch.Transfer.{Field, run}
use pofswitch.Transfer.Messages.{
  Message, of_error, of_packet_in, of_header, of_port, of_port_status, of_flow_table, of_meter,
  of_counter, of_switch_features, of_flow_table_resource, of_switch_config, of_queryall_request,
  fields, size,
}
use pofswitch.Transfer.Mirror.{
  IsMoved, mirror_all, all_within, all_apart, run-IsMoved, mirror_all-mirror_all,
}

-- A conversion that, done again, leads back.
pub record Turns (f : List ℕ → Option (List ℕ)) (buf out : List ℕ) : Type 0 where
  pub there : f buf ≡ some out
  pub back : f out ≡ some buf
  pub same_length : length out ≡ length buf
  pub bytes : IsBytes out

pub run-Turns :
    (fs : List Field) (buf : List ℕ)
    → IsBytes buf
    → all_within (length buf) fs ≡ true
    → all_apart fs ≡ true
    → (out : List ℕ) × Turns (run fs) buf out × IsMoved (mirror_all fs) buf out
run-Turns fs buf b w a =
    let (out, there, m) = run-IsMoved fs buf b w in
    let (again, back, n) =
      run-IsMoved fs out m.bytes (ap (λ t. all_within t fs) m.same_length ∙ w) in
    (
      out,
      record {
        there = there;
        back =
            back
            ∙ ap some (
                get_or_ext 0 again buf (n.same_length ∙ m.same_length) λ j.
                  n.moves j
                  ∙ m.moves (mirror_all fs j)
                  ∙ ap (λ t. get_or buf t 0) (mirror_all-mirror_all fs j a));
        same_length = m.same_length;
        bytes = m.bytes;
      },
      m,
    )

pub fields_within : (m : Message) → all_within (size m) (fields m) ≡ true
fields_within of_error = refl
fields_within of_packet_in = refl
fields_within of_header = refl
fields_within of_port = refl
fields_within of_port_status = refl
fields_within of_flow_table = refl
fields_within of_meter = refl
fields_within of_counter = refl
fields_within of_switch_features = refl
fields_within of_flow_table_resource = refl
fields_within of_switch_config = refl
fields_within of_queryall_request = refl

pub fields_apart : (m : Message) → all_apart (fields m) ≡ true
fields_apart of_error = refl
fields_apart of_packet_in = refl
fields_apart of_header = refl
fields_apart of_port = refl
fields_apart of_port_status = refl
fields_apart of_flow_table = refl
fields_apart of_meter = refl
fields_apart of_counter = refl
fields_apart of_switch_features = refl
fields_apart of_flow_table_resource = refl
fields_apart of_switch_config = refl
fields_apart of_queryall_request = refl
