-- ===== src/Resource.antt =====
-- local_resource/: the state `struct pof_local_resource`, as far as the meters, counters and groups
-- of include/pof_local_resource.h need it, and the steps that their three files share.
-- The map, the limit and the number of each of the three are one record. An allocation is an
-- argument of the operation: the address it gives, or `none`.
pub mod Steps
pub mod Counter
pub mod Meter
pub mod Group
pub mod Valid
pub mod Refines
pub mod Created
pub mod Emptied
pub mod Counters
pub mod Meters
pub mod Groups
mod Tests
use pofswitch.Base.{ℕ, Option, none, some, Bool, true, false, List, ◌+◌}
use pofswitch.Hmap.{Hmap}

-- `struct pof_action`, whose parts the local resources only copy.
pub record Action : Type 0 where
  pub kind : ℕ
  pub len : ℕ
  pub action_data : List ℕ

pub record GroupInfo : Type 0 where
  pub kind : ℕ
  pub action_number : ℕ
  pub id : ℕ
  pub counter_id : ℕ
  pub action : List Action

pub record MeterInfo : Type 0 where
  pub id : ℕ
  pub rate : ℕ

pub record CounterInfo : Type 0 where
  pub id : ℕ
  pub value : ℕ
  pub byte_value : ℕ

-- A map that is still NULL is `none`.
pub record Registry (A : Type 0) : Type 0 where
  pub map : Option (Hmap A)
  pub num_max : ℕ
  pub num : ℕ

pub record LocalResource : Type 0 where
  pub slot_id : ℕ
  pub groups : Registry GroupInfo
  pub meters : Registry MeterInfo
  pub counters : Registry CounterInfo
