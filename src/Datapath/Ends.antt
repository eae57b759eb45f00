-- ===== src/Datapath/Ends.antt =====
-- What holds when an operation ends, whatever it returns: the rules for the ways in which operations
-- are put together.
use pofswitch.Base.{refl, Bool, true, false, Option, none, some, if◌then◌else◌}
use pofswitch.Error.{Ret, Outcome, done, fault, pof_ok, failed, and_then, Error}
use pofswitch.Resource.Steps.{or_fault}
use pofswitch.Field.Keep.{Gives, nothing, gives}
use pofswitch.Datapath.{Read, value, refused, wild, read, Packet, Machine}
use pofswitch.Datapath.Actions.{on_packet}
use pofswitch.Datapath.Invariant.{Keeps, KeepsPacket, Frame-refl}

pub data Ends {S : Type 0} (P : S → Type 0) : Outcome S → Type 0 where
  ends : {r : Ret} {s : S} → P s → Ends P (done r s)
  faulted : Ends P fault

pub data IsValue {A : Type 0} (P : A → Type 0) : Read A → Type 0 where
  is_value : {a : A} → P a → IsValue P (value a)
  is_refused : {e : Error} → IsValue P (refused e)
  is_wild : IsValue P wild

module _ {S : Type 0} {P : S → Type 0} where
  pub Ends-and_then :
      {Q : S → Type 0} {o : Outcome S} {f : S → Outcome S}
      → Ends Q o
      → ((s : S) → Q s → P s)
      → ((s : S) → Q s → Ends P (f s))
      → Ends P (and_then o f)
  Ends-and_then (ends {r = pof_ok} {s} q) k f = f s q
  Ends-and_then (ends {r = failed e} {s} q) k f = ends (k s q)
  Ends-and_then faulted k f = faulted

  pub Ends-or_fault :
      {A : Type 0} {Q : A → Type 0} {o : Option A} {f : A → Outcome S}
      → Gives Q o
      → ((a : A) → Q a → Ends P (f a))
      → Ends P (or_fault o f)
  Ends-or_fault nothing k = faulted
  Ends-or_fault (gives {a} q) k = k a q

  pub Ends-any :
      {A : Type 0} (o : Option A) {f : A → Outcome S}
      → ((a : A) → Ends P (f a))
      → Ends P (or_fault o f)
  Ends-any none k = faulted
  Ends-any (some a) k = k a

  pub Ends-read :
      {A : Type 0} {Q : A → Type 0} {r : Read A} (s : S) {f : A → Outcome S}
      → IsValue Q r
      → P s
      → ((a : A) → Q a → Ends P (f a))
      → Ends P (read r s f)
  Ends-read s (is_value {a} q) p k = k a q
  Ends-read s is_refused p k = ends p
  Ends-read s is_wild p k = faulted

  pub Ends-read_any :
      {A : Type 0} (r : Read A) (s : S) {f : A → Outcome S}
      → P s
      → ((a : A) → Ends P (f a))
      → Ends P (read r s f)
  Ends-read_any (value a) s p k = k a
  Ends-read_any (refused e) s p k = ends p
  Ends-read_any wild s p k = faulted

  pub Ends-if : (b : Bool) {x y : Outcome S} → Ends P x → Ends P y → Ends P (if b then x else y)
  Ends-if true p q = p
  Ends-if false p q = q

  pub Ends-map : {Q : S → Type 0} {o : Outcome S} → Ends Q o → ((s : S) → Q s → P s) → Ends P o
  Ends-map (ends {s} q) k = ends (k s q)
  Ends-map faulted k = faulted

-- A step on the packet is one on the machine.
pub packet-Keeps :
    (m : Machine) (p : Packet) → KeepsPacket m.packet p → Keeps m (record m { packet = p })
packet-Keeps m p k = record {
  frame = record {
    same_slot = refl;
    same_ports = refl;
    more_sent = (Frame-refl {m = m}).more_sent;
  };
  packet = k;
}

pub on_packet-Keeps :
    (m : Machine) {o : Outcome Packet}
    → Ends (KeepsPacket m.packet) o
    → Ends (Keeps m) (on_packet m o)
on_packet-Keeps m (ends {s} k) = ends (packet-Keeps m s k)
on_packet-Keeps m faulted = faulted
