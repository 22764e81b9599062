-- ===== src/FaultRegions.antt =====
-- The regions of an address space in which a page fault is somebody's to answer:
-- core/oskernel/src/fault_region.cpp and include/os/kernel/fault_region.hpp.
pub mod Budget
mod Invariant
mod Tests
use Prim.Native.Nat.{bit_and}
use enml.Base.{
  ℕ, ◌+◌, ◌-◌, ltb, leb, ◌==◌, if◌then◌else◌, Bool, true, false, ◌&&◌, ◌||◌, not, Option, none,
  some, List, [], ◌∷◌, Result, ok, err, replicate, inc64,
}
use enml.Table.{Keyed, find, modify, place, first_where, modify_where, exists_where}

pub data FaultRegionError : Type 0 where
  invalid_range overlaps exhausted not_found wrong_state : FaultRegionError

abbrev pub max_fault_regions : ℕ
max_fault_regions = 32

pub data FaultDisclosure : Type 0 where
  paged sealed : FaultDisclosure

pub data FaultRegionState : Type 0 where
  unbacked backed_shared backed_private : FaultRegionState

abbrev pub is_sealed : FaultDisclosure → Bool
is_sealed sealed = true
is_sealed paged = false

abbrev pub is_unbacked : FaultRegionState → Bool
is_unbacked unbacked = true
is_unbacked _ = false

abbrev pub is_backed_shared : FaultRegionState → Bool
is_backed_shared backed_shared = true
is_backed_shared _ = false

-- `deliver` is the disposition: the fault goes to the pager, or else the thread is terminated.
pub record FaultReport : Type 0 where
  pub region : ℕ
  pub deliver : Bool
  pub write : Bool

pub record Slot : Type 0 where
  pub base : ℕ
  pub length : ℕ
  pub id : ℕ
  pub disclosure : FaultDisclosure
  pub state : FaultRegionState
  pub announced_backing : Bool
  pub announced_private : Bool
  pub occupied : Bool

instance abbrev pub slot_keyed : Keyed Slot
slot_keyed = record { live = λ a. a.occupied; key = λ a. a.id }

pub record FaultRegionTable : Type 0 where
  pub slots : List Slot
  pub occupied : ℕ
  pub next_id : ℕ

abbrev pub empty_slot : Slot
empty_slot = record {
  base = 0;
  length = 0;
  id = 0;
  disclosure = sealed;
  state = unbacked;
  announced_backing = false;
  announced_private = false;
  occupied = false;
}

unfoldable pub init : FaultRegionTable
init = record { slots = replicate max_fault_regions empty_slot; occupied = 0; next_id = 1 }

abbrev pub max_u64 : ℕ
max_u64 = 0xFFFF_FFFF_FFFF_FFFF

abbrev pub max_u16 : ℕ
max_u16 = 0xFFFF

abbrev pub aligned : ℕ → Bool
aligned value = bit_and value 4095 == 0

-- The ends of declared ranges do not overflow.
abbrev pub overlap : ℕ → ℕ → ℕ → ℕ → Bool
overlap a_base a_length b_base b_length =
    ltb a_base (b_base + b_length) && ltb b_base (a_base + a_length)

abbrev pub new_slot : ℕ → ℕ → ℕ → FaultDisclosure → Slot
new_slot base size id disclosure = record {
  base = base;
  length = size;
  id = id;
  disclosure = disclosure;
  state = unbacked;
  announced_backing = false;
  announced_private = false;
  occupied = true;
}

unfoldable pub declare :
    ℕ → ℕ → FaultDisclosure → FaultRegionTable → FaultRegionTable × Result FaultRegionError ℕ
declare base size disclosure t =
    if size == 0 || not (aligned base) || not (aligned size) || ltb (max_u64 - size) base
    then (t, err invalid_range)
    else if exists_where (λ a. overlap a.base a.length base size) t.slots
    then (t, err overlaps)
    else if t.next_id == max_u16
    then (t, err exhausted)
    else elim (place (new_slot base size t.next_id disclosure) t.slots) [
      | none ↦ (t, err exhausted)
      | some slots ↦ (
        record { slots = slots; occupied = inc64 t.occupied; next_id = t.next_id + 1 },
        ok t.next_id,
      )
    ]

abbrev pub back : FaultRegionState → Slot → Slot
back state a = record a { state = state }

unfoldable pub mark_backed :
    ℕ → FaultRegionState → FaultRegionTable → FaultRegionTable × Result FaultRegionError (Unit {0})
mark_backed region state t = elim (find region t.slots) [
  | none ↦ (t, err not_found)
  | some a ↦
      if is_unbacked state
      then (t, err wrong_state)
      else (record t { slots = modify region (back state) t.slots }, ok tt)
]

abbrev pub covers : ℕ → Slot → Bool
covers address a = leb a.base address && ltb (address - a.base) a.length

abbrev pub terminated : Bool → FaultReport
terminated write = record { region = 0; deliver = false; write = write }

abbrev pub delivered : Slot → Bool → FaultReport
delivered a write = record { region = a.id; deliver = true; write = write }

abbrev pub announce_backing : Slot → Slot
announce_backing a = record a { announced_backing = true }

abbrev pub announce_private : Slot → Slot
announce_private a = record a { announced_private = true }

unfoldable pub resolve : ℕ → Bool → FaultRegionTable → FaultRegionTable × FaultReport
resolve address write t = elim (first_where (covers address) t.slots) [
  | none ↦ (t, terminated write)
  | some hit ↦
      if is_sealed hit.disclosure
      then (t, terminated write)
      else if is_unbacked hit.state
      then (if hit.announced_backing then (t, terminated write) else (
        record t { slots = modify_where (covers address) announce_backing t.slots },
        delivered hit write,
      ))
      else if write && is_backed_shared hit.state
      then (if hit.announced_private then (t, terminated write) else (
        record t { slots = modify_where (covers address) announce_private t.slots },
        delivered hit write,
      ))
      else (t, terminated write)
]

unfoldable pub state : ℕ → FaultRegionTable → Result FaultRegionError FaultRegionState
state region t = elim (find region t.slots) [ none ↦ err not_found | some a ↦ ok a.state ]
