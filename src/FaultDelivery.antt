-- ===== src/FaultDelivery.antt =====
-- The question of a fault between the kernel that asks it and the pager that answers:
-- core/oskernel/src/fault_delivery.cpp and include/os/kernel/fault_delivery.hpp.
pub mod Debt
mod Tests
use enml.Base.{
  ℕ, ◌==◌, if◌then◌else◌, Bool, true, false, ◌&&◌, ◌||◌, not, none, some, List, Result, ok, err,
  replicate, inc64, dec64,
}
use enml.Table.{Keyed, first, modify, place}
use enml.FaultRegions.{FaultReport}

pub data FaultDeliveryError : Type 0 where
  invalid_thread already_armed not_armed not_delivered exhausted invalid_capability :
      FaultDeliveryError

abbrev pub max_fault_deliveries : ℕ
max_fault_deliveries = 16

pub record FaultDelivery : Type 0 where
  pub region : ℕ
  pub faulting : ℕ
  pub write : Bool

abbrev pub no_delivery : FaultDelivery
no_delivery = record { region = 0; faulting = 0; write = false }

pub data State : Type 0 where
  free pending delivered : State

abbrev pub is_free : State → Bool
is_free free = true
is_free _ = false

abbrev pub is_pending : State → Bool
is_pending pending = true
is_pending _ = false

abbrev pub is_delivered : State → Bool
is_delivered delivered = true
is_delivered _ = false

pub record Slot : Type 0 where
  pub pager : ℕ
  pub delivery : FaultDelivery
  pub state : State

instance abbrev pub slot_keyed : Keyed Slot
slot_keyed = record { live = λ a. not (is_free a.state); key = λ a. a.pager }

abbrev pub empty_slot : Slot
empty_slot = record { pager = 0; delivery = no_delivery; state = free }

pub record FaultDeliveryTable : Type 0 where
  pub slots : List Slot
  pub occupied : ℕ

unfoldable pub init : FaultDeliveryTable
init = record { slots = replicate max_fault_deliveries empty_slot; occupied = 0 }

-- The capability that a pager answers with.
unfoldable pub decode_fault_supply_syscall : ℕ → Result FaultDeliveryError ℕ
decode_fault_supply_syscall x0_backing =
    if x0_backing == 0 then err invalid_capability else ok x0_backing

abbrev pub is_deliverable : FaultReport → Bool
is_deliverable report = report.deliver && not (report.region == 0)

unfoldable pub armed : ℕ → FaultDeliveryTable → Bool
armed pager t =
    if pager == 0 then false else elim (first pager t.slots) [ none ↦ false | some _ ↦ true ]

abbrev pub question : ℕ → FaultReport → FaultDelivery
question faulting report = record {
  region = report.region;
  faulting = faulting;
  write = report.write;
}

abbrev pub asked : ℕ → ℕ → FaultReport → Slot
asked pager faulting report = record {
  pager = pager;
  delivery = question faulting report;
  state = pending;
}

unfoldable pub arm :
    ℕ
    → ℕ
    → FaultReport
    → FaultDeliveryTable
    → FaultDeliveryTable × Result FaultDeliveryError (Unit {0})
arm pager faulting report t =
    if pager == 0 || faulting == 0
    then (t, err invalid_thread)
    else if pager == faulting
    then (t, err invalid_thread)
    else if not (is_deliverable report)
    then (t, err not_armed)
    else elim (first pager t.slots) [
      | some _ ↦ (t, err already_armed)
      | none ↦ elim (place (asked pager faulting report) t.slots) [
        | none ↦ (t, err exhausted)
        | some slots ↦ (record { slots = slots; occupied = inc64 t.occupied }, ok tt)
      ]
    ]

abbrev pub collect : Slot → Slot
collect a = record a { state = delivered }

unfoldable pub take :
    ℕ → FaultDeliveryTable → FaultDeliveryTable × Result FaultDeliveryError FaultDelivery
take pager t = if pager == 0 then (t, err invalid_thread) else elim (first pager t.slots) [
  | none ↦ (t, err not_armed)
  | some a ↦
      if not (is_pending a.state)
      then (t, err not_armed)
      else (record t { slots = modify pager collect t.slots }, ok a.delivery)
]

abbrev pub cleared : ℕ → FaultDeliveryTable → FaultDeliveryTable
cleared pager t = record {
  slots = modify pager (λ _. empty_slot) t.slots;
  occupied = dec64 t.occupied;
}

unfoldable pub answer :
    ℕ → FaultDeliveryTable → FaultDeliveryTable × Result FaultDeliveryError FaultDelivery
answer pager t = if pager == 0 then (t, err invalid_thread) else elim (first pager t.slots) [
  | none ↦ (t, err not_armed)
  | some a ↦
      if not (is_delivered a.state)
      then (t, err not_delivered)
      else (cleared pager t, ok a.delivery)
]

unfoldable pub release : ℕ → FaultDeliveryTable → FaultDeliveryTable × FaultDelivery
release pager t = if pager == 0 then (t, no_delivery) else elim (first pager t.slots) [
  | none ↦ (t, no_delivery)
  | some a ↦ (cleared pager t, a.delivery)
]
