-- ===== src/Interrupt.antt =====
-- Interrupt dispatch: core/oskernel/src/interrupt.cpp and include/os/kernel/interrupt.hpp.
-- An operation takes the table and returns the new one with its result. Sources, drivers and
-- counts are numbers below their width; every counter step writes its width out.
pub mod Invariant
pub mod Run
pub mod Accounting
mod Lines
pub mod Teardown
mod Tests
use enml.Base.{
  ℕ, suc, ◌+◌, ltb, ◌==◌, if◌then◌else◌, Bool, true, false, ◌&&◌, not, none, some, List, [], ◌∷◌,
  Result, ok, err, replicate, inc64, dec64, sub64,
}
use enml.Table.{Keyed, clear_where, count_where, find, modify, place}

pub data InterruptError : Type 0 where
  invalid_source invalid_driver source_taken not_attached not_owner source_limit : InterruptError
  not_pending not_in_service : InterruptError

pub data InterruptState : Type 0 where
  attached pending in_service : InterruptState

abbrev pub is_attached : InterruptState → Bool
is_attached attached = true
is_attached _ = false

abbrev pub is_pending : InterruptState → Bool
is_pending pending = true
is_pending _ = false

abbrev pub is_in_service : InterruptState → Bool
is_in_service in_service = true
is_in_service _ = false

pub record Dispatch : Type 0 where
  pub owner : ℕ
  pub wake : Bool
  pub coalesced : Bool

pub record Service : Type 0 where
  pub assertions : ℕ
  pub saturated : Bool

pub record Slot : Type 0 where
  pub source : ℕ
  pub owner : ℕ
  pub state : InterruptState
  pub assertions : ℕ
  pub saturated : Bool
  pub occupied : Bool

instance abbrev pub slot_keyed : Keyed Slot
slot_keyed = record { live = λ a. a.occupied; key = λ a. a.source }

pub record InterruptTable : Type 0 where
  pub slots : List Slot
  pub occupied : ℕ
  pub spurious : ℕ

abbrev pub max_interrupt_sources : ℕ
max_interrupt_sources = 64

abbrev pub assertion_ceiling : ℕ
assertion_ceiling = 0xFFFF_FFFF

-- `Slot{}`.
abbrev pub empty_slot : Slot
empty_slot = record {
  source = 0;
  owner = 0;
  state = attached;
  assertions = 0;
  saturated = false;
  occupied = false;
}

unfoldable pub init : InterruptTable
init = record { slots = replicate max_interrupt_sources empty_slot; occupied = 0; spurious = 0 }

-- A count that stops at its ceiling and remembers that it did.
abbrev pub record_assertion : Slot → Slot
record_assertion a =
    if a.assertions == assertion_ceiling
    then record a { saturated = true }
    else record a { assertions = a.assertions + 1 }

-- The writes of `dispatch`, `begin_service` and `end_service` to the slot that they found.
abbrev pub raise : Slot → Slot
raise a = record a { state = pending; assertions = 1; saturated = false }

abbrev pub collect : Slot → Slot
collect a = record a { state = in_service; assertions = 0; saturated = false }

abbrev pub requeue : Slot → Slot
requeue a = record a { state = pending }

abbrev pub unmask : Slot → Slot
unmask a = record a { state = attached }

abbrev pub fresh_slot : ℕ → ℕ → Slot
fresh_slot driver source = record {
  source = source;
  owner = driver;
  state = attached;
  assertions = 0;
  saturated = false;
  occupied = true;
}

unfoldable pub attach : ℕ → ℕ → InterruptTable → InterruptTable × Result InterruptError (Unit {0})
attach driver source t =
    if driver == 0
    then (t, err invalid_driver)
    else if source == 0
    then (t, err invalid_source)
    else elim (find source t.slots) [
      | some taken ↦ (t, err source_taken)
      | none ↦ elim (place (fresh_slot driver source) t.slots) [
        | none ↦ (t, err source_limit)
        | some slots ↦ (record t { slots = slots; occupied = inc64 t.occupied }, ok tt)
      ]
    ]

unfoldable pub detach : ℕ → ℕ → InterruptTable → InterruptTable × Result InterruptError (Unit {0})
detach driver source t =
    if driver == 0
    then (t, err invalid_driver)
    else if source == 0
    then (t, err invalid_source)
    else elim (find source t.slots) [
      | none ↦ (t, err not_attached)
      | some slot ↦ if not (slot.owner == driver) then (t, err not_owner) else (
        record t { slots = modify source (λ _. empty_slot) t.slots; occupied = dec64 t.occupied },
        ok tt,
      )
    ]

unfoldable pub dispatch : ℕ → InterruptTable → InterruptTable × Result InterruptError Dispatch
dispatch source t = if source == 0 then (t, err invalid_source) else elim (find source t.slots) [
  | none ↦ (
    (if t.spurious == assertion_ceiling then t else record t { spurious = t.spurious + 1 }),
    ok (record { owner = 0; wake = false; coalesced = false }),
  )
  | some slot ↦
      if is_attached slot.state
      then (
        record t { slots = modify source raise t.slots },
        ok (record { owner = slot.owner; wake = true; coalesced = false }),
      )
      else (
        record t { slots = modify source record_assertion t.slots },
        ok (record { owner = slot.owner; wake = false; coalesced = true }),
      )
]

unfoldable pub begin_service :
    ℕ → ℕ → InterruptTable → InterruptTable × Result InterruptError Service
begin_service driver source t =
    if driver == 0
    then (t, err invalid_driver)
    else if source == 0
    then (t, err invalid_source)
    else elim (find source t.slots) [
      | none ↦ (t, err not_attached)
      | some slot ↦
          if not (slot.owner == driver)
          then (t, err not_owner)
          else if not (is_pending slot.state)
          then (t, err not_pending)
          else (
            record t { slots = modify source collect t.slots },
            ok (record { assertions = slot.assertions; saturated = slot.saturated }),
          )
    ]

unfoldable pub end_service : ℕ → ℕ → InterruptTable → InterruptTable × Result InterruptError Bool
end_service driver source t =
    if driver == 0
    then (t, err invalid_driver)
    else if source == 0
    then (t, err invalid_source)
    else elim (find source t.slots) [
      | none ↦ (t, err not_attached)
      | some slot ↦
          if not (slot.owner == driver)
          then (t, err not_owner)
          else if not (is_in_service slot.state)
          then (t, err not_in_service)
          else if ltb 0 slot.assertions
          then (record t { slots = modify source requeue t.slots }, ok true)
          else (record t { slots = modify source unmask t.slots }, ok false)
    ]

-- The slots after the loop of `detach_all_owned_by`, and how many it freed.
abbrev pub free_owned : ℕ → List Slot → List Slot
free_owned driver = clear_where (λ a. a.owner == driver) empty_slot

abbrev pub count_owned : ℕ → List Slot → ℕ
count_owned driver = count_where λ a. a.owner == driver

unfoldable pub detach_all_owned_by : ℕ → InterruptTable → InterruptTable × ℕ
detach_all_owned_by driver t = if driver == 0 then (t, 0) else (
  record t {
    slots = free_owned driver t.slots;
    occupied = sub64 t.occupied (count_owned driver t.slots);
  },
  count_owned driver t.slots,
)

unfoldable pub state_of : ℕ → InterruptTable → Result InterruptError InterruptState
state_of source t = elim (find source t.slots) [ none ↦ err not_attached | some a ↦ ok a.state ]

unfoldable pub owner_of : ℕ → InterruptTable → Result InterruptError ℕ
owner_of source t = elim (find source t.slots) [ none ↦ err not_attached | some a ↦ ok a.owner ]

unfoldable pub is_masked : ℕ → InterruptTable → Result InterruptError Bool
is_masked source t = elim (find source t.slots) [
  | none ↦ err not_attached
  | some a ↦ ok (not (is_attached a.state))
]
