-- ===== src/Delivery.antt =====
-- What a woken driver collects: core/oskernel/src/interrupt_delivery.cpp and
-- include/os/kernel/interrupt_delivery.hpp.
pub mod Collecting
mod Tests
use enml.Base.{
  ℕ, ◌==◌, if◌then◌else◌, Bool, true, false, ◌||◌, none, some, List, Result, ok, err, replicate,
}
use enml.Table.{Keyed, find, modify, place}
use enml.Interrupt.{Service}

pub data DeliveryError : Type 0 where
  invalid_thread already_armed not_armed exhausted : DeliveryError

pub record Slot : Type 0 where
  pub driver : ℕ
  pub source : ℕ
  pub service : Service
  pub occupied : Bool

instance abbrev pub slot_keyed : Keyed Slot
slot_keyed = record { live = λ a. a.occupied; key = λ a. a.driver }

abbrev pub max_threads : ℕ
max_threads = 64

abbrev pub empty_slot : Slot
empty_slot = record {
  driver = 0;
  source = 0;
  service = record { assertions = 0; saturated = false };
  occupied = false;
}

pub record InterruptDeliveryTable : Type 0 where
  pub slots : List Slot

unfoldable pub init : InterruptDeliveryTable
init = record { slots = replicate max_threads empty_slot }

unfoldable pub armed : ℕ → InterruptDeliveryTable → Bool
armed driver t = elim (find driver t.slots) [ none ↦ false | some _ ↦ true ]

unfoldable pub arm :
    ℕ
    → ℕ
    → Service
    → InterruptDeliveryTable
    → InterruptDeliveryTable × Result DeliveryError (Unit {0})
arm driver source service t =
    let slot : Slot = record {
      driver = driver;
      source = source;
      service = service;
      occupied = true;
    } in
    if driver == 0 || source == 0 then (t, err invalid_thread) else elim (find driver t.slots) [
      | some _ ↦ (t, err already_armed)
      | none ↦ elim (place slot t.slots) [
        | none ↦ (t, err exhausted)
        | some slots ↦ (record { slots = slots }, ok tt)
      ]
    ]

abbrev pub cleared : ℕ → InterruptDeliveryTable → InterruptDeliveryTable
cleared driver t = record { slots = modify driver (λ _. empty_slot) t.slots }

unfoldable pub take :
    ℕ → InterruptDeliveryTable → InterruptDeliveryTable × Result DeliveryError Service
take driver t = elim (find driver t.slots) [
  | none ↦ (t, err not_armed)
  | some a ↦ (cleared driver t, ok a.service)
]

unfoldable pub release : ℕ → InterruptDeliveryTable → InterruptDeliveryTable × Bool
release driver t = elim (find driver t.slots) [
  | none ↦ (t, false)
  | some a ↦ (cleared driver t, true)
]
