-- ===== src/Translations.antt =====
-- Which translation root a thread runs under: core/oskernel/src/process_translation.cpp,
-- include/os/kernel/process_translation.hpp and translation_root.hpp.
pub mod Bound
mod Tests
use Prim.Native.Nat.{bit_and}
use enml.Base.{
  ℕ, ◌-◌, ◌==◌, if◌then◌else◌, Bool, true, false, ◌&&◌, ◌||◌, not, Option, none, some, List, [],
  ◌∷◌, Result, ok, err, replicate, inc64, dec64,
}
use enml.Table.{Keyed, find, modify, place, exists_where}
use enml.Spaces.{AddressSpaceEpoch, is_valid_epoch, is_active}
use enml.Spaces

pub data TranslationError : Type 0 where
  invalid_thread invalid_epoch invalid_root duplicate_thread duplicate_epoch : TranslationError
  exhausted not_found stale : TranslationError

-- A root that the machine layer sealed, with the entry it was sealed for.
pub record SealedTranslationRoot : Type 0 where
  pub root_physical : ℕ
  pub entry : ℕ

abbrev pub is_valid_root : SealedTranslationRoot → Bool
is_valid_root a = not (a.root_physical == 0) && not (a.entry == 0)

abbrev pub page_address_mask : ℕ
page_address_mask = 0x0000_FFFF_FFFF_F000

abbrev pub max_u64 : ℕ
max_u64 = 0xFFFF_FFFF_FFFF_FFFF

abbrev pub stage1_physical_address : ℕ → Bool
stage1_physical_address value =
    bit_and value 0xFFF == 0 && bit_and value (max_u64 - page_address_mask) == 0

pub record Binding : Type 0 where
  pub thread : ℕ
  pub epoch : AddressSpaceEpoch
  pub root_physical : ℕ

pub record Slot : Type 0 where
  pub occupied : Bool
  pub binding : Binding

instance abbrev pub slot_keyed : Keyed Slot
slot_keyed = record { live = λ a. a.occupied; key = λ a. a.binding.thread }

abbrev pub max_threads : ℕ
max_threads = 64

abbrev pub empty_slot : Slot
empty_slot = record {
  occupied = false;
  binding = record {
    thread = 0;
    epoch = record { slot = 0; generation = 0; asid = 0 };
    root_physical = 0;
  };
}

pub record ProcessTranslationTable : Type 0 where
  pub slots : List Slot
  pub occupied : ℕ

unfoldable pub init : ProcessTranslationTable
init = record { slots = replicate max_threads empty_slot; occupied = 0 }

abbrev pub same_epoch : AddressSpaceEpoch → AddressSpaceEpoch → Bool
same_epoch e f = e.slot == f.slot && e.generation == f.generation && e.asid == f.asid

-- The first slot that is in the way, by its thread or by its epoch, decides the error.
unfoldable pub conflict : ℕ → AddressSpaceEpoch → List Slot → Option TranslationError
conflict thread epoch [] = none
conflict thread epoch (a ∷ rest) =
    if a.occupied && a.binding.thread == thread
    then some duplicate_thread
    else if a.occupied && same_epoch a.binding.epoch epoch
    then some duplicate_epoch
    else conflict thread epoch rest

unfoldable pub bind :
    ℕ
    → AddressSpaceEpoch
    → SealedTranslationRoot
    → Spaces.Authority
    → ProcessTranslationTable
    → ProcessTranslationTable × Result TranslationError (Unit {0})
bind thread epoch root epochs t =
    let slot : Slot = record {
      occupied = true;
      binding = record { thread = thread; epoch = epoch; root_physical = root.root_physical };
    } in
    if thread == 0
    then (t, err invalid_thread)
    else if not (is_valid_epoch epoch)
    then (t, err invalid_epoch)
    else if not (is_active epoch epochs)
    then (t, err stale)
    else if not (is_valid_root root) || not (stage1_physical_address root.root_physical)
    then (t, err invalid_root)
    else elim (conflict thread epoch t.slots) [
      | some e ↦ (t, err e)
      | none ↦ elim (place slot t.slots) [
        | none ↦ (t, err exhausted)
        | some slots ↦ (record { slots = slots; occupied = inc64 t.occupied }, ok tt)
      ]
    ]

unfoldable pub resolve :
    ℕ → Spaces.Authority → ProcessTranslationTable → Result TranslationError Binding
resolve thread epochs t = if thread == 0 then err invalid_thread else elim (find thread t.slots) [
  | none ↦ err not_found
  | some a ↦ if is_active a.binding.epoch epochs then ok a.binding else err stale
]

unfoldable pub retire :
    ℕ
    → AddressSpaceEpoch
    → ProcessTranslationTable
    → ProcessTranslationTable × Result TranslationError (Unit {0})
retire thread epoch t =
    if thread == 0
    then (t, err invalid_thread)
    else if not (is_valid_epoch epoch)
    then (t, err invalid_epoch)
    else elim (find thread t.slots) [
      | none ↦ (t, err not_found)
      | some a ↦ if not (same_epoch a.binding.epoch epoch) then (t, err stale) else (
        record { slots = modify thread (λ _. empty_slot) t.slots; occupied = dec64 t.occupied },
        ok tt,
      )
    ]
