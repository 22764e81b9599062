-- ===== src/Spaces.antt =====
-- The lifetimes of address spaces: core/oskernel/src/address_space_epoch.cpp and
-- include/os/kernel/address_space_epoch.hpp. A slot's generation counts its lifetimes; the hardware
-- tag (ASID) of a slot is its index plus one.
pub mod Lifetimes
pub mod Exclusive
mod Tests
use enml.Base.{
  ℕ, zero, suc, ◌+◌, ◌-◌, ltb, leb, ◌==◌, if◌then◌else◌, Bool, true, false, ◌&&◌, ◌||◌, not, Option,
  none, some, List, [], ◌∷◌, Result, ok, err, replicate, inc64, dec64, get_elem?, set, u32_mod, ◌%◌,
}
use enml.Capability.{AddressSpaceIdentity, is_valid_identity, max_address_space_epochs}

pub data EpochError : Type 0 where
  exhausted stale not_active not_retiring generation_exhausted : EpochError

pub data State : Type 0 where
  free active retiring : State

abbrev pub is_free : State → Bool
is_free free = true
is_free _ = false

abbrev pub is_active_state : State → Bool
is_active_state active = true
is_active_state _ = false

abbrev pub is_retiring_state : State → Bool
is_retiring_state retiring = true
is_retiring_state _ = false

pub record AddressSpaceEpoch : Type 0 where
  pub slot : ℕ
  pub generation : ℕ
  pub asid : ℕ

abbrev pub is_valid_epoch : AddressSpaceEpoch → Bool
is_valid_epoch e =
    ltb e.slot max_address_space_epochs && not (e.generation == 0) && not (e.asid == 0)

abbrev pub identity : AddressSpaceEpoch → AddressSpaceIdentity
identity e =
    if not (is_valid_epoch e)
    then record { slot = 0; generation = 0 }
    else record { slot = e.slot; generation = e.generation }

pub record Slot : Type 0 where
  pub generation : ℕ
  pub state : State

pub record Authority : Type 0 where
  pub slots : List Slot
  pub active_count : ℕ
  pub retiring_count : ℕ

unfoldable pub init : Authority
init = record {
  slots = replicate max_address_space_epochs (record { generation = 0; state = free });
  active_count = 0;
  retiring_count = 0;
}

abbrev pub max_generation : ℕ
max_generation = 0xFFFF_FFFF

abbrev pub asid_for_slot : ℕ → ℕ
asid_for_slot index = index + 1

-- The loop of `acquire`, from the index `i` on.
unfoldable pub acquire_at : ℕ → List Slot → List Slot × Result EpochError AddressSpaceEpoch
acquire_at i [] = ([], err exhausted)
acquire_at i (a ∷ rest) =
    let (rest', result) = acquire_at (suc i) rest in
    let next = (a.generation + 1) % u32_mod in
    if not (is_free a.state)
    then (a ∷ rest', result)
    else if a.generation == max_generation
    then (a ∷ rest, err generation_exhausted)
    else if next == 0
    then (record a { generation = next } ∷ rest, err generation_exhausted)
    else (
      record { generation = next; state = active } ∷ rest,
      ok (record { slot = i; generation = next; asid = asid_for_slot i }),
    )

unfoldable pub acquire : Authority → Authority × Result EpochError AddressSpaceEpoch
acquire t =
    let (slots, result) = acquire_at 0 t.slots in
    elim result [
      | err e ↦ (record t { slots = slots }, err e)
      | ok e ↦ (record t { slots = slots; active_count = inc64 t.active_count }, ok e)
    ]

unfoldable pub resolve : AddressSpaceIdentity → Authority → Result EpochError AddressSpaceEpoch
resolve i t = if not (is_valid_identity i) then err stale else elim (get_elem? t.slots i.slot) [
  | none ↦ err stale
  | some a ↦
      if not (is_active_state a.state) || not (a.generation == i.generation)
      then err stale
      else ok (record { slot = i.slot; generation = a.generation; asid = asid_for_slot i.slot })
]

-- Whether a slot stands for the epoch.
abbrev pub matches : AddressSpaceEpoch → Slot → Bool
matches e a = a.generation == e.generation && e.asid == asid_for_slot e.slot

unfoldable pub is_active : AddressSpaceEpoch → Authority → Bool
is_active e t = is_valid_epoch e && elim (get_elem? t.slots e.slot) [
  | none ↦ false
  | some a ↦ is_active_state a.state && matches e a
]

unfoldable pub is_retiring : AddressSpaceEpoch → Authority → Bool
is_retiring e t = is_valid_epoch e && elim (get_elem? t.slots e.slot) [
  | none ↦ false
  | some a ↦ is_retiring_state a.state && matches e a
]

unfoldable pub begin_retire :
    AddressSpaceEpoch → Authority → Authority × Result EpochError AddressSpaceEpoch
begin_retire e t =
    if not (is_valid_epoch e) then (t, err stale) else elim (get_elem? t.slots e.slot) [
      | none ↦ (t, err stale)
      | some a ↦
          if not (matches e a)
          then (t, err stale)
          else if not (is_active_state a.state)
          then (t, err not_active)
          else (
            record {
              slots = set t.slots e.slot (record a { state = retiring });
              active_count = dec64 t.active_count;
              retiring_count = inc64 t.retiring_count;
            },
            ok e,
          )
    ]

unfoldable pub complete_retire :
    AddressSpaceEpoch → Authority → Authority × Result EpochError (Unit {0})
unfolding is_retiring
complete_retire e t =
    if not (is_retiring e t) then (t, err not_retiring) else elim (get_elem? t.slots e.slot) [
      | none ↦ (t, err not_retiring)
      | some a ↦ (
        record t {
          slots = set t.slots e.slot (record a { state = free });
          retiring_count = dec64 t.retiring_count;
        },
        ok tt,
      )
    ]
