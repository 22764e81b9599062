-- ===== src/Objects.antt =====
-- The object identifiers that capabilities carry, and what a capability over each kind of object
-- is checked for: include/os/kernel/interrupt.hpp, memory_grant.hpp, address_space_syscall.hpp and
-- the checks at the top of core/oskernel/src/kernel.cpp.
pub mod Fields
pub mod Kinds
mod Tests
use Prim.Native.Nat.{bit_and, bit_or}
use enml.Base.{ℕ, ◌-◌, ◌*◌, ◌/◌, ◌%◌, ◌^◌, ◌==◌, if◌then◌else◌, ◌||◌, not, Result, ok, err, u32_mod}
use enml.Capability.{
  CapabilityTable, CapabilityInfo, CapabilityError, AddressSpaceIdentity, is_valid_identity, legacy,
  holds, describe,
}
use enml.Grants.{MemoryGrantIdentity}
use enml.Grants

pub data AuthorityError : Type 0 where
  invalid_capability wrong_rights wrong_object : AuthorityError
  capability_error : CapabilityError → AuthorityError

abbrev pub object_tag_mask : ℕ
object_tag_mask = 0xFFFF_0000_0000_0000

abbrev pub max_u64 : ℕ
max_u64 = 0xFFFF_FFFF_FFFF_FFFF

abbrev pub interrupt_object_tag : ℕ
interrupt_object_tag = 0x1EC0_0000_0000_0000

abbrev pub address_space_object_tag : ℕ
address_space_object_tag = 0xADD5_0000_0000_0000

abbrev pub memory_grant_object_tag : ℕ
memory_grant_object_tag = 0x0E1F_0000_0000_0000

abbrev pub address_space_authority_object : ℕ
address_space_authority_object = address_space_object_tag

abbrev pub interrupt_right_attach : ℕ
interrupt_right_attach = 1

abbrev pub memory_right_map : ℕ
memory_right_map = 1

abbrev pub address_space_right_hold : ℕ
address_space_right_hold = 1

abbrev pub address_space_right_destroy : ℕ
address_space_right_destroy = 2

abbrev pub address_space_right_create : ℕ
address_space_right_create = 4

abbrev pub address_space_right_admit : ℕ
address_space_right_admit = 8

unfoldable pub interrupt_object_id : ℕ → ℕ
interrupt_object_id source = if source == 0 then 0 else bit_or interrupt_object_tag source

unfoldable pub address_space_object_id : AddressSpaceIdentity → ℕ
address_space_object_id i =
    if not (is_valid_identity i)
    then 0
    else bit_or (bit_or address_space_object_tag (i.generation * 2 ^ 16)) i.slot

unfoldable pub memory_grant_object_id : MemoryGrantIdentity → ℕ
memory_grant_object_id i =
    if not (Grants.is_valid_identity i)
    then 0
    else bit_or (bit_or memory_grant_object_tag (i.generation * 2 ^ 16)) i.slot

-- The fields of an object: its tag, its slot and its generation.
abbrev pub tag_of : ℕ → ℕ
tag_of object = bit_and object object_tag_mask

abbrev pub slot_of : ℕ → ℕ
slot_of object = bit_and object 0xFFFF

abbrev pub generation_of : ℕ → ℕ
generation_of object = bit_and (object / 2 ^ 16) 0xFFFF_FFFF

-- The capability that a thread presents, if it holds it.
unfoldable pub presented : ℕ → ℕ → CapabilityTable → Result AuthorityError CapabilityInfo
presented thread capability capabilities =
    if thread == 0 || capability == 0
    then err invalid_capability
    else if not (holds (legacy thread) capability capabilities)
    then err invalid_capability
    else elim (describe capability capabilities) [ err e ↦ err (capability_error e) | ok d ↦ ok d ]

unfoldable pub address_space_capability :
    ℕ → ℕ → CapabilityTable → ℕ → ℕ → Result AuthorityError (Unit {0})
unfolding presented
address_space_capability thread capability capabilities required object =
    elim (presented thread capability capabilities) [
      | err e ↦ err e
      | ok d ↦
          if bit_and d.rights required == 0 || not (d.object == object)
          then err invalid_capability
          else ok tt
    ]

unfoldable pub address_space_identity_for_capability :
    ℕ → ℕ → CapabilityTable → ℕ → Result AuthorityError AddressSpaceIdentity
unfolding presented
address_space_identity_for_capability thread capability capabilities required =
    elim (presented thread capability capabilities) [
      | err e ↦ err e
      | ok d ↦
          let i : AddressSpaceIdentity = record {
            slot = slot_of d.object;
            generation = generation_of d.object;
          } in
          if bit_and d.rights required == 0 || not (tag_of d.object == address_space_object_tag)
          then err invalid_capability
          else if not (is_valid_identity i)
          then err invalid_capability
          else ok i
    ]

unfoldable pub interrupt_source_for_capability : ℕ → ℕ → CapabilityTable → Result AuthorityError ℕ
unfolding presented
interrupt_source_for_capability driver capability capabilities =
    elim (presented driver capability capabilities) [
      | err e ↦ err e
      | ok d ↦
          let source = bit_and d.object (max_u64 - object_tag_mask) % u32_mod in
          if bit_and d.rights interrupt_right_attach == 0
          then err wrong_rights
          else if not (tag_of d.object == interrupt_object_tag)
          then err wrong_object
          else if source == 0
          then err wrong_object
          else ok source
    ]
