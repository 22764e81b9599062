-- ===== src/Objects/Tests.antt =====
-- Concrete identifiers (include/os/kernel/address_space_syscall.hpp, memory_grant.hpp).
use enml.Base.{◌≢◌, refl, arith}
use enml.Capability.{AddressSpaceIdentity}
use enml.Grants.{MemoryGrantIdentity}
use enml.Objects.{
  interrupt_object_id, address_space_object_id, memory_grant_object_id, address_space_object_tag,
  memory_grant_object_tag,
}
use enml.Objects.Kinds.{IsRead, object_ids-IsRead, object_ids_apart}

abbrev space : AddressSpaceIdentity
space = record { slot = 3; generation = 7 }

abbrev grant : MemoryGrantIdentity
grant = record { slot = 3; generation = 7 }

object_ids-IsRead_example :
    IsRead (address_space_object_id space) address_space_object_tag 3 7
    × IsRead (memory_grant_object_id grant) memory_grant_object_tag 3 7
object_ids-IsRead_example = object_ids-IsRead space grant refl (omega arith) refl (omega arith)

object_ids_apart_example :
    (interrupt_object_id 33 ≢ address_space_object_id space)
    × (interrupt_object_id 33 ≢ memory_grant_object_id grant)
    × (address_space_object_id space ≢ memory_grant_object_id grant)
object_ids_apart_example =
    object_ids_apart 33 space grant (omega arith) (omega arith) refl (omega arith) refl
      (omega arith)
