-- ===== src/Kernel/Tests/Memory.antt =====
-- A concrete caller that furnishes an address space (core/oskernel/src/kernel.cpp).
use enml.Base.{true, [], ◌∷◌, ok, ◌≡◌, refl, arith}
use enml.Table.{find, first, place, modify}
use enml.Scheduler.{admit, update, is_runnable, slot_keyed as scheduled_keyed}
use enml.Scheduler
use enml.Rendezvous.{
  state_of, effective_priority_of, inherited_priority, highest_of, create_in, block_send, ready,
}
use enml.Rendezvous
use enml.Capability.{legacy, mint, CapabilityTable, no_identity}
use enml.Capability
use enml.Spaces.{AddressSpaceEpoch}
use enml.Spaces
use enml.Spaces.Lifetimes
use enml.Grants
use enml.Regions.{ExecutableRegionTable}
use enml.Regions
use enml.Translations.{SealedTranslationRoot}
use enml.Translations
use enml.Kernel.{Kernel, init, synchronise_thread}
use enml.Kernel.Threads.{create_thread, create_admitted_thread, issue}
use enml.Kernel.Memory.{
  memory_for_capability, MapSyscall, MapAuthorization, UnmapSyscall, UnmapAuthorization,
  read_execute, map_authorize, unmap_authorize,
}
use enml.Kernel.Admission.{ThreadAdmission, thread_admit}
use enml.Kernel.Authorised.{
  IsMapping, IsUnmapping, map_authorize-IsMapping, unmap_authorize-IsUnmapping,
}
use enml.Kernel.Admitted.{IsAdmission, thread_admit-IsAdmission}
use enml.Objects.{presented, address_space_identity_for_capability}

-- Thread 1 holds an address space with every right over it, and a grant of 0x2000 bytes.
abbrev epochs : Spaces.Authority
epochs = Lifetimes.run Spaces.init (Lifetimes.acquires ∷ [])

abbrev grants : Grants.Authority
grants = (Grants.create 0x8000_0000 0x2000 Grants.init).0

abbrev capabilities : CapabilityTable
capabilities =
    (mint (legacy 1) 0x0E1F_0000_0001_0000 1 true
      (mint (legacy 1) 0xADD5_0000_0001_0000 11 true Capability.init).0).0

abbrev holder : Kernel
holder = record (create_thread 1 3 init).0 { capabilities = capabilities }

abbrev map_request : MapSyscall
map_request = record {
  space = 1;
  virtual_address = 0x40_0000;
  backing = 2;
  permissions = read_execute;
}

abbrev mapping : MapAuthorization
mapping = record {
  space = record { slot = 0; generation = 1 };
  virtual_base = 0x40_0000;
  physical_base = 0x8000_0000;
  length = 0x2000;
  permissions = read_execute;
}

maps : map_authorize 1 map_request epochs grants Regions.init holder ≡ ok mapping
unfolding map_authorize Regions.would_refuse address_space_identity_for_capability Capability.holds
    find first mint Capability.init place Capability.describe Spaces.resolve Lifetimes.run
    Lifetimes.step Spaces.acquire Spaces.acquire_at Spaces.init Grants.resolve Grants.create
    Grants.create_at Grants.overlaps_any Grants.init presented memory_for_capability
    Regions.find_region Regions.init init
maps = refl

map_authorize-IsMapping_example : IsMapping 1 map_request epochs grants Regions.init holder mapping
map_authorize-IsMapping_example =
    map_authorize-IsMapping 1 map_request epochs grants Regions.init holder mapping (ground arith)
      maps

-- The space begins at 0x1000.
abbrev executables : ExecutableRegionTable
executables =
    (Regions.record_region (record { slot = 0; generation = 1 }) 0x1000 0x2000 Regions.init).0

abbrev unmap_request : UnmapSyscall
unmap_request = record { space = 1; virtual_address = 0x40_0000; backing = 2 }

abbrev unmapping : UnmapAuthorization
unmapping = record {
  space = record { slot = 0; generation = 1 };
  virtual_base = 0x40_0000;
  length = 0x2000;
}

unmaps : unmap_authorize 1 unmap_request epochs grants executables holder ≡ ok unmapping
unfolding unmap_authorize Regions.region_for Regions.record_region Regions.put_region
    address_space_identity_for_capability Capability.holds find first mint Capability.init place
    Capability.describe Spaces.resolve Lifetimes.run Lifetimes.step Spaces.acquire Spaces.acquire_at
    Spaces.init Grants.resolve Grants.create Grants.create_at Grants.overlaps_any Grants.init
    presented memory_for_capability Regions.find_region Regions.init init
unmaps = refl

unmap_authorize-IsUnmapping_example :
    IsUnmapping 1 unmap_request epochs grants executables holder unmapping
unmap_authorize-IsUnmapping_example =
    unmap_authorize-IsUnmapping 1 unmap_request epochs grants executables holder unmapping
      (ground arith) unmaps

abbrev root : SealedTranslationRoot
root = record { root_physical = 0x4000_0000; entry = 0x1000 }

abbrev admission : ThreadAdmission
admission = record { thread = 0x1000; entry = 0x1000; stack = 0x7000 }

admits : (thread_admit 1 1 0x7000 root epochs Translations.init executables holder).2 ≡ ok admission
unfolding thread_admit Regions.region_for Regions.record_region Regions.put_region create_thread
    create_admitted_thread issue Rendezvous.create_thread Rendezvous.create_admitted_thread
    create_in admit effective_priority_of inherited_priority highest_of Rendezvous.init
    Scheduler.init Translations.bind Translations.init Translations.conflict Spaces.is_active
    synchronise_thread state_of update modify address_space_identity_for_capability Capability.holds
    find first mint Capability.init place Capability.describe Spaces.resolve Lifetimes.run
    Lifetimes.step Spaces.acquire Spaces.acquire_at Spaces.init Grants.resolve Grants.create
    Grants.create_at Grants.overlaps_any Grants.init presented memory_for_capability
    Regions.find_region Regions.init init
admits = refl

thread_admit-IsAdmission_example : IsAdmission 1 1 0x7000 root epochs executables holder admission
thread_admit-IsAdmission_example =
    thread_admit-IsAdmission 1 1 0x7000 root epochs Translations.init executables holder admission
      admits
