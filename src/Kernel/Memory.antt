-- ===== src/Kernel/Memory.antt =====
-- The kernel's calls on address spaces, memory and thread admission (core/oskernel/src/kernel.cpp,
-- map_syscall.cpp, address_space_syscall.cpp, thread_admission.cpp).
use Prim.Native.Nat.{bit_and}
use enml.Base.{
  ℕ, ◌-◌, ltb, ◌==◌, if◌then◌else◌, Bool, true, false, ◌&&◌, ◌||◌, not, Result, ok, err,
}
use enml.Capability.{AddressSpaceIdentity}
use enml.Spaces.{AddressSpaceEpoch, identity, acquire, begin_retire, complete_retire}
use enml.Spaces
use enml.Grants.{MemoryGrant}
use enml.Grants
use enml.Regions.{ExecutableRegionTable, would_refuse, region_for}
use enml.Objects.{
  presented, address_space_identity_for_capability, memory_grant_object_tag, memory_right_map,
  address_space_right_hold, tag_of, slot_of, generation_of, max_u64, invalid_capability,
}
use enml.Kernel.{
  Kernel, KernelError, authority_error, epoch_error, grant_error, range_overflows,
  executable_region_immutable, already_executable,
}

pub data MapSyscallError : Type 0 where
  missing_capability invalid_address invalid_permissions : MapSyscallError

pub data MapPermissions : Type 0 where
  read read_write read_execute : MapPermissions

abbrev pub is_executable : MapPermissions → Bool
is_executable read_execute = true
is_executable _ = false

pub record MapSyscall : Type 0 where
  pub space : ℕ
  pub virtual_address : ℕ
  pub backing : ℕ
  pub permissions : MapPermissions

pub record UnmapSyscall : Type 0 where
  pub space : ℕ
  pub virtual_address : ℕ
  pub backing : ℕ

pub record MapAuthorization : Type 0 where
  pub space : AddressSpaceIdentity
  pub virtual_base : ℕ
  pub physical_base : ℕ
  pub length : ℕ
  pub permissions : MapPermissions

pub record UnmapAuthorization : Type 0 where
  pub space : AddressSpaceIdentity
  pub virtual_base : ℕ
  pub length : ℕ

-- The four registers of a map call.
unfoldable pub decode_map_syscall : ℕ → ℕ → ℕ → ℕ → Result MapSyscallError MapSyscall
decode_map_syscall x0 x1 x2 x3 =
    let request : MapPermissions → MapSyscall =
      λ p. record { space = x0; virtual_address = x1; backing = x2; permissions = p } in
    if x0 == 0 || x2 == 0
    then err missing_capability
    else if x1 == 0
    then err invalid_address
    else if x3 == 1
    then ok (request read)
    else if x3 == 2
    then ok (request read_write)
    else if x3 == 3
    then ok (request read_execute)
    else err invalid_permissions

unfoldable pub decode_unmap_syscall : ℕ → ℕ → ℕ → Result MapSyscallError UnmapSyscall
decode_unmap_syscall x0 x1 x2 =
    if x0 == 0 || x2 == 0
    then err missing_capability
    else if x1 == 0
    then err invalid_address
    else ok (record { space = x0; virtual_address = x1; backing = x2 })

-- The grant that a capability names, where the holder holds it with one of the rights.
unfoldable pub memory_for_capability :
    ℕ → ℕ → ℕ → Grants.Authority → Kernel → Result KernelError MemoryGrant
memory_for_capability holder capability required grants k =
    elim (presented holder capability k.capabilities) [
      | err e ↦ err (authority_error e)
      | ok d ↦
          if bit_and d.rights required == 0 || not (tag_of d.object == memory_grant_object_tag)
          then err (authority_error invalid_capability)
          else elim (Grants.resolve
              (record { slot = slot_of d.object; generation = generation_of d.object }) grants) [
                | err e ↦ err (grant_error e)
                | ok g ↦ ok g
              ]
    ]

-- The space that a capability names, and its epoch, for a caller with one of the rights.
abbrev pub resolve_space :
    ℕ
    → ℕ
    → ℕ
    → Spaces.Authority
    → Kernel
    → Result KernelError (AddressSpaceIdentity × AddressSpaceEpoch)
resolve_space caller space required epochs k =
    elim (address_space_identity_for_capability caller space k.capabilities required) [
      | err e ↦ err (authority_error e)
      | ok i ↦ elim (Spaces.resolve i epochs) [ err e ↦ err (epoch_error e) | ok e ↦ ok (i, e) ]
    ]

unfoldable pub map_authorize :
    ℕ
    → MapSyscall
    → Spaces.Authority
    → Grants.Authority
    → ExecutableRegionTable
    → Kernel
    → Result KernelError MapAuthorization
map_authorize caller request epochs grants executables k =
    elim (resolve_space caller request.space address_space_right_hold epochs k) [
      | err e ↦ err e
      | ok (i, _) ↦ elim (memory_for_capability caller request.backing memory_right_map grants k) [
        | err e ↦ err e
        | ok g ↦
            if is_executable request.permissions && would_refuse i executables
            then err already_executable
            else if ltb (max_u64 - request.virtual_address) g.length
            then err range_overflows
            else ok (record {
              space = i;
              virtual_base = request.virtual_address;
              physical_base = g.physical_base;
              length = g.length;
              permissions = request.permissions;
            })
      ]
    ]

-- Whether an address is the base of the executable region of a space.
abbrev pub is_region_base : AddressSpaceIdentity → ℕ → ExecutableRegionTable → Bool
is_region_base i address executables = elim (region_for i executables) [
  | err _ ↦ false
  | ok region ↦ region.base == address
]

unfoldable pub unmap_authorize :
    ℕ
    → UnmapSyscall
    → Spaces.Authority
    → Grants.Authority
    → ExecutableRegionTable
    → Kernel
    → Result KernelError UnmapAuthorization
unmap_authorize caller request epochs grants executables k =
    elim (resolve_space caller request.space address_space_right_hold epochs k) [
      | err e ↦ err e
      | ok (i, _) ↦ elim (memory_for_capability caller request.backing memory_right_map grants k) [
        | err e ↦ err e
        | ok g ↦
            if is_region_base i request.virtual_address executables
            then err executable_region_immutable
            else if ltb (max_u64 - request.virtual_address) g.length
            then err range_overflows
            else ok
                (record { space = i; virtual_base = request.virtual_address; length = g.length })
      ]
    ]
