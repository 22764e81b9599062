-- ===== src/Kernel/Authorised.antt =====
-- What a caller has shown when the kernel lets it map, unmap or start something in an address space
-- (core/oskernel/src/kernel.cpp).
use Prim.Native.Nat.{bit_and}
use enml.Base.{ℕ, ◌+◌, ◌≤◌, true, ok, ◌≡◌, ◌≢◌, inl, inr, arith, Result-cases}
use enml.Capability.{
  CapabilityInfo, AddressSpaceIdentity, is_valid_identity, legacy, holds, describe,
}
use enml.Spaces.{AddressSpaceEpoch}
use enml.Spaces
use enml.Grants.{MemoryGrant}
use enml.Grants
use enml.Regions.{ExecutableRegion, ExecutableRegionTable, region_for, would_refuse}
use enml.Objects.{
  presented, address_space_identity_for_capability, address_space_object_tag,
  memory_grant_object_tag, memory_right_map, address_space_right_hold, tag_of, slot_of,
  generation_of, max_u64,
}
use enml.Kernel.{Kernel}
use enml.Kernel.Memory.{
  MapSyscall, MapAuthorization, UnmapSyscall, UnmapAuthorization, memory_for_capability,
  resolve_space, map_authorize, unmap_authorize, is_executable,
}

-- The caller holds a capability with the right, over the object with the tag.
pub record IsShown (caller capability required tag : ℕ) (k : Kernel) (d : CapabilityInfo)
    : Type 0 where
  pub held : holds (legacy caller) capability k.capabilities ≡ true
  pub described : describe capability k.capabilities ≡ ok d
  pub allowed : bit_and d.rights required ≢ 0
  pub tagged : tag_of d.object ≡ tag

-- The caller has shown authority over the space, which is alive.
pub record IsOverSpace (caller capability required : ℕ) (epochs : Spaces.Authority) (k : Kernel)
    (i : AddressSpaceIdentity) : Type 0 where
  pub info : CapabilityInfo
  pub shown : IsShown caller capability required address_space_object_tag k info
  pub named : (i.slot ≡ slot_of info.object) × (i.generation ≡ generation_of info.object)
  pub epoch : AddressSpaceEpoch
  pub alive : Spaces.resolve i epochs ≡ ok epoch

pub record IsOverMemory (caller capability : ℕ) (grants : Grants.Authority) (k : Kernel)
    (g : MemoryGrant) : Type 0 where
  pub info : CapabilityInfo
  pub shown : IsShown caller capability memory_right_map memory_grant_object_tag k info
  pub alive :
      Grants.resolve
        (record { slot = slot_of info.object; generation = generation_of info.object })
        grants
      ≡ ok g

presented_sound :
    (caller capability : ℕ) (k : Kernel) (d : CapabilityInfo)
    → presented caller capability k.capabilities ≡ ok d
    → (holds (legacy caller) capability k.capabilities ≡ true)
      × (describe capability k.capabilities ≡ ok d)
unfolding presented
presented_sound caller capability k d e = elim (Result-cases (describe capability k.capabilities)) [
  | inl (x, p) ↦ ground arith
  | inr (x, p) ↦ ground arith
]

IsShown-space :
    (caller capability required : ℕ) (k : Kernel) (i : AddressSpaceIdentity)
    → address_space_identity_for_capability caller capability k.capabilities required ≡ ok i
    → (d : CapabilityInfo) × IsShown caller capability required address_space_object_tag k d
      × ((i.slot ≡ slot_of d.object) × (i.generation ≡ generation_of d.object))
unfolding address_space_identity_for_capability
IsShown-space caller capability required k i h =
    elim (Result-cases (presented caller capability k.capabilities)) [
      | inr (x, p) ↦ absurd (ground arith)
      | inl (d, p) ↦ (
        d,
        record {
          held = (presented_sound caller capability k d p).0;
          described = (presented_sound caller capability k d p).1;
          allowed = ground arith;
          tagged = ground arith;
        },
        ground arith,
      )
    ]

pub resolve_space-IsOverSpace :
    (caller capability required : ℕ) (epochs : Spaces.Authority) (k : Kernel)
    (i : AddressSpaceIdentity) (e : AddressSpaceEpoch)
    → resolve_space caller capability required epochs k ≡ ok (i, e)
    → IsOverSpace caller capability required epochs k i
resolve_space-IsOverSpace caller capability required epochs k i e h =
    elim (Result-cases
      (address_space_identity_for_capability caller capability k.capabilities required)) [
        | inr (x, p) ↦ absurd (ground arith)
        | inl (l, p) ↦ elim (Result-cases (Spaces.resolve l epochs)) [
          | inr (x, q) ↦ absurd (ground arith)
          | inl (f, q) ↦
              let same : l ≡ i = ground arith in
              let (d, shown, named) =
                IsShown-space caller capability required k i (ground (arith, p, same)) in
              record {
                info = d;
                shown = shown;
                named = named;
                epoch = f;
                alive = ground (arith, q, same);
              }
        ]
      ]

memory_for_capability-IsOverMemory :
    (caller capability : ℕ) (grants : Grants.Authority) (k : Kernel) (g : MemoryGrant)
    → memory_for_capability caller capability memory_right_map grants k ≡ ok g
    → IsOverMemory caller capability grants k g
unfolding memory_for_capability
memory_for_capability-IsOverMemory caller capability grants k g h =
    elim (Result-cases (presented caller capability k.capabilities)) [
      | inr (x, p) ↦ absurd (ground arith)
      | inl (d, p) ↦
          elim (Result-cases (
            Grants.resolve (record { slot = slot_of d.object; generation = generation_of d.object })
              grants)) [
                | inr (x, q) ↦ absurd (ground arith)
                | inl (f, q) ↦ record {
                  info = d;
                  shown = record {
                    held = (presented_sound caller capability k d p).0;
                    described = (presented_sound caller capability k d p).1;
                    allowed = ground arith;
                    tagged = ground arith;
                  };
                  alive = ground arith;
                }
              ]
    ]

-- What an authorised mapping shows, and where it lies.
pub record IsMapping (caller : ℕ) (request : MapSyscall) (epochs : Spaces.Authority)
    (grants : Grants.Authority) (executables : ExecutableRegionTable) (k : Kernel)
    (m : MapAuthorization) : Type 0 where
  pub over_space : IsOverSpace caller request.space address_space_right_hold epochs k m.space
  pub grant : MemoryGrant
  pub over_memory : IsOverMemory caller request.backing grants k grant
  pub extent : (m.physical_base ≡ grant.physical_base) × (m.length ≡ grant.length)
  pub placed : (m.virtual_base ≡ request.virtual_address) × (m.permissions ≡ request.permissions)
  pub bounded : m.virtual_base + m.length ≤ max_u64
  pub single :
      is_executable m.permissions ≡ true
      → (is_valid_identity m.space ≡ true)
        × ((a : ExecutableRegion) → region_for m.space executables ≢ ok a)

-- The kernel authorises a mapping only of a live grant which the caller holds with the right to map, whole, into a
-- live space that it holds, inside the 64-bit address space; and an executable one only where the space has
-- no executable region.
pub map_authorize-IsMapping :
    (caller : ℕ) (request : MapSyscall) (epochs : Spaces.Authority) (grants : Grants.Authority)
    (executables : ExecutableRegionTable) (k : Kernel) (m : MapAuthorization)
    → request.virtual_address ≤ max_u64
    → map_authorize caller request epochs grants executables k ≡ ok m
    → IsMapping caller request epochs grants executables k m
unfolding map_authorize would_refuse region_for
map_authorize-IsMapping caller request epochs grants executables k m w h =
    elim (Result-cases (resolve_space caller request.space address_space_right_hold epochs k)) [
      | inr (x, p) ↦ absurd (ground arith)
      | inl ((i, e), p) ↦
          elim (Result-cases
            (memory_for_capability caller request.backing memory_right_map grants k)) [
              | inr (x, q) ↦ absurd (ground arith)
              | inl (g, q) ↦
                  let same : m.space ≡ i = ground arith in
                  record {
                    over_space = rw same (
                        resolve_space-IsOverSpace caller request.space address_space_right_hold
                          epochs k i e p);
                    grant = g;
                    over_memory =
                        memory_for_capability-IsOverMemory caller request.backing grants k g q;
                    extent = ground arith;
                    placed = ground arith;
                    bounded = ground arith;
                    single = λ x. (ground (arith, x), λ a y. ground (arith, x, y));
                  }
            ]
    ]

-- What an authorised unmapping shows, and where it may not begin.
pub record IsUnmapping (caller : ℕ) (request : UnmapSyscall) (epochs : Spaces.Authority)
    (grants : Grants.Authority) (executables : ExecutableRegionTable) (k : Kernel)
    (m : UnmapAuthorization) : Type 0 where
  pub over_space : IsOverSpace caller request.space address_space_right_hold epochs k m.space
  pub grant : MemoryGrant
  pub over_memory : IsOverMemory caller request.backing grants k grant
  pub extent : (m.virtual_base ≡ request.virtual_address) × (m.length ≡ grant.length)
  pub bounded : m.virtual_base + m.length ≤ max_u64
  pub kept :
      (a : ExecutableRegion) → region_for m.space executables ≡ ok a → a.base ≢ m.virtual_base

-- For an address of 64 bits, the kernel authorises an unmapping only to a caller that holds the live
-- space, and holds with the right to map a live grant that it names itself. What is unmapped begins
-- at the address asked for, is as long as that grant, lies inside the 64-bit address space and never
-- begins at the base of the space's executable region. Whether that grant is what is mapped there is
-- not part of this decision.
pub unmap_authorize-IsUnmapping :
    (caller : ℕ) (request : UnmapSyscall) (epochs : Spaces.Authority) (grants : Grants.Authority)
    (executables : ExecutableRegionTable) (k : Kernel) (m : UnmapAuthorization)
    → request.virtual_address ≤ max_u64
    → unmap_authorize caller request epochs grants executables k ≡ ok m
    → IsUnmapping caller request epochs grants executables k m
unfolding unmap_authorize
unmap_authorize-IsUnmapping caller request epochs grants executables k m w h =
    elim (Result-cases (resolve_space caller request.space address_space_right_hold epochs k)) [
      | inr (x, p) ↦ absurd (ground arith)
      | inl ((i, e), p) ↦
          elim (Result-cases
            (memory_for_capability caller request.backing memory_right_map grants k)) [
              | inr (x, q) ↦ absurd (ground arith)
              | inl (g, q) ↦
                  let same : m.space ≡ i = ground arith in
                  record {
                    over_space = rw same (
                        resolve_space-IsOverSpace caller request.space address_space_right_hold
                          epochs k i e p);
                    grant = g;
                    over_memory =
                        memory_for_capability-IsOverMemory caller request.backing grants k g q;
                    extent = ground arith;
                    bounded = ground arith;
                    kept = λ a y z. absurd (ground (arith, y, z));
                  }
            ]
    ]
