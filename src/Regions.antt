-- ===== src/Regions.antt =====
-- Which part of an address space may be executed: core/oskernel/src/executable_region.cpp and
-- include/os/kernel/executable_region.hpp.
pub mod Unique
mod Tests
use enml.Base.{
  ℕ, ◌==◌, if◌then◌else◌, Bool, true, false, ◌&&◌, ◌||◌, not, Option, none, some, List, [], ◌∷◌,
  Result, ok, err, replicate, inc64, dec64,
}
use enml.Capability.{
  AddressSpaceIdentity, no_identity, is_valid_identity, same_identity, max_address_space_epochs,
}

pub data RegionError : Type 0 where
  already_executable not_executable invalid_space exhausted : RegionError

pub record ExecutableRegion : Type 0 where
  pub space : AddressSpaceIdentity
  pub base : ℕ
  pub length : ℕ

abbrev pub is_valid_region : ExecutableRegion → Bool
is_valid_region a = is_valid_identity a.space && not (a.length == 0)

abbrev pub no_region : ExecutableRegion
no_region = record { space = no_identity; base = 0; length = 0 }

pub record ExecutableRegionTable : Type 0 where
  pub regions : List ExecutableRegion
  pub live : ℕ

unfoldable pub init : ExecutableRegionTable
init = record { regions = replicate max_address_space_epochs no_region; live = 0 }

abbrev pub belongs : AddressSpaceIdentity → ExecutableRegion → Bool
belongs space a = is_valid_region a && same_identity a.space space

-- The loop that every operation starts with: the first region of the space.
unfoldable pub find_region : AddressSpaceIdentity → List ExecutableRegion → Option ExecutableRegion
find_region space [] = none
find_region space (a ∷ rest) = if belongs space a then some a else find_region space rest

unfoldable pub put_region :
    ExecutableRegion → List ExecutableRegion → Option (List ExecutableRegion)
put_region region [] = none
put_region region (a ∷ rest) =
    let rest' = put_region region rest in
    if not (is_valid_region a)
    then some (region ∷ rest)
    else elim rest' [ none ↦ none | some later ↦ some (a ∷ later) ]

unfoldable pub drop_region : AddressSpaceIdentity → List ExecutableRegion → List ExecutableRegion
drop_region space [] = []
drop_region space (a ∷ rest) =
    if belongs space a then no_region ∷ rest else a ∷ drop_region space rest

unfoldable pub would_refuse : AddressSpaceIdentity → ExecutableRegionTable → Bool
would_refuse space t =
    if not (is_valid_identity space)
    then true
    else elim (find_region space t.regions) [ none ↦ false | some _ ↦ true ]

unfoldable pub record_region :
    AddressSpaceIdentity
    → ℕ
    → ℕ
    → ExecutableRegionTable
    → ExecutableRegionTable × Result RegionError (Unit {0})
record_region space base size t =
    if not (is_valid_identity space) || size == 0
    then (t, err invalid_space)
    else elim (find_region space t.regions) [
      | some _ ↦ (t, err already_executable)
      | none ↦ elim (put_region (record { space = space; base = base; length = size }) t.regions) [
        | none ↦ (t, err exhausted)
        | some regions ↦ (record { regions = regions; live = inc64 t.live }, ok tt)
      ]
    ]

unfoldable pub region_for :
    AddressSpaceIdentity → ExecutableRegionTable → Result RegionError ExecutableRegion
region_for space t =
    if not (is_valid_identity space)
    then err invalid_space
    else elim (find_region space t.regions) [ none ↦ err not_executable | some a ↦ ok a ]

-- To forget a space that has no region is not an error.
unfoldable pub forget :
    AddressSpaceIdentity
    → ExecutableRegionTable
    → ExecutableRegionTable × Result RegionError (Unit {0})
forget space t =
    if not (is_valid_identity space)
    then (t, err invalid_space)
    else elim (find_region space t.regions) [
      | none ↦ (t, ok tt)
      | some _ ↦ (record { regions = drop_region space t.regions; live = dec64 t.live }, ok tt)
    ]
