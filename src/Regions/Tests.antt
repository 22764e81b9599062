-- ===== src/Regions/Tests.antt =====
-- Concrete executable regions (core/oskernel/src/executable_region.cpp).
use enml.Base.{[], ok, err, ◌≡◌, refl}
use enml.Capability.{AddressSpaceIdentity}
use enml.Regions.{
  init, record_region, region_for, forget, find_region, put_region, already_executable,
  not_executable,
}
use enml.Regions.Unique.{run, regions-IsSingle, record_region-region_for}

abbrev space : AddressSpaceIdentity
space = record { slot = 3; generation = 1 }

abbrev other : AddressSpaceIdentity
other = record { slot = 4; generation = 1 }

recorded : (record_region space 0x1000 0x2000 init).1 ≡ ok tt
unfolding record_region init find_region put_region
recorded = refl

record_region-region_for_example :
    let t' = (record_region space 0x1000 0x2000 init).0 in
    (region_for space t' ≡ ok (record { space = space; base = 0x1000; length = 0x2000 }))
    × (record_region space 0x8000 0x3000 t' ≡ (t', err already_executable))
    × (region_for space (forget space t').0 ≡ err not_executable)
unfolding run
record_region-region_for_example =
    record_region-region_for space space 0x1000 0x2000 0x8000 0x3000 init (regions-IsSingle [])
      recorded
