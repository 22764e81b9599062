-- ===== src/Spaces/Tests.antt =====
-- Concrete address space tables (core/oskernel/src/address_space_epoch.cpp).
use enml.Base.{true, false, [], ◌∷◌, ok, err, ◌≡◌, refl}
use enml.Spaces.{
  Authority, AddressSpaceEpoch, stale, init, acquire_at, acquire, resolve, is_active, is_retiring,
  begin_retire,
}
use enml.Spaces.Lifetimes.{acquires, completes, step, run}
use enml.Spaces.Exclusive.{retired-stale, acquire-exclusive}

abbrev first_epoch : AddressSpaceEpoch
first_epoch = record { slot = 0; generation = 1; asid = 1 }

abbrev second_epoch : AddressSpaceEpoch
second_epoch = record { slot = 1; generation = 1; asid = 2 }

-- One address space is live.
abbrev one : Authority
one = run init (acquires ∷ [])

retires : (begin_retire first_epoch one).1 ≡ ok first_epoch
unfolding run init step acquire acquire_at begin_retire
retires = refl

acquired : (acquire one).1 ≡ ok second_epoch
unfolding run init step acquire acquire_at
acquired = refl

live : is_active first_epoch one ≡ true
unfolding run init step acquire acquire_at is_active
live = refl

retired-stale_example :
    let t = run (begin_retire first_epoch one).0 (completes first_epoch ∷ acquires ∷ []) in
    (resolve (record { slot = 0; generation = 1 }) t ≡ err stale)
    × (is_active first_epoch t ≡ false)
retired-stale_example =
    retired-stale (acquires ∷ []) (completes first_epoch ∷ acquires ∷ []) first_epoch retires

acquire-exclusive_example :
    (resolve (record { slot = 1; generation = 1 }) (acquire one).0 ≡ ok second_epoch)
    × (is_active second_epoch (acquire one).0 ≡ true)
    × (is_active second_epoch one ≡ false)
    × (is_retiring second_epoch one ≡ false)
acquire-exclusive_example =
    acquire-exclusive (acquires ∷ []) second_epoch second_epoch acquired refl
