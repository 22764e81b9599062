-- ===== src/Translations/Tests.antt =====
-- A concrete binding (core/oskernel/src/process_translation.cpp).
use enml.Base.{true, [], ◌∷◌, ok, ◌≡◌, refl, All}
use enml.Table.{place}
use enml.Spaces.{Authority, AddressSpaceEpoch, acquire, acquire_at, is_active}
use enml.Spaces
use enml.Spaces.Lifetimes.{acquires, run, step}
use enml.Translations.{SealedTranslationRoot, Binding, init, bind, resolve, conflict}
use enml.Translations.Bound.{IsElsewhere, bind-resolve}

abbrev epoch : AddressSpaceEpoch
epoch = record { slot = 0; generation = 1; asid = 1 }

abbrev epochs : Authority
epochs = run Spaces.init (acquires ∷ [])

abbrev root : SealedTranslationRoot
root = record { root_physical = 0x4000_0000; entry = 0x1000 }

binds : (bind 9 epoch root epochs init).1 ≡ ok tt
unfolding bind init conflict place Spaces.init acquire acquire_at is_active run step
binds = refl

bind-resolve_example :
    let t' = (bind 9 epoch root epochs init).0 in
    let b : Binding = record { thread = 9; epoch = epoch; root_physical = 0x4000_0000 } in
    (resolve 9 epochs t' ≡ ok b)
    × (is_active epoch epochs ≡ true)
    × All (IsElsewhere epoch) init.slots
bind-resolve_example = bind-resolve 9 9 epoch root epochs init binds
