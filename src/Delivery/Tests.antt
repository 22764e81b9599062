-- ===== src/Delivery/Tests.antt =====
-- Concrete deliveries (core/oskernel/src/interrupt_delivery.cpp).
use enml.Base.{ℕ, false, ok, err, ◌≡◌, ◌≢◌, refl}
use enml.Table.{find, first, place}
use enml.Table.Laws.{IsKeyed-replicate}
use enml.Interrupt.{Service}
use enml.Delivery.{slot_keyed, init, arm, take, max_threads, empty_slot, not_armed, already_armed}
use enml.Delivery.Collecting.{arm-take_once}

-- Three assertions of source 33 for driver 7.
abbrev three : Service
three = record { assertions = 3; saturated = false }

arms : (arm 7 33 three init).1 ≡ ok tt
unfolding arm init find first place
arms = refl

arm-take_once_example :
    let t1 = (arm 7 33 three init).0 in
    let t2 = (take 7 t1).0 in
    ((take 7 t1).1 ≡ ok three)
    × ((take 7 t2).1 ≡ err not_armed)
    × (◌≢◌ {A = ℕ} 34 0 → arm 7 34 three t1 ≡ (t1, err already_armed))
    × (◌≢◌ {A = ℕ} 8 7 → (take 8 t2).1 ≡ (take 8 init).1)
unfolding init
arm-take_once_example =
    arm-take_once 7 33 34 three three 8 init (IsKeyed-replicate max_threads empty_slot refl) arms
