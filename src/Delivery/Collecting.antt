-- ===== src/Delivery/Collecting.antt =====
-- What is armed is collected once (core/oskernel/src/interrupt_delivery.cpp).
use enml.Base.{ℕ, true, ok, err, ◌≡◌, ◌≢◌, inl, inr, refl, arith, Option-cases}
use enml.Table.{find, place, IsKeyed}
use enml.Table.Laws.{find-place, find-clear, IsKeyed-place, find-eq-first}
use enml.Interrupt.{Service}
use enml.Delivery.{
  Slot, slot_keyed, empty_slot, InterruptDeliveryTable, not_armed, already_armed, armed, arm, take,
}

-- On a table where no driver has two deliveries: what was armed for a driver is what it collects, the
-- second time there is nothing, every other driver still collects what was armed for it before, or
-- nothing, and while a delivery waits none of any source can be put in its place.
pub arm-take_once :
    (driver source other : ℕ) (service later : Service) (j : ℕ) (t : InterruptDeliveryTable)
    → IsKeyed t.slots
    → (arm driver source service t).1 ≡ ok tt
    → let t1 = (arm driver source service t).0 in
      let t2 = (take driver t1).0 in
      ((take driver t1).1 ≡ ok service)
      × ((take driver t2).1 ≡ err not_armed)
      × (other ≢ 0 → arm driver other later t1 ≡ (t1, err already_armed))
      × (j ≢ driver → (take j t2).1 ≡ (take j t).1)
unfolding arm take armed
arm-take_once driver source other service later j t u h =
    let a : Slot = record {
      driver = driver;
      source = source;
      service = service;
      occupied = true;
    } in
    elim (Option-cases (find driver t.slots)) [
      | inr (b, p) ↦ absurd (ground arith)
      | inl p ↦ elim (Option-cases (place a t.slots)) [
        | inl q ↦ absurd (ground arith)
        | inr (ys, q) ↦
            let v : IsKeyed ys =
              IsKeyed-place a refl t.slots ys (ground arith)
                (ground (arith, find-eq-first driver t.slots u)) q u in
            ground (
              arith,
              p,
              q,
              find-place a refl driver t.slots ys,
              find-place a refl j t.slots ys,
              find-clear (λ _. empty_slot) (λ _. refl) driver driver ys v,
              find-clear (λ _. empty_slot) (λ _. refl) driver j ys v,
            )
      ]
    ]
