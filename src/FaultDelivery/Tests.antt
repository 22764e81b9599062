-- ===== src/FaultDelivery/Tests.antt =====
-- Concrete questions to a pager (core/oskernel/src/fault_delivery.cpp).
use enml.Base.{true, false, ok, err, ◌≡◌, ◌≢◌, refl}
use enml.Table.{first, place}
use enml.Table.Laws.{IsKeyed-replicate}
use enml.FaultRegions.{FaultReport}
use enml.FaultDelivery.{
  slot_keyed, empty_slot, max_fault_deliveries, init, arm, take, answer, release, armed, question,
  not_armed, not_delivered,
}
use enml.FaultDelivery.Debt.{arm-answer}

-- A write to region 4.
abbrev written : FaultReport
written = record { region = 4; deliver = true; write = true }

-- A read of region 5.
abbrev touched : FaultReport
touched = record { region = 5; deliver = true; write = false }

asks : (arm 7 12 written init).1 ≡ ok tt
unfolding arm init first place
asks = refl

arm-answer_example :
    let d = question 12 written in
    let t1 = (arm 7 12 written init).0 in
    let t2 = (take 7 t1).0 in
    let t3 = (answer 7 t2).0 in
    ((answer 7 t1 ≡ (t1, err not_delivered))
      × ((take 7 t1).1 ≡ ok d)
      × ((release 7 t1).1 ≡ d)
      × ((arm 7 13 touched t1).1 ≢ ok tt))
    × ((take 7 t2 ≡ (t2, err not_armed))
        × ((answer 7 t2).1 ≡ ok d)
        × ((release 7 t2).1 ≡ d)
        × ((arm 7 13 touched t2).1 ≢ ok tt))
    × ((answer 7 t3 ≡ (t3, err not_armed)) × (armed 8 t3 ≡ armed 8 init))
unfolding init
arm-answer_example =
    arm-answer 7 12 13 8 written touched init
      (IsKeyed-replicate max_fault_deliveries empty_slot refl) asks
