-- ===== src/Continuations/Tests.antt =====
-- Concrete continuation tables (core/oskernel/src/ipc_continuation.cpp).
use enml.Base.{true, [], ◌∷◌, ok, ◌≡◌, refl, some}
use enml.Table.{find, first, place}
use enml.Spaces.{AddressSpaceEpoch, acquire, acquire_at, is_active}
use enml.Spaces
use enml.Spaces.Lifetimes.{acquires, step, run}
use enml.Continuations.{
  IpcContinuationTable, IpcSendContinuation, SendSlot, send_keyed, init, arm, take,
}
use enml.Continuations.Arming.{arm-take}

abbrev epochs : Spaces.Authority
epochs = run Spaces.init (acquires ∷ [])

abbrev live_epoch : AddressSpaceEpoch
live_epoch = record { slot = 0; generation = 1; asid = 1 }

-- Thread 4 waits with an exchange at address 4096.
abbrev armed : IpcContinuationTable
armed = (arm 4 live_epoch 4096 epochs init).0

abbrev sending : IpcSendContinuation
sending = record { caller = 4; epoch = live_epoch; exchange_address = 4096 }

abbrev sending_slot : SendSlot
sending_slot = record { occupied = true; continuation = sending }

active_now : is_active live_epoch epochs ≡ true
unfolding is_active run step Spaces.init acquire acquire_at
active_now = refl

arms : (arm 4 live_epoch 4096 epochs init).1 ≡ ok tt
unfolding arm init find first place is_active run step Spaces.init acquire acquire_at
arms = refl

find-armed : find 4 armed.sends ≡ some sending_slot
unfolding arm init find first place is_active run step Spaces.init acquire acquire_at
find-armed = refl

arm-take_example : (take 4 live_epoch epochs armed).1 ≡ ok sending
arm-take_example = arm-take 4 live_epoch 4096 epochs epochs init arms active_now
