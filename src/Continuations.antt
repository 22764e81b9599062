-- ===== src/Continuations.antt =====
-- What a blocked thread's call needs when it is taken up again: the send and receive continuations
-- of core/oskernel/src/ipc_continuation.cpp and include/os/kernel/ipc_continuation.hpp. They are
-- bound to address space epochs, which Spaces keeps.
pub mod Arming
mod Tests
use enml.Base.{
  ℕ, ltb, leb, ◌==◌, if◌then◌else◌, Bool, true, false, ◌&&◌, ◌||◌, not, Option, none, some, List,
  [], ◌∷◌, Result, ok, err, replicate, inc64, dec64,
}
use enml.Table.{Keyed, find, modify, place}
use enml.Spaces.{AddressSpaceEpoch, is_valid_epoch, is_active}
use enml.Spaces

pub data ContinuationError : Type 0 where
  invalid_thread invalid_epoch invalid_exchange already_armed : ContinuationError
  exhausted not_armed stale invalid_capability : ContinuationError

abbrev pub max_threads : ℕ
max_threads = 64

abbrev pub no_epoch : AddressSpaceEpoch
no_epoch = record { slot = 0; generation = 0; asid = 0 }

pub record IpcSendContinuation : Type 0 where
  pub caller : ℕ
  pub epoch : AddressSpaceEpoch
  pub exchange_address : ℕ

pub record IpcReceiveContinuation : Type 0 where
  pub server : ℕ
  pub epoch : AddressSpaceEpoch
  pub endpoint_capability : ℕ
  pub exchange_address : ℕ
  pub deadline_nanoseconds : ℕ

abbrev pub is_bounded : IpcReceiveContinuation → Bool
is_bounded c = not (c.deadline_nanoseconds == 0)

abbrev pub expired_at : ℕ → IpcReceiveContinuation → Bool
expired_at now c = is_bounded c && leb c.deadline_nanoseconds now

pub record SendSlot : Type 0 where
  pub occupied : Bool
  pub continuation : IpcSendContinuation

pub record ReceiveSlot : Type 0 where
  pub occupied : Bool
  pub continuation : IpcReceiveContinuation

instance abbrev pub send_keyed : Keyed SendSlot
send_keyed = record { live = λ a. a.occupied; key = λ a. a.continuation.caller }

instance abbrev pub receive_keyed : Keyed ReceiveSlot
receive_keyed = record { live = λ a. a.occupied; key = λ a. a.continuation.server }

pub record IpcContinuationTable : Type 0 where
  pub sends : List SendSlot
  pub receives : List ReceiveSlot
  pub occupied : ℕ

abbrev pub empty_send : SendSlot
empty_send = record {
  occupied = false;
  continuation = record { caller = 0; epoch = no_epoch; exchange_address = 0 };
}

abbrev pub empty_receive : ReceiveSlot
empty_receive = record {
  occupied = false;
  continuation = record {
    server = 0;
    epoch = no_epoch;
    endpoint_capability = 0;
    exchange_address = 0;
    deadline_nanoseconds = 0;
  };
}

unfoldable pub init : IpcContinuationTable
init = record {
  sends = replicate max_threads empty_send;
  receives = replicate max_threads empty_receive;
  occupied = 0;
}

-- Two epochs are the same in every field.
abbrev pub same_epoch : AddressSpaceEpoch → AddressSpaceEpoch → Bool
same_epoch e f = e.slot == f.slot && e.generation == f.generation && e.asid == f.asid

unfoldable pub arm :
    ℕ
    → AddressSpaceEpoch
    → ℕ
    → Spaces.Authority
    → IpcContinuationTable
    → IpcContinuationTable × Result ContinuationError (Unit {0})
arm caller epoch exchange_address epochs t =
    let c : IpcSendContinuation = record {
      caller = caller;
      epoch = epoch;
      exchange_address = exchange_address;
    } in
    if caller == 0
    then (t, err invalid_thread)
    else if not (is_valid_epoch epoch) || not (is_active epoch epochs)
    then (t, err invalid_epoch)
    else if exchange_address == 0
    then (t, err invalid_exchange)
    else elim (find caller t.sends) [
      | some a ↦ (t, err already_armed)
      | none ↦ elim (place (record { occupied = true; continuation = c }) t.sends) [
        | none ↦ (t, err exhausted)
        | some sends ↦ (record t { sends = sends; occupied = inc64 t.occupied }, ok tt)
      ]
    ]

abbrev pub drop_send : ℕ → IpcContinuationTable → IpcContinuationTable
drop_send caller t = record t {
  sends = modify caller (λ _. empty_send) t.sends;
  occupied = dec64 t.occupied;
}

abbrev pub drop_receive : ℕ → IpcContinuationTable → IpcContinuationTable
drop_receive server t = record t {
  receives = modify server (λ _. empty_receive) t.receives;
  occupied = dec64 t.occupied;
}

abbrev pub is_current : AddressSpaceEpoch → AddressSpaceEpoch → Spaces.Authority → Bool
is_current expected kept epochs =
    is_valid_epoch expected && is_active expected epochs && same_epoch kept expected

-- The continuation is spent whether or not it is still current.
unfoldable pub take :
    ℕ
    → AddressSpaceEpoch
    → Spaces.Authority
    → IpcContinuationTable
    → IpcContinuationTable × Result ContinuationError IpcSendContinuation
take caller expected epochs t = elim (find caller t.sends) [
  | none ↦ (t, err not_armed)
  | some a ↦ (
    drop_send caller t,
    if is_current expected a.continuation.epoch epochs then ok a.continuation else err stale,
  )
]

unfoldable pub cancel :
    ℕ → IpcContinuationTable → IpcContinuationTable × Result ContinuationError (Unit {0})
cancel caller t = elim (find caller t.sends) [
  | none ↦ (t, err not_armed)
  | some a ↦ (drop_send caller t, ok tt)
]

unfoldable pub arm_receive :
    ℕ
    → AddressSpaceEpoch
    → ℕ
    → ℕ
    → Spaces.Authority
    → ℕ
    → IpcContinuationTable
    → IpcContinuationTable × Result ContinuationError (Unit {0})
arm_receive server epoch endpoint exchange_address epochs deadline t =
    let c : IpcReceiveContinuation = record {
      server = server;
      epoch = epoch;
      endpoint_capability = endpoint;
      exchange_address = exchange_address;
      deadline_nanoseconds = deadline;
    } in
    if server == 0
    then (t, err invalid_thread)
    else if not (is_valid_epoch epoch) || not (is_active epoch epochs)
    then (t, err invalid_epoch)
    else if endpoint == 0
    then (t, err invalid_capability)
    else if exchange_address == 0
    then (t, err invalid_exchange)
    else elim (find server t.receives) [
      | some a ↦ (t, err already_armed)
      | none ↦ elim (place (record { occupied = true; continuation = c }) t.receives) [
        | none ↦ (t, err exhausted)
        | some receives ↦ (record t { receives = receives; occupied = inc64 t.occupied }, ok tt)
      ]
    ]

unfoldable pub take_receive :
    ℕ
    → AddressSpaceEpoch
    → Spaces.Authority
    → IpcContinuationTable
    → IpcContinuationTable × Result ContinuationError IpcReceiveContinuation
take_receive server expected epochs t = elim (find server t.receives) [
  | none ↦ (t, err not_armed)
  | some a ↦ (
    drop_receive server t,
    if is_current expected a.continuation.epoch epochs then ok a.continuation else err stale,
  )
]

-- The loop of `earliest_receive_deadline`; 0 where none was seen.
unfoldable pub earliest_from : ℕ → List ReceiveSlot → ℕ
earliest_from earliest [] = earliest
earliest_from earliest (a ∷ rest) =
    let d = a.continuation.deadline_nanoseconds in
    earliest_from
      (if a.occupied && is_bounded a.continuation && (earliest == 0 || ltb d earliest)
        then d
        else earliest)
      rest

unfoldable pub earliest_receive_deadline : IpcContinuationTable → ℕ
earliest_receive_deadline t = earliest_from 0 t.receives

-- The loop of `take_expired_receive`: the expired receiver with the lowest thread number.
abbrev pub lower : Option ReceiveSlot → ReceiveSlot → Bool
lower none a = true
lower (some chosen) a = ltb a.continuation.server chosen.continuation.server

unfoldable pub expired_from : ℕ → Option ReceiveSlot → List ReceiveSlot → Option ReceiveSlot
expired_from now chosen [] = chosen
expired_from now chosen (a ∷ rest) =
    expired_from now
      (if a.occupied && expired_at now a.continuation && lower chosen a then some a else chosen)
      rest

unfoldable pub take_expired_receive :
    ℕ
    → IpcContinuationTable
    → IpcContinuationTable × Result ContinuationError IpcReceiveContinuation
take_expired_receive now t = elim (expired_from now none t.receives) [
  | none ↦ (t, err not_armed)
  | some a ↦ (drop_receive a.continuation.server t, ok a.continuation)
]

unfoldable pub cancel_receive :
    ℕ → IpcContinuationTable → IpcContinuationTable × Result ContinuationError (Unit {0})
cancel_receive server t = elim (find server t.receives) [
  | none ↦ (t, err not_armed)
  | some a ↦ (drop_receive server t, ok tt)
]

abbrev pub release_send : ℕ → IpcContinuationTable → IpcContinuationTable
release_send thread t = elim (find thread t.sends) [ none ↦ t | some _ ↦ drop_send thread t ]

unfoldable pub release_thread : ℕ → IpcContinuationTable → IpcContinuationTable
release_thread thread t =
    let t' = release_send thread t in
    elim (find thread t'.receives) [ none ↦ t' | some _ ↦ drop_receive thread t' ]

unfoldable pub send_armed : ℕ → IpcContinuationTable → Bool
send_armed caller t = elim (find caller t.sends) [ none ↦ false | some _ ↦ true ]

unfoldable pub receive_armed : ℕ → IpcContinuationTable → Bool
receive_armed server t = elim (find server t.receives) [ none ↦ false | some _ ↦ true ]
