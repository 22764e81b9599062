-- ===== src/Continuations/Arming.antt =====
-- Arming a continuation and taking it up again (core/oskernel/src/ipc_continuation.cpp).
use enml.Base.{
  ℕ, ◌==◌, if◌then◌else◌, true, none, some, List, ok, err, ◌≡◌, ◌≢◌, inl, inr, refl, arith,
  Option-cases, length,
}
use enml.Table.{find, modify, place, IsKeyed}
use enml.Table.Laws.{
  find-clear, find-place, IsKeyed-place, length-place, IsKeyed-replicate, length-replicate,
}
use enml.Spaces.{AddressSpaceEpoch, is_valid_epoch, is_active}
use enml.Spaces
use enml.Continuations.{
  IpcContinuationTable, SendSlot, not_armed, stale, max_threads, send_keyed, empty_send, init, arm,
  take, cancel, is_current,
}

-- What the send half of the table keeps.
pub record IsSending (xs : List SendSlot) : Type 0 where
  pub unique : IsKeyed xs
  pub sized : length xs ≡ max_threads

pub init-IsSending : IsSending init.sends
unfolding init
init-IsSending = record {
  unique = IsKeyed-replicate max_threads empty_send refl;
  sized = length-replicate max_threads empty_send;
}

pub arm-IsSending :
    (caller : ℕ) (epoch : AddressSpaceEpoch) (exchange : ℕ) (epochs : Spaces.Authority)
    (t : IpcContinuationTable)
    → IsSending t.sends
    → IsSending (arm caller epoch exchange epochs t).0.sends
unfolding arm
arm-IsSending caller epoch exchange epochs t v =
    let a : SendSlot = record {
      occupied = true;
      continuation = record { caller = caller; epoch = epoch; exchange_address = exchange };
    } in
    elim (Option-cases (place a t.sends)) [
      | inl q ↦ ground arith
      | inr (ys, q) ↦
          unfold find in
          ground (
            arith,
            v.sized,
            v.unique,
            IsKeyed-place a refl t.sends ys,
            length-place a refl t.sends ys q,
          )
    ]

-- Once a continuation is taken it is spent, whether the epoch was still right or not: to take it or
-- to cancel it again is refused. It is handed out exactly when the epoch that is asked for is the
-- one it was armed under and is still active; nobody else's continuation changes.
pub take-spends :
    (caller : ℕ) (expected : AddressSpaceEpoch) (epochs : Spaces.Authority)
    (t : IpcContinuationTable) (a : SendSlot)
    → IsSending t.sends
    → find caller t.sends ≡ some a
    → let (t', result) = take caller expected epochs t in
      (result ≡ (
        if is_current expected a.continuation.epoch epochs then ok a.continuation else err stale))
      × (take caller expected epochs t' ≡ (t', err not_armed))
      × (cancel caller t' ≡ (t', err not_armed))
      × ((j : ℕ) → j ≢ caller → find j t'.sends ≡ find j t.sends)
unfolding take cancel
take-spends caller expected epochs t a v e = (
  ground arith,
  ground (arith, cleared caller),
  ground (arith, cleared caller),
  λ j n. ground (arith, cleared j),
)
  where
    cleared :
        (j : ℕ)
        → find j (modify caller (λ _. empty_send) t.sends)
          ≡ (if caller == j then none else find j t.sends)
    cleared j = find-clear (λ _. empty_send) (λ _. refl) caller j t.sends v.unique

-- What is armed is what is taken: after a successful arm, a take under the same epoch hands out the
-- caller, the epoch and the exchange address that were given, while the epoch stays active.
pub arm-take :
    (caller : ℕ) (epoch : AddressSpaceEpoch) (exchange : ℕ) (epochs later : Spaces.Authority)
    (t : IpcContinuationTable)
    → (arm caller epoch exchange epochs t).1 ≡ ok tt
    → is_active epoch later ≡ true
    → (take caller epoch later (arm caller epoch exchange epochs t).0).1
      ≡ ok (record { caller = caller; epoch = epoch; exchange_address = exchange })
unfolding arm take
arm-take caller epoch exchange epochs later t h k =
    let a : SendSlot = record {
      occupied = true;
      continuation = record { caller = caller; epoch = epoch; exchange_address = exchange };
    } in
    elim (Option-cases (place a t.sends)) [
      | inl q ↦ absurd (ground arith)
      | inr (ys, q) ↦ ground (arith, find-place a refl caller t.sends ys)
    ]
