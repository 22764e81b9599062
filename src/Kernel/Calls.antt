-- ===== src/Kernel/Calls.antt =====
-- The kernel's calls on IPC endpoints and continuations (core/oskernel/src/kernel.cpp). A call of
-- an endpoint for a thread number and one for an execution authority are one on a Claimant.
use enml.Base.{ℕ, if◌then◌else◌, Bool, true, false, ◌&&◌, not, Result, ok, err}
use enml.Capability.{Claimant, thread_of}
use enml.Rendezvous.{Rendezvous}
use enml.Rendezvous.Messages
use enml.Endpoints.{IpcEndpoint, IpcEndpointTable, IpcError, IpcEnvelope, IpcReplySeal, IpcReceived}
use enml.Endpoints.Lifetime
use enml.Endpoints.Exchange
use enml.Continuations.{
  ContinuationError, IpcContinuationTable, IpcSendContinuation, IpcReceiveContinuation,
  receive_armed, not_armed,
}
use enml.Continuations
use enml.Spaces.{AddressSpaceEpoch}
use enml.Spaces
use enml.Kernel.{
  Kernel, KernelError, thread_error, ipc_error, continuation_error, tracked, unknown,
  synchronise_pair, synchronise,
}

-- The endpoint tables after a call of them.
abbrev pub with_ipc : IpcEndpointTable → Rendezvous → Kernel → Kernel
with_ipc ipc threads k = record k { ipc = ipc; threads = threads }

-- What follows a call of the endpoint tables: its error is passed on, or the scheduler is brought
-- in line.
abbrev pub settled :
    {A : Type 0}
    → Kernel
    → (A → Kernel → Kernel)
    → IpcEndpointTable × Rendezvous × Result IpcError A
    → Kernel × Result KernelError A
settled k sync (ipc, threads, err e) = (with_ipc ipc threads k, err (ipc_error e))
settled k sync (ipc, threads, ok a) = (sync a (with_ipc ipc threads k), ok a)

unfoldable pub create_ipc_endpoint : ℕ → Kernel → Kernel × Result KernelError IpcEndpoint
create_ipc_endpoint server k =
    if not (tracked server k.live)
    then unknown k
    else let (ipc, created) = Lifetime.create server k.ipc in
      (record k { ipc = ipc }, elim created [ err e ↦ err (ipc_error e) | ok e ↦ ok e ])

-- The receive continuation of a server whose endpoint was waiting goes with the endpoint.
abbrev pub forget_waiting : Bool → ℕ → Kernel → Kernel
forget_waiting waiting server k =
    if waiting && receive_armed server k.continuations
    then record k { continuations = (Continuations.cancel_receive server k.continuations).0 }
    else k

unfoldable pub retire_ipc_endpoint :
    ℕ → IpcEndpoint → Kernel → Kernel × Result KernelError (Unit {0})
retire_ipc_endpoint server e k =
    settled k (λ _ k'. synchronise (forget_waiting (Exchange.receive_waiting e k.ipc) server k'))
      (Lifetime.retire server e k.ipc k.threads)

unfoldable pub ipc_send :
    Claimant → ℕ → IpcEnvelope → Kernel → Kernel × Result KernelError (Unit {0})
ipc_send caller capability request k =
    settled k (λ _ k'. synchronise k')
      (Exchange.send caller capability k.capabilities request k.ipc k.threads)

unfoldable pub ipc_receive : Claimant → ℕ → Kernel → Kernel × Result KernelError IpcReceived
ipc_receive server capability k =
    settled k (λ received k'. synchronise_pair (thread_of server) received.caller k')
      (Exchange.receive_call server capability k.capabilities k.ipc k.threads)

unfoldable pub ipc_reply :
    Claimant → IpcReplySeal → IpcEnvelope → Kernel → Kernel × Result KernelError (Unit {0})
ipc_reply server seal response k =
    settled k (λ _ k'. synchronise_pair (thread_of server) seal.caller k')
      (Exchange.reply_as server seal response k.ipc k.threads)

unfoldable pub ipc_reply_transaction :
    Claimant → ℕ → IpcEnvelope → Kernel → Kernel × Result KernelError (Unit {0})
ipc_reply_transaction server transaction response k =
    settled k (λ _ k'. synchronise k')
      (Exchange.reply_transaction server transaction response k.ipc k.threads)

unfoldable pub ipc_take_reply : Claimant → Kernel → Kernel × Result KernelError IpcEnvelope
ipc_take_reply caller k =
    if not (tracked (thread_of caller) k.live)
    then unknown k
    else let (ipc, taken) = Exchange.take_reply caller k.ipc in
      (record k { ipc = ipc }, elim taken [ err e ↦ err (ipc_error e) | ok e ↦ ok e ])

-- A call of the continuation table for a tracked thread.
abbrev pub for_tracked :
    {A : Type 0}
    → ℕ
    → Kernel
    → IpcContinuationTable × Result ContinuationError A
    → Kernel × Result KernelError A
for_tracked thread k (continuations, result) = if not (tracked thread k.live) then unknown k else (
  record k { continuations = continuations },
  elim result [ err e ↦ err (continuation_error e) | ok a ↦ ok a ],
)

unfoldable pub ipc_arm_send_continuation :
    ℕ → AddressSpaceEpoch → ℕ → Spaces.Authority → Kernel → Kernel × Result KernelError (Unit {0})
ipc_arm_send_continuation caller epoch exchange_address epochs k =
    for_tracked caller k (Continuations.arm caller epoch exchange_address epochs k.continuations)

unfoldable pub ipc_take_send_continuation :
    ℕ
    → AddressSpaceEpoch
    → Spaces.Authority
    → Kernel
    → Kernel × Result KernelError IpcSendContinuation
ipc_take_send_continuation caller expected epochs k =
    for_tracked caller k (Continuations.take caller expected epochs k.continuations)

unfoldable pub ipc_cancel_send_continuation : ℕ → Kernel → Kernel × Result KernelError (Unit {0})
ipc_cancel_send_continuation caller k =
    for_tracked caller k (Continuations.cancel caller k.continuations)

unfoldable pub ipc_arm_receive_continuation :
    ℕ
    → AddressSpaceEpoch
    → ℕ
    → ℕ
    → Spaces.Authority
    → ℕ
    → Kernel
    → Kernel × Result KernelError (Unit {0})
ipc_arm_receive_continuation server epoch endpoint exchange_address epochs deadline k =
    for_tracked server k (
      Continuations.arm_receive server epoch endpoint exchange_address epochs deadline
        k.continuations)

unfoldable pub ipc_take_receive_continuation :
    ℕ
    → AddressSpaceEpoch
    → Spaces.Authority
    → Kernel
    → Kernel × Result KernelError IpcReceiveContinuation
ipc_take_receive_continuation server expected epochs k =
    for_tracked server k (Continuations.take_receive server expected epochs k.continuations)

unfoldable pub ipc_cancel_receive_continuation : ℕ → Kernel → Kernel × Result KernelError (Unit {0})
ipc_cancel_receive_continuation server k =
    for_tracked server k (Continuations.cancel_receive server k.continuations)

abbrev pub is_not_armed : ContinuationError → Bool
is_not_armed not_armed = true
is_not_armed _ = false

-- The continuation is spent before the wake is tried, and stays spent where that fails.
unfoldable pub ipc_expire_one_receive : ℕ → Kernel → Kernel × Result KernelError Bool
ipc_expire_one_receive now k =
    let (continuations, taken) = Continuations.take_expired_receive now k.continuations in
    let k' = record k { continuations = continuations } in
    elim taken [
      | err e ↦ if is_not_armed e then (k', ok false) else (k', err (continuation_error e))
      | ok c ↦
          let (threads, woken) = Messages.expire_receive c.server k.threads in
          (
            record k' { threads = threads },
            elim woken [ err e ↦ err (thread_error e) | ok _ ↦ ok true ],
          )
    ]

unfoldable pub ipc_take_deadline_expiry : ℕ → Kernel → Kernel × Result KernelError Bool
ipc_take_deadline_expiry thread k =
    let (threads, taken) = Messages.take_deadline_expiry thread k.threads in
    (record k { threads = threads }, elim taken [ err e ↦ err (thread_error e) | ok b ↦ ok b ])

unfoldable pub ipc_take_expired_receive_continuation :
    ℕ → Kernel → Kernel × Result KernelError IpcReceiveContinuation
ipc_take_expired_receive_continuation now k =
    let (continuations, taken) = Continuations.take_expired_receive now k.continuations in
    (
      record k { continuations = continuations },
      elim taken [ err e ↦ err (continuation_error e) | ok c ↦ ok c ],
    )
