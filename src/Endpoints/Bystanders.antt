-- ===== src/Endpoints/Bystanders.antt =====
-- A call of an endpoint moves its server and its caller, and no other thread
-- (core/oskernel/src/ipc_endpoint.cpp).
use enml.Base.{
  ℕ, ◌==◌, ok, ◌≡◌, ◌≢◌, ◌⊎◌, inl, inr, refl, arith, Option-cases, Bool-cases, Result-cases,
}
use enml.Table.{first_where}
use enml.Table.Laws.{first_where_sound}
use enml.Capability.{
  Claimant, legacy, bound, thread_of, address_space_of, CapabilityTable, AddressSpaceIdentity,
}
use enml.Rendezvous.{Rendezvous, partner_of}
use enml.Rendezvous.Bystanders.{
  IsUnmoved, accept_sender-IsUnmoved, receive-IsUnmoved, reply-IsUnmoved, wait_receive-IsUnmoved,
}
use enml.Endpoints.{
  IpcEndpoint, IpcEndpointTable, IpcEnvelope, IpcReplySeal, IpcReceived, PendingSlot,
  ipc_right_receive, pending_keyed, reply_keyed, completed_keyed,
}
use enml.Endpoints.Exchange.{
  consume, receive_pending, receive_from_endpoint, receive_call, endpoint_for_capability,
  reply_seal, reply_as, called_with, calls_at,
}

consume-IsUnmoved :
    (j server delivered caller : ℕ) (r : Rendezvous)
    → (delivered ≡ 0) ⊎ (delivered ≡ caller)
    → server ≢ j
    → caller ≢ j
    → (consume server delivered caller r).1 ≡ ok tt
    → IsUnmoved j r (consume server delivered caller r).0
consume-IsUnmoved j server delivered caller r h n m e = ground (
  arith,
  h,
  accept_sender-IsUnmoved j r server caller n m,
  receive-IsUnmoved j r server caller n m,
)

receive_pending-IsUnmoved :
    (j server : ℕ) (space : AddressSpaceIdentity) (e : IpcEndpoint) (delivered : ℕ)
    (a : PendingSlot) (t : IpcEndpointTable) (r : Rendezvous) (received : IpcReceived)
    → (delivered ≡ 0) ⊎ (delivered ≡ a.caller)
    → (receive_pending server space e delivered a t r).2 ≡ ok received
    → server ≢ j
    → received.caller ≢ j
    → IsUnmoved j r (receive_pending server space e delivered a t r).1
unfolding receive_pending
receive_pending-IsUnmoved j server space e delivered a t r received h o n m =
    ground (arith, consume-IsUnmoved j server delivered a.caller r h n)

pub receive_from_endpoint-IsUnmoved :
    (j server : ℕ) (space : AddressSpaceIdentity) (e : IpcEndpoint) (t : IpcEndpointTable)
    (r : Rendezvous) (received : IpcReceived)
    → (receive_from_endpoint server space e t r).2 ≡ ok received
    → server ≢ j
    → received.caller ≢ j
    → IsUnmoved j r (receive_from_endpoint server space e t r).1
unfolding receive_from_endpoint
receive_from_endpoint-IsUnmoved j server space e t r received o n m =
    elim (Result-cases (partner_of server r)) [
      | inr (x, p) ↦ ground arith
      | inl (delivered, p) ↦ elim (Bool-cases (delivered == 0)) [
        | inl z ↦ elim (Option-cases (first_where (calls_at e) t.pending)) [
          | inl s ↦ ground (arith, z, wait_receive-IsUnmoved j r server n)
          | inr (a, s) ↦
              ground
                (arith, z, receive_pending-IsUnmoved j server space e 0 a t r received (inl refl))
        ]
        | inr z ↦ elim (Option-cases (first_where (called_with delivered e) t.pending)) [
          | inl s ↦ ground (arith, z)
          | inr (a, s) ↦
              let same : delivered ≡ a.caller =
                ground (arith, first_where_sound (called_with delivered e) t.pending a s) in
              ground (
                arith,
                z,
                receive_pending-IsUnmoved j server space e delivered a t r received (inr same),
              )
        ]
      ]
    ]

pub reply_seal-IsUnmoved :
    (j server : ℕ) (seal : IpcReplySeal) (response : IpcEnvelope) (t : IpcEndpointTable)
    (r : Rendezvous)
    → server ≢ j
    → seal.caller ≢ j
    → IsUnmoved j r (reply_seal server seal response t r).1
unfolding reply_seal
reply_seal-IsUnmoved j server seal response t r n m =
    ground (arith, reply-IsUnmoved j r server seal.caller n m)

pub receive_call-IsUnmoved :
    (j : ℕ) (server : Claimant) (capability : ℕ) (capabilities : CapabilityTable)
    (t : IpcEndpointTable) (r : Rendezvous) (received : IpcReceived)
    → (receive_call server capability capabilities t r).2 ≡ ok received
    → thread_of server ≢ j
    → received.caller ≢ j
    → IsUnmoved j r (receive_call server capability capabilities t r).1
unfolding receive_call
receive_call-IsUnmoved j server capability capabilities t r received o n m =
    elim (Result-cases
      (endpoint_for_capability server capability ipc_right_receive capabilities t)) [
        | inr (x, p) ↦ ground arith
        | inl (e, p) ↦ ground (
          arith,
          receive_from_endpoint-IsUnmoved j (thread_of server) (address_space_of server) e t r
              received,
        )
      ]

pub reply_as-IsUnmoved :
    (j : ℕ) (server : Claimant) (seal : IpcReplySeal) (response : IpcEnvelope)
    (t : IpcEndpointTable) (r : Rendezvous)
    → thread_of server ≢ j
    → seal.caller ≢ j
    → IsUnmoved j r (reply_as server seal response t r).1
unfolding reply_as
reply_as-IsUnmoved j (legacy x) seal response t r n m =
    reply_seal-IsUnmoved j x seal response t r n m
reply_as-IsUnmoved j (bound x) seal response t r n m =
    ground (arith, reply_seal-IsUnmoved j x.thread seal response t r n m)
