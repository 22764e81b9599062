-- ===== src/Endpoints/Exchanged.antt =====
-- Messages keep the reply slots and the waiting answers apart (core/oskernel/src/ipc_endpoint.cpp).
use enml.Base.{
  ℕ, ◌+◌, ◌<◌, ◌==◌, Bool, true, none, List, ◌≡◌, ◌≢◌, ◌⊎◌, inl, inr, refl, arith, Option-cases,
  Bool-cases, Result-cases, subst, ◌||◌,
}
use enml.Table.{first, place, first_where, modify_where, IsKeyed}
use enml.Table.Laws.{first-place, IsKeyed-place, IsKeyed-clear}
use enml.Table.Once.{first-freed, IsKeyed-freed}
use enml.Capability.{
  Claimant, legacy, bound, CapabilityTable, AddressSpaceIdentity, thread_of, address_space_of,
}
use enml.Rendezvous.{Rendezvous, partner_of}
use enml.Endpoints.{
  IpcEndpoint, IpcEnvelope, IpcReplySeal, IpcEndpointTable, ReplySlot, PendingSlot, empty_reply,
  empty_completed, reply_keyed, completed_keyed, max_u64, pending_keyed, ipc_right_receive,
}
use enml.Endpoints.Exchange.{
  new_completed, sealed_as, new_seal, send, send_to_endpoint, receive_pending,
  receive_from_endpoint, receive_call, reply_seal, reply_as, reply_transaction, take_reply, consume,
  called_with, calls_at, endpoint_for_capability, transacts,
}
use enml.Endpoints.Orderly.{IsApart, IsOrderly, IsSame, same-IsOrderly}

pub send-IsOrderly :
    (caller : Claimant) (capability : ℕ) (capabilities : CapabilityTable) (request : IpcEnvelope)
    (t : IpcEndpointTable) (r : Rendezvous)
    → IsOrderly t
    → IsOrderly (send caller capability capabilities request t r).0
unfolding send send_to_endpoint
send-IsOrderly caller capability capabilities request t r h =
    same-IsOrderly t (send caller capability capabilities request t r).0 (ground arith) h

pub take_reply-IsOrderly :
    (caller : Claimant) (t : IpcEndpointTable) → IsOrderly t → IsOrderly (take_reply caller t).0
unfolding take_reply
take_reply-IsOrderly caller t h = ground (
  arith,
  h.0,
  h.1,
  IsKeyed-clear (λ _. empty_completed) (λ _. refl) (thread_of caller) t.completed h.1,
)

-- A new seal has the next transaction, which no other has.
receive_pending-IsOrderly :
    (server : ℕ) (space : AddressSpaceIdentity) (e : IpcEndpoint) (delivered : ℕ) (a : PendingSlot)
    (t : IpcEndpointTable) (r : Rendezvous)
    → IsOrderly t
    → IsOrderly (receive_pending server space e delivered a t r).0
unfolding receive_pending
receive_pending-IsOrderly server space e delivered a t r h =
    let x : ReplySlot = record {
      seal = new_seal e t.next_transaction server space a;
      active = true;
    } in
    let t' = (receive_pending server space e delivered a t r).0 in
    elim (Bool-cases (t.next_transaction == 0 || t.next_transaction == max_u64)) [
      | inl z ↦ same-IsOrderly t t' (ground (arith, z)) h
      | inr z ↦ elim (Option-cases (place x t.replies)) [
        | inl p ↦ same-IsOrderly t t' (ground (arith, z, p)) h
        | inr (ys, p) ↦ elim (Result-cases (consume server delivered a.caller r).1) [
          | inr (y, c) ↦ same-IsOrderly t t' (ground (arith, z, p, c)) h
          | inl (_, c) ↦
              let fresh : first t.next_transaction t.replies ≡ none =
                elim (Option-cases (first t.next_transaction t.replies)) [
                  | inl n ↦ n
                  | inr (b, n) ↦
                      absurd (omega (arith, h.0.1 t.next_transaction (λ q. ground (arith, q, n))))
                ] in
              let q : (t'.replies ≡ ys)
                  × (t'.next_transaction ≡ t.next_transaction + 1)
                  × (t'.completed ≡ t.completed) =
                ground (arith, z, p, c) in
              let keyed : IsKeyed ys =
                IsKeyed-place x refl t.replies ys (ground (arith, z)) fresh p h.0.0 in
              let below : (k : ℕ) → first k ys ≢ none → k < t.next_transaction + 1 = λ k n.
                elim (Bool-cases (t.next_transaction == k)) [
                  | inl s ↦ ground (arith, s)
                  | inr s ↦ omega (
                    arith,
                    h.0.1 k
                        (λ m. n (ground (arith, s, m, first-place x refl k t.replies ys fresh p))),
                  )
                ] in
              rw (q.0, q.1, q.2) ((keyed, below), h.1)
        ]
      ]
    ]

receive_from_endpoint-IsOrderly :
    (server : ℕ) (space : AddressSpaceIdentity) (e : IpcEndpoint) (t : IpcEndpointTable)
    (r : Rendezvous)
    → IsOrderly t
    → IsOrderly (receive_from_endpoint server space e t r).0
unfolding receive_from_endpoint
receive_from_endpoint-IsOrderly server space e t r h =
    let t' = (receive_from_endpoint server space e t r).0 in
    let kept : IsSame t t' → IsOrderly t' = λ q. same-IsOrderly t t' q h in
    let taken : (d : ℕ) (a : PendingSlot)
        → IsSame t t' ⊎ ((receive_pending server space e d a t r).0 ≡ t')
        → IsOrderly t' =
      λ d a q. elim q [
        | inl x ↦ kept x
        | inr x ↦ subst IsOrderly x (receive_pending-IsOrderly server space e d a t r h)
      ] in
    elim (Result-cases (partner_of server r)) [
      | inr (x, p) ↦ kept (ground (arith, p))
      | inl (d, p) ↦ elim (Bool-cases (d == 0)) [
        | inr z ↦ elim (Option-cases (first_where (called_with d e) t.pending)) [
          | inl f ↦ kept (ground (arith, p, z, f))
          | inr (a, f) ↦ taken d a (ground (arith, p, z, f))
        ]
        | inl z ↦ elim (Option-cases (first_where (calls_at e) t.pending)) [
          | inl f ↦ kept (ground (arith, p, z, f))
          | inr (a, f) ↦ taken 0 a (ground (arith, p, z, f))
        ]
      ]
    ]

pub receive_call-IsOrderly :
    (server : Claimant) (capability : ℕ) (capabilities : CapabilityTable) (t : IpcEndpointTable)
    (r : Rendezvous)
    → IsOrderly t
    → IsOrderly (receive_call server capability capabilities t r).0
unfolding receive_call
receive_call-IsOrderly server capability capabilities t r h =
    let t' = (receive_call server capability capabilities t r).0 in
    elim (Result-cases
      (endpoint_for_capability server capability ipc_right_receive capabilities t)) [
        | inr (x, p) ↦ same-IsOrderly t t' (ground (arith, p)) h
        | inl (e, p) ↦
            let q : (receive_from_endpoint (thread_of server) (address_space_of server) e t r).0
                ≡ t' =
              ground (arith, p) in
            subst IsOrderly q
              (receive_from_endpoint-IsOrderly (thread_of server) (address_space_of server) e t r h)
      ]

freed-IsApart :
    (p : ReplySlot → Bool) (xs : List ReplySlot) (next : ℕ)
    → IsApart xs next
    → IsApart (modify_where p (λ _. empty_reply) xs) next
freed-IsApart p xs next h = (
  IsKeyed-freed p empty_reply refl xs h.0,
  λ k n. h.1 k (λ e. n (first-freed p empty_reply refl k xs e)),
)

-- An answer is put where the thread has none, and its reply slot is freed.
reply_seal-IsOrderly :
    (server : ℕ) (seal : IpcReplySeal) (response : IpcEnvelope) (t : IpcEndpointTable)
    (r : Rendezvous)
    → IsOrderly t
    → IsOrderly (reply_seal server seal response t r).0
unfolding reply_seal
reply_seal-IsOrderly server seal response t r h =
    let t' = (reply_seal server seal response t r).0 in
    let a = new_completed seal response in
    let kept : IsSame t t' → IsOrderly t' = λ q. same-IsOrderly t t' q h in
    elim (Option-cases (place a t.completed)) [
      | inl p ↦ kept (ground (arith, p))
      | inr (ys, p) ↦
          let either : IsSame t t'
              ⊎ ((seal.caller ≢ 0)
                  × (first seal.caller t.completed ≡ none)
                  × (t'.replies ≡ modify_where (sealed_as seal) (λ _. empty_reply) t.replies)
                  × (t'.next_transaction ≡ t.next_transaction)
                  × (t'.completed ≡ ys)) =
            ground (arith, p) in
          elim either [
            | inl q ↦ kept q
            | inr (n, fresh, x, y, z) ↦
                rw (x, y, z)
                  (
                    freed-IsApart (sealed_as seal) t.replies t.next_transaction h.0,
                    IsKeyed-place a refl t.completed ys n fresh p h.1,
                  )
          ]
    ]

pub reply_as-IsOrderly :
    (server : Claimant) (seal : IpcReplySeal) (response : IpcEnvelope) (t : IpcEndpointTable)
    (r : Rendezvous)
    → IsOrderly t
    → IsOrderly (reply_as server seal response t r).0
unfolding reply_as
reply_as-IsOrderly (legacy thread) seal response t r h =
    reply_seal-IsOrderly thread seal response t r h
reply_as-IsOrderly (bound x) seal response t r h =
    let t' = (reply_as (bound x) seal response t r).0 in
    let either : (t ≡ t') ⊎ ((reply_seal x.thread seal response t r).0 ≡ t') = ground arith in
    elim either [
      | inl q ↦ subst IsOrderly q h
      | inr q ↦ subst IsOrderly q (reply_seal-IsOrderly x.thread seal response t r h)
    ]

pub reply_transaction-IsOrderly :
    (server : Claimant) (transaction : ℕ) (response : IpcEnvelope) (t : IpcEndpointTable)
    (r : Rendezvous)
    → IsOrderly t
    → IsOrderly (reply_transaction server transaction response t r).0
unfolding reply_transaction
reply_transaction-IsOrderly server transaction response t r h =
    let t' = (reply_transaction server transaction response t r).0 in
    elim (Option-cases (first_where (transacts (thread_of server) transaction) t.replies)) [
      | inl p ↦ let q : t ≡ t' = ground (arith, p) in subst IsOrderly q h
      | inr (a, p) ↦
          let either : (t ≡ t') ⊎ ((reply_as server a.seal response t r).0 ≡ t') =
            ground (arith, p) in
          elim either [
            | inl q ↦ subst IsOrderly q h
            | inr q ↦ subst IsOrderly q (reply_as-IsOrderly server a.seal response t r h)
          ]
    ]
