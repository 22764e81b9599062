-- ===== src/Endpoints/Exchange.antt =====
-- Calls through endpoints: authorization, send, receive, reply and the collection of the answer
-- (core/oskernel/src/ipc_endpoint.cpp).
use Prim.Native.Nat.{bit_and}
use enml.Base.{
  ℕ, ◌+◌, ◌==◌, if◌then◌else◌, Bool, true, false, ◌&&◌, ◌||◌, not, Option, none, some, Result, ok,
  err, inc64, dec64, set,
}
use enml.Table.{first, modify, place, first_where, modify_where}
use enml.Capability.{
  CapabilityTable, CapabilityInfo, Claimant, legacy, bound, AddressSpaceIdentity, same_identity,
  is_valid_identity, is_valid_authority, is_claimant, thread_of, address_space_of, holds, describe,
}
use enml.Rendezvous.{Rendezvous, block_send, partner_of}
use enml.Rendezvous.Messages.{deliver_waiting_receiver, wait_receive, accept_sender, receive, reply}
use enml.Rendezvous.Messages
use enml.Endpoints.{
  IpcEndpointTable, IpcEndpoint, IpcError, IpcEnvelope, IpcReplySeal, IpcReceived, EndpointSlot,
  ReplySlot, PendingSlot, CompletedSlot, stale_endpoint, not_endpoint_owner, invalid_capability,
  wrong_rights, reply_seal_limit, stale_reply_seal, wrong_reply_server, transaction_exhausted,
  pending_call_limit, pending_call_missing, payload_too_large, reply_unavailable,
  receive_already_waiting, rendezvous_error, same_endpoint, same_seal, is_valid_seal,
  is_valid_envelope, slot_for, decode_endpoint_object, endpoint_keyed, reply_keyed, pending_keyed,
  completed_keyed, empty_reply, empty_pending, empty_completed, nothing_received, max_u64,
  ipc_right_send, ipc_right_receive,
}

abbrev pub has_rights : ℕ → ℕ → Bool
has_rights actual required = bit_and actual required == required

abbrev pub is_active : IpcEndpoint → IpcEndpointTable → Bool
is_active e t = elim (slot_for e t) [ none ↦ false | some _ ↦ true ]

-- The older overload refuses a capability that is bound to an address space.
abbrev pub authorizes : Claimant → CapabilityInfo → Bool
authorizes (legacy thread) d = not d.context_bound
authorizes (bound x) d = true

unfoldable pub endpoint_for_capability :
    Claimant → ℕ → ℕ → CapabilityTable → IpcEndpointTable → Result IpcError IpcEndpoint
endpoint_for_capability holder capability required capabilities t =
    if not (is_claimant holder) || capability == 0
    then err invalid_capability
    else elim (describe capability capabilities) [
      | err _ ↦ err invalid_capability
      | ok d ↦
          if not (authorizes holder d) || not (holds holder capability capabilities)
          then err invalid_capability
          else if not (has_rights d.rights required)
          then err wrong_rights
          else elim (decode_endpoint_object d.object) [
            | err x ↦ err x
            | ok e ↦ if is_active e t then ok e else err stale_endpoint
          ]
    ]

abbrev pub stop_waiting : EndpointSlot → EndpointSlot
stop_waiting a = record a { receive_waiting = false }

abbrev pub new_pending : IpcEndpoint → ℕ → ℕ → AddressSpaceIdentity → IpcEnvelope → PendingSlot
new_pending e caller server space request = record {
  endpoint = e;
  caller = caller;
  server = server;
  caller_address_space = space;
  request = request;
  active = true;
}

abbrev pub is_some {ℓ} : {A : Type ℓ} → Option A → Bool
is_some none = false
is_some (some _) = true

unfoldable pub send_to_endpoint :
    ℕ
    → AddressSpaceIdentity
    → IpcEndpoint
    → IpcEnvelope
    → IpcEndpointTable
    → Rendezvous
    → IpcEndpointTable × Rendezvous × Result IpcError (Unit {0})
send_to_endpoint caller space e request t r =
    if not (is_valid_envelope request)
    then (t, r, err payload_too_large)
    else if is_some (first caller t.completed)
    then (t, r, err reply_unavailable)
    else elim (slot_for e t) [
      | none ↦ (t, r, err stale_endpoint)
      | some owner ↦ elim (place (new_pending e caller owner.server space request) t.pending) [
        | none ↦ (t, r, err pending_call_limit)
        | some pending ↦
            let (r', sent) =
              if owner.receive_waiting
              then deliver_waiting_receiver caller owner.server r
              else block_send caller owner.server r in
            elim sent [
              | err x ↦ (t, r', err (rendezvous_error x))
              | ok _ ↦ (
                record t {
                  endpoints = set t.endpoints e.slot (stop_waiting owner);
                  pending = pending;
                  pending_calls = inc64 t.pending_calls;
                },
                r',
                ok tt,
              )
            ]
      ]
    ]

unfoldable pub send :
    Claimant
    → ℕ
    → CapabilityTable
    → IpcEnvelope
    → IpcEndpointTable
    → Rendezvous
    → IpcEndpointTable × Rendezvous × Result IpcError (Unit {0})
send caller capability capabilities request t r =
    elim (endpoint_for_capability caller capability ipc_right_send capabilities t) [
      | err x ↦ (t, r, err x)
      | ok e ↦ send_to_endpoint (thread_of caller) (address_space_of caller) e request t r
    ]

abbrev pub called_with : ℕ → IpcEndpoint → PendingSlot → Bool
called_with caller e a = a.caller == caller && same_endpoint a.endpoint e

abbrev pub calls_at : IpcEndpoint → PendingSlot → Bool
calls_at e a = same_endpoint a.endpoint e

abbrev pub new_seal : IpcEndpoint → ℕ → ℕ → AddressSpaceIdentity → PendingSlot → IpcReplySeal
new_seal e transaction server space a = record {
  endpoint = e;
  transaction = transaction;
  caller = a.caller;
  server = server;
  caller_address_space = a.caller_address_space;
  server_address_space = space;
}

-- The rendezvous half of a receive: a delivery that waits is consumed, or a sender is accepted.
abbrev pub consume : ℕ → ℕ → ℕ → Rendezvous → Rendezvous × Result IpcError (Unit {0})
consume server delivered caller r =
    if delivered == 0
    then (let (r', accepted) = accept_sender server caller r in
        elim accepted [ err x ↦ (r', err (rendezvous_error x)) | ok _ ↦ (r', ok tt) ])
    else let (r', consumed) = Messages.receive server r in
      elim consumed [
        | err _ ↦ (r', err pending_call_missing)
        | ok n ↦ if n == delivered then (r', ok tt) else (r', err pending_call_missing)
      ]

-- `receive_from_endpoint` once it has found the pending call.
unfoldable pub receive_pending :
    ℕ
    → AddressSpaceIdentity
    → IpcEndpoint
    → ℕ
    → PendingSlot
    → IpcEndpointTable
    → Rendezvous
    → IpcEndpointTable × Rendezvous × Result IpcError IpcReceived
receive_pending server space e delivered a t r =
    let seal = new_seal e t.next_transaction server space a in
    if t.next_transaction == 0 || t.next_transaction == max_u64
    then (t, r, err transaction_exhausted)
    else elim (place (record { seal = seal; active = true }) t.replies) [
      | none ↦ (t, r, err reply_seal_limit)
      | some replies ↦
          let (r', consumed) = consume server delivered a.caller r in
          elim consumed [
            | err x ↦ (t, r', err x)
            | ok _ ↦ (
              record t {
                replies = replies;
                reply_seals = inc64 t.reply_seals;
                next_transaction = t.next_transaction + 1;
              },
              r',
              ok (record { caller = a.caller; seal = seal; request = a.request }),
            )
          ]
    ]

unfoldable pub receive_from_endpoint :
    ℕ
    → AddressSpaceIdentity
    → IpcEndpoint
    → IpcEndpointTable
    → Rendezvous
    → IpcEndpointTable × Rendezvous × Result IpcError IpcReceived
unfolding receive_pending
receive_from_endpoint server space e t r = elim (slot_for e t) [
  | none ↦ (t, r, err stale_endpoint)
  | some owner ↦
      if not (owner.server == server)
      then (t, r, err not_endpoint_owner)
      else if owner.receive_waiting
      then (t, r, err receive_already_waiting)
      else elim (partner_of server r) [
        | err x ↦ (t, r, err (rendezvous_error x))
        | ok delivered ↦
            if not (delivered == 0)
            then elim (first_where (called_with delivered e) t.pending) [
              | none ↦ (t, r, err pending_call_missing)
              | some a ↦ receive_pending server space e delivered a t r
            ]
            else elim (first_where (calls_at e) t.pending) [
              | some a ↦ receive_pending server space e 0 a t r
              | none ↦
                  let (r', waiting) = wait_receive server r in
                  elim waiting [
                    | err x ↦ (t, r', err (rendezvous_error x))
                    | ok _ ↦ (
                      record t {
                        endpoints =
                            set t.endpoints e.slot (record owner { receive_waiting = true });
                      },
                      r',
                      ok nothing_received,
                    )
                  ]
            ]
      ]
]

unfoldable pub receive_call :
    Claimant
    → ℕ
    → CapabilityTable
    → IpcEndpointTable
    → Rendezvous
    → IpcEndpointTable × Rendezvous × Result IpcError IpcReceived
receive_call server capability capabilities t r =
    elim (endpoint_for_capability server capability ipc_right_receive capabilities t) [
      | err x ↦ (t, r, err x)
      | ok e ↦ receive_from_endpoint (thread_of server) (address_space_of server) e t r
    ]

abbrev pub new_completed : IpcReplySeal → IpcEnvelope → CompletedSlot
new_completed seal response = record {
  caller = seal.caller;
  caller_address_space = seal.caller_address_space;
  response = response;
  active = true;
}

abbrev pub sealed_as : IpcReplySeal → ReplySlot → Bool
sealed_as seal a = same_seal a.seal seal

-- The answer is stored before the caller is woken, and taken back where that fails: a free slot
-- holds nothing, so the table is then as it was.
unfoldable pub reply_seal :
    ℕ
    → IpcReplySeal
    → IpcEnvelope
    → IpcEndpointTable
    → Rendezvous
    → IpcEndpointTable × Rendezvous × Result IpcError (Unit {0})
reply_seal server seal response t r =
    if not (is_valid_envelope response)
    then (t, r, err payload_too_large)
    else if not (is_valid_seal seal)
    then (t, r, err stale_reply_seal)
    else if not (server == seal.server)
    then (t, r, err wrong_reply_server)
    else elim (slot_for seal.endpoint t) [
      | none ↦ (t, r, err stale_reply_seal)
      | some owner ↦
          if not (owner.server == server)
            || not (is_some (first_where (sealed_as seal) t.replies))
            || not (is_some (first_where (called_with seal.caller seal.endpoint) t.pending))
          then (t, r, err stale_reply_seal)
          else if is_some (first seal.caller t.completed)
          then (t, r, err reply_unavailable)
          else elim (place (new_completed seal response) t.completed) [
            | none ↦ (t, r, err reply_unavailable)
            | some completed ↦
                let (r', replied) = Messages.reply server seal.caller r in
                elim replied [
                  | err x ↦ (t, r', err (rendezvous_error x))
                  | ok _ ↦ (
                    record t {
                      completed = completed;
                      replies = modify_where (sealed_as seal) (λ _. empty_reply) t.replies;
                      reply_seals = dec64 t.reply_seals;
                      pending =
                          modify_where (called_with seal.caller seal.endpoint) (λ _. empty_pending)
                            t.pending;
                      pending_calls = dec64 t.pending_calls;
                    },
                    r',
                    ok tt,
                  )
                ]
          ]
    ]

-- Both overloads of `reply`: the newer one compares the server's generation where the seal has one.
unfoldable pub reply_as :
    Claimant
    → IpcReplySeal
    → IpcEnvelope
    → IpcEndpointTable
    → Rendezvous
    → IpcEndpointTable × Rendezvous × Result IpcError (Unit {0})
reply_as (legacy thread) seal response t r = reply_seal thread seal response t r
reply_as (bound x) seal response t r =
    if not (is_valid_authority x)
    then (t, r, err wrong_reply_server)
    else if is_valid_identity seal.server_address_space
        && not (same_identity x.address_space seal.server_address_space)
    then (t, r, err wrong_reply_server)
    else reply_seal x.thread seal response t r

abbrev pub transacts : ℕ → ℕ → ReplySlot → Bool
transacts server transaction a = a.seal.server == server && a.seal.transaction == transaction

unfoldable pub reply_transaction :
    Claimant
    → ℕ
    → IpcEnvelope
    → IpcEndpointTable
    → Rendezvous
    → IpcEndpointTable × Rendezvous × Result IpcError (Unit {0})
reply_transaction server transaction response t r =
    if thread_of server == 0 || transaction == 0
    then (t, r, err stale_reply_seal)
    else elim (first_where (transacts (thread_of server) transaction) t.replies) [
      | none ↦ (t, r, err stale_reply_seal)
      | some a ↦ reply_as server a.seal response t r
    ]

abbrev pub entitled : Claimant → CompletedSlot → Bool
entitled (legacy thread) a = true
entitled (bound x) a =
    not (is_valid_identity a.caller_address_space)
    || same_identity x.address_space a.caller_address_space

abbrev pub may_collect : Claimant → Bool
may_collect (legacy thread) = true
may_collect (bound x) = is_valid_authority x

unfoldable pub take_reply :
    Claimant → IpcEndpointTable → IpcEndpointTable × Result IpcError IpcEnvelope
take_reply caller t =
    if not (may_collect caller)
    then (t, err reply_unavailable)
    else elim (first (thread_of caller) t.completed) [
      | none ↦ (t, err reply_unavailable)
      | some a ↦ if not (entitled caller a) then (t, err reply_unavailable) else (
        record t { completed = modify (thread_of caller) (λ _. empty_completed) t.completed },
        ok a.response,
      )
    ]

unfoldable pub reply_available : ℕ → IpcEndpointTable → Bool
reply_available caller t = not (caller == 0) && is_some (first caller t.completed)

unfoldable pub receive_waiting : IpcEndpoint → IpcEndpointTable → Bool
receive_waiting e t = elim (slot_for e t) [ none ↦ false | some a ↦ a.receive_waiting ]
