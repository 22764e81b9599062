-- ===== src/Endpoints/Lifetime.antt =====
-- Creating and retiring endpoints, and the teardown of a thread's part in them
-- (core/oskernel/src/ipc_endpoint.cpp).
use enml.Base.{
  ℕ, zero, suc, ◌+◌, ◌%◌, ◌==◌, if◌then◌else◌, Bool, true, false, ◌&&◌, ◌||◌, not, none, some, List,
  [], ◌∷◌, Result, ok, err, inc64, dec64, sub64, get_elem?, set, length, u32_mod,
}
use enml.Table.{modify, clear_where, count_where}
use enml.Rendezvous.{Rendezvous}
use enml.Rendezvous.Messages.{cancel_receive, cancel_call}
use enml.Endpoints.{
  IpcEndpointTable, IpcEndpoint, IpcError, EndpointSlot, ReplySlot, PendingSlot, endpoint_limit,
  stale_endpoint, not_endpoint_owner, rendezvous_error, same_endpoint, slot_for, reply_keyed,
  pending_keyed, completed_keyed, empty_reply, empty_pending, empty_completed, max_u32,
}

-- The loop of `create`, from the index `i` on: a slot whose generations are used up is skipped.
unfoldable pub create_at :
    ℕ → ℕ → List EndpointSlot → List EndpointSlot × Result IpcError IpcEndpoint
create_at server i [] = ([], err endpoint_limit)
create_at server i (a ∷ rest) =
    let (rest', result) = create_at server (suc i) rest in
    let next = (a.generation + 1) % u32_mod in
    if a.active || a.generation == max_u32
    then (a ∷ rest', result)
    else if next == 0
    then (record a { generation = next } ∷ rest', result)
    else (
      record { server = server; generation = next; active = true; receive_waiting = false } ∷ rest,
      ok (record { slot = i; generation = next }),
    )

unfoldable pub create : ℕ → IpcEndpointTable → IpcEndpointTable × Result IpcError IpcEndpoint
create server t =
    let (endpoints, result) = create_at server 0 t.endpoints in
    if server == 0 then (t, err not_endpoint_owner) else elim result [
      | err e ↦ (record t { endpoints = endpoints }, err e)
      | ok e ↦ (record t { endpoints = endpoints; active_count = inc64 t.active_count }, ok e)
    ]

abbrev pub sealed_for : IpcEndpoint → ReplySlot → Bool
sealed_for e a = same_endpoint a.seal.endpoint e

unfoldable pub invalidate_replies_for : IpcEndpoint → IpcEndpointTable → IpcEndpointTable
invalidate_replies_for e t = record t {
  replies = clear_where (sealed_for e) empty_reply t.replies;
  reply_seals = sub64 t.reply_seals (count_where (sealed_for e) t.replies);
}

abbrev pub calls_at : IpcEndpoint → PendingSlot → Bool
calls_at e a = same_endpoint a.endpoint e

-- The rendezvous side of `cancel_pending_for`: each caller is woken in turn.
unfoldable pub cancel_calls : IpcEndpoint → List PendingSlot → Rendezvous → Rendezvous
cancel_calls e [] r = r
cancel_calls e (a ∷ rest) r =
    cancel_calls e rest
      (if a.active && calls_at e a then (cancel_call a.caller a.server r).0 else r)

unfoldable pub cancel_pending_for :
    IpcEndpoint → IpcEndpointTable → Rendezvous → IpcEndpointTable × Rendezvous
cancel_pending_for e t r = (
  record t {
    pending = clear_where (calls_at e) empty_pending t.pending;
    pending_calls = sub64 t.pending_calls (count_where (calls_at e) t.pending);
  },
  cancel_calls e t.pending r,
)

abbrev pub retired : EndpointSlot → EndpointSlot
retired a = record a { server = 0; active = false; receive_waiting = false }

-- `retire` once a waiting receive has been cancelled.
abbrev pub retire_now :
    IpcEndpoint
    → EndpointSlot
    → IpcEndpointTable
    → Rendezvous
    → IpcEndpointTable × Rendezvous × Result IpcError (Unit {0})
retire_now e a t r =
    let (t', r') =
      cancel_pending_for e
        (invalidate_replies_for e (record t {
          endpoints = set t.endpoints e.slot (retired a);
          active_count = dec64 t.active_count;
        }))
        r in
    (t', r', ok tt)

unfoldable pub retire :
    ℕ
    → IpcEndpoint
    → IpcEndpointTable
    → Rendezvous
    → IpcEndpointTable × Rendezvous × Result IpcError (Unit {0})
unfolding invalidate_replies_for cancel_pending_for
retire server e t r = elim (slot_for e t) [
  | none ↦ (t, r, err stale_endpoint)
  | some a ↦
      if server == 0 || not (a.server == server)
      then (t, r, err not_endpoint_owner)
      else if not a.receive_waiting
      then retire_now e a t r
      else let (r', cancelled) = cancel_receive server r in
        elim cancelled [ err x ↦ (t, r', err (rendezvous_error x)) | ok _ ↦ retire_now e a t r' ]
]

-- The loop of `retire_all_owned_by` over `n` indices from `i` on.
unfoldable pub retire_from :
    ℕ → ℕ → ℕ → IpcEndpointTable → Rendezvous → IpcEndpointTable × Rendezvous × ℕ
unfolding retire
retire_from zero i server t r = (t, r, 0)
retire_from (suc n) i server t r = elim (get_elem? t.endpoints i) [
  | none ↦ retire_from n (suc i) server t r
  | some a ↦
      if not a.active || not (a.server == server)
      then retire_from n (suc i) server t r
      else let (t1, r1, result) =
          retire server (record { slot = i; generation = a.generation }) t r in
        let (t2, r2, count) = retire_from n (suc i) server t1 r1 in
        (t2, r2, elim result [ ok _ ↦ suc count | err _ ↦ count ])
]

unfoldable pub retire_all_owned_by :
    ℕ → IpcEndpointTable → Rendezvous → IpcEndpointTable × Rendezvous × ℕ
retire_all_owned_by server t r =
    if server == 0 then (t, r, 0) else retire_from (length t.endpoints) 0 server t r

abbrev pub called_by : ℕ → PendingSlot → Bool
called_by thread a = a.caller == thread

abbrev pub sealed_to : ℕ → IpcEndpoint → ReplySlot → Bool
sealed_to thread e a = a.seal.caller == thread && same_endpoint a.seal.endpoint e

-- The first loop of `release_thread`, over the pending calls that were there: the seals of each call
-- of the thread go with it.
unfoldable pub release_seals : ℕ → List PendingSlot → List ReplySlot → ℕ → List ReplySlot × ℕ
release_seals thread [] replies count = (replies, count)
release_seals thread (a ∷ rest) replies count =
    let mine = a.active && called_by thread a in
    release_seals thread rest
      (if mine then clear_where (sealed_to thread a.endpoint) empty_reply replies else replies)
      (if mine then sub64 count (count_where (sealed_to thread a.endpoint) replies) else count)

abbrev pub party : ℕ → ReplySlot → Bool
party thread a = a.seal.caller == thread || a.seal.server == thread

abbrev pub discard_completed_for : ℕ → IpcEndpointTable → IpcEndpointTable
discard_completed_for caller t = record t {
  completed = modify caller (λ _. empty_completed) t.completed;
}

-- What `release_thread` does once the thread's endpoints are retired.
unfoldable pub release_calls : ℕ → IpcEndpointTable → IpcEndpointTable
unfolding release_seals
release_calls thread t =
    let (replies, seals) = release_seals thread t.pending t.replies t.reply_seals in
    discard_completed_for thread (record t {
      pending = clear_where (called_by thread) empty_pending t.pending;
      pending_calls = sub64 t.pending_calls (count_where (called_by thread) t.pending);
      replies = clear_where (party thread) empty_reply replies;
      reply_seals = sub64 seals (count_where (party thread) replies);
    })

unfoldable pub release_thread :
    ℕ → IpcEndpointTable → Rendezvous → IpcEndpointTable × Rendezvous × ℕ
unfolding retire_all_owned_by
release_thread thread t r =
    let (t', r', count) = retire_all_owned_by thread t r in
    if thread == 0 then (t, r, 0) else (release_calls thread t', r', count)
