-- ===== src/Endpoints/Orderly.antt =====
-- Reply slots and waiting answers that are told apart (core/oskernel/src/ipc_endpoint.cpp).
use enml.Base.{
  length, sub64, ℕ, zero, suc, ◌<◌, ◌==◌, Bool, true, false, ◌&&◌, none, List, [], ◌∷◌, get_elem?,
  ◌≡◌, ◌≢◌, ◌⊎◌, inl, inr, refl, arith, Option-cases, Bool-cases, if◌then◌else◌, subst, ◌||◌, not,
}
use enml.Table.{first, clear_where, IsKeyed, count_where}
use enml.Table.Laws.{IsKeyed-clear}
use enml.Table.Sweep.{first-clear_where, IsKeyed-clear_where}
use enml.Rendezvous.{Rendezvous}
use enml.Endpoints.{
  IpcEndpoint, IpcEndpointTable, ReplySlot, PendingSlot, empty_reply, empty_completed, reply_keyed,
  completed_keyed, pending_keyed,
}
use enml.Endpoints.Lifetime.{
  sealed_for, sealed_to, called_by, party, create, retire, retire_from, retire_all_owned_by,
  release_seals, release_calls, release_thread, invalidate_replies_for, cancel_pending_for,
}

-- No transaction stands in two reply slots, and all lie below the next.
abbrev pub IsApart : List ReplySlot → ℕ → Type 0
IsApart xs next = IsKeyed xs × ((k : ℕ) → first k xs ≢ none → k < next)

-- Beside that, no thread has two answers waiting.
abbrev pub IsOrderly : IpcEndpointTable → Type 0
IsOrderly t = IsApart t.replies t.next_transaction × IsKeyed t.completed

-- The call leaves the reply slots, the next transaction and the answers as they were.
abbrev pub IsSame : IpcEndpointTable → IpcEndpointTable → Type 0
IsSame t t' =
    (t'.replies ≡ t.replies)
    × (t'.next_transaction ≡ t.next_transaction)
    × (t'.completed ≡ t.completed)

pub same-IsOrderly : (t t' : IpcEndpointTable) → IsSame t t' → IsOrderly t → IsOrderly t'
same-IsOrderly t t' e h = rw (e.0, e.1, e.2) h

cleared-IsApart :
    (p : ReplySlot → Bool) (xs : List ReplySlot) (next : ℕ)
    → IsApart xs next
    → IsApart (clear_where p empty_reply xs) next
cleared-IsApart p xs next h = (
  IsKeyed-clear_where p empty_reply refl xs h.0,
  λ k n. h.1 k (λ e. n (ground (arith, e, first-clear_where p empty_reply refl k xs h.0))),
)

either-IsApart :
    (c : Bool) (xs ys : List ReplySlot) (next : ℕ)
    → IsApart xs next
    → IsApart ys next
    → IsApart (if c then xs else ys) next
either-IsApart true xs ys next h g = h
either-IsApart false xs ys next h g = g

pub create-IsOrderly :
    (server : ℕ) (t : IpcEndpointTable) → IsOrderly t → IsOrderly (create server t).0
unfolding create
create-IsOrderly server t h = same-IsOrderly t (create server t).0 (ground arith) h

-- A retirement frees the reply slots of its endpoint, or changes nothing of them.
retire_fields :
    (server : ℕ) (e : IpcEndpoint) (t : IpcEndpointTable) (r : Rendezvous)
    → let t' = (retire server e t r).0 in
      ((t'.replies ≡ t.replies) ⊎ (t'.replies ≡ clear_where (sealed_for e) empty_reply t.replies))
      × (t'.next_transaction ≡ t.next_transaction)
      × (t'.completed ≡ t.completed)
unfolding retire invalidate_replies_for cancel_pending_for
retire_fields server e t r = ground arith

pub retire-IsOrderly :
    (server : ℕ) (e : IpcEndpoint) (t : IpcEndpointTable) (r : Rendezvous)
    → IsOrderly t
    → IsOrderly (retire server e t r).0
retire-IsOrderly server e t r h =
    let f = retire_fields server e t r in
    elim f.0 [
      | inl q ↦ rw (q, f.1, f.2) h
      | inr q ↦
          rw (q, f.1, f.2) (cleared-IsApart (sealed_for e) t.replies t.next_transaction h.0, h.1)
    ]

retire_from-IsOrderly :
    (n i server : ℕ) (t : IpcEndpointTable) (r : Rendezvous)
    → IsOrderly t
    → IsOrderly (retire_from n i server t r).0
unfolding retire_from
retire_from-IsOrderly zero i server t r h = h
retire_from-IsOrderly (suc n) i server t r h =
    let t' = (retire_from (suc n) i server t r).0 in
    let skipped = retire_from-IsOrderly n (suc i) server t r h in
    elim (Option-cases (get_elem? t.endpoints i)) [
      | inl e ↦
          let q : (retire_from n (suc i) server t r).0 ≡ t' = ground (arith, e) in
          subst IsOrderly q skipped
      | inr (a, e) ↦ elim (Bool-cases (not a.active || not (a.server == server))) [
        | inl b ↦
            let q : (retire_from n (suc i) server t r).0 ≡ t' = ground (arith, e, b) in
            subst IsOrderly q skipped
        | inr b ↦
            let x : IpcEndpoint = record { slot = i; generation = a.generation } in
            let (t1, r1, _) = retire server x t r in
            let q : (retire_from n (suc i) server t1 r1).0 ≡ t' = ground (arith, e, b) in
            subst IsOrderly q
              (retire_from-IsOrderly n (suc i) server t1 r1 (retire-IsOrderly server x t r h))
      ]
    ]

release_seals-IsApart :
    (thread : ℕ) (ps : List PendingSlot) (xs : List ReplySlot) (count next : ℕ)
    → IsApart xs next
    → IsApart (release_seals thread ps xs count).0 next
unfolding release_seals
release_seals-IsApart thread [] xs count next h = h
release_seals-IsApart thread (a ∷ ps) xs count next h =
    let mine = a.active && called_by thread a in
    let seals = sealed_to thread a.endpoint in
    release_seals-IsApart thread ps (if mine then clear_where seals empty_reply xs else xs)
      (if mine then sub64 count (count_where seals xs) else count) next
      (either-IsApart mine (clear_where seals empty_reply xs) xs next
        (cleared-IsApart seals xs next h) h)

release_calls-IsOrderly :
    (thread : ℕ) (t : IpcEndpointTable) → IsOrderly t → IsOrderly (release_calls thread t)
unfolding release_calls
release_calls-IsOrderly thread t h = (
  cleared-IsApart (party thread) (release_seals thread t.pending t.replies t.reply_seals).0
      t.next_transaction
      (release_seals-IsApart thread t.pending t.replies t.reply_seals t.next_transaction h.0),
  IsKeyed-clear (λ _. empty_completed) (λ _. refl) thread t.completed h.1,
)

pub release_thread-IsOrderly :
    (thread : ℕ) (t : IpcEndpointTable) (r : Rendezvous)
    → IsOrderly t
    → IsOrderly (release_thread thread t r).0
unfolding release_thread retire_all_owned_by
release_thread-IsOrderly thread t r h =
    let t' = (retire_from (length t.endpoints) 0 thread t r).0 in
    elim (Bool-cases (thread == 0)) [
      | inl e ↦ let q : t ≡ (release_thread thread t r).0 = ground (arith, e) in subst IsOrderly q h
      | inr e ↦
          let q : release_calls thread t' ≡ (release_thread thread t r).0 = ground (arith, e) in
          subst IsOrderly q (
            release_calls-IsOrderly thread t'
              (retire_from-IsOrderly (length t.endpoints) 0 thread t r h))
    ]
