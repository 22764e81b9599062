-- ===== src/Rendezvous/Roundtrip.antt =====
-- A call from send to reply (core/oskernel/src/rendezvous.cpp).
use enml.Base.{
  ℕ, ◌==◌, if◌then◌else◌, true, none, some, Result, ok, err, ◌≡◌, refl, arith, ◌≢◌, inl, inr,
}
use enml.Table.{find, modify, first_where}
use enml.Table.Laws.{find-modify, find_sound, find-eq-first, first_where-none}
use enml.Rendezvous.{
  Rendezvous, RendezvousError, Slot, slot_keyed, ready, reply_blocked, nothing, replied, block_send,
  block_on,
}
use enml.Rendezvous.Messages.{send, calls, receive, finish_call, reply}
use enml.Rendezvous.Invariant.{Inv}
use enml.Rendezvous.Transfer.{send-Inv}
use enml.Rendezvous.Exchange.{ReceiveOutcome, receive-outcome}

module _ (client server : ℕ) (r : Rendezvous) (a b : Slot) (v : Inv r)
    (ea : find client r.slots ≡ some a) (eb : find server r.slots ≡ some b) (n : client ≢ server)
    (ra : a.state ≡ ready) (rb : b.state ≡ ready) (z : b.partner ≡ 0)
    (q : first_where (calls server) r.slots ≡ none) where
  send-blocks :
      send client server r ≡ (record r { slots = modify client (block_on server) r.slots }, ok tt)
  unfolding send block_send
  send-blocks = ground (arith, find_sound client r.slots a ea, find_sound server r.slots b eb)

  find-sent :
      (j : ℕ)
      → find j (modify client (block_on server) r.slots)
        ≡ (if client == j then some (block_on server a) else find j r.slots)
  find-sent j = ground (arith, find-modify client j (block_on server) r.slots (λ c. (refl, refl)))

  -- The caller is the only sender that the server can find.
  only-caller :
      (j : ℕ) (c : Slot)
      → find j (modify client (block_on server) r.slots) ≡ some c
      → calls server c ≡ true
      → (j ≡ client) × (c ≡ block_on server a)
  only-caller j c e k = ground (
    arith,
    find-sent j,
    find-eq-first j r.slots v.unique,
    first_where-none (calls server) j r.slots c q,
  )

  abbrev IsServed : Rendezvous × Result RendezvousError ℕ → Type 0
  IsServed p =
      (p.1 ≡ ok client)
      × (find client p.0.slots
          ≡ some (record a { wake = nothing; state = reply_blocked; partner = server }))
      × (find server p.0.slots ≡ some (record b { wake = nothing }))

  served :
      (p : Rendezvous × Result RendezvousError ℕ)
      → ReceiveOutcome server (record r { slots = modify client (block_on server) r.slots }) p
      → IsServed p
  served (r', ok k) (c, e, h, inl (k0, k1, k2)) = absurd (ground (arith, find-sent server))
  served (r', ok k) (c, e, h, inr (inl (d, f, s, g, o, f', w))) =
      ground (arith, find-sent server, only-caller k d f)
  served (r', ok k) (c, e, h, inr (inr (k0, o, none', w))) =
      absurd (ground (arith, find-sent client, none' client (block_on server a)))
  served (r', err x) (same, inl (k0, k1)) = absurd (ground (arith, find_sound server r.slots b eb))
  served (r', err x) (same, inr (inl (k0, k1, k2))) = absurd (ground (arith, find-sent server))
  served (r', err x) (same, inr (inr (k0, (c, f, h)))) =
      absurd (ground (arith, find-sent server, h))

  answered :
      (r2 : Rendezvous)
      → find client r2.slots
        ≡ some (record a { wake = nothing; state = reply_blocked; partner = server })
      → find server r2.slots ≡ some (record b { wake = nothing })
      → let r3 = (reply server client r2).0 in
        (find client r3.slots ≡ some (record a { state = ready; partner = 0; wake = replied }))
        × (find server r3.slots ≡ some (record b { wake = nothing }))
  unfolding reply
  answered r2 f g = ground (
    arith,
    find_sound client r.slots a ea,
    find_sound server r.slots b eb,
    find-modify client client (finish_call replied) r2.slots (λ c. (refl, refl)),
    find-modify client server (finish_call replied) r2.slots (λ c. (refl, refl)),
  )

  -- A call from start to finish, under the invariant. A ready client sends to a ready server that holds no delivery and
  -- that nobody else is sending to; the server receives, and gets that client; it replies, and the
  -- client is ready again, with no peer and the reason `replied`, and the server is as it was but
  -- for its wake reason.
  pub send-receive-reply :
      let r1 = (send client server r).0 in
      let r2 = (receive server r1).0 in
      let r3 = (reply server client r2).0 in
      ((receive server r1).1 ≡ ok client)
      × (find client r3.slots ≡ some (record a { state = ready; partner = 0; wake = replied }))
      × (find server r3.slots ≡ some (record b { wake = nothing }))
  send-receive-reply =
      let r1 : Rendezvous = record r { slots = modify client (block_on server) r.slots } in
      let w : Inv r1 = rw send-blocks at (send-Inv r v client server) in
      let (k, f, g) = served (receive server r1) (receive-outcome server r1 w) in
      rw send-blocks
        (k, (answered (receive server r1).0 f g).0, (answered (receive server r1).0 f g).1)
