-- ===== src/Rendezvous/Tests.antt =====
-- Concrete rendezvous tables (core/oskernel/src/rendezvous.cpp).

use enml.Base.{
  if◌then◌else◌, ◌==◌, ◌&&◌, ℕ, true, false, some, none, List, [], ◌∷◌, ok, ◌≡◌, ◌≢◌, refl, arith,
  ◌⊎◌, ◌≤◌,
}
use enml.Table.{first, find, modify, place, first_where}
use enml.Rendezvous.{
  peer_exited, Rendezvous, Slot, slot_keyed, ready, nothing, replied, init, effective_priority_of,
  waits_on, exit_thread, new_slot, block_send, create_thread, create_in, inherited_priority,
  highest_of,
}
use enml.Rendezvous.Messages.{send, receive, reply, calls}
use enml.Rendezvous.Invariant.{Inv}
use enml.Rendezvous.Run.{
  Call, creates, sends, replies, step, run, rendezvous-Inv, step_refused_unchanged,
}
use enml.Rendezvous.Exchange.{ReceiveOutcome, receive-outcome}
use enml.Rendezvous.Priority.{
  is_waiting, waiting_count, effective_priority_of-max, exit_thread-releases,
}
use enml.Rendezvous.Roundtrip.{send-receive-reply}

-- A server, thread 1, of priority 3, and a client, thread 2, of priority 9.
abbrev births : List Call
births = creates 1 3 ∷ creates 2 9 ∷ []

abbrev idle : Rendezvous
idle = run init births

-- The client is sending.
abbrev busy : Rendezvous
busy = run init (creates 1 3 ∷ creates 2 9 ∷ sends 2 1 ∷ [])

abbrev server : Slot
server = new_slot ready 1 3

abbrev client : Slot
client = new_slot ready 2 9

idle-Inv : Inv idle
idle-Inv = rendezvous-Inv births

busy-Inv : Inv busy
busy-Inv = rendezvous-Inv (creates 1 3 ∷ creates 2 9 ∷ sends 2 1 ∷ [])

find-server : find 1 idle.slots ≡ some server
unfolding find first run init step create_thread create_in place
find-server = refl

find-client : find 2 idle.slots ≡ some client
unfolding find first run init step create_thread create_in place
find-client = refl

find-called : find 1 busy.slots ≡ some server
unfolding find first run init step create_thread create_in place send block_send modify
find-called = refl

nobody : first_where (calls 1) idle.slots ≡ none
unfolding find first run init step create_thread create_in place first_where
nobody = refl

inherits : effective_priority_of 1 busy ≡ ok 9
unfolding find first run init step create_thread create_in place send block_send modify
    effective_priority_of inherited_priority highest_of
inherits = refl

refused : (step idle (replies 1 2)).1 ≡ false
unfolding find first run init step create_thread create_in place reply
refused = refl

rendezvous-Inv_example : Inv (run init births)
rendezvous-Inv_example = rendezvous-Inv births

step_refused_unchanged_example : (step idle (replies 1 2)).0 ≡ idle
step_refused_unchanged_example = step_refused_unchanged idle (replies 1 2) idle-Inv refused

receive-outcome_example : ReceiveOutcome 1 busy (receive 1 busy)
receive-outcome_example = receive-outcome 1 busy busy-Inv

effective_priority_of-max_example :
    (server.base ≤ 9)
    × ((j : ℕ) (b : Slot) → find j busy.slots ≡ some b → waits_on 1 b ≡ true → b.base ≤ 9)
    × ((9 ≡ server.base)
        ⊎ ((b : Slot) × (find b.thread busy.slots ≡ some b) × (waits_on 1 b ≡ true) × (9 ≡ b.base)))
effective_priority_of-max_example =
    effective_priority_of-max 1 9 busy server busy-Inv find-called inherits

exit_thread-releases_example :
    let (r', result) = exit_thread 1 busy in
    (find 1 r'.slots ≡ none)
    × ((j : ℕ) (b : Slot)
        → j ≢ 1
        → find j busy.slots ≡ some b
        → find j r'.slots
          ≡ some (
              if b.partner == 1 && is_waiting b.state
              then record {
                thread = j;
                state = ready;
                partner = 0;
                wake = peer_exited;
                base = b.base;
                occupied = true;
              }
              else b))
    × (result ≡ ok (waiting_count 1 busy.slots))
exit_thread-releases_example = exit_thread-releases 1 busy server busy-Inv find-called

send-receive-reply_example :
    let r1 = (send 2 1 idle).0 in
    let r2 = (receive 1 r1).0 in
    let r3 = (reply 1 2 r2).0 in
    ((receive 1 r1).1 ≡ ok 2)
    × (find 2 r3.slots ≡ some (record client { state = ready; partner = 0; wake = replied }))
    × (find 1 r3.slots ≡ some (record server { wake = nothing }))
send-receive-reply_example =
    send-receive-reply 2 1 idle client server idle-Inv find-client find-server (λ e. omega arith)
      refl refl refl nobody
