-- ===== src/Rendezvous/Run.antt =====
-- Histories of the rendezvous table: any operations, by any threads, in any order
-- (core/oskernel/src/rendezvous.cpp).
use enml.Base.{
  ℕ, Bool, true, false, some, List, [], ◌∷◌, Result, ok, err, ◌≡◌, refl, arith, inl, inr,
  Option-cases,
}
use enml.Table.{find, modify, first_where}
use enml.Table.Laws.{find-modify, find_sound, first_where_sound, find-first_where}
use enml.Rendezvous.{
  Rendezvous, RendezvousError, Slot, slot_keyed, ready, endpoint_retired, deadline_expired,
  admitted, is_ready, init, create_in, create_thread, create_admitted_thread, start_thread,
  exit_thread, block_send,
}
use enml.Rendezvous.Messages.{
  clear_wake, wait_receive, deliver_waiting_receiver, accept_sender, stop_receive, cancel_receive,
  expire_receive, take_deadline_expiry, send, calls, receive_from, receive, reply, cancel_call,
}
use enml.Rendezvous.Invariant.{
  Inv, init-Inv, create_in-Inv, start_thread-Inv, exit_thread-Inv, block_send-Inv, modify-Inv,
}
use enml.Rendezvous.Transfer.{
  wait_receive-Inv, deliver_waiting_receiver-Inv, accept_sender-Inv, stop_receive-Inv,
  take_deadline_expiry-Inv, send-Inv, reply-Inv, cancel_call-Inv, receive-Inv,
}

pub data Call : Type 0 where
  creates creates_admitted sends blocks delivers accepts replies cancels : ℕ → ℕ → Call
  starts exits receives waits cancels_receive expires takes_expiry : ℕ → Call

-- The state after an operation, and whether it succeeded.
abbrev pub outcome : {A : Type 0} → Rendezvous × Result RendezvousError A → Rendezvous × Bool
outcome (r, ok a) = (r, true)
outcome (r, err e) = (r, false)

unfoldable pub step : Rendezvous → Call → Rendezvous × Bool
unfolding create_thread create_admitted_thread cancel_receive expire_receive
step r (creates thread priority) = outcome (create_thread thread priority r)
step r (creates_admitted thread priority) = outcome (create_admitted_thread thread priority r)
step r (starts thread) = outcome (start_thread thread r)
step r (exits thread) = outcome (exit_thread thread r)
step r (sends from to) = outcome (send from to r)
step r (blocks from to) = outcome (block_send from to r)
step r (delivers from to) = outcome (deliver_waiting_receiver from to r)
step r (accepts self caller) = outcome (accept_sender self caller r)
step r (replies self caller) = outcome (reply self caller r)
step r (cancels caller server) = outcome (cancel_call caller server r)
step r (receives self) = outcome (receive self r)
step r (waits self) = outcome (wait_receive self r)
step r (cancels_receive self) = outcome (cancel_receive self r)
step r (expires self) = outcome (expire_receive self r)
step r (takes_expiry self) = outcome (take_deadline_expiry self r)

unfoldable pub run : Rendezvous → List Call → Rendezvous
run r [] = r
run r (c ∷ cs) = run (step r c).0 cs

pub outcome_state : {A : Type 0} (p : Rendezvous × Result RendezvousError A) → (outcome p).0 ≡ p.0
outcome_state (r, ok a) = refl
outcome_state (r, err e) = refl

pub step-Inv : (r : Rendezvous) (c : Call) → Inv r → Inv (step r c).0
unfolding step
step-Inv r (creates thread priority) v =
    rw outcome_state (create_in-Inv ready thread priority r refl (λ e. cc) v)
step-Inv r (creates_admitted thread priority) v =
    rw outcome_state (create_in-Inv admitted thread priority r refl (λ e. cc) v)
step-Inv r (starts thread) v = rw outcome_state (start_thread-Inv thread r v)
step-Inv r (exits thread) v = rw outcome_state (exit_thread-Inv thread r v)
step-Inv r (sends from to) v = rw outcome_state (send-Inv r v from to)
step-Inv r (blocks from to) v = rw outcome_state (block_send-Inv from to r v)
step-Inv r (delivers from to) v = rw outcome_state (deliver_waiting_receiver-Inv r v from to)
step-Inv r (accepts self caller) v = rw outcome_state (accept_sender-Inv r v self caller)
step-Inv r (replies self caller) v = rw outcome_state (reply-Inv r v self caller)
step-Inv r (cancels caller server) v = rw outcome_state (cancel_call-Inv r v caller server)
step-Inv r (receives self) v = rw outcome_state (receive-Inv r v self)
step-Inv r (waits self) v = rw outcome_state (wait_receive-Inv r v self)
step-Inv r (cancels_receive self) v = rw outcome_state (stop_receive-Inv r v endpoint_retired self)
step-Inv r (expires self) v = rw outcome_state (stop_receive-Inv r v deadline_expired self)
step-Inv r (takes_expiry self) v = rw outcome_state (take_deadline_expiry-Inv r v self)

pub run-Inv : (r : Rendezvous) (cs : List Call) → Inv r → Inv (run r cs)
unfolding run
run-Inv r [] v = v
run-Inv r (c ∷ cs) v = run-Inv (step r c).0 cs (step-Inv r c v)

-- After any operations on a new table, no thread has two slots, the thread count is right, and
-- every thread that is blocked on a peer is blocked on another thread, one that is in the table.
pub rendezvous-Inv : (cs : List Call) → Inv (run init cs)
rendezvous-Inv cs = run-Inv init cs init-Inv

-- What `receive` does for a ready thread once its wake reason is cleared: it never fails.
receive_from_total :
    (r : Rendezvous) (self partner : ℕ) (a : Slot)
    → Inv r
    → find self r.slots ≡ some a
    → is_ready a.state ≡ true
    → a.partner ≡ partner
    → (outcome (receive_from self partner r)).1 ≡ true
unfolding receive_from accept_sender wait_receive
receive_from_total r self partner a v e h p =
    elim (Option-cases (first_where (calls self) r.slots)) [
      | inl q ↦ ground (arith, find_sound self r.slots a e)
      | inr (b, q) ↦ ground (
        arith,
        find_sound self r.slots a e,
        first_where_sound (calls self) r.slots b q,
        find-first_where (calls self) r.slots b v.unique q,
        v.linked b.thread b,
      )
    ]

receive_refused :
    (r : Rendezvous) (self : ℕ)
    → Inv r
    → (outcome (receive self r)).1 ≡ false
    → (outcome (receive self r)).0 ≡ r
unfolding receive
receive_refused r self v h = elim (Option-cases (find self r.slots)) [
  | inl e ↦ ground arith
  | inr (a, e) ↦
      let cleared : Rendezvous = record r { slots = modify self clear_wake r.slots } in
      ground (
        arith,
        v.linked self a e,
        modify-Inv self clear_wake a r (λ b. (refl, refl)) e,
        find-modify self self clear_wake r.slots (λ b. (refl, refl)),
        receive_from_total cleared self a.partner (clear_wake a),
      )
]

-- Under the invariant, an operation that is refused leaves the whole table as it was. For `receive` this says that it
-- never fails after it has begun to write.
pub step_refused_unchanged :
    (r : Rendezvous) (c : Call) → Inv r → (step r c).1 ≡ false → (step r c).0 ≡ r
unfolding step create_in start_thread exit_thread send block_send deliver_waiting_receiver
    accept_sender reply cancel_call wait_receive stop_receive take_deadline_expiry
step_refused_unchanged r (receives self) v h = receive_refused r self v h
step_refused_unchanged r c v h = ground arith
