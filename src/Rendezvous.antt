-- ===== src/Rendezvous.antt =====
-- Synchronous message passing: core/oskernel/src/rendezvous.cpp and
-- include/os/kernel/rendezvous.hpp. An operation takes the table and returns the new one with its
-- result; a write through a pointer is `modify` at the thread that the pointer was found by.
pub mod Messages
pub mod Invariant
pub mod Transfer
pub mod Run
pub mod Exchange
pub mod Roundtrip
pub mod Priority
pub mod Bystanders
mod Tests
use enml.Base.{
  ℕ, zero, suc, ◌+◌, ◌≤◌, ◌<◌, ltb, ◌==◌, if◌then◌else◌, Bool, true, false, ◌&&◌, ◌||◌, not, Option,
  none, some, List, [], ◌∷◌, map, Result, ok, err, replicate, inc64, dec64, sub64,
}
use enml.Table.{Keyed, find, modify, place, count_live, count_where, first_where}

pub data RendezvousError : Type 0 where
  invalid_thread_id unknown_thread thread_exists thread_limit not_runnable : RendezvousError
  self_addressed not_awaiting_reply not_waiting_on_peer : RendezvousError

pub data ThreadState : Type 0 where
  ready send_blocked reply_blocked receive_blocked exited admitted : ThreadState

pub data WakeReason : Type 0 where
  nothing replied peer_exited endpoint_retired deadline_expired : WakeReason

abbrev pub is_ready : ThreadState → Bool
is_ready ready = true
is_ready _ = false

abbrev pub is_send_blocked : ThreadState → Bool
is_send_blocked send_blocked = true
is_send_blocked _ = false

abbrev pub is_reply_blocked : ThreadState → Bool
is_reply_blocked reply_blocked = true
is_reply_blocked _ = false

abbrev pub is_receive_blocked : ThreadState → Bool
is_receive_blocked receive_blocked = true
is_receive_blocked _ = false

abbrev pub is_admitted : ThreadState → Bool
is_admitted admitted = true
is_admitted _ = false

abbrev pub is_deadline_expired : WakeReason → Bool
is_deadline_expired deadline_expired = true
is_deadline_expired _ = false

pub record Slot : Type 0 where
  pub thread : ℕ
  pub state : ThreadState
  pub partner : ℕ
  pub wake : WakeReason
  pub base : ℕ
  pub occupied : Bool

instance abbrev pub slot_keyed : Keyed Slot
slot_keyed = record { live = λ a. a.occupied; key = λ a. a.thread }

pub record Rendezvous : Type 0 where
  pub slots : List Slot
  pub occupied : ℕ

abbrev pub max_threads : ℕ
max_threads = 64

abbrev pub default_priority : ℕ
default_priority = 0

abbrev pub empty_slot : Slot
empty_slot = record {
  thread = 0;
  state = exited;
  partner = 0;
  wake = nothing;
  base = default_priority;
  occupied = false;
}

unfoldable pub init : Rendezvous
init = record { slots = replicate max_threads empty_slot; occupied = 0 }

-- Blocked in a send to `thread`, or waiting for its reply.
abbrev pub waits_on : ℕ → Slot → Bool
waits_on thread a = (is_send_blocked a.state || is_reply_blocked a.state) && a.partner == thread

-- The loop of `inherited_priority` over the other slots, with the highest priority so far.
unfoldable pub highest_of : ℕ → ℕ → List Slot → ℕ
highest_of thread highest [] = highest
highest_of thread highest (a ∷ rest) =
    highest_of thread
      (if a.occupied && not (a.thread == thread) && waits_on thread a && ltb highest a.base
        then a.base
        else highest)
      rest

unfoldable pub inherited_priority : ℕ → Rendezvous → ℕ
inherited_priority thread r = elim (find thread r.slots) [
  | none ↦ default_priority
  | some a ↦ highest_of thread a.base r.slots
]

unfoldable pub effective_priority_of : ℕ → Rendezvous → Result RendezvousError ℕ
effective_priority_of thread r = elim (find thread r.slots) [
  | none ↦ err unknown_thread
  | some a ↦ ok (inherited_priority thread r)
]

abbrev pub new_slot : ThreadState → ℕ → ℕ → Slot
new_slot state thread priority = record {
  thread = thread;
  state = state;
  partner = 0;
  wake = nothing;
  base = priority;
  occupied = true;
}

-- What `create_thread` and `create_admitted_thread` share: they differ in the first state.
unfoldable pub create_in :
    ThreadState → ℕ → ℕ → Rendezvous → Rendezvous × Result RendezvousError (Unit {0})
create_in state thread priority r =
    if thread == 0 then (r, err invalid_thread_id) else elim (find thread r.slots) [
      | some a ↦ (r, err thread_exists)
      | none ↦ elim (place (new_slot state thread priority) r.slots) [
        | none ↦ (r, err thread_limit)
        | some slots ↦ (record { slots = slots; occupied = inc64 r.occupied }, ok tt)
      ]
    ]

unfoldable pub create_thread : ℕ → ℕ → Rendezvous → Rendezvous × Result RendezvousError (Unit {0})
unfolding create_in
create_thread = create_in ready

unfoldable pub create_admitted_thread :
    ℕ → ℕ → Rendezvous → Rendezvous × Result RendezvousError (Unit {0})
unfolding create_in
create_admitted_thread = create_in admitted

abbrev pub to_ready : Slot → Slot
to_ready a = record a { state = ready }

unfoldable pub start_thread : ℕ → Rendezvous → Rendezvous × Result RendezvousError (Unit {0})
start_thread thread r = elim (find thread r.slots) [
  | none ↦ (r, err unknown_thread)
  | some a ↦
      if not (is_admitted a.state)
      then (r, err not_runnable)
      else (record r { slots = modify thread to_ready r.slots }, ok tt)
]

-- A thread that `exit_thread` wakes: another one, blocked on the thread that exits.
abbrev pub stranded : ℕ → Slot → Bool
stranded thread a =
    not (a.thread == thread)
    && (is_send_blocked a.state || is_reply_blocked a.state || is_receive_blocked a.state)
    && a.partner == thread

abbrev pub release : ℕ → Slot → Slot
release thread a =
    if a.occupied && stranded thread a
    then record a { state = ready; partner = 0; wake = peer_exited }
    else a

abbrev pub leave : Slot → Slot
leave a = record a { state = exited; partner = 0; wake = nothing; occupied = false }

unfoldable pub exit_thread : ℕ → Rendezvous → Rendezvous × Result RendezvousError ℕ
exit_thread thread r = elim (find thread r.slots) [
  | none ↦ (r, err unknown_thread)
  | some a ↦ (
    record {
      slots = modify thread leave (map (release thread) r.slots);
      occupied = dec64 r.occupied;
    },
    ok (count_where (stranded thread) r.slots),
  )
]

abbrev pub block_on : ℕ → Slot → Slot
block_on to a = record a { wake = nothing; state = send_blocked; partner = to }

unfoldable pub block_send : ℕ → ℕ → Rendezvous → Rendezvous × Result RendezvousError (Unit {0})
block_send from to r =
    if from == 0 || to == 0
    then (r, err invalid_thread_id)
    else if from == to
    then (r, err self_addressed)
    else elim (find from r.slots) [
      | none ↦ (r, err unknown_thread)
      | some sender ↦ elim (find to r.slots) [
        | none ↦ (r, err unknown_thread)
        | some target ↦
            if not (is_ready sender.state)
            then (r, err not_runnable)
            else (record r { slots = modify from (block_on to) r.slots }, ok tt)
      ]
    ]

unfoldable pub base_priority_of : ℕ → Rendezvous → Result RendezvousError ℕ
base_priority_of thread r = elim (find thread r.slots) [
  | none ↦ err unknown_thread
  | some a ↦ ok a.base
]

unfoldable pub state_of : ℕ → Rendezvous → Result RendezvousError ThreadState
state_of thread r = elim (find thread r.slots) [ none ↦ err unknown_thread | some a ↦ ok a.state ]

unfoldable pub wake_reason_of : ℕ → Rendezvous → Result RendezvousError WakeReason
wake_reason_of thread r = elim (find thread r.slots) [
  | none ↦ err unknown_thread
  | some a ↦ ok a.wake
]

unfoldable pub partner_of : ℕ → Rendezvous → Result RendezvousError ℕ
partner_of thread r = elim (find thread r.slots) [
  | none ↦ err unknown_thread
  | some a ↦ ok a.partner
]
