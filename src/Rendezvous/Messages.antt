-- ===== src/Rendezvous/Messages.antt =====
-- Sending, receiving, replying and cancelling: core/oskernel/src/rendezvous.cpp.
use enml.Base.{
  ℕ, ◌==◌, if◌then◌else◌, Bool, true, false, ◌&&◌, ◌||◌, not, Option, none, some, Result, ok, err,
}
use enml.Table.{find, modify, first_where}
use enml.Rendezvous.{
  Rendezvous, RendezvousError, WakeReason, Slot, slot_keyed, invalid_thread_id, unknown_thread,
  not_runnable, self_addressed, not_awaiting_reply, not_waiting_on_peer, ready, reply_blocked,
  receive_blocked, nothing, replied, endpoint_retired, deadline_expired, is_ready, is_send_blocked,
  is_reply_blocked, is_receive_blocked, is_deadline_expired, waits_on, block_send,
}

abbrev pub clear_wake : Slot → Slot
clear_wake a = record a { wake = nothing }

abbrev pub block_receive : Slot → Slot
block_receive a = record a { wake = nothing; state = receive_blocked }

unfoldable pub wait_receive : ℕ → Rendezvous → Rendezvous × Result RendezvousError (Unit {0})
wait_receive self r = if self == 0 then (r, err invalid_thread_id) else elim (find self r.slots) [
  | none ↦ (r, err unknown_thread)
  | some receiver ↦
      if not (is_ready receiver.state) || not (receiver.partner == 0)
      then (r, err not_runnable)
      else (record r { slots = modify self block_receive r.slots }, ok tt)
]

abbrev pub await_reply : ℕ → Slot → Slot
await_reply to a = record a { wake = nothing; state = reply_blocked; partner = to }

abbrev pub take_delivery : ℕ → Slot → Slot
take_delivery from a = record a { state = ready; partner = from }

unfoldable pub deliver_waiting_receiver :
    ℕ → ℕ → Rendezvous → Rendezvous × Result RendezvousError (Unit {0})
deliver_waiting_receiver from to r =
    if from == 0 || to == 0
    then (r, err invalid_thread_id)
    else if from == to
    then (r, err self_addressed)
    else elim (find from r.slots) [
      | none ↦ (r, err unknown_thread)
      | some sender ↦ elim (find to r.slots) [
        | none ↦ (r, err unknown_thread)
        | some receiver ↦
            if not (is_ready sender.state)
            then (r, err not_runnable)
            else if not (is_receive_blocked receiver.state) || not (receiver.partner == 0)
            then (r, err not_waiting_on_peer)
            else (
              record r {
                slots = modify to (take_delivery from) (modify from (await_reply to) r.slots);
              },
              ok tt,
            )
      ]
    ]

abbrev pub to_reply_blocked : Slot → Slot
to_reply_blocked a = record a { state = reply_blocked }

unfoldable pub accept_sender : ℕ → ℕ → Rendezvous → Rendezvous × Result RendezvousError (Unit {0})
accept_sender self caller r =
    if self == 0 || caller == 0
    then (r, err invalid_thread_id)
    else if self == caller
    then (r, err self_addressed)
    else elim (find self r.slots) [
      | none ↦ (r, err unknown_thread)
      | some receiver ↦ elim (find caller r.slots) [
        | none ↦ (r, err unknown_thread)
        | some sender ↦
            if not (is_ready receiver.state)
            then (r, err not_runnable)
            else if not (is_send_blocked sender.state) || not (sender.partner == self)
            then (r, err not_waiting_on_peer)
            else (
              record r { slots = modify caller to_reply_blocked (modify self clear_wake r.slots) },
              ok tt,
            )
      ]
    ]

-- `cancel_receive` and `expire_receive` differ in the reason that they leave.
abbrev pub wake_with : WakeReason → Slot → Slot
wake_with reason a = record a { state = ready; wake = reason }

unfoldable pub stop_receive :
    WakeReason → ℕ → Rendezvous → Rendezvous × Result RendezvousError (Unit {0})
stop_receive reason self r =
    if self == 0 then (r, err invalid_thread_id) else elim (find self r.slots) [
      | none ↦ (r, err unknown_thread)
      | some receiver ↦
          if not (is_receive_blocked receiver.state) || not (receiver.partner == 0)
          then (r, err not_waiting_on_peer)
          else (record r { slots = modify self (wake_with reason) r.slots }, ok tt)
    ]

unfoldable pub cancel_receive : ℕ → Rendezvous → Rendezvous × Result RendezvousError (Unit {0})
unfolding stop_receive
cancel_receive = stop_receive endpoint_retired

unfoldable pub expire_receive : ℕ → Rendezvous → Rendezvous × Result RendezvousError (Unit {0})
unfolding stop_receive
expire_receive = stop_receive deadline_expired

unfoldable pub take_deadline_expiry : ℕ → Rendezvous → Rendezvous × Result RendezvousError Bool
take_deadline_expiry self r =
    if self == 0 then (r, err invalid_thread_id) else elim (find self r.slots) [
      | none ↦ (r, err unknown_thread)
      | some a ↦
          if not (is_deadline_expired a.wake)
          then (r, ok false)
          else (record r { slots = modify self clear_wake r.slots }, ok true)
    ]

-- A receiver that waits for anybody.
abbrev pub is_open : Option Slot → Bool
is_open none = false
is_open (some a) = is_receive_blocked a.state && a.partner == 0

unfoldable pub send : ℕ → ℕ → Rendezvous → Rendezvous × Result RendezvousError (Unit {0})
unfolding deliver_waiting_receiver
send from to r =
    if is_open (find to r.slots) then deliver_waiting_receiver from to r else block_send from to r

abbrev pub drop_partner : Slot → Slot
drop_partner a = record a { partner = 0 }

-- A sender blocked on `self`.
abbrev pub calls : ℕ → Slot → Bool
calls self a = is_send_blocked a.state && a.partner == self

abbrev pub returning :
    {A : Type 0}
    → A
    → Rendezvous × Result RendezvousError (Unit {0})
    → Rendezvous × Result RendezvousError A
returning a (r, ok _) = (r, ok a)
returning a (r, err e) = (r, err e)

-- `receive` after it has cleared the wake reason, in the state that it then sees.
unfoldable pub receive_from : ℕ → ℕ → Rendezvous → Rendezvous × Result RendezvousError ℕ
unfolding accept_sender wait_receive
receive_from self partner r =
    if not (partner == 0)
    then (record r { slots = modify self drop_partner r.slots }, ok partner)
    else elim (first_where (calls self) r.slots) [
      | some a ↦ returning a.thread (accept_sender self a.thread r)
      | none ↦ returning 0 (wait_receive self r)
    ]

unfoldable pub receive : ℕ → Rendezvous → Rendezvous × Result RendezvousError ℕ
unfolding receive_from
receive self r = if self == 0 then (r, err invalid_thread_id) else elim (find self r.slots) [
  | none ↦ (r, err unknown_thread)
  | some receiver ↦
      if not (is_ready receiver.state)
      then (r, err not_runnable)
      else receive_from self receiver.partner (record r { slots = modify self clear_wake r.slots })
]

abbrev pub finish_call : WakeReason → Slot → Slot
finish_call reason a = record a { state = ready; partner = 0; wake = reason }

unfoldable pub reply : ℕ → ℕ → Rendezvous → Rendezvous × Result RendezvousError (Unit {0})
reply self caller r =
    if self == 0 || caller == 0
    then (r, err invalid_thread_id)
    else if self == caller
    then (r, err self_addressed)
    else elim (find self r.slots) [
      | none ↦ (r, err unknown_thread)
      | some server ↦ elim (find caller r.slots) [
        | none ↦ (r, err unknown_thread)
        | some client ↦
            if not (is_reply_blocked client.state) || not (client.partner == self)
            then (r, err not_awaiting_reply)
            else (record r { slots = modify caller (finish_call replied) r.slots }, ok tt)
      ]
    ]

-- The last lines of `cancel_call`: the server forgets a delivery from this caller.
abbrev pub forget : ℕ → Slot → Slot
forget caller a = if is_ready a.state && a.partner == caller then record a { partner = 0 } else a

unfoldable pub cancel_call : ℕ → ℕ → Rendezvous → Rendezvous × Result RendezvousError (Unit {0})
cancel_call caller server r =
    if caller == 0 || server == 0 then (r, err invalid_thread_id) else elim (find caller r.slots) [
      | none ↦ (r, err unknown_thread)
      | some client ↦ elim (find server r.slots) [
        | none ↦ (r, err unknown_thread)
        | some b ↦ if not (waits_on server client) then (r, err not_waiting_on_peer) else (
          record r {
            slots =
                modify server (forget caller)
                  (modify caller (finish_call endpoint_retired) r.slots);
          },
          ok tt,
        )
      ]
    ]
