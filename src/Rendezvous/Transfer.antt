-- ===== src/Rendezvous/Transfer.antt =====
-- The invariant of the rendezvous table under sends, receives and replies
-- (core/oskernel/src/rendezvous.cpp).
use enml.Base.{ℕ, ◌==◌, true, false, some, ◌≡◌, refl, arith, inl, inr, Option-cases}
use enml.Table.{find, modify, first_where}
use enml.Table.Laws.{Keeps, find-modify, find_sound}
use enml.Rendezvous.{Rendezvous, WakeReason, Slot, slot_keyed, replied, endpoint_retired, is_ready}
use enml.Rendezvous.Messages.{
  clear_wake, block_receive, wait_receive, await_reply, take_delivery, deliver_waiting_receiver,
  to_reply_blocked, accept_sender, wake_with, stop_receive, take_deadline_expiry, send,
  drop_partner, calls, receive_from, receive, finish_call, reply, forget, cancel_call,
}
use enml.Rendezvous.Invariant.{Inv, IsLinked, modify-Inv, is_live-modify, block_send-Inv}

-- Two writes in a row, to the slots of two threads; the second sees what the first left.
modify_twice-Inv :
    (k l : ℕ) (f g : Slot → Slot) (a b : Slot) (r : Rendezvous)
    → Keeps f
    → Keeps g
    → (k == l) ≡ false
    → find k r.slots ≡ some a
    → find l r.slots ≡ some b
    → IsLinked r.slots (f a)
    → IsLinked r.slots (g b)
    → Inv r
    → Inv (record r { slots = modify l g (modify k f r.slots) })
modify_twice-Inv k l f g a b r kf kg n e e' la lb v =
    modify-Inv l g b (record r { slots = modify k f r.slots }) kg
      (ground (arith, find-modify k l f r.slots kf))
      (ground (arith, lb, is_live-modify k (g b).partner f r.slots kf))
      (modify-Inv k f a r kf e la v)

module _ (r : Rendezvous) (v : Inv r) where
  pub wait_receive-Inv : (self : ℕ) → Inv (wait_receive self r).0
  unfolding wait_receive
  wait_receive-Inv self = elim (Option-cases (find self r.slots)) [
    | inl e ↦ ground arith
    | inr (a, e) ↦
        ground (arith, v.linked self a e, modify-Inv self block_receive a r (λ b. (refl, refl)) e)
  ]

  pub deliver_waiting_receiver-Inv : (from to : ℕ) → Inv (deliver_waiting_receiver from to r).0
  unfolding deliver_waiting_receiver
  deliver_waiting_receiver-Inv from to = elim (Option-cases (find from r.slots)) [
    | inl e ↦ ground arith
    | inr (a, e) ↦ elim (Option-cases (find to r.slots)) [
      | inl e' ↦ ground arith
      | inr (b, e') ↦ ground (
        arith,
        find_sound from r.slots a e,
        find_sound to r.slots b e',
        v.linked from a e,
        v.linked to b e',
        modify_twice-Inv from to (await_reply to) (take_delivery from) a b r (λ c. (refl, refl))
            (λ c. (refl, refl)),
      )
    ]
  ]

  pub accept_sender-Inv : (self caller : ℕ) → Inv (accept_sender self caller r).0
  unfolding accept_sender
  accept_sender-Inv self caller = elim (Option-cases (find self r.slots)) [
    | inl e ↦ ground arith
    | inr (a, e) ↦ elim (Option-cases (find caller r.slots)) [
      | inl e' ↦ ground arith
      | inr (b, e') ↦ ground (
        arith,
        v.linked self a e,
        v.linked caller b e',
        modify_twice-Inv self caller clear_wake to_reply_blocked a b r (λ c. (refl, refl))
            (λ c. (refl, refl)),
      )
    ]
  ]

  pub stop_receive-Inv : (reason : WakeReason) (self : ℕ) → Inv (stop_receive reason self r).0
  unfolding stop_receive
  stop_receive-Inv reason self = elim (Option-cases (find self r.slots)) [
    | inl e ↦ ground arith
    | inr (a, e) ↦
        ground
          (arith, v.linked self a e, modify-Inv self (wake_with reason) a r (λ b. (refl, refl)) e)
  ]

  pub take_deadline_expiry-Inv : (self : ℕ) → Inv (take_deadline_expiry self r).0
  unfolding take_deadline_expiry
  take_deadline_expiry-Inv self = elim (Option-cases (find self r.slots)) [
    | inl e ↦ ground arith
    | inr (a, e) ↦
        ground (arith, v.linked self a e, modify-Inv self clear_wake a r (λ b. (refl, refl)) e)
  ]

  pub send-Inv : (from to : ℕ) → Inv (send from to r).0
  unfolding send
  send-Inv from to = ground (arith, deliver_waiting_receiver-Inv from to, block_send-Inv from to r)

  pub reply-Inv : (self caller : ℕ) → Inv (reply self caller r).0
  unfolding reply
  reply-Inv self caller = elim (Option-cases (find caller r.slots)) [
    | inl e ↦ ground arith
    | inr (a, e) ↦ ground (
      arith,
      v.linked caller a e,
      modify-Inv caller (finish_call replied) a r (λ b. (refl, refl)) e,
    )
  ]

  pub cancel_call-Inv : (caller server : ℕ) → Inv (cancel_call caller server r).0
  unfolding cancel_call
  cancel_call-Inv caller server = elim (Option-cases (find caller r.slots)) [
    | inl e ↦ ground arith
    | inr (a, e) ↦ elim (Option-cases (find server r.slots)) [
      | inl e' ↦ ground arith
      | inr (b, e') ↦ ground (
        arith,
        find_sound caller r.slots a e,
        v.linked caller a e,
        v.linked server b e',
        modify_twice-Inv caller server (finish_call endpoint_retired) (forget caller) a b r
            (λ c. (refl, refl)) (λ c. ground arith),
      )
    ]
  ]

  pub receive_from-Inv :
      (self partner : ℕ) (a : Slot)
      → find self r.slots ≡ some a
      → is_ready a.state ≡ true
      → Inv (receive_from self partner r).0
  unfolding receive_from
  receive_from-Inv self partner a e h = elim (Option-cases (first_where (calls self) r.slots)) [
    | inl q ↦ ground (
      arith,
      v.linked self a e,
      modify-Inv self drop_partner a r (λ b. (refl, refl)) e,
      wait_receive-Inv self,
    )
    | inr (b, q) ↦ ground (
      arith,
      v.linked self a e,
      modify-Inv self drop_partner a r (λ b. (refl, refl)) e,
      accept_sender-Inv self b.thread,
    )
  ]

pub receive-Inv : (r : Rendezvous) → Inv r → (self : ℕ) → Inv (receive self r).0
unfolding receive
receive-Inv r v self = elim (Option-cases (find self r.slots)) [
  | inl e ↦ ground arith
  | inr (a, e) ↦ ground (
    arith,
    v.linked self a e,
    modify-Inv self clear_wake a r (λ b. (refl, refl)) e,
    find-modify self self clear_wake r.slots (λ b. (refl, refl)),
    λ (c : Inv (record r { slots = modify self clear_wake r.slots })).
        receive_from-Inv (record r { slots = modify self clear_wake r.slots }) c self a.partner
          (clear_wake a),
  )
]
