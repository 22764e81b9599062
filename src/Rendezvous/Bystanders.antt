-- ===== src/Rendezvous/Bystanders.antt =====
-- What a message between two threads leaves as it was for every other thread
-- (core/oskernel/src/rendezvous.cpp).
use enml.Base.{
  ℕ, ◌==◌, if◌then◌else◌, true, false, ◌&&◌, not, ltb, some, List, [], ◌∷◌, ok, ◌≡◌, ◌≢◌, ◌⊎◌, inl,
  inr, refl, arith, Option-cases, Bool-cases,
}
use enml.Table.{first_where, first, find, modify, place, hits}
use enml.Table.Laws.{find-modify, find-place}
use enml.Rendezvous.{
  Rendezvous, Slot, slot_keyed, waits_on, highest_of, inherited_priority, block_send, create_in,
  start_thread, ready, admitted, is_ready, new_slot, block_on, to_ready, ThreadState, replied,
}
use enml.Rendezvous.Messages.{
  calls, send, receive, receive_from, reply, wait_receive, deliver_waiting_receiver, accept_sender,
  finish_call, block_receive, await_reply, take_delivery, to_reply_blocked, clear_wake,
  drop_partner,
}

-- The thread has the slot and the effective priority that it had.
abbrev pub IsUnmoved : ℕ → Rendezvous → Rendezvous → Type 0
IsUnmoved j r r' =
    (find j r'.slots ≡ find j r.slots) × (inherited_priority j r' ≡ inherited_priority j r)

-- A write to a slot that leaves its thread, its base priority and whether it waits on `x`.
abbrev pub IsDetached : ℕ → (Slot → Slot) → Slot → Type 0
IsDetached x f a =
    ((f a).occupied ≡ a.occupied)
    × ((f a).thread ≡ a.thread)
    × ((f a).base ≡ a.base)
    × (waits_on x (f a) ≡ waits_on x a)

-- The highest priority so far, after one more slot.
abbrev raised : ℕ → ℕ → Slot → ℕ
raised x high a =
    if a.occupied && not (a.thread == x) && waits_on x a && ltb high a.base then a.base else high

highest_of-modify :
    (x k : ℕ) (f : Slot → Slot) (xs : List Slot)
    → ((a : Slot) → first k xs ≡ some a → IsDetached x f a)
    → (high : ℕ) → highest_of x high (modify k f xs) ≡ highest_of x high xs
unfolding highest_of modify first
highest_of-modify x k f [] d high = refl
highest_of-modify x k f (y ∷ ys) d high = elim (Bool-cases (hits k y)) [
  | inl q ↦ ground (arith, d y)
  | inr q ↦
      let d' : (a : Slot) → first k ys ≡ some a → IsDetached x f a =
        λ a e. d a (ground (arith, q, e)) in
      ground (arith, highest_of-modify x k f ys d' (raised x high y))
]

-- A write to another thread's slot.
modify-IsUnmoved :
    (j k : ℕ) (f : Slot → Slot) (r : Rendezvous) (a : Slot)
    → k ≢ j
    → ((b : Slot) → ((f b).occupied ≡ b.occupied) × ((f b).thread ≡ b.thread))
    → find k r.slots ≡ some a
    → IsDetached j f a
    → IsUnmoved j r (record r { slots = modify k f r.slots })
unfolding inherited_priority find
modify-IsUnmoved j k f r a n keeps e d =
    let d' : (b : Slot) → first k r.slots ≡ some b → IsDetached j f b =
      λ b q. ground (arith, e, q, d) in
    elim (Option-cases (first j r.slots)) [
      | inl q ↦ ground (arith, find-modify k j f r.slots keeps)
      | inr (b, q) ↦
          ground (arith, find-modify k j f r.slots keeps, highest_of-modify j k f r.slots d' b.base)
    ]

-- To clear a thread's wake reason changes nobody's priority.
pub inherited_priority-clear_wake :
    (self j : ℕ) (r : Rendezvous)
    → inherited_priority j (record r { slots = modify self clear_wake r.slots })
      ≡ inherited_priority j r
unfolding inherited_priority find
inherited_priority-clear_wake self j r = elim (Option-cases (first j r.slots)) [
  | inl q ↦ ground (arith, find-modify self j clear_wake r.slots (λ b. (refl, refl)))
  | inr (b, q) ↦ ground (
    arith,
    find-modify self j clear_wake r.slots (λ c. (refl, refl)),
    highest_of-modify j self clear_wake r.slots (λ c e. (refl, refl, refl, refl)) b.base,
  )
]

highest_of-place :
    (x : ℕ) (a : Slot) (xs ys : List Slot)
    → waits_on x a ≡ false
    → place a xs ≡ some ys
    → (high : ℕ) → highest_of x high ys ≡ highest_of x high xs
unfolding highest_of place
highest_of-place x a [] ys w e high = ground arith
highest_of-place x a (y ∷ xs) ys w e high = elim (Option-cases (place a xs)) [
  | inl q ↦ ground (arith, w)
  | inr (zs, q) ↦ ground (arith, w, highest_of-place x a xs zs w q (raised x high y))
]

then-IsUnmoved : (j : ℕ) (r s t : Rendezvous) → IsUnmoved j r s → IsUnmoved j s t → IsUnmoved j r t
then-IsUnmoved j r s t m n = ground (arith, m, n)

module _ (j : ℕ) (r : Rendezvous) where
  pub create_in-IsUnmoved :
      (state : ThreadState) (thread priority : ℕ)
      → (state ≡ ready) ⊎ (state ≡ admitted)
      → thread ≢ j
      → IsUnmoved j r (create_in state thread priority r).0
  unfolding create_in inherited_priority
  create_in-IsUnmoved state thread priority fresh n =
      let a = new_slot state thread priority in
      elim (Option-cases (place a r.slots)) [
        | inl q ↦ ground arith
        | inr (ys, q) ↦ elim (Option-cases (find j r.slots)) [
          | inl p ↦ ground (arith, find-place a refl j r.slots ys)
          | inr (b, p) ↦ ground (
            arith,
            find-place a refl j r.slots ys,
            highest_of-place j a r.slots ys (ground (arith, fresh)) q b.base,
          )
        ]
      ]

  pub start_thread-IsUnmoved : (thread : ℕ) → thread ≢ j → IsUnmoved j r (start_thread thread r).0
  unfolding start_thread
  start_thread-IsUnmoved thread n = elim (Option-cases (find thread r.slots)) [
    | inl q ↦ ground arith
    | inr (a, q) ↦ ground (arith, modify-IsUnmoved j thread to_ready r a n (λ b. (refl, refl)) q)
  ]

  pub reply-IsUnmoved :
      (self caller : ℕ) → self ≢ j → caller ≢ j → IsUnmoved j r (reply self caller r).0
  unfolding reply
  reply-IsUnmoved self caller n m = elim (Option-cases (find caller r.slots)) [
    | inl q ↦ ground arith
    | inr (a, q) ↦
        ground (arith, modify-IsUnmoved j caller (finish_call replied) r a m (λ b. (refl, refl)) q)
  ]

  block_send-IsUnmoved : (from to : ℕ) → from ≢ j → to ≢ j → IsUnmoved j r (block_send from to r).0
  unfolding block_send
  block_send-IsUnmoved from to n m = elim (Option-cases (find from r.slots)) [
    | inl q ↦ ground arith
    | inr (a, q) ↦ ground (arith, modify-IsUnmoved j from (block_on to) r a n (λ b. (refl, refl)) q)
  ]

  pub wait_receive-IsUnmoved : (self : ℕ) → self ≢ j → IsUnmoved j r (wait_receive self r).0
  unfolding wait_receive
  wait_receive-IsUnmoved self n = elim (Option-cases (find self r.slots)) [
    | inl q ↦ ground arith
    | inr (a, q) ↦ ground (arith, modify-IsUnmoved j self block_receive r a n (λ b. (refl, refl)) q)
  ]

  clear_wake-IsUnmoved :
      (self : ℕ) (a : Slot)
      → self ≢ j
      → find self r.slots ≡ some a
      → IsUnmoved j r (record r { slots = modify self clear_wake r.slots })
  clear_wake-IsUnmoved self a n e =
      modify-IsUnmoved j self clear_wake r a n (λ b. (refl, refl)) e (refl, refl, refl, refl)

pub deliver_waiting_receiver-IsUnmoved :
    (j : ℕ) (r : Rendezvous) (from to : ℕ)
    → from ≢ j
    → to ≢ j
    → IsUnmoved j r (deliver_waiting_receiver from to r).0
unfolding deliver_waiting_receiver
deliver_waiting_receiver-IsUnmoved j r from to n m = elim (Option-cases (find from r.slots)) [
  | inl q ↦ ground arith
  | inr (a, q) ↦ elim (Option-cases (find to r.slots)) [
    | inl p ↦ ground arith
    | inr (b, p) ↦
        let r' = record r { slots = modify from (await_reply to) r.slots } in
        ground (
          arith,
          modify-IsUnmoved j from (await_reply to) r a n (λ c. (refl, refl)) q,
          modify-IsUnmoved j to (take_delivery from) r' b m (λ c. (refl, refl)),
          find-modify from to (await_reply to) r.slots (λ c. (refl, refl)),
        )
  ]
]

pub accept_sender-IsUnmoved :
    (j : ℕ) (r : Rendezvous) (self caller : ℕ)
    → self ≢ j
    → caller ≢ j
    → IsUnmoved j r (accept_sender self caller r).0
unfolding accept_sender
accept_sender-IsUnmoved j r self caller n m = elim (Option-cases (find self r.slots)) [
  | inl q ↦ ground arith
  | inr (a, q) ↦ elim (Option-cases (find caller r.slots)) [
    | inl p ↦ ground arith
    | inr (b, p) ↦
        let r' = record r { slots = modify self clear_wake r.slots } in
        ground (
          arith,
          clear_wake-IsUnmoved j r self a n q,
          modify-IsUnmoved j caller to_reply_blocked r' b m (λ c. (refl, refl)),
          find-modify self caller clear_wake r.slots (λ c. (refl, refl)),
        )
  ]
]

-- A message changes the state and the priority of its two threads at most.
pub send-IsUnmoved :
    (j : ℕ) (r : Rendezvous) (from to : ℕ) → from ≢ j → to ≢ j → IsUnmoved j r (send from to r).0
unfolding send
send-IsUnmoved j r from to n m = ground (
  arith,
  deliver_waiting_receiver-IsUnmoved j r from to n m,
  block_send-IsUnmoved j r from to n m,
)

receive_from-IsUnmoved :
    (j : ℕ) (r : Rendezvous) (self partner n : ℕ) (a : Slot)
    → find self r.slots ≡ some a
    → is_ready a.state ≡ true
    → self ≢ j
    → n ≢ j
    → (receive_from self partner r).1 ≡ ok n
    → IsUnmoved j r (receive_from self partner r).0
unfolding receive_from
receive_from-IsUnmoved j r self partner n a f w s m e =
    elim (Option-cases (first_where (calls self) r.slots)) [
      | inl q ↦ ground (
        arith,
        modify-IsUnmoved j self drop_partner r a s (λ c. (refl, refl)) f,
        wait_receive-IsUnmoved j r self s,
      )
      | inr (b, q) ↦ ground (
        arith,
        modify-IsUnmoved j self drop_partner r a s (λ c. (refl, refl)) f,
        accept_sender-IsUnmoved j r self b.thread s,
      )
    ]

pub receive-IsUnmoved :
    (j : ℕ) (r : Rendezvous) (self n : ℕ)
    → self ≢ j
    → n ≢ j
    → (receive self r).1 ≡ ok n
    → IsUnmoved j r (receive self r).0
unfolding receive
receive-IsUnmoved j r self n s m e = elim (Option-cases (find self r.slots)) [
  | inl q ↦ ground arith
  | inr (a, q) ↦
      let r' = record r { slots = modify self clear_wake r.slots } in
      ground (
        arith,
        clear_wake-IsUnmoved j r self a s q,
        find-modify self self clear_wake r.slots (λ c. (refl, refl)),
        receive_from-IsUnmoved j r' self a.partner n (clear_wake a),
        then-IsUnmoved j r r' (receive_from self a.partner r').0,
      )
]
