-- ===== src/Rendezvous/Exchange.antt =====
-- What a receive returns (core/oskernel/src/rendezvous.cpp).
use mathlib.Core.Option
use enml.Base.{
  ℕ, ◌==◌, if◌then◌else◌, false, none, some, List, Result, ok, err, ◌≡◌, refl, arith, ◌≢◌, ◌⊎◌, inl,
  inr, Option-cases, Bool-cases,
}
use enml.Table.{find, modify, IsKeyed, first_where}
use enml.Table.Laws.{
  IsKeyed-modify, find-modify, find_sound, find-eq-first, first_where_sound, find-first_where,
  first_where-none,
}
use enml.Rendezvous.{
  Rendezvous, RendezvousError, Slot, invalid_thread_id, unknown_thread, not_runnable, slot_keyed,
  ready, send_blocked, reply_blocked, receive_blocked, nothing, is_ready,
}
use enml.Rendezvous.Messages.{
  clear_wake, block_receive, wait_receive, to_reply_blocked, accept_sender, drop_partner, calls,
  receive_from, receive,
}
use enml.Rendezvous.Invariant.{Inv}

-- What `receive` does, on every branch. A ready thread gets the delivery that waits for it; or a
-- thread that is blocked sending to it, which then waits for the reply; or, where nobody is, it
-- waits itself, and the result is no thread. Any other thread is refused and nothing changes.
abbrev pub ReceiveOutcome : ℕ → Rendezvous → Rendezvous × Result RendezvousError ℕ → Type 0
ReceiveOutcome self r (r', ok n) =
    (a : Slot) × (find self r.slots ≡ some a)
    × (a.state ≡ ready)
    × (((n ≡ a.partner)
          × (n ≢ 0)
          × (find self r'.slots ≡ some (record a { wake = nothing; partner = 0 })))
        ⊎ ((b : Slot) × (find n r.slots ≡ some b)
            × (b.state ≡ send_blocked)
            × (b.partner ≡ self)
            × (a.partner ≡ 0)
            × (find n r'.slots ≡ some (record b { state = reply_blocked }))
            × (find self r'.slots ≡ some (record a { wake = nothing })))
        ⊎ ((n ≡ 0)
            × (a.partner ≡ 0)
            × ((j : ℕ) (b : Slot) → find j r.slots ≡ some b → calls self b ≡ false)
            × (find self r'.slots ≡ some (record a { wake = nothing; state = receive_blocked }))))
ReceiveOutcome self r (r', err e) =
    (r' ≡ r)
    × (((e ≡ invalid_thread_id) × (self ≡ 0))
        ⊎ ((e ≡ unknown_thread) × (self ≢ 0) × (find self r.slots ≡ none))
        ⊎ ((e ≡ not_runnable) × ((a : Slot) × (find self r.slots ≡ some a) × (a.state ≢ ready))))

-- The table that `receive` searches.
abbrev awake_table : ℕ → Rendezvous → Rendezvous
awake_table self r = record r { slots = modify self clear_wake r.slots }

module _ (self : ℕ) (r : Rendezvous) (a : Slot) (v : Inv r) (e : find self r.slots ≡ some a)
    (h : a.state ≡ ready) where
  find-awake :
      (j : ℕ)
      → find j (awake_table self r).slots
        ≡ (if self == j then some (record a { wake = nothing }) else find j r.slots)
  find-awake j = ground (arith, find-modify self j clear_wake r.slots (λ b. (refl, refl)))

  receive-awake : receive self r ≡ receive_from self a.partner (awake_table self r)
  unfolding receive
  receive-awake = ground (arith, find_sound self r.slots a e)

  delivered :
      a.partner ≢ 0 → ReceiveOutcome self r (receive_from self a.partner (awake_table self r))
  unfolding receive_from
  delivered n = elim (Bool-cases (a.partner == 0)) [
    | inl z ↦ absurd (n (ground arith))
    | inr nz ↦ rw nz (
      a,
      e,
      h,
      inl (
        refl,
        n,
        ground (
          arith,
          find-modify self self drop_partner (awake_table self r).slots (λ b. (refl, refl)),
          find-awake self,
        ),
      ),
    )
  ]

  awake-IsKeyed : IsKeyed (awake_table self r).slots
  awake-IsKeyed = IsKeyed-modify self clear_wake r.slots (λ b. (refl, refl)) v.unique

  -- The caller that the loop stops at is there in the table as it was before.
  caller-waits :
      (b : Slot)
      → first_where (calls self) (awake_table self r).slots ≡ some b
      → (find b.thread r.slots ≡ some b)
        × (b.state ≡ send_blocked)
        × (b.partner ≡ self)
        × ((self == b.thread) ≡ false)
        × (b.thread ≢ 0)
  caller-waits b q = ground (
    arith,
    first_where_sound (calls self) (awake_table self r).slots b q,
    find-first_where (calls self) (awake_table self r).slots b awake-IsKeyed q,
    find-awake b.thread,
  )

  accepts-caller :
      (b : Slot)
      → first_where (calls self) (awake_table self r).slots ≡ some b
      → accept_sender self b.thread (awake_table self r) ≡ (
        record r {
          slots =
              modify b.thread to_reply_blocked (modify self clear_wake (awake_table self r).slots);
        },
        ok tt,
      )
  unfolding accept_sender
  accepts-caller b q =
      ground
        (arith, caller-waits b q, find_sound self r.slots a e, find-awake self, find-awake b.thread)

  accepted :
      (b : Slot)
      → a.partner ≡ 0
      → first_where (calls self) (awake_table self r).slots ≡ some b
      → ReceiveOutcome self r (receive_from self a.partner (awake_table self r))
  unfolding receive_from
  accepted b z q =
      let (w0, w1, w2, w3, w4) = caller-waits b q in
      rw (z, q, accepts-caller b q)
        (
          a,
          e,
          h,
          inr (inl (b, w0, w1, w2, z, ground (arith, found b.thread), ground (arith, found self))),
        )
    where
      twice : List Slot
      twice = modify self clear_wake (awake_table self r).slots

      found :
          (j : ℕ)
          → find j (modify b.thread to_reply_blocked twice) ≡ (
              if b.thread == j
              then Option.map to_reply_blocked (find b.thread r.slots)
              else if self == j
              then some (record a { wake = nothing })
              else find j r.slots)
      found j = ground (
        arith,
        caller-waits b q,
        find-modify b.thread j to_reply_blocked twice (λ c. (refl, refl)),
        find-modify self j clear_wake (awake_table self r).slots (λ c. (refl, refl)),
        find-modify self b.thread clear_wake (awake_table self r).slots (λ c. (refl, refl)),
        find-awake j,
        find-awake self,
        find-awake b.thread,
      )

  waits-receive :
      a.partner ≡ 0
      → wait_receive self (awake_table self r)
        ≡ (record r { slots = modify self block_receive (awake_table self r).slots }, ok tt)
  unfolding wait_receive
  waits-receive z = ground (arith, find_sound self r.slots a e, find-awake self)

  waited :
      a.partner ≡ 0
      → first_where (calls self) (awake_table self r).slots ≡ none
      → ReceiveOutcome self r (receive_from self a.partner (awake_table self r))
  unfolding receive_from
  waited z q = rw (z, q, waits-receive z) (a, e, h, inr (inr (refl, z, nobody, now)))
    where
      nobody : (j : ℕ) (b : Slot) → find j r.slots ≡ some b → calls self b ≡ false
      nobody j b f = ground (
        arith,
        find-awake j,
        find-eq-first j (awake_table self r).slots awake-IsKeyed,
        first_where-none (calls self) j (awake_table self r).slots b q,
      )

      now :
          find self (modify self block_receive (awake_table self r).slots)
          ≡ some (record a { wake = nothing; state = receive_blocked })
      now = ground (
        arith,
        find-modify self self block_receive (awake_table self r).slots (λ c. (refl, refl)),
        find-awake self,
      )

  ready-outcome : ReceiveOutcome self r (receive self r)
  ready-outcome = rw receive-awake (elim (Bool-cases (a.partner == 0)) [
    | inr n ↦ delivered (ground arith)
    | inl z ↦ elim (Option-cases (first_where (calls self) (awake_table self r).slots)) [
      | inl q ↦ waited (ground arith) q
      | inr (b, q) ↦ accepted b (ground arith) q
    ]
  ])

-- Under the invariant the result and the effect of `receive` are those of its description, on every branch:
-- a delivery that waits, a blocked sender, a wait of its own, or an error that changes nothing.
pub receive-outcome : (self : ℕ) (r : Rendezvous) → Inv r → ReceiveOutcome self r (receive self r)
unfolding receive
receive-outcome self r v = elim (Option-cases (find self r.slots)) [
  | inl e ↦ elim (Bool-cases (self == 0)) [
    | inl z ↦ rw (z, receive) (refl, inl (refl, ground arith))
    | inr n ↦ rw (n, e, receive) (refl, inr (inl (refl, ground arith, e)))
  ]
  | inr (a, e) ↦ elim (Bool-cases (is_ready a.state)) [
    | inl h ↦ ready-outcome self r a v e (ground arith)
    | inr h ↦
        let w = find_sound self r.slots a e in
        let n : (self == 0) ≡ false = ground arith in
        rw (n, e, h, receive) (refl, inr (inr (refl, (a, e, λ q. ground arith))))
  ]
]
