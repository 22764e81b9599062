-- ===== src/Rendezvous/Priority.antt =====
-- Priority inheritance and the release of waiting peers (core/oskernel/src/rendezvous.cpp).

use enml.Base.{
  false, suc, if◌then◌else◌, ◌||◌, ℕ, ◌≤◌, ltb, ◌==◌, Bool, true, ◌&&◌, not, none, some, List, [],
  ◌∷◌, ok, ◌≡◌, refl, arith, ◌≢◌, ◌⊎◌, inl, inr, Bool-cases,
}
use enml.Table.{first, find, count_where, IsKeyed}
use enml.Table.Laws.{find_sound, first_sound, find-eq-first}
use enml.Rendezvous.{
  Rendezvous, Slot, slot_keyed, highest_of, inherited_priority, effective_priority_of, waits_on,
  exit_thread, stranded, ThreadState, send_blocked, receive_blocked, reply_blocked, exited,
  admitted, ready, is_send_blocked, is_reply_blocked, is_receive_blocked, peer_exited,
}
use enml.Rendezvous.Invariant.{Inv, find-left}

-- A slot whose priority `thread` inherits: another thread's, waiting on it.
abbrev pub lends : ℕ → Slot → Bool
lends thread a = a.occupied && not (a.thread == thread) && waits_on thread a

highest_of-ge : (t h : ℕ) (xs : List Slot) → h ≤ highest_of t h xs
unfolding highest_of
highest_of-ge t h [] = omega arith
highest_of-ge t h (a ∷ rest) = ground (arith, highest_of-ge t h rest, highest_of-ge t a.base rest)

highest_of-bound :
    (t h j : ℕ) (xs : List Slot) (b : Slot)
    → first j xs ≡ some b
    → lends t b ≡ true
    → b.base ≤ highest_of t h xs
unfolding highest_of first
highest_of-bound t h j [] b e l = ground arith
highest_of-bound t h j (a ∷ rest) b e l = ground (
  arith,
  highest_of-bound t h j rest b,
  highest_of-bound t a.base j rest b,
  highest_of-ge t h rest,
  highest_of-ge t a.base rest,
)

-- The slot that lent the highest priority, if one did.
abbrev IsAttained : ℕ → ℕ → ℕ → List Slot → Type 0
IsAttained p t h xs =
    (p ≡ h) ⊎ ((b : Slot) × (first b.thread xs ≡ some b) × (lends t b ≡ true) × (p ≡ b.base))

IsAttained-cons :
    (p t h : ℕ) (a : Slot) (rest : List Slot)
    → IsKeyed (a ∷ rest)
    → IsAttained p t h rest
    → IsAttained p t h (a ∷ rest)
unfolding first
IsAttained-cons p t h a rest u (inl e) = inl e
IsAttained-cons p t h a rest u (inr (b, e, l, q)) =
    inr (b, ground (arith, u.0, first_sound b.thread rest b e), l, q)

IsAttained-first :
    (p t h : ℕ) (a : Slot) (rest : List Slot)
    → lends t a ≡ true
    → IsAttained p t a.base (a ∷ rest)
    → IsAttained p t h (a ∷ rest)
unfolding first
IsAttained-first p t h a rest l (inl e) = inr (a, ground arith, l, e)
IsAttained-first p t h a rest l (inr x) = inr x

highest_of-IsAttained :
    (t h : ℕ) (xs : List Slot) → IsKeyed xs → IsAttained (highest_of t h xs) t h xs
unfolding highest_of
highest_of-IsAttained t h [] u = inl refl
highest_of-IsAttained t h (a ∷ rest) u =
    elim (Bool-cases (a.occupied && not (a.thread == t) && waits_on t a && ltb h a.base)) [
      | inl c ↦ rw c (
          IsAttained-first _ t h a rest (ground arith)
            (IsAttained-cons _ t a.base a rest u (highest_of-IsAttained t a.base rest u.1)))
      | inr c ↦ rw c (IsAttained-cons _ t h a rest u (highest_of-IsAttained t h rest u.1))
    ]

-- Under the invariant a thread runs at the highest of its own priority and the priorities of the threads that wait on
-- it: no lower than any of those, and no higher than all of them.
pub effective_priority_of-max :
    (thread p : ℕ) (r : Rendezvous) (a : Slot)
    → Inv r
    → find thread r.slots ≡ some a
    → effective_priority_of thread r ≡ ok p
    → (a.base ≤ p)
      × ((j : ℕ) (b : Slot) → find j r.slots ≡ some b → waits_on thread b ≡ true → b.base ≤ p)
      × ((p ≡ a.base)
          ⊎ ((b : Slot) × (find b.thread r.slots ≡ some b)
              × (waits_on thread b ≡ true)
              × (p ≡ b.base)))
unfolding effective_priority_of inherited_priority
effective_priority_of-max thread p r a v e q = (
  ground (arith, highest_of-ge thread a.base r.slots),
  (λ j b f w. ground (
    arith,
    v.linked j b f,
    find_sound j r.slots b f,
    find-eq-first j r.slots v.unique,
    highest_of-bound thread a.base j r.slots b,
  )),
  attained (highest_of-IsAttained thread a.base r.slots v.unique),
)
  where
    attained :
        IsAttained (highest_of thread a.base r.slots) thread a.base r.slots
        → (p ≡ a.base)
          ⊎ ((b : Slot) × (find b.thread r.slots ≡ some b)
              × (waits_on thread b ≡ true)
              × (p ≡ b.base))
    attained (inl x) = inl (ground arith)
    attained (inr (b, x, l, y)) =
        inr (b, ground (arith, find-eq-first b.thread r.slots v.unique), ground arith, ground arith)

-- The states in which a thread waits for another one.
abbrev pub is_waiting : ThreadState → Bool
is_waiting send_blocked = true
is_waiting receive_blocked = true
is_waiting reply_blocked = true
is_waiting _ = false

-- How many other threads wait for `thread`.
unfoldable pub waiting_count : ℕ → List Slot → ℕ
waiting_count thread [] = 0
waiting_count thread (a ∷ rest) =
    let others = waiting_count thread rest in
    if a.occupied && not (a.thread == thread) && is_waiting a.state && a.partner == thread
    then suc others
    else others

is_waiting-blocked :
    (s : ThreadState)
    → (is_send_blocked s || is_reply_blocked s || is_receive_blocked s) ≡ is_waiting s
is_waiting-blocked ready = refl
is_waiting-blocked send_blocked = refl
is_waiting-blocked reply_blocked = refl
is_waiting-blocked receive_blocked = refl
is_waiting-blocked exited = refl
is_waiting-blocked admitted = refl

count_where-stranded :
    (thread : ℕ) (xs : List Slot) → count_where (stranded thread) xs ≡ waiting_count thread xs
unfolding count_where waiting_count
count_where-stranded thread [] = refl
count_where-stranded thread (a ∷ rest) =
    ground (arith, is_waiting-blocked a.state, count_where-stranded thread rest)

-- Under the invariant, when a thread of the table exits it is gone from the table. Every other
-- thread that waited for it, in a send, a receive or for a reply, is ready, is bound to no partner,
-- is told `peer_exited` and has the priority it had; one that was bound to another partner or did not
-- wait is as it was; and the result is the number of those that waited for it.
pub exit_thread-releases :
    (thread : ℕ) (r : Rendezvous) (a : Slot)
    → Inv r
    → find thread r.slots ≡ some a
    → let (r', result) = exit_thread thread r in
      (find thread r'.slots ≡ none)
      × ((j : ℕ) (b : Slot)
          → j ≢ thread
          → find j r.slots ≡ some b
          → find j r'.slots
            ≡ some (
                if b.partner == thread && is_waiting b.state
                then record {
                  thread = j;
                  state = ready;
                  partner = 0;
                  wake = peer_exited;
                  base = b.base;
                  occupied = true;
                }
                else b))
      × (result ≡ ok (waiting_count thread r.slots))
unfolding exit_thread
exit_thread-releases thread r a v e = (
  ground (arith, find-left thread r v thread),
  (λ j b n f.
      ground (arith, is_waiting-blocked b.state, find-left thread r v j, find_sound j r.slots b f)),
  ground (arith, count_where-stranded thread r.slots),
)
