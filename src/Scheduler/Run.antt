-- ===== src/Scheduler/Run.antt =====
-- Histories of scheduler calls (core/oskernel/src/scheduler.cpp).

use enml.Base.{
  if◌then◌else◌, ◌≢◌, ◌&&◌, ◌==◌, ◌-◌, ℕ, ◌+◌, ◌*◌, ◌≤◌, ◌<◌, Bool, true, some, List, [], ◌∷◌, ◌≡◌,
  refl, arith, ◌⊎◌, inl, inr, length, u64_mod,
}
use enml.Table.{find}
use enml.Table.Laws.{count_live-le, find-modify, find-clear, find-place, find_sound, find-eq-first}
use enml.Table.Sweep.{count_where-le}
use enml.Scheduler.{
  Scheduler, Slot, slot_keyed, empty_slot, new_slot, max_threads, init, admit, retire, update,
  yield_slice, choose, charge, is_spent, set_standing, forfeit,
}
use enml.Scheduler.Refill.{replenish-next}
use enml.Scheduler.Invariant.{Inv, IsOrdered, init-Inv, init-IsOrdered}
use enml.Scheduler.Steps.{
  admit-Inv, admit-IsOrdered, retire-Inv, retire-IsOrdered, update-Inv, update-IsOrdered,
  yield_slice-Inv, yield_slice-IsOrdered, admit_cases, retire_cases,
}
use enml.Scheduler.Choose.{charged-Inv, billed, find-charge}
use enml.Scheduler.Turns.{choose-Inv, choose-IsOrdered, settled-turn}

pub data Call : Type 0 where
  admits : ℕ → ℕ → Call
  retires yields chooses : ℕ → Call
  updates : ℕ → Bool → ℕ → Call

unfoldable pub step : Scheduler → Call → Scheduler
step s (admits thread effective) = (admit thread effective s).0
step s (retires thread) = (retire thread s).0
step s (yields thread) = (yield_slice thread s).0
step s (updates thread runnable effective) = (update thread runnable effective s).0
step s (chooses now) = (choose now s).0

unfoldable pub run : Scheduler → List Call → Scheduler
run s [] = s
run s (c ∷ cs) = run (step s c) cs

pub step-Inv : (s : Scheduler) (c : Call) → Inv s → Inv (step s c)
unfolding step
step-Inv s (admits thread effective) v = admit-Inv thread effective s v
step-Inv s (retires thread) v = retire-Inv thread s v
step-Inv s (yields thread) v = yield_slice-Inv thread s v
step-Inv s (updates thread runnable effective) v = update-Inv thread s v runnable effective
step-Inv s (chooses now) v = choose-Inv now s v

run-Inv : (s : Scheduler) (cs : List Call) → Inv s → Inv (run s cs)
unfolding run
run-Inv s [] v = v
run-Inv s (c ∷ cs) v = run-Inv (step s c) cs (step-Inv s c v)

-- After any calls on a new scheduler, no thread has two slots, the thread count is right, the
-- running thread is in the table, and no thread has more than one slice left.
pub scheduler-Inv : (cs : List Call) → Inv (run init cs)
scheduler-Inv cs = run-Inv init cs init-Inv

-- The counter moves by one place per call at most, or by one per slot in a decision.
step-next_sequence :
    (s : Scheduler) (c : Call)
    → Inv s
    → s.next_sequence + max_threads < u64_mod
    → (step s c).next_sequence ≤ s.next_sequence + max_threads
unfolding step retire update yield_slice choose admit
step-next_sequence s (admits thread effective) v room = ground arith
step-next_sequence s (retires thread) v room = ground arith
step-next_sequence s (yields thread) v room = ground arith
step-next_sequence s (updates thread runnable effective) v room = ground arith
step-next_sequence s (chooses now) v room = omega (
  arith,
  (charged-Inv now s v).sized,
  replenish-next s.next_sequence (charge now s),
  count_where-le is_spent (charge now s),
  count_live-le (charge now s),
)

step-IsOrdered :
    (s : Scheduler) (c : Call)
    → Inv s
    → s.next_sequence + max_threads < u64_mod
    → IsOrdered s
    → IsOrdered (step s c)
unfolding step
step-IsOrdered s (admits thread effective) v room o =
    admit-IsOrdered thread effective s v (omega arith) o
step-IsOrdered s (retires thread) v room o = retire-IsOrdered thread s v o
step-IsOrdered s (yields thread) v room o = yield_slice-IsOrdered thread s v o
step-IsOrdered s (updates thread runnable effective) v room o =
    update-IsOrdered thread s v runnable effective o
step-IsOrdered s (chooses now) v room o = choose-IsOrdered now s v o room

run-IsOrdered :
    (s : Scheduler) (cs : List Call)
    → Inv s
    → s.next_sequence + (max_threads * length cs + max_threads) < u64_mod
    → IsOrdered s
    → IsOrdered (run s cs)
unfolding run
run-IsOrdered s [] v room o = o
run-IsOrdered s (c ∷ cs) v room o =
    run-IsOrdered (step s c) cs (step-Inv s c v)
      (omega (arith, step-next_sequence s c v (omega arith))) (step-IsOrdered s c v (omega arith) o)

-- Over any history short enough that the turn counter cannot have wrapped, all turns are distinct
-- and lie below the counter: who goes first among equals is never in doubt.
pub run-init-IsOrdered : (cs : List Call) → 64 * length cs + 65 < u64_mod → IsOrdered (run init cs)
unfolding init
run-init-IsOrdered cs room = run-IsOrdered init cs init-Inv (omega arith) init-IsOrdered

-- What is left of a thread's slice when a decision has charged the time since the last one to the
-- thread that ran.
abbrev pub time_left : ℕ → ℕ → Scheduler → Slot → ℕ
time_left now j s a =
    if s.have_decided && s.running == j then a.remaining - (now - s.last_decision) else a.remaining

-- What a call makes of the slice and the turn of the thread `j`.
abbrev pub IsAccounted : Scheduler → Call → ℕ → Slot → Slot → Type 0
IsAccounted s (chooses now) j a b =
    ((time_left now j s a ≢ 0) × (b.remaining ≡ time_left now j s a) × (b.sequence ≡ a.sequence))
    ⊎ ((time_left now j s a ≡ 0) × (b.remaining ≡ 2_000_000) × (s.next_sequence ≤ b.sequence))
IsAccounted s (yields thread) j a b =
    (b.remaining ≡ (if thread == j then 0 else a.remaining)) × (b.sequence ≡ a.sequence)
IsAccounted s _ j a b = (b.remaining ≡ a.remaining) × (b.sequence ≡ a.sequence)

-- The charge, for a thread of the table.
billed-time_left :
    (now j : ℕ) (s : Scheduler) (a : Slot)
    → find j s.slots ≡ some a
    → ((billed now s a).remaining ≡ time_left now j s a)
      × ((billed now s a).sequence ≡ a.sequence)
      × ((billed now s a).occupied ≡ true)
billed-time_left now j s a e =
    let known = find_sound j s.slots a e in
    (ground (arith, known), ground (arith, known), ground (arith, known))

-- Under the invariants and with room left in the turn counter, over any call: a decision charges the
-- thread that ran, and no other, for the time since the last decision, down to nothing. A thread
-- that has time left keeps it and its turn; one whose slice is spent is refilled to two milliseconds,
-- with a turn that is not before any turn given out earlier. A yield gives up the rest of the
-- thread's own slice, and no other call changes a slice or a turn.
pub step-IsAccounted :
    (s : Scheduler) (c : Call) (j : ℕ) (a b : Slot)
    → Inv s
    → IsOrdered s
    → s.next_sequence + max_threads < u64_mod
    → find j s.slots ≡ some a
    → find j (step s c).slots ≡ some b
    → IsAccounted s c j a b
unfolding step update yield_slice
step-IsAccounted s (admits thread effective) j a b v o room e f =
    admit_cases (λ q. find j q.slots ≡ some b → IsAccounted s (admits thread effective) j a b)
      thread effective s (λ h. ground arith)
      (λ ys n q p h.
        ground
          (arith, find-place (new_slot thread effective s.next_sequence) refl j s.slots ys n q p))
      f
step-IsAccounted s (retires thread) j a b v o room e f =
    retire_cases (λ q. find j q.slots ≡ some b → IsAccounted s (retires thread) j a b) thread s
      (λ h. ground arith)
      (λ d q h. ground (arith, find-clear (λ _. empty_slot) (λ _. refl) thread j s.slots v.keyed)) f
step-IsAccounted s (yields thread) j a b v o room e f =
    ground
      (arith, find_sound j s.slots a e, find-modify thread j forfeit s.slots (λ c. (refl, refl)))
step-IsAccounted s (updates thread runnable effective) j a b v o room e f =
    ground
      (arith, find-modify thread j (set_standing runnable effective) s.slots (λ c. (refl, refl)))
step-IsAccounted s (chooses now) j a b v o room e f =
    let (c, x, h) = settled-turn now s v o room j b f in
    let charged = billed-time_left now j s a e in
    let same : c ≡ billed now s a =
      ground (
        arith,
        x,
        find-charge now j s,
        find-eq-first j (charge now s) (charged-Inv now s v).keyed,
      ) in
    elim h [
      | inl (n, q, _) ↦ inl (
        ground (arith, n, same, charged),
        ground (arith, q, same, charged),
        ground (arith, q, same, charged),
      )
      | inr (n, q, l, _) ↦ inr (ground (arith, n, same, charged), ground (arith, q), l)
    ]
