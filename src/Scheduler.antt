-- ===== src/Scheduler.antt =====
-- The tickless scheduler: core/oskernel/src/scheduler.cpp and include/os/kernel/scheduler.hpp.
-- An operation takes the scheduler and returns the new one with its result. Times and sequence
-- numbers are 64-bit: `++next_sequence_` writes its wrap-around out.
pub mod Refill
pub mod Choice
pub mod Invariant
pub mod Steps
pub mod Choose
pub mod Turns
pub mod Run
mod Tests
use enml.Base.{
  ℕ, zero, suc, ◌+◌, ◌-◌, ltb, leb, ◌==◌, if◌then◌else◌, Bool, true, false, ◌&&◌, ◌||◌, not, Option,
  none, some, List, [], ◌∷◌, Result, ok, err, replicate, inc64, dec64,
}
use enml.Table.{Keyed, find, modify, place, count_where, exists_where}

pub data SchedulerError : Type 0 where
  invalid_thread_id unknown_thread thread_exists thread_limit : SchedulerError

pub record Decision : Type 0 where
  pub thread : ℕ
  pub timer_nanoseconds : ℕ
  pub preempted : Bool

abbrev pub default_slice_nanoseconds : ℕ
default_slice_nanoseconds = 2_000_000

pub record Slot : Type 0 where
  pub thread : ℕ
  pub effective : ℕ
  pub runnable : Bool
  pub remaining : ℕ
  pub sequence : ℕ
  pub occupied : Bool

instance abbrev pub slot_keyed : Keyed Slot
slot_keyed = record { live = λ a. a.occupied; key = λ a. a.thread }

pub record Scheduler : Type 0 where
  pub slots : List Slot
  pub occupied : ℕ
  pub running : ℕ
  pub last_decision : ℕ
  pub have_decided : Bool
  pub next_sequence : ℕ

abbrev pub max_threads : ℕ
max_threads = 64

-- `Slot{}`: free, and marked runnable.
abbrev pub empty_slot : Slot
empty_slot = record {
  thread = 0;
  effective = 0;
  runnable = true;
  remaining = default_slice_nanoseconds;
  sequence = 0;
  occupied = false;
}

unfoldable pub init : Scheduler
init = record {
  slots = replicate max_threads empty_slot;
  occupied = 0;
  running = 0;
  last_decision = 0;
  have_decided = false;
  next_sequence = 1;
}

unfoldable pub runnable_thread_count : Scheduler → ℕ
runnable_thread_count s = count_where (λ a. a.runnable) s.slots

unfoldable pub remaining_slice_of : ℕ → Scheduler → Result SchedulerError ℕ
remaining_slice_of thread s = elim (find thread s.slots) [
  | none ↦ err unknown_thread
  | some a ↦ ok a.remaining
]

unfoldable pub is_runnable : ℕ → Scheduler → Result SchedulerError Bool
is_runnable thread s = elim (find thread s.slots) [
  | none ↦ err unknown_thread
  | some a ↦ ok a.runnable
]

abbrev pub new_slot : ℕ → ℕ → ℕ → Slot
new_slot thread effective sequence = record {
  thread = thread;
  effective = effective;
  runnable = true;
  remaining = default_slice_nanoseconds;
  sequence = sequence;
  occupied = true;
}

unfoldable pub admit : ℕ → ℕ → Scheduler → Scheduler × Result SchedulerError (Unit {0})
admit thread effective s =
    if thread == 0 then (s, err invalid_thread_id) else elim (find thread s.slots) [
      | some a ↦ (s, err thread_exists)
      | none ↦ elim (place (new_slot thread effective s.next_sequence) s.slots) [
        | none ↦ (s, err thread_limit)
        | some slots ↦ (
          record s {
            slots = slots;
            occupied = inc64 s.occupied;
            next_sequence = inc64 s.next_sequence;
          },
          ok tt,
        )
      ]
    ]

unfoldable pub retire : ℕ → Scheduler → Scheduler × Result SchedulerError (Unit {0})
retire thread s = if thread == 0 then (s, err invalid_thread_id) else elim (find thread s.slots) [
  | none ↦ (s, err unknown_thread)
  | some a ↦ (
    record s {
      slots = modify thread (λ _. empty_slot) s.slots;
      occupied = dec64 s.occupied;
      running = if s.running == thread then 0 else s.running;
    },
    ok tt,
  )
]

abbrev pub set_standing : Bool → ℕ → Slot → Slot
set_standing runnable effective a = record a { runnable = runnable; effective = effective }

unfoldable pub update : ℕ → Bool → ℕ → Scheduler → Scheduler × Result SchedulerError (Unit {0})
update thread runnable effective s =
    if thread == 0 then (s, err invalid_thread_id) else elim (find thread s.slots) [
      | none ↦ (s, err unknown_thread)
      | some a ↦
          (record s { slots = modify thread (set_standing runnable effective) s.slots }, ok tt)
    ]

abbrev pub forfeit : Slot → Slot
forfeit a = record a { remaining = 0 }

unfoldable pub yield_slice : ℕ → Scheduler → Scheduler × Result SchedulerError (Unit {0})
yield_slice thread s =
    if thread == 0 then (s, err invalid_thread_id) else elim (find thread s.slots) [
      | none ↦ (s, err unknown_thread)
      | some a ↦ (record s { slots = modify thread forfeit s.slots }, ok tt)
    ]

-- `choose`, first part: the running thread pays for the time since the last decision; a clock that
-- went backwards charges nothing.
abbrev pub elapsed : ℕ → Scheduler → ℕ
elapsed now s = if leb s.last_decision now then now - s.last_decision else 0

abbrev pub pay : ℕ → Slot → Slot
pay time a = record a { remaining = if leb a.remaining time then 0 else a.remaining - time }

unfoldable pub charge : ℕ → Scheduler → List Slot
charge now s =
    if s.have_decided && not (s.running == 0)
    then modify s.running (pay (elapsed now s)) s.slots
    else s.slots

-- Second part: every spent slice is refilled and its thread sent to the back. The counter goes
-- through the loop.
abbrev pub is_spent : Slot → Bool
is_spent a = a.occupied && a.remaining == 0

abbrev pub refill : ℕ → Slot → Slot
refill sequence a = record a { remaining = default_slice_nanoseconds; sequence = sequence }

unfoldable pub replenish : ℕ → List Slot → List Slot × ℕ
replenish next [] = ([], next)
replenish next (a ∷ rest) =
    let spent = is_spent a in
    let (rest', next') = replenish (if spent then inc64 next else next) rest in
    ((if spent then refill next a else a) ∷ rest', next')

-- Third part: strict priority, then round-robin within it.
abbrev pub beats : Slot → Slot → Bool
beats a chosen =
    ltb chosen.effective a.effective
    || (a.effective == chosen.effective && ltb a.sequence chosen.sequence)

abbrev pub better : Option Slot → Slot → Option Slot
better none a = some a
better (some chosen) a = if beats a chosen then some a else some chosen

unfoldable pub pick : Option Slot → List Slot → Option Slot
pick chosen [] = chosen
pick chosen (a ∷ rest) = pick (if a.occupied && a.runnable then better chosen a else chosen) rest

-- A runnable peer of the chosen thread at its priority.
abbrev pub rivals : Slot → Slot → Bool
rivals chosen a = a.runnable && not (a.thread == chosen.thread) && a.effective == chosen.effective

abbrev pub timer_for : Option Slot → List Slot → ℕ
timer_for none slots = 0
timer_for (some chosen) slots = if exists_where (rivals chosen) slots then chosen.remaining else 0

abbrev pub thread_of : Option Slot → ℕ
thread_of none = 0
thread_of (some a) = a.thread

abbrev pub still_runnable : Option Slot → Bool
still_runnable none = false
still_runnable (some a) = a.runnable

unfoldable pub choose : ℕ → Scheduler → Scheduler × Decision
unfolding charge
choose now s =
    let (slots, next) = replenish s.next_sequence (charge now s) in
    let chosen = pick none slots in
    (
      record {
        slots = slots;
        occupied = s.occupied;
        running = thread_of chosen;
        last_decision = now;
        have_decided = true;
        next_sequence = next;
      },
      record {
        thread = thread_of chosen;
        timer_nanoseconds = timer_for chosen slots;
        preempted =
            not (s.running == 0)
            && not (s.running == thread_of chosen)
            && still_runnable (find s.running slots);
      },
    )
