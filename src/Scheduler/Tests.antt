-- ===== src/Scheduler/Tests.antt =====
-- Concrete schedulers (core/oskernel/src/scheduler.cpp).

use enml.Base.{ℕ, true, false, some, List, [], ◌∷◌, ◌≡◌, ◌≢◌, refl, arith, ◌+◌, ◌≤◌, ◌<◌, u64_mod}
use enml.Table.{first, find, modify, place, exists_where}
use enml.Scheduler.{
  Scheduler, Slot, slot_keyed, init, admit, choose, charge, replenish, pick, beats,
  default_slice_nanoseconds, new_slot, forfeit, is_spent, max_threads, yield_slice,
}
use enml.Scheduler.Invariant.{Inv, IsOrdered}
use enml.Scheduler.Choose.{choose-best, choose-remaining, billed}
use enml.Scheduler.Turns.{choose-rotates}
use enml.Scheduler.Run.{
  Call, admits, yields, chooses, step, run, scheduler-Inv, run-init-IsOrdered, IsAccounted,
  step-IsAccounted,
}

-- Threads 1 and 2 have priority 5; thread 1 was chosen at time 1000.
abbrev calls : List Call
calls = admits 1 5 ∷ admits 2 5 ∷ chooses 1000 ∷ []

abbrev two : Scheduler
two = run init calls

abbrev first_slot : Slot
first_slot = new_slot 1 5 1

abbrev second_slot : Slot
second_slot = new_slot 2 5 2

two-Inv : Inv two
two-Inv = scheduler-Inv calls

two-IsOrdered : IsOrdered two
two-IsOrdered = run-init-IsOrdered calls (omega arith)

find-first : find 1 two.slots ≡ some first_slot
unfolding find first run init step admit place choose charge replenish modify
find-first = refl

find-second : find 2 two.slots ≡ some second_slot
unfolding find first run init step admit place choose charge replenish modify
find-second = refl

running : two.running ≡ 1
unfolding find first run init step admit place choose charge replenish modify pick
running = refl

abbrev late : ℕ
late = 3_000_000

chosen : (choose late two).1.thread ≡ 2
unfolding choose find first run init step admit place charge replenish modify pick exists_where
chosen = refl

find-chosen : find (choose late two).1.thread (choose late two).0.slots ≡ some second_slot
unfolding choose find first run init step admit place charge replenish modify pick exists_where
find-chosen = refl

find-after : find 1 (step two (yields 1)).slots ≡ some (forfeit first_slot)
unfolding choose find first run init step admit place charge replenish modify pick exists_where
    yield_slice
find-after = refl

scheduler-Inv_example : Inv (run init calls)
scheduler-Inv_example = scheduler-Inv calls

choose-best_example :
    (a : Slot) × (find 2 (choose late two).0.slots ≡ some a)
    × (a.runnable ≡ true)
    × ((j : ℕ) (b : Slot)
        → find j (choose late two).0.slots ≡ some b
        → b.runnable ≡ true
        → beats b a ≡ false)
choose-best_example = choose-best late two two-Inv 2 chosen (λ e. omega arith)

choose-remaining_example :
    (0 < second_slot.remaining) × (second_slot.remaining ≤ default_slice_nanoseconds)
choose-remaining_example =
    choose-remaining late two two-Inv (choose late two).1.thread second_slot find-chosen

spent_first : is_spent (billed late two first_slot) ≡ true
unfolding choose find first run init step admit place charge replenish modify pick exists_where
spent_first = refl

left_second : is_spent (billed late two second_slot) ≡ false
unfolding choose find first run init step admit place charge replenish modify pick exists_where
left_second = refl

room : two.next_sequence + max_threads < u64_mod
unfolding choose find first run init step admit place charge replenish modify pick exists_where
room = omega arith

choose-rotates_example : (choose late two).1.thread ≢ 1
choose-rotates_example =
    choose-rotates late two two-Inv two-IsOrdered room 1 2 first_slot second_slot find-first
      find-second spent_first left_second refl refl

abbrev refilled : Slot
refilled = record first_slot { sequence = 3 }

find-refilled : find 1 (step two (chooses late)).slots ≡ some refilled
unfolding choose find first run init step admit place charge replenish modify pick exists_where
find-refilled = refl

step-IsAccounted_example : IsAccounted two (chooses late) 1 first_slot refilled
step-IsAccounted_example =
    step-IsAccounted two (chooses late) 1 first_slot refilled two-Inv two-IsOrdered room find-first
      find-refilled
