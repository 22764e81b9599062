-- ===== src/Interrupt/Tests.antt =====
-- Concrete interrupt tables (core/oskernel/src/interrupt.cpp).
use enml.Base.{true, false, false, some, List, [], ◌∷◌, ok, ◌≡◌, refl, arith, ◌+◌}
use enml.Table.{first, find, modify, place}
use enml.Interrupt.{
  InterruptTable, Slot, slot_keyed, init, fresh_slot, attach, dispatch, begin_service, end_service,
  raise, is_masked,
}
use enml.Interrupt.Run.{
  Call, attaches, begins, ends, dispatches, step, run, interrupts-Inv, step-frame,
}
use enml.Interrupt.Lines.{line, next_line, waiting, step-next_line}
use enml.Interrupt.Accounting.{collected, rung, wakeups, run-balance, dispatch-wakes_once}

-- Driver 7 has source 33 and driver 8 has source 34; source 34 is pending.
abbrev calls : List Call
calls = attaches 7 33 ∷ attaches 8 34 ∷ dispatches 34 ∷ []

abbrev table : InterruptTable
table = run init calls

abbrev ringing : Slot
ringing = raise (fresh_slot 8 34)

find-idle : find 33 table.slots ≡ some (fresh_slot 7 33)
unfolding find first run init step attach place dispatch modify
find-idle = refl

find-ringing : find 34 table.slots ≡ some ringing
unfolding find first run init step attach place dispatch modify
find-ringing = refl

is_masked_idle : is_masked 33 table ≡ ok false
unfolding is_masked find first run init step attach place dispatch modify
is_masked_idle = refl

abbrev later : List Call
later = dispatches 34 ∷ begins 8 34 ∷ dispatches 34 ∷ ends 8 34 ∷ []

collected-later : collected 34 table later ≡ 2
unfolding find first run init step attach place dispatch modify begin_service end_service
collected-later = refl

step-frame_example : find 33 (step table (begins 8 34)).slots ≡ some (fresh_slot 7 33)
step-frame_example =
    step-frame table (begins 8 34) 33 (fresh_slot 7 33) (interrupts-Inv calls) find-idle refl

step-next_line_example :
    (b : Slot) × (find 34 (step table (begins 8 34)).slots ≡ some b)
    × (b.owner ≡ 8)
    × (line b ≡ next_line 8 34 (begins 8 34) (waiting 1))
step-next_line_example =
    step-next_line table 34 ringing (interrupts-Inv calls) find-ringing (begins 8 34) refl

run-balance_example :
    (b : Slot) × (find 34 (run table later).slots ≡ some b)
    × (b.assertions + collected 34 table later ≡ 1 + rung 34 later)
run-balance_example =
    run-balance later table 34 ringing (interrupts-Inv calls) find-ringing
      (refl, (refl, (refl, (refl, tt)))) (omega arith)

dispatch-wakes_once_example :
    ((dispatch 33 table).1 ≡ ok (record { owner = 7; wake = true; coalesced = false }))
    × (wakeups 33 (dispatch 33 table).0 (dispatches 33 ∷ begins 7 33 ∷ dispatches 33 ∷ []) ≡ 0)
dispatch-wakes_once_example =
    dispatch-wakes_once (dispatches 33 ∷ begins 7 33 ∷ dispatches 33 ∷ []) table 33
      (fresh_slot 7 33) (interrupts-Inv calls) find-idle is_masked_idle (refl, (refl, (refl, tt)))
