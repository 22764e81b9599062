-- ===== src/Deadlines.antt =====
-- The one hardware deadline that the scheduler arms: core/oskernel/src/scheduler_deadline.cpp and
-- include/os/kernel/scheduler_deadline.hpp. Times and generations are 64-bit.
pub mod Transactions
mod Tests
use enml.Base.{
  ℕ, ◌+◌, ◌-◌, ltb, leb, ◌==◌, if◌then◌else◌, Bool, true, false, ◌&&◌, ◌||◌, not, Result, ok, err,
}
use enml.Scheduler.{Decision}

pub data DeadlineError : Type 0 where
  overflow stale early inactive stale_prepare : DeadlineError

pub record SchedulerDeadline : Type 0 where
  pub generation : ℕ
  pub absolute_nanoseconds : ℕ
  pub active : Bool

pub record PreparedSchedulerDeadline : Type 0 where
  pub deadline : SchedulerDeadline
  pub base_generation : ℕ

abbrev pub is_valid_prepared : PreparedSchedulerDeadline → Bool
is_valid_prepared p = not (p.base_generation == 0) && not (p.deadline.generation == 0)

-- An IPC deadline brings a decision's timer forward.
unfoldable pub narrow_decision_timer : Decision → ℕ → ℕ → Decision
narrow_decision_timer decision earliest_absolute now =
    let remaining = if leb earliest_absolute now then 1 else earliest_absolute - now in
    if earliest_absolute == 0
    then decision
    else if decision.timer_nanoseconds == 0 || ltb remaining decision.timer_nanoseconds
    then record decision { timer_nanoseconds = remaining }
    else decision

pub record Authority : Type 0 where
  pub generation : ℕ
  pub current : SchedulerDeadline

abbrev pub no_deadline : SchedulerDeadline
no_deadline = record { generation = 0; absolute_nanoseconds = 0; active = false }

unfoldable pub init : Authority
init = record { generation = 1; current = no_deadline }

abbrev pub max_u64 : ℕ
max_u64 = 0xFFFF_FFFF_FFFF_FFFF

abbrev pub next_generation : ℕ → ℕ
next_generation current = if current == max_u64 then 1 else current + 1

unfoldable pub prepare : Decision → ℕ → Authority → Result DeadlineError PreparedSchedulerDeadline
prepare decision now t =
    if decision.timer_nanoseconds == 0
    then ok (record {
      deadline = record {
        generation = next_generation t.generation;
        absolute_nanoseconds = 0;
        active = false;
      };
      base_generation = t.generation;
    })
    else if ltb (max_u64 - now) decision.timer_nanoseconds
    then err overflow
    else ok (record {
      deadline = record {
        generation = next_generation t.generation;
        absolute_nanoseconds = now + decision.timer_nanoseconds;
        active = true;
      };
      base_generation = t.generation;
    })

unfoldable pub commit :
    PreparedSchedulerDeadline → Authority → Authority × Result DeadlineError SchedulerDeadline
commit p t =
    if not (is_valid_prepared p)
      || not (p.base_generation == t.generation)
      || not (p.deadline.generation == next_generation t.generation)
    then (t, err stale_prepare)
    else (record { generation = p.deadline.generation; current = p.deadline }, ok p.deadline)

unfoldable pub apply : Decision → ℕ → Authority → Authority × Result DeadlineError SchedulerDeadline
apply decision now t = elim (prepare decision now t) [ err e ↦ (t, err e) | ok p ↦ commit p t ]

unfoldable pub accept_interrupt :
    SchedulerDeadline → ℕ → Authority → Result DeadlineError (Unit {0})
accept_interrupt delivered now t =
    if not t.current.active
    then err inactive
    else if not delivered.active
        || not (delivered.generation == t.current.generation)
        || not (delivered.absolute_nanoseconds == t.current.absolute_nanoseconds)
    then err stale
    else if ltb now t.current.absolute_nanoseconds
    then err early
    else ok tt
