-- ===== src/Deadlines/Tests.antt =====
-- Concrete deadlines (core/oskernel/src/scheduler_deadline.cpp).
use enml.Base.{arith, [], ◌∷◌, true, false, ok, err, ◌≡◌, ◌⊎◌, refl}
use enml.Scheduler.{Decision}
use enml.Deadlines.{
  SchedulerDeadline, PreparedSchedulerDeadline, inactive, stale, init, prepare, commit, apply,
  accept_interrupt,
}
use enml.Deadlines.Transactions.{apply_all, superseded-refused}

abbrev contended : Decision
contended = record { thread = 3; timer_nanoseconds = 500; preempted = false }

abbrev armed : SchedulerDeadline
armed = record { generation = 2; absolute_nanoseconds = 600; active = true }

abbrev rearmed : SchedulerDeadline
rearmed = record { generation = 3; absolute_nanoseconds = 700; active = true }

abbrev prepared : PreparedSchedulerDeadline
prepared = record { deadline = armed; base_generation = 1 }

arms : (apply contended 100 init).1 ≡ ok armed
unfolding apply prepare commit init
arms = refl

rearms : (apply contended 200 (apply contended 100 init).0).1 ≡ ok rearmed
unfolding apply prepare commit init
rearms = refl

commits : (commit prepared init).1 ≡ ok armed
unfolding commit init
commits = refl

superseded-refused_example :
    let t' =
      apply_all
        ((contended, 300) ∷ (contended, 0xFFFF_FFFF_FFFF_FFFF) ∷ [])
        (apply contended 200 (apply contended 100 init).0).0 in
    (accept_interrupt armed 800 t' ≡ err inactive) ⊎ (accept_interrupt armed 800 t' ≡ err stale)
superseded-refused_example =
    superseded-refused contended contended 100 200 800
      ((contended, 300) ∷ (contended, 0xFFFF_FFFF_FFFF_FFFF) ∷ []) init armed rearmed arms rearms
      (omega arith)
