-- ===== src/Deadlines/Transactions.antt =====
-- What an armed deadline permits, and for how long (core/oskernel/src/scheduler_deadline.cpp).
use enml.Base.{
  List, [], ◌∷◌, ◌<◌, ltb, ◌-◌, length, ℕ, ◌+◌, ◌≤◌, true, false, ok, err, ◌≡◌, ◌≢◌, ◌⊎◌, ◌↔◌, inl,
  inr, arith, Bool-cases, ◌==◌,
}
use enml.Scheduler.{Decision}
use enml.Deadlines.{
  Authority, SchedulerDeadline, PreparedSchedulerDeadline, inactive, stale, stale_prepare, max_u64,
  narrow_decision_timer, prepare, commit, apply, accept_interrupt, next_generation,
}

-- On a table whose generation is one of the 64-bit generations, every decision is applied unless its
-- deadline would pass the end of the clock. Its interrupt is then accepted exactly when a timer was
-- asked for and its time has come.
apply-accept_interrupt :
    (decision : Decision) (now later : ℕ) (t : Authority)
    → t.generation ≢ 0
    → now + decision.timer_nanoseconds ≤ max_u64
    → (x : SchedulerDeadline) × ((apply decision now t).1 ≡ ok x)
      × (accept_interrupt x later (apply decision now t).0 ≡ ok tt
          ↔ (decision.timer_nanoseconds ≢ 0) × (now + decision.timer_nanoseconds ≤ later))
unfolding apply prepare commit accept_interrupt
apply-accept_interrupt decision now later t n m =
    elim (Bool-cases (decision.timer_nanoseconds == 0)) [
      | inl z ↦ (
        record {
          generation = next_generation t.generation;
          absolute_nanoseconds = 0;
          active = false;
        },
        ground arith,
        ((λ h. ground arith), λ h. ground arith),
      )
      | inr z ↦ (
        record {
          generation = next_generation t.generation;
          absolute_nanoseconds = now + decision.timer_nanoseconds;
          active = true;
        },
        ground arith,
        ((λ h. ground arith), λ h. ground arith),
      )
    ]

-- The table after a sequence of decisions with their times, some of which may be refused.
unfoldable pub apply_all : List (Decision × ℕ) → Authority → Authority
apply_all [] t = t
apply_all ((decision, now) ∷ rest) t = apply_all rest (apply decision now t).0

-- A decision moves the generation on by one, or changes nothing.
apply-generation :
    (decision : Decision) (now : ℕ) (t : Authority)
    → t.generation < max_u64
    → ((apply decision now t).0 ≡ t)
      ⊎ (((apply decision now t).0.generation ≡ t.generation + 1)
          × ((apply decision now t).0.current.generation ≡ t.generation + 1))
unfolding apply prepare commit
apply-generation decision now t room = elim (Bool-cases (t.generation == 0)) [
  | inl y ↦ inl (ground arith)
  | inr y ↦ elim (Bool-cases (decision.timer_nanoseconds == 0)) [
    | inl z ↦ inr (ground arith)
    | inr z ↦ elim (Bool-cases (ltb (max_u64 - now) decision.timer_nanoseconds)) [
      | inl w ↦ inl (ground arith)
      | inr w ↦ inr (ground arith)
    ]
  ]
]

-- Decisions do not bring an older generation back while the generations last.
apply_all-newer :
    (ds : List (Decision × ℕ)) (g : ℕ) (t : Authority)
    → t.generation + length ds ≤ max_u64
    → g < t.current.generation
    → g < t.generation
    → g < (apply_all ds t).current.generation
unfolding apply_all
apply_all-newer [] g t room c n = c
apply_all-newer ((decision, now) ∷ ds) g t room c n =
    let t' = (apply decision now t).0 in
    elim (apply-generation decision now t (omega arith)) [
      | inl e ↦ apply_all-newer ds g t' (ground (arith, e)) (ground (arith, e)) (ground (arith, e))
      | inr e ↦ apply_all-newer ds g t' (omega (arith, e)) (omega (arith, e)) (omega (arith, e))
    ]

apply-current :
    (decision : Decision) (now : ℕ) (t : Authority) (x : SchedulerDeadline)
    → (apply decision now t).1 ≡ ok x
    → ((apply decision now t).0.current ≡ x)
      × ((apply decision now t).0.generation ≡ x.generation)
      × (x.generation ≡ next_generation t.generation)
unfolding apply prepare commit
apply-current decision now t x h = ground arith

-- A deadline that was applied is refused from the next decision on that is applied, with or without
-- a timer of its own, at any time and whatever further decisions are applied or refused, as long as
-- the 64-bit generations do not run out meanwhile.
pub superseded-refused :
    (first second : Decision) (now then later : ℕ) (ds : List (Decision × ℕ)) (t : Authority)
    (x y : SchedulerDeadline)
    → (apply first now t).1 ≡ ok x
    → (apply second then (apply first now t).0).1 ≡ ok y
    → x.generation + 1 + length ds ≤ max_u64
    → let t' = apply_all ds (apply second then (apply first now t).0).0 in
      (accept_interrupt x later t' ≡ err inactive) ⊎ (accept_interrupt x later t' ≡ err stale)
unfolding accept_interrupt
superseded-refused first second now then later ds t x y h k room =
    let a = apply-current first now t x h in
    let t1 = (apply first now t).0 in
    let b = apply-current second then t1 y k in
    let newer : x.generation < (apply_all ds (apply second then t1).0).current.generation =
      apply_all-newer ds x.generation (apply second then t1).0 (ground (arith, a, b))
        (ground (arith, a, b)) (ground (arith, a, b)) in
    ground (arith, newer)

-- A commit that succeeds spends what was prepared, and everything else that was prepared before it
-- from the same state: to commit any of these again fails and changes nothing.
pub commit-once :
    (p q : PreparedSchedulerDeadline) (t : Authority) (x : SchedulerDeadline)
    → (commit p t).1 ≡ ok x
    → q.base_generation ≡ p.base_generation
    → commit q (commit p t).0 ≡ ((commit p t).0, err stale_prepare)
unfolding commit
commit-once p q t x h e = ground arith

-- Bringing a timer forward for a waiting deadline never removes or postpones it: there is a timer
-- afterwards, it is no later than the one before where there was one, and it ends no later than the
-- deadline where that is still to come. The choice of thread stays.
pub narrow_decision_timer-narrows :
    (decision : Decision) (earliest now : ℕ)
    → earliest ≢ 0
    → let narrowed = narrow_decision_timer decision earliest now in
      (narrowed.timer_nanoseconds ≢ 0)
      × ((decision.timer_nanoseconds ≡ 0)
          ⊎ (narrowed.timer_nanoseconds ≤ decision.timer_nanoseconds))
      × ((earliest ≤ now) ⊎ (now + narrowed.timer_nanoseconds ≤ earliest))
      × (narrowed.thread ≡ decision.thread)
      × (narrowed.preempted ≡ decision.preempted)
unfolding narrow_decision_timer
narrow_decision_timer-narrows decision earliest now n = ground arith
