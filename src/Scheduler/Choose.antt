-- ===== src/Scheduler/Choose.antt =====
-- One decision of the scheduler: what it charges, what it refills, whom it picks, and for how long
-- (Scheduler::choose, core/oskernel/src/scheduler.cpp).
use mathlib.Core.Option
use enml.Base.{
  ℕ, ◌≤◌, ◌<◌, ◌==◌, if◌then◌else◌, true, false, ◌&&◌, not, none, some, List, ◌≡◌, refl, arith, ◌≢◌,
  ◌↔◌, ◌⊎◌, inl, inr, Option-cases, Bool-cases,
}
use enml.Table.{find, IsKeyed, exists_where}
use enml.Table.Laws.{find-modify, find_sound, find-eq-first}
use enml.Scheduler.{
  Scheduler, Slot, slot_keyed, default_slice_nanoseconds, choose, charge, elapsed, pay, replenish,
  beats, pick, rivals, thread_of,
}
use enml.Scheduler.Refill.{turn, renewed, find-replenish, IsKeyed-replenish}
use enml.Scheduler.Choice.{IsTop, pick-IsTop, pick-none, exists_where_sound, exists_where_complete}
use enml.Scheduler.Invariant.{Inv, IsOrdered, modify-Inv, modify-IsOrdered}

-- The scheduler after the charge, before the refill.
abbrev pub charged : ℕ → Scheduler → Scheduler
charged now s = record s { slots = charge now s }

pub charged-Inv : (now : ℕ) (s : Scheduler) → Inv s → Inv (charged now s)
unfolding charge
charged-Inv now s v =
    ground (
      arith,
      modify-Inv s.running (pay (elapsed now s)) s (λ b. (refl, refl)) (λ b. ground arith) v,
    )

pub charged-IsOrdered : (now : ℕ) (s : Scheduler) → IsOrdered s → IsOrdered (charged now s)
unfolding charge
charged-IsOrdered now s o =
    ground
      (arith, modify-IsOrdered s.running (pay (elapsed now s)) s (λ b. (refl, refl)) (λ b. refl) o)

-- What a thread's slot is after the charge.
abbrev pub billed : ℕ → Scheduler → Slot → Slot
billed now s a =
    if s.have_decided && not (s.running == 0) && a.thread == s.running
    then pay (elapsed now s) a
    else a

pub find-charge :
    (now j : ℕ) (s : Scheduler) → find j (charge now s) ≡ Option.map (billed now s) (find j s.slots)
unfolding charge
find-charge now j s = elim (Option-cases (find j s.slots)) [
  | inl e ↦
      ground (arith, find-modify s.running j (pay (elapsed now s)) s.slots (λ b. (refl, refl)))
  | inr (a, e) ↦ ground (
    arith,
    find_sound j s.slots a e,
    find-modify s.running j (pay (elapsed now s)) s.slots (λ b. (refl, refl)),
  )
]

-- What a thread's slot is after the whole decision.
abbrev pub settled : ℕ → ℕ → Scheduler → Slot → Slot
settled now j s a = renewed (turn j s.next_sequence (charge now s)) (billed now s a)

-- A decision bills the thread that ran for the time since the last one, and refills the slices
-- that are spent then; it changes nothing else of any thread.
pub find-choose :
    (now j : ℕ) (s : Scheduler)
    → find j (choose now s).0.slots ≡ Option.map (settled now j s) (find j s.slots)
unfolding choose
find-choose now j s =
    ground (arith, find-replenish j s.next_sequence (charge now s), find-charge now j s)

module _ (now : ℕ) (s : Scheduler) (v : Inv s) where
  pub choose-IsKeyed : IsKeyed (choose now s).0.slots
  unfolding choose
  choose-IsKeyed = IsKeyed-replenish s.next_sequence (charge now s) (charged-Inv now s v).keyed

  -- Under the invariant, the thread that runs next, if one does, is in the table and runnable, and no runnable thread has a higher
  -- priority, or the same priority and an earlier turn.
  pub choose-best :
      (next : ℕ)
      → (choose now s).1.thread ≡ next
      → next ≢ 0
      → (a : Slot) × (find next (choose now s).0.slots ≡ some a)
        × (a.runnable ≡ true)
        × ((j : ℕ) (b : Slot)
            → find j (choose now s).0.slots ≡ some b
            → b.runnable ≡ true
            → beats b a ≡ false)
  unfolding choose
  choose-best next e n = elim (Option-cases (pick none slots)) [
    | inl p ↦ absurd (n (ground arith))
    | inr (a, p) ↦
        let t = pick-IsTop none slots a choose-IsKeyed p in
        (
          a,
          ground (arith, t.seen, find-eq-first next slots choose-IsKeyed),
          ground (arith, t.seen),
          λ j b f h. t.unbeaten j b (ground (arith, find-eq-first j slots choose-IsKeyed)) h,
        )
  ]
    where
      slots : List Slot
      slots = (replenish s.next_sequence (charge now s)).0

  -- Under the invariant the processor idles exactly when no thread is runnable.
  pub choose-idle :
      (choose now s).1.thread ≡ 0
      ↔ ((j : ℕ) (a : Slot) → find j (choose now s).0.slots ≡ some a → a.runnable ≡ false)
  unfolding choose
  choose-idle = (
    (λ e j a f. elim (Option-cases (pick none slots)) [
      | inl p ↦ pick-none j a slots p (ground (arith, find-eq-first j slots choose-IsKeyed))
      | inr (c, p) ↦ absurd (valid c (pick-IsTop none slots c choose-IsKeyed p) (ground arith))
    ]),
    λ h. elim (Option-cases (pick none slots)) [
      | inl p ↦ rw p
      | inr (c, p) ↦
          let t = pick-IsTop none slots c choose-IsKeyed p in
          absurd (ground (arith, t.seen, h c.thread c, find-eq-first c.thread slots choose-IsKeyed))
    ],
  )
    where
      slots : List Slot
      slots = (replenish s.next_sequence (charge now s)).0

      valid : (c : Slot) → IsTop none slots c → c.thread ≡ 0 → ⊥
      valid c t z =
          ground (
            arith,
            t.seen,
            find-eq-first c.thread slots choose-IsKeyed,
            find_sound c.thread slots c,
          )

  -- Under the invariant, after a decision every thread has a slice left, and no more than one.
  pub choose-remaining :
      (j : ℕ) (a : Slot)
      → find j (choose now s).0.slots ≡ some a
      → (0 < a.remaining) × (a.remaining ≤ default_slice_nanoseconds)
  choose-remaining j a e = elim (Option-cases (find j s.slots)) [
    | inl q ↦ absurd (ground (arith, find-choose now j s))
    | inr (b, q) ↦ ground (arith, find-choose now j s, v.capped j b q, find_sound j s.slots b q)
  ]

  -- Under the invariant, where a thread is chosen, the timer is set exactly when another runnable thread waits at the priority of the one chosen,
  -- and then to what is left of its slice, which is never nothing and never more than a slice.
  choose-timer :
      (a : Slot)
      → find (choose now s).1.thread (choose now s).0.slots ≡ some a
      → let timer = (choose now s).1.timer_nanoseconds in
        ((timer ≡ 0)
          × ((j : ℕ) (b : Slot) → find j (choose now s).0.slots ≡ some b → rivals a b ≡ false))
        ⊎ ((timer ≡ a.remaining)
            × (0 < timer)
            × (timer ≤ default_slice_nanoseconds)
            × ((b : Slot) × (find b.thread (choose now s).0.slots ≡ some b) × (rivals a b ≡ true)))
  unfolding choose
  choose-timer a e = elim (Option-cases (pick none slots)) [
    | inl p ↦ absurd (ground (arith, find_sound 0 slots a))
    | inr (c, p) ↦ elim (Bool-cases (exists_where (rivals a) slots)) [
      | inl x ↦
          let (b, f, h) = exists_where_complete (rivals a) slots choose-IsKeyed x in
          let m = choose-remaining (thread_of (pick none slots)) a e in
          inr (
            ground (arith, same c p),
            ground (arith, same c p, m),
            ground (arith, same c p, m),
            (b, ground (arith, find-eq-first b.thread slots choose-IsKeyed), h),
          )
      | inr x ↦ inl (
        ground (arith, same c p),
        λ j b f. elim (Bool-cases (rivals a b)) [
          | inr k ↦ k
          | inl k ↦ absurd (
              ground (
                arith,
                find-eq-first j slots choose-IsKeyed,
                exists_where_sound (rivals a) j slots b,
              ))
        ],
      )
    ]
  ]
    where
      slots : List Slot
      slots = (replenish s.next_sequence (charge now s)).0

      same : (c : Slot) → pick none slots ≡ some c → c ≡ a
      same c p =
          let t = pick-IsTop none slots c choose-IsKeyed p in
          ground (arith, t.seen, find-eq-first c.thread slots choose-IsKeyed)

  -- Under the invariant a decision reports a preemption exactly when the thread that ran before is another than the
  -- next one, and is still there and still runnable.
  pub choose-preempted :
      (choose now s).1.preempted ≡ true
      ↔ (s.running ≢ (choose now s).1.thread)
        × ((a : Slot) × (find s.running (choose now s).0.slots ≡ some a) × (a.runnable ≡ true))
  unfolding choose
  choose-preempted = (
    (λ h. elim (Option-cases (find s.running slots)) [
      | inl q ↦ absurd (ground arith)
      | inr (a, q) ↦ (ground arith, (a, q, ground arith))
    ]),
    λ h. let (n, (a, q, k)) = h in ground (arith, find_sound s.running slots a q),
  )
    where
      slots : List Slot
      slots = (replenish s.next_sequence (charge now s)).0
