-- ===== src/Kernel/Agreement.antt =====
-- The two records of which threads can run: the rendezvous table, which decides it, and the
-- scheduler's table, which the kernel brings in line (core/oskernel/src/kernel.cpp).
use enml.Base.{
  ℕ, ◌==◌, if◌then◌else◌, Bool, true, false, some, List, [], ◌∷◌, ◌≡◌, ◌≢◌, ◌⊎◌, inl, inr, refl,
  arith, Option-cases, Bool-cases,
}
use enml.Table.{find}
use enml.Table.Laws.{find-modify, find_sound}
use enml.Scheduler.{Scheduler, update, set_standing, slot_keyed as scheduled_keyed}
use enml.Scheduler
use enml.Rendezvous.{
  Rendezvous, inherited_priority, state_of, effective_priority_of, is_ready,
  slot_keyed as thread_keyed,
}
use enml.Rendezvous
use enml.Rendezvous.Bystanders.{IsUnmoved}
use enml.Kernel.{
  Kernel, tracked, synchronise_thread, synchronise_pair, synchronise_each, synchronise,
}

-- Where both tables have the thread, the scheduler has it runnable exactly if it is ready, at the
-- priority that it has by what waits on it.
abbrev pub IsAgreed : ℕ → Rendezvous → Scheduler → Type 0
IsAgreed j r s =
    (a : Rendezvous.Slot) (b : Scheduler.Slot)
    → find j r.slots ≡ some a
    → find j s.slots ≡ some b
    → (b.runnable ≡ is_ready a.state) × (b.effective ≡ inherited_priority j r)

abbrev pub IsAligned : ℕ → Kernel → Type 0
IsAligned j k = IsAgreed j k.threads k.scheduler

-- The two tables agree on every thread that the kernel tracks.
abbrev pub IsSynchronised : Kernel → Type 0
IsSynchronised k = (j : ℕ) → tracked j k.live ≡ true → IsAligned j k

-- Nothing but the scheduler's slots is written.
pub synchronise_thread_fixed :
    (t : ℕ) (k : Kernel)
    → ((synchronise_thread t k).threads ≡ k.threads) × ((synchronise_thread t k).live ≡ k.live)
unfolding synchronise_thread
synchronise_thread_fixed t k = ground arith

pub synchronise_thread-IsAligned :
    (t j : ℕ) (k : Kernel) → (t ≡ j) ⊎ IsAligned j k → IsAligned j (synchronise_thread t k)
unfolding synchronise_thread update state_of effective_priority_of
synchronise_thread-IsAligned t j k h a b p q = elim (Option-cases (find t k.threads.slots)) [
  | inl e ↦ elim h [
    | inl g ↦ ground (arith, g)
    | inr g ↦ ground (
      arith,
      synchronise_thread_fixed t k,
      g a b (ground (arith, synchronise_thread_fixed t k, p)) (ground (arith, e, q)),
    )
  ]
  | inr (c, e) ↦
      let moved =
        find-modify t j (set_standing (is_ready c.state) (inherited_priority t k.threads))
          k.scheduler.slots (λ d. (refl, refl)) in
      let known = find_sound t k.threads.slots c e in
      elim h [
        | inl g ↦ ground (arith, g, known, moved)
        | inr g ↦
            ground (arith, g a b (ground (arith, synchronise_thread_fixed t k, p)), known, moved)
      ]
]

pub synchronise_each_fixed :
    (ts : List ℕ) (k : Kernel)
    → ((synchronise_each ts k).threads ≡ k.threads) × ((synchronise_each ts k).live ≡ k.live)
unfolding synchronise_each
synchronise_each_fixed [] k = (refl, refl)
synchronise_each_fixed (t ∷ ts) k =
    ground (arith, synchronise_thread_fixed t k, synchronise_each_fixed ts (synchronise_thread t k))

synchronise_each-IsAligned :
    (j : ℕ) (ts : List ℕ) (k : Kernel)
    → (tracked j ts ≡ true) ⊎ IsAligned j k
    → IsAligned j (synchronise_each ts k)
unfolding synchronise_each tracked
synchronise_each-IsAligned j [] k (inl e) = absurd (ground (arith, e))
synchronise_each-IsAligned j [] k (inr v) = v
synchronise_each-IsAligned j (t ∷ ts) k h =
    synchronise_each-IsAligned j ts (synchronise_thread t k) (elim h [
      | inr v ↦ inr (synchronise_thread-IsAligned t j k (inr v))
      | inl e ↦ elim (Bool-cases (t == j)) [
        | inl q ↦ inr (synchronise_thread-IsAligned t j k (inl (ground (arith, q))))
        | inr q ↦ inl (ground (arith, e, q))
      ]
    ])

-- Bringing every tracked thread in line makes the tables agree, whatever they held before.
pub synchronise-IsSynchronised : (k : Kernel) → IsSynchronised (synchronise k)
unfolding synchronise
synchronise-IsSynchronised k j t =
    synchronise_each-IsAligned j k.live k (inl (ground (arith, synchronise_each_fixed k.live k, t)))

-- A thread that the rendezvous table left as it was stays in line.
pub moved-IsAligned :
    (j : ℕ) (k k' : Kernel)
    → IsUnmoved j k.threads k'.threads
    → k'.scheduler ≡ k.scheduler
    → IsAligned j k
    → IsAligned j k'
moved-IsAligned j k k' m e v a b p q =
    ground (arith, m, e, v a b (ground (arith, m, p)) (ground (arith, e, q)))

either-IsAligned :
    (j : ℕ) (c : Bool) (k k' : Kernel)
    → (c ≡ true → IsAligned j k)
    → (c ≡ false → IsAligned j k')
    → IsAligned j (if c then k else k')
either-IsAligned j true k k' g h = g refl
either-IsAligned j false k k' g h = h refl

pub synchronise_pair-IsAligned :
    (x y j : ℕ) (k : Kernel)
    → (x ≡ j) ⊎ (y ≡ j) ⊎ IsAligned j k
    → IsAligned j (synchronise_pair x y k)
unfolding synchronise_pair
synchronise_pair-IsAligned x y j k h =
    let first : (x ≡ j) ⊎ IsAligned j k → IsAligned j (synchronise_thread x k) =
      synchronise_thread-IsAligned x j k in
    let both = synchronise_thread-IsAligned y j (synchronise_thread x k) in
    either-IsAligned j (y == x) (synchronise_thread x k)
      (synchronise_thread y (synchronise_thread x k))
      (λ q. elim h [
        | inl e ↦ first (inl e)
        | inr (inl e) ↦ first (inl (ground (arith, e, q)))
        | inr (inr v) ↦ first (inr v)
      ])
      (λ q. elim h [
        | inl e ↦ both (inr (first (inl e)))
        | inr (inl e) ↦ both (inl e)
        | inr (inr v) ↦ both (inr (first (inr v)))
      ])

pub synchronise_pair_fixed : (x y : ℕ) (k : Kernel) → (synchronise_pair x y k).live ≡ k.live
unfolding synchronise_pair
synchronise_pair_fixed x y k =
    ground
      (arith, synchronise_thread_fixed x k, synchronise_thread_fixed y (synchronise_thread x k))

-- Two threads brought in line after a change that left every other thread as it was.
pub synchronise_pair-IsSynchronised :
    (x y : ℕ) (k k' : Kernel)
    → k'.scheduler ≡ k.scheduler
    → k'.live ≡ k.live
    → ((j : ℕ) → x ≢ j → y ≢ j → IsUnmoved j k.threads k'.threads)
    → IsSynchronised k
    → IsSynchronised (synchronise_pair x y k')
synchronise_pair-IsSynchronised x y k k' e l m v j t =
    let t' : tracked j k.live ≡ true = ground (arith, t, l, synchronise_pair_fixed x y k') in
    synchronise_pair-IsAligned x y j k' (elim (Bool-cases (x == j)) [
      | inl q ↦ inl (ground (arith, q))
      | inr q ↦ elim (Bool-cases (y == j)) [
        | inl p ↦ inr (inl (ground (arith, p)))
        | inr p ↦
            let u : IsUnmoved j k.threads k'.threads =
              m j (ground (arith, q)) (ground (arith, p)) in
            inr (inr (moved-IsAligned j k k' u e (v j t')))
      ]
    ])
