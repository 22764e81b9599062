-- ===== src/Kernel/Synchronised.antt =====
-- The calls of the kernel keep the scheduler in line with the rendezvous table
-- (core/oskernel/src/kernel.cpp).
use enml.Base.{
  ℕ, ◌==◌, Bool, true, false, ◌||◌, some, [], ◌∷◌, ◌++◌, Result, ok, err, ◌≡◌, ◌≢◌, inl, inr, refl,
  arith, Option-cases, Bool-cases,
}
use enml.Table.{find, place}
use enml.Table.Laws.{find-modify, find-place}
use enml.Scheduler.{
  Scheduler, SchedulerError, Slot, new_slot, admit, yield_slice, choose, forfeit,
  slot_keyed as scheduled_keyed,
}
use enml.Scheduler.Choose.{find-choose}
use enml.Rendezvous.{Rendezvous, RendezvousError, inherited_priority, start_thread, exit_thread}
use enml.Rendezvous
use enml.Rendezvous.Messages
use enml.Rendezvous.Bystanders.{
  IsUnmoved, send-IsUnmoved, receive-IsUnmoved, reply-IsUnmoved, start_thread-IsUnmoved,
  create_in-IsUnmoved,
}
use enml.Kernel.{Kernel, KernelError, tracked, synchronise_thread, synchronise_pair}
use enml.Kernel.Threads.{
  admit_scheduled, admit_created, torn_down_after, create_thread, create_admitted_thread, exchanged,
  send, receive, reply, thread_start, yield_thread, schedule, destroy_thread, released_ipc,
}
use enml.Kernel.Tracked.{tracked-append}
use enml.Kernel.Agreement.{
  IsAligned, moved-IsAligned, IsSynchronised, synchronise_thread-IsAligned,
  synchronise_thread_fixed, synchronise_pair-IsSynchronised, synchronise-IsSynchronised,
}

abbrev pub accepted : {A : Type 0} → Kernel × Result KernelError A → Bool
accepted (k, ok _) = true
accepted (k, err _) = false

-- The scheduler's call leaves the standing of the thread as it was.
abbrev IsKept : ℕ → Scheduler → Scheduler → Type 0
IsKept j s s' =
    (b : Slot)
    → find j s'.slots ≡ some b
    → (c : Slot) × (find j s.slots ≡ some c)
      × (b.runnable ≡ c.runnable)
      × (b.effective ≡ c.effective)

kept-IsAligned :
    (j : ℕ) (k k' : Kernel)
    → k'.threads ≡ k.threads
    → IsKept j k.scheduler k'.scheduler
    → IsAligned j k
    → IsAligned j k'
kept-IsAligned j k k' e h v a b p q =
    let (c, f, s, t) = h b q in ground (arith, e, s, t, v a c (ground (arith, e, p)) f)

yield_slice-IsKept : (t j : ℕ) (s : Scheduler) → IsKept j s (yield_slice t s).0
unfolding yield_slice
yield_slice-IsKept t j s b q = elim (Option-cases (find j s.slots)) [
  | inl e ↦ absurd (ground (arith, q, e, find-modify t j forfeit s.slots (λ d. (refl, refl))))
  | inr (c, e) ↦ (
    c,
    e,
    ground (arith, q, e, find-modify t j forfeit s.slots (λ d. (refl, refl))),
    ground (arith, q, e, find-modify t j forfeit s.slots (λ d. (refl, refl))),
  )
]

choose-IsKept : (now j : ℕ) (s : Scheduler) → IsKept j s (choose now s).0
choose-IsKept now j s b q = elim (Option-cases (find j s.slots)) [
  | inl e ↦ absurd (ground (arith, q, e, find-choose now j s))
  | inr (c, e) ↦
      (c, e, ground (arith, q, e, find-choose now j s), ground (arith, q, e, find-choose now j s))
]

module _ {A : Type 0} (k : Kernel) (v : IsSynchronised k) where
  -- A call of the rendezvous table that moves two threads at most, which are then brought in line.
  exchanged-IsSynchronised :
      (x : ℕ) (y : A → ℕ) (p : Rendezvous × Result RendezvousError A)
      → accepted (exchanged k (λ a. synchronise_pair x (y a)) p) ≡ true
      → ((j : ℕ) (a : A) → p.1 ≡ ok a → x ≢ j → y a ≢ j → IsUnmoved j k.threads p.0)
      → IsSynchronised (exchanged k (λ a. synchronise_pair x (y a)) p).0
  exchanged-IsSynchronised x y (threads, err e) a m = absurd (ground (arith, a))
  exchanged-IsSynchronised x y (threads, ok b) a m =
      synchronise_pair-IsSynchronised x (y b) k (record k { threads = threads }) refl refl
        (λ j n o. m j b refl n o) v

  started-IsSynchronised :
      (x : ℕ) (p : Rendezvous × Result RendezvousError A)
      → accepted (exchanged k (λ _. synchronise_thread x) p) ≡ true
      → ((j : ℕ) → x ≢ j → IsUnmoved j k.threads p.0)
      → IsSynchronised (exchanged k (λ _. synchronise_thread x) p).0
  started-IsSynchronised x (threads, err e) a m j t = absurd (ground (arith, a))
  started-IsSynchronised x (threads, ok b) a m j t =
      let k' = record k { threads = threads } in
      let t' : tracked j k.live ≡ true = ground (arith, t, synchronise_thread_fixed x k') in
      synchronise_thread-IsAligned x j k' (elim (Bool-cases (x == j)) [
        | inl q ↦ inl (ground (arith, q))
        | inr q ↦ inr (moved-IsAligned j k k' (m j (ground (arith, q))) refl (v j t'))
      ])

admit-IsKept : (t priority j : ℕ) (s : Scheduler) → t ≢ j → IsKept j s (admit t priority s).0
unfolding admit
admit-IsKept t priority j s n b q =
    let a = new_slot t priority s.next_sequence in
    elim (Option-cases (place a s.slots)) [
      | inl e ↦ (b, ground (arith, q, e), refl, refl)
      | inr (ys, e) ↦ (b, ground (arith, q, e, find-place a refl j s.slots ys), refl, refl)
    ]

-- A new thread is put into both tables and brought in line.
admit_scheduled-IsSynchronised :
    (k : Kernel)
    → IsSynchronised k
    → (t : ℕ) (threads : Rendezvous) (p : Scheduler × Result SchedulerError (Unit {0}))
    → accepted (admit_scheduled t k threads p) ≡ true
    → ((j : ℕ) → t ≢ j → IsUnmoved j k.threads threads)
    → ((j : ℕ) → t ≢ j → IsKept j k.scheduler p.0)
    → IsSynchronised (admit_scheduled t k threads p).0
admit_scheduled-IsSynchronised k v t threads (s, err e) a m h j u = absurd (ground (arith, a))
admit_scheduled-IsSynchronised k v t threads (s, ok b) a m h j u =
    let k1 = record k { threads = threads; live = k.live ++ (t ∷ []) } in
    let k2 = record k1 { scheduler = s } in
    let known : (tracked j k.live || t == j) ≡ true =
      ground (arith, u, synchronise_thread_fixed t k2, tracked-append j t k.live) in
    synchronise_thread-IsAligned t j k2 (elim (Bool-cases (t == j)) [
      | inl q ↦ inl (ground (arith, q))
      | inr q ↦
          let n : t ≢ j = ground (arith, q) in
          inr (
            kept-IsAligned j k1 k2 refl (h j n)
              (moved-IsAligned j k k1 (m j n) refl (v j (ground (arith, known, q)))))
    ])

admit_created-IsSynchronised :
    (k : Kernel)
    → IsSynchronised k
    → (t priority : ℕ) (p : Rendezvous × Result RendezvousError (Unit {0}))
    → accepted (admit_created t priority k p) ≡ true
    → ((j : ℕ) → t ≢ j → IsUnmoved j k.threads p.0)
    → IsSynchronised (admit_created t priority k p).0
admit_created-IsSynchronised k v t priority (threads, err e) a m = absurd (ground (arith, a))
admit_created-IsSynchronised k v t priority (threads, ok b) a m =
    admit_scheduled-IsSynchronised k v t threads (admit t priority k.scheduler) a m
      (λ j n. admit-IsKept t priority j k.scheduler n)

-- A teardown brings every thread in line.
torn_down_after-IsSynchronised :
    (t : ℕ) (k : Kernel) (retired : ℕ) (p : Rendezvous × Result RendezvousError ℕ)
    → accepted (torn_down_after t k retired p) ≡ true
    → IsSynchronised (torn_down_after t k retired p).0
torn_down_after-IsSynchronised t k retired (threads, err e) a j u = absurd (ground (arith, a))
torn_down_after-IsSynchronised t k retired (threads, ok n) a j u = synchronise-IsSynchronised _ j u

module _ (k : Kernel) (v : IsSynchronised k) where
  pub send-IsSynchronised :
      (from to : ℕ) → accepted (send from to k) ≡ true → IsSynchronised (send from to k).0
  unfolding send
  send-IsSynchronised from to a =
      exchanged-IsSynchronised k v from (λ _. to) (Messages.send from to k.threads) a
        (λ j b e n o. send-IsUnmoved j k.threads from to n o)

  pub receive-IsSynchronised :
      (self : ℕ) → accepted (receive self k) ≡ true → IsSynchronised (receive self k).0
  unfolding receive
  receive-IsSynchronised self a =
      exchanged-IsSynchronised k v self (λ sender. sender) (Messages.receive self k.threads) a
        (λ j sender e n o. receive-IsUnmoved j k.threads self sender n o e)

  pub reply-IsSynchronised :
      (self caller : ℕ)
      → accepted (reply self caller k) ≡ true
      → IsSynchronised (reply self caller k).0
  unfolding reply
  reply-IsSynchronised self caller a =
      exchanged-IsSynchronised k v self (λ _. caller) (Messages.reply self caller k.threads) a
        (λ j b e n o. reply-IsUnmoved j k.threads self caller n o)

  pub yield_thread-IsSynchronised : (self : ℕ) → IsSynchronised (yield_thread self k).0
  unfolding yield_thread
  yield_thread-IsSynchronised self j t =
      let kept : IsKept j k.scheduler (yield_thread self k).0.scheduler = λ b q.
        elim (Bool-cases (tracked self k.live)) [
          | inl c ↦ yield_slice-IsKept self j k.scheduler b (ground (arith, q, c))
          | inr c ↦ (b, ground (arith, q, c), refl, refl)
        ] in
      kept-IsAligned j k (yield_thread self k).0 (ground arith) kept (v j (ground (arith, t)))

  pub schedule-IsSynchronised : (now : ℕ) → IsSynchronised (schedule now k).0
  unfolding schedule
  schedule-IsSynchronised now j t =
      kept-IsAligned j k (schedule now k).0 refl (choose-IsKept now j k.scheduler) (v j t)

  pub thread_start-IsSynchronised :
      (thread : ℕ)
      → accepted (thread_start thread k) ≡ true
      → IsSynchronised (thread_start thread k).0
  unfolding thread_start
  thread_start-IsSynchronised thread a =
      started-IsSynchronised k v thread (start_thread thread k.threads) a
        (λ j n. start_thread-IsUnmoved j k.threads thread n)

  pub destroy_thread-IsSynchronised :
      (thread : ℕ)
      → accepted (destroy_thread thread k) ≡ true
      → IsSynchronised (destroy_thread thread k).0
  unfolding destroy_thread
  destroy_thread-IsSynchronised thread a =
      let (k', retired) = released_ipc thread k in
      torn_down_after-IsSynchronised thread k' retired (exit_thread thread k'.threads) a

  pub create_thread-IsSynchronised :
      (thread priority : ℕ)
      → accepted (create_thread thread priority k) ≡ true
      → IsSynchronised (create_thread thread priority k).0
  unfolding create_thread Rendezvous.create_thread Rendezvous.create_in
  create_thread-IsSynchronised thread priority a =
      admit_created-IsSynchronised k v thread priority
        (Rendezvous.create_thread thread priority k.threads) a
        (λ j n. create_in-IsUnmoved j k.threads Rendezvous.ready thread priority (inl refl) n)

  pub create_admitted_thread-IsSynchronised :
      (thread priority : ℕ)
      → accepted (create_admitted_thread thread priority k) ≡ true
      → IsSynchronised (create_admitted_thread thread priority k).0
  unfolding create_admitted_thread Rendezvous.create_admitted_thread Rendezvous.create_in
  create_admitted_thread-IsSynchronised thread priority a =
      admit_created-IsSynchronised k v thread priority
        (Rendezvous.create_admitted_thread thread priority k.threads) a
        (λ j n. create_in-IsUnmoved j k.threads Rendezvous.admitted thread priority (inr refl) n)
