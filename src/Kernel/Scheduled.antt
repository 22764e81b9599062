-- ===== src/Kernel/Scheduled.antt =====
-- Every thread that the kernel tracks is in the scheduler's table (core/oskernel/src/kernel.cpp).
use enml.Base.{
  ℕ, ◌==◌, Bool, true, false, none, some, List, [], ◌∷◌, ◌++◌, Result, ok, err, ◌≡◌, ◌≢◌, inl, inr,
  refl, arith, Option-cases, Bool-cases, Result-cases, if◌then◌else◌, subst,
}
use enml.Table.{find, place}
use enml.Table.Laws.{find-modify, find-clear, find-place}
use enml.Scheduler.{
  Scheduler, SchedulerError, empty_slot, new_slot, admit, retire, update, yield_slice, choose,
  set_standing, forfeit, slot_keyed as scheduled_keyed,
}
use enml.Scheduler.Invariant.{Inv}
use enml.Scheduler.Steps.{admit-Inv, retire-Inv, update-Inv, yield_slice-Inv, retire_cases}
use enml.Scheduler.Choose.{find-choose}
use enml.Scheduler.Turns.{choose-Inv}
use enml.Rendezvous.{Rendezvous, RendezvousError, state_of, effective_priority_of, is_ready}
use enml.Kernel.{
  Kernel, tracked, untrack, synchronise_thread, synchronise_pair, synchronise_each, synchronise,
}
use enml.Kernel.Threads.{admit_scheduled, admit_created, torn_down_after, exchanged}
use enml.Kernel.Calls.{settled, with_ipc}
use enml.Endpoints.{IpcEndpointTable, IpcError}
use enml.Kernel.Tracked.{IsOnce, IsOnce-append, IsOnce-untrack, tracked-append, tracked-untrack}
use enml.Kernel.Synchronised.{accepted}

-- No thread is tracked twice, and the scheduler's table, which has its invariant, has each.
pub record IsHeld (s : Scheduler) (live : List ℕ) : Type 0 where
  pub sound : Inv s
  pub once : IsOnce live
  pub there : (j : ℕ) → tracked j live ≡ true → find j s.slots ≢ none

abbrev pub IsScheduled : Kernel → Type 0
IsScheduled k = IsHeld k.scheduler k.live

-- A call of the scheduler that keeps its invariant and every thread.
kept-IsHeld :
    (s s' : Scheduler) (live : List ℕ)
    → Inv s'
    → ((j : ℕ) → find j s.slots ≢ none → find j s'.slots ≢ none)
    → IsHeld s live
    → IsHeld s' live
kept-IsHeld s s' live v k h = record { sound = v; once = h.once; there = λ j t. k j (h.there j t) }

module _ (s : Scheduler) (live : List ℕ) (h : IsHeld s live) where
  update-IsHeld :
      (t : ℕ) (runnable : Bool) (priority : ℕ) → IsHeld (update t runnable priority s).0 live
  unfolding update
  update-IsHeld t runnable priority =
      kept-IsHeld s (update t runnable priority s).0 live (update-Inv t s h.sound runnable priority)
        (λ j n e. n (
          ground (
            arith,
            e,
            find-modify t j (set_standing runnable priority) s.slots (λ d. (refl, refl)),
          )))
        h

  pub yield_slice-IsHeld : (t : ℕ) → IsHeld (yield_slice t s).0 live
  unfolding yield_slice
  yield_slice-IsHeld t =
      kept-IsHeld s (yield_slice t s).0 live (yield_slice-Inv t s h.sound)
        (λ j n e. n (ground (arith, e, find-modify t j forfeit s.slots (λ d. (refl, refl))))) h

  pub choose-IsHeld : (now : ℕ) → IsHeld (choose now s).0 live
  choose-IsHeld now =
      kept-IsHeld s (choose now s).0 live (choose-Inv now s h.sound) (λ j n e. n (gone now j e)) h
    where
      gone : (now j : ℕ) → find j (choose now s).0.slots ≡ none → find j s.slots ≡ none
      gone now j e = elim (Option-cases (find j s.slots)) [
        | inl q ↦ q
        | inr (a, q) ↦ absurd (ground (arith, e, q, find-choose now j s))
      ]

  admit-find :
      (t priority j : ℕ)
      → (admit t priority s).1 ≡ ok tt
      → (find t s.slots ≡ none)
        × (find j (admit t priority s).0.slots
            ≡ (if t == j then some (new_slot t priority s.next_sequence) else find j s.slots))
  unfolding admit
  admit-find t priority j a =
      let fresh = new_slot t priority s.next_sequence in
      elim (Option-cases (find t s.slots)) [
        | inr (b, p) ↦ absurd (ground arith)
        | inl p ↦ elim (Option-cases (place fresh s.slots)) [
          | inl q ↦ absurd (ground arith)
          | inr (ys, q) ↦ ground (arith, p, q, find-place fresh refl j s.slots ys)
        ]
      ]

  admit-IsHeld :
      (t priority : ℕ)
      → (admit t priority s).1 ≡ ok tt
      → IsHeld (admit t priority s).0 (live ++ (t ∷ []))
  admit-IsHeld t priority a =
      let fresh : tracked t live ≡ false = elim (Bool-cases (tracked t live)) [
        | inr e ↦ e
        | inl e ↦ absurd (h.there t e (admit-find t priority t a).0)
      ] in
      record {
        sound = admit-Inv t priority s h.sound;
        once = IsOnce-append t live h.once fresh;
        there = λ j u e. elim (Bool-cases (t == j)) [
          | inl q ↦ ground (arith, e, q, admit-find t priority j a)
          | inr q ↦
              h.there j (ground (arith, u, q, tracked-append j t live))
                (ground (arith, e, q, admit-find t priority j a))
        ];
      }

  retire-find : (t j : ℕ) → t ≢ j → find j (retire t s).0.slots ≡ none → find j s.slots ≡ none
  retire-find t j n =
      retire_cases (λ q. find j q.slots ≡ none → find j s.slots ≡ none) t s (λ e. e)
        (λ a q e.
          ground (arith, n, e, find-clear (λ _. empty_slot) (λ _. refl) t j s.slots h.sound.keyed))

  retire-IsHeld : (t : ℕ) → IsHeld (retire t s).0 (untrack t live)
  retire-IsHeld t = record {
    sound = retire-Inv t s h.sound;
    once = IsOnce-untrack t live h.once;
    there = λ j u e.
        let both = tracked-untrack j t live h.once in
        h.there j (ground (arith, u, both)) (retire-find t j (ground (arith, u, both)) e);
  }

pub synchronise_thread-IsScheduled :
    (t : ℕ) (k : Kernel) → IsScheduled k → IsScheduled (synchronise_thread t k)
unfolding synchronise_thread
synchronise_thread-IsScheduled t k h = elim (Result-cases (state_of t k.threads)) [
  | inr (x, p) ↦ let e : k ≡ synchronise_thread t k = ground (arith, p) in subst IsScheduled e h
  | inl (state, p) ↦ elim (Result-cases (effective_priority_of t k.threads)) [
    | inr (x, q) ↦
        let e : k ≡ synchronise_thread t k = ground (arith, p, q) in subst IsScheduled e h
    | inl (priority, q) ↦
        let k' = record k { scheduler = (update t (is_ready state) priority k.scheduler).0 } in
        let e : k' ≡ synchronise_thread t k = ground (arith, p, q) in
        subst IsScheduled e (update-IsHeld k.scheduler k.live h t (is_ready state) priority)
  ]
]

pub synchronise_pair-IsScheduled :
    (x y : ℕ) (k : Kernel) → IsScheduled k → IsScheduled (synchronise_pair x y k)
unfolding synchronise_pair
synchronise_pair-IsScheduled x y k h =
    let v = synchronise_thread-IsScheduled x k h in
    elim (Bool-cases (y == x)) [
      | inl e ↦ rw e v
      | inr e ↦ rw e (synchronise_thread-IsScheduled y (synchronise_thread x k) v)
    ]

synchronise_each-IsScheduled :
    (ts : List ℕ) (k : Kernel) → IsScheduled k → IsScheduled (synchronise_each ts k)
unfolding synchronise_each
synchronise_each-IsScheduled [] k h = h
synchronise_each-IsScheduled (t ∷ ts) k h =
    synchronise_each-IsScheduled ts (synchronise_thread t k) (synchronise_thread-IsScheduled t k h)

pub synchronise-IsScheduled : (k : Kernel) → IsScheduled k → IsScheduled (synchronise k)
unfolding synchronise
synchronise-IsScheduled k h = synchronise_each-IsScheduled k.live k h

-- What follows a call of another table keeps the threads, if bringing them in line does.
pub exchanged-IsScheduled :
    {A : Type 0} (k : Kernel) (sync : A → Kernel → Kernel)
    → ((a : A) (k' : Kernel) → IsScheduled k' → IsScheduled (sync a k'))
    → (p : Rendezvous × Result RendezvousError A) → IsScheduled k
    → IsScheduled (exchanged k sync p).0
exchanged-IsScheduled k sync f (threads, err e) h = h
exchanged-IsScheduled k sync f (threads, ok a) h = f a (record k { threads = threads }) h

pub settled-IsScheduled :
    {A : Type 0} (k : Kernel) (sync : A → Kernel → Kernel)
    → ((a : A) (k' : Kernel) → IsScheduled k' → IsScheduled (sync a k'))
    → (p : IpcEndpointTable × Rendezvous × Result IpcError A) → IsScheduled k
    → IsScheduled (settled k sync p).0
settled-IsScheduled k sync f (ipc, threads, err e) h = h
settled-IsScheduled k sync f (ipc, threads, ok a) h = f a (with_ipc ipc threads k) h

admit_scheduled-IsScheduled :
    (t priority : ℕ) (k : Kernel) (threads : Rendezvous)
    → IsScheduled k
    → (p : Scheduler × Result SchedulerError (Unit {0})) → p ≡ admit t priority k.scheduler
    → accepted (admit_scheduled t k threads p) ≡ true
    → IsScheduled (admit_scheduled t k threads p).0
admit_scheduled-IsScheduled t priority k threads h (s, err e) q a = absurd (ground (arith, a))
admit_scheduled-IsScheduled t priority k threads h (s, ok b) q a =
    let e : (admit t priority k.scheduler).0 ≡ s = ground (arith, q) in
    let k' = record k { threads = threads; scheduler = s; live = k.live ++ (t ∷ []) } in
    synchronise_thread-IsScheduled t k' (
      subst (λ x. IsHeld x (k.live ++ (t ∷ []))) e
        (admit-IsHeld k.scheduler k.live h t priority (ground (arith, q))))

pub admit_created-IsScheduled :
    (t priority : ℕ) (k : Kernel) (p : Rendezvous × Result RendezvousError (Unit {0}))
    → IsScheduled k
    → accepted (admit_created t priority k p) ≡ true
    → IsScheduled (admit_created t priority k p).0
admit_created-IsScheduled t priority k (threads, err e) h a = h
admit_created-IsScheduled t priority k (threads, ok b) h a =
    admit_scheduled-IsScheduled t priority k threads h (admit t priority k.scheduler) refl a

pub torn_down_after-IsScheduled :
    (t retired : ℕ) (k : Kernel) (p : Rendezvous × Result RendezvousError ℕ)
    → IsScheduled k
    → IsScheduled (torn_down_after t k retired p).0
torn_down_after-IsScheduled t retired k (threads, err e) h = h
torn_down_after-IsScheduled t retired k (threads, ok n) h =
    synchronise-IsScheduled _ (retire-IsHeld k.scheduler k.live h t)
