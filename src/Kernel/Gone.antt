-- ===== src/Kernel/Gone.antt =====
-- What a thread leaves behind when it is destroyed (`Kernel::destroy_thread` of
-- core/oskernel/src/kernel.cpp).
use enml.Base.{
  ℕ, Bool, true, false, none, List, [], ◌∷◌, Result, ok, err, ◌≡◌, ◌≢◌, inl, inr, refl, arith,
  Result-cases,
}
use enml.Table.{find, IsKeyed}
use enml.Table.Laws.{find-modify, find-clear}
use enml.Capability.{Claimant, thread_of, holds}
use enml.Capability.Revoke.{revoke_all_held_by}
use enml.Capability.Emptied.{revoke_all_held_by-holds}
use enml.Interrupt.{detach_all_owned_by, owner_of, slot_keyed as line_keyed}
use enml.Interrupt
use enml.Interrupt.Invariant
use enml.Interrupt.Teardown.{find-detach_all_owned_by}
use enml.Delivery.{release, armed, slot_keyed as delivery_keyed}
use enml.Delivery
use enml.Scheduler.{
  retire, update, is_runnable, unknown_thread, set_standing, slot_keyed as scheduled_keyed,
}
use enml.Scheduler
use enml.Rendezvous.{
  Rendezvous, RendezvousError, state_of, effective_priority_of, is_ready, exit_thread,
}
use enml.Kernel.{Kernel, untrack, synchronise_thread, synchronise_each, synchronise}
use enml.Kernel.Threads.{destroy_thread, torn_down, torn_down_after, released_ipc}
use enml.Kernel.Synchronised.{accepted}

-- The tables that bringing threads in line does not write.
abbrev IsSameTables : Kernel → Kernel → Type 0
IsSameTables k k' =
    (k'.capabilities ≡ k.capabilities)
    × (k'.interrupts ≡ k.interrupts)
    × (k'.deliveries ≡ k.deliveries)

synchronise_thread-IsSameTables : (t : ℕ) (k : Kernel) → IsSameTables k (synchronise_thread t k)
unfolding synchronise_thread
synchronise_thread-IsSameTables t k = ground arith

update-absent :
    (t thread : ℕ) (runnable : Bool) (priority : ℕ) (s : Scheduler.Scheduler)
    → find thread s.slots ≡ none
    → find thread (update t runnable priority s).0.slots ≡ none
unfolding update
update-absent t thread runnable priority s e =
    ground
      (arith, e, find-modify t thread (set_standing runnable priority) s.slots (λ d. (refl, refl)))

synchronise_thread-absent :
    (t thread : ℕ) (k : Kernel)
    → find thread k.scheduler.slots ≡ none
    → find thread (synchronise_thread t k).scheduler.slots ≡ none
unfolding synchronise_thread
synchronise_thread-absent t thread k e = elim (Result-cases (state_of t k.threads)) [
  | inr (x, p) ↦ ground (arith, e)
  | inl (state, p) ↦ elim (Result-cases (effective_priority_of t k.threads)) [
    | inr (x, q) ↦ ground (arith, e)
    | inl (priority, q) ↦
        ground (arith, update-absent t thread (is_ready state) priority k.scheduler e)
  ]
]

synchronise_each-IsSameTables : (ts : List ℕ) (k : Kernel) → IsSameTables k (synchronise_each ts k)
unfolding synchronise_each
synchronise_each-IsSameTables [] k = (refl, refl, refl)
synchronise_each-IsSameTables (t ∷ ts) k = ground (
  arith,
  synchronise_thread-IsSameTables t k,
  synchronise_each-IsSameTables ts (synchronise_thread t k),
)

synchronise_each-absent :
    (ts : List ℕ) (thread : ℕ) (k : Kernel)
    → find thread k.scheduler.slots ≡ none
    → find thread (synchronise_each ts k).scheduler.slots ≡ none
unfolding synchronise_each
synchronise_each-absent [] thread k e = e
synchronise_each-absent (t ∷ ts) thread k e =
    synchronise_each-absent ts thread (synchronise_thread t k)
      (synchronise_thread-absent t thread k e)

module _ (thread : ℕ) (k : Kernel) where
  -- Nothing of the kernel's answers to the thread any more.
  pub record IsGone : Type 0 where
    pub powerless :
        (claimant : Claimant) (capability : ℕ)
        → thread_of claimant ≡ thread
        → holds claimant capability k.capabilities ≡ false
    pub detached : (source : ℕ) → owner_of source k.interrupts ≢ ok thread
    pub undelivered : armed thread k.deliveries ≡ false
    pub unscheduled : is_runnable thread k.scheduler ≡ err unknown_thread

module _ (thread : ℕ) (k : Kernel) (n : thread ≢ 0) (v : Interrupt.Invariant.Inv k.interrupts)
    (u : IsKeyed k.deliveries.slots) (w : IsKeyed k.scheduler.slots) where
  detached : (source : ℕ) → owner_of source (detach_all_owned_by thread k.interrupts).0 ≢ ok thread
  unfolding owner_of
  detached source e = ground (arith, e, n, find-detach_all_owned_by thread source k.interrupts v n)

  undelivered : armed thread (release thread k.deliveries).0 ≡ false
  unfolding armed release
  undelivered =
      ground (
        arith,
        find-clear (λ _. Delivery.empty_slot) (λ _. refl) thread thread k.deliveries.slots u,
      )

  unscheduled : find thread (retire thread k.scheduler).0.slots ≡ none
  unfolding retire
  unscheduled = ground (
    arith,
    n,
    find-clear (λ _. Scheduler.empty_slot) (λ _. refl) thread thread k.scheduler.slots w,
  )

  torn_down-IsGone : IsGone thread (torn_down thread k)
  unfolding synchronise is_runnable
  torn_down-IsGone =
      let k' = record k {
        capabilities = (revoke_all_held_by thread k.capabilities).0;
        interrupts = (detach_all_owned_by thread k.interrupts).0;
        deliveries = (release thread k.deliveries).0;
        scheduler = (retire thread k.scheduler).0;
        live = untrack thread k.live;
      } in
      let same = synchronise_each-IsSameTables (untrack thread k.live) k' in
      record {
        powerless = λ c capability e.
            ground (arith, same.0, revoke_all_held_by-holds thread k.capabilities c capability n e);
        detached = λ source e. detached source (ground (arith, same.1, e));
        undelivered = ground (arith, same.2, undelivered);
        unscheduled =
            ground (arith, synchronise_each-absent (untrack thread k.live) thread k' unscheduled);
      }

torn_down_after-IsGone :
    (thread : ℕ) (k : Kernel)
    → thread ≢ 0
    → Interrupt.Invariant.Inv k.interrupts
    → IsKeyed k.deliveries.slots
    → IsKeyed k.scheduler.slots
    → (retired : ℕ) (p : Rendezvous × Result RendezvousError ℕ)
    → accepted (torn_down_after thread k retired p) ≡ true
    → IsGone thread (torn_down_after thread k retired p).0
torn_down_after-IsGone thread k n v u w retired (threads, err e) a = absurd (ground (arith, a))
torn_down_after-IsGone thread k n v u w retired (threads, ok woken) a =
    torn_down-IsGone thread (record k { threads = threads }) n v u w

-- A thread that was destroyed holds no capability, as a thread number or under any address space,
-- owns no interrupt source, has no delivery waiting and is unknown to the scheduler; for a valid
-- thread, where no key of the last three tables stands in two slots and the interrupt table has its
-- invariant.
pub destroy_thread-IsGone :
    (thread : ℕ) (k : Kernel)
    → thread ≢ 0
    → Interrupt.Invariant.Inv k.interrupts
    → IsKeyed k.deliveries.slots
    → IsKeyed k.scheduler.slots
    → accepted (destroy_thread thread k) ≡ true
    → IsGone thread (destroy_thread thread k).0
unfolding destroy_thread
destroy_thread-IsGone thread k n v u w a =
    let (k', retired) = released_ipc thread k in
    torn_down_after-IsGone thread k' n v u w retired (exit_thread thread k'.threads) a
