-- ===== src/Kernel/Tests/Leaving.antt =====
-- A concrete driver that is destroyed (core/oskernel/src/kernel.cpp).
use enml.Base.{true, [], ◌∷◌, ◌≡◌, refl, arith}
use enml.Table.{find, first, place, IsKeyed}
use enml.Table.Laws.{IsKeyed-replicate}
use enml.Capability.{legacy, mint}
use enml.Capability
use enml.Interrupt
use enml.Interrupt.Run.{attaches, run as run_lines, interrupts-Inv}
use enml.Delivery.{slot_keyed}
use enml.Delivery
use enml.Scheduler
use enml.Scheduler.Run.{admits, run as run_turns, scheduler-Inv}
use enml.Rendezvous.{exit_thread, create_thread, create_in}
use enml.Rendezvous
use enml.Continuations
use enml.Endpoints
use enml.Endpoints.Lifetime
use enml.Kernel.{Kernel, init}
use enml.Kernel.Threads.{destroy_thread}
use enml.Kernel.Synchronised.{accepted}
use enml.Kernel.Gone.{IsGone, destroy_thread-IsGone}

-- Thread 1 holds a capability and owns the interrupt source 33.
abbrev driver : Kernel
driver = record init {
  threads = (create_thread 1 3 Rendezvous.init).0;
  capabilities = (mint (legacy 1) 0x1EC0_0000_0000_0021 1 true Capability.init).0;
  interrupts = run_lines Interrupt.init (attaches 1 33 ∷ []);
  scheduler = run_turns Scheduler.init (admits 1 3 ∷ []);
  live = 1 ∷ [];
}

leaves : accepted (destroy_thread 1 driver) ≡ true
unfolding init create_thread create_in find first place Rendezvous.init destroy_thread exit_thread
    Lifetime.release_thread Lifetime.retire_all_owned_by Lifetime.retire_from Endpoints.init
    Continuations.release_thread Continuations.init
leaves = refl

deliveries-IsKeyed : IsKeyed driver.deliveries.slots
unfolding init Delivery.init
deliveries-IsKeyed = IsKeyed-replicate Delivery.max_threads Delivery.empty_slot refl

destroy_thread-IsGone_example : IsGone 1 (destroy_thread 1 driver).0
destroy_thread-IsGone_example =
    destroy_thread-IsGone 1 driver (omega arith) (interrupts-Inv (attaches 1 33 ∷ []))
      deliveries-IsKeyed (scheduler-Inv (admits 1 3 ∷ [])).keyed leaves
