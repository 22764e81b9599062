-- ===== src/Kernel.antt =====
-- The kernel that composes the tables: core/oskernel/src/kernel.cpp and include/os/kernel/kernel.hpp.
-- The state holds every table that the class owns; the address space, memory and translation tables
-- that its operations are handed stay arguments.
pub mod Threads
pub mod Calls
pub mod Interrupts
pub mod Memory
pub mod Admission
pub mod Agreement
pub mod Tracked
pub mod Synchronised
pub mod Scheduled
pub mod History
pub mod Preserved
pub mod Reach
pub mod Expiry
pub mod Authorised
pub mod Admitted
pub mod Gone
mod Tests
use enml.Base.{
  ℕ, ◌==◌, if◌then◌else◌, Bool, true, false, ◌||◌, List, [], ◌∷◌, ◌++◌, Result, ok, err,
}
use enml.Capability.{CapabilityTable, CapabilityError}
use enml.Capability
use enml.Interrupt.{InterruptTable, InterruptError}
use enml.Interrupt
use enml.Delivery.{InterruptDeliveryTable, DeliveryError}
use enml.Delivery
use enml.Endpoints.{IpcEndpointTable, IpcError}
use enml.Endpoints
use enml.Continuations.{IpcContinuationTable, ContinuationError}
use enml.Continuations
use enml.Scheduler.{Scheduler, SchedulerError, update}
use enml.Scheduler
use enml.Rendezvous.{
  Rendezvous, RendezvousError, unknown_thread, ThreadState, is_ready, state_of,
  effective_priority_of,
}
use enml.Rendezvous
use enml.Spaces.{EpochError}
use enml.Grants.{GrantError}
use enml.Regions.{RegionError}
use enml.Translations.{TranslationError}
use enml.Objects.{AuthorityError}

pub data KernelError : Type 0 where
  creation_incomplete invalid_stack identifier_exhausted no_executable_region : KernelError
  entry_not_region_base invalid_root range_overflows executable_region_immutable : KernelError
  already_executable : KernelError
  thread_error : RendezvousError → KernelError
  scheduler_error : SchedulerError → KernelError
  ipc_error : IpcError → KernelError
  continuation_error : ContinuationError → KernelError
  authority_error : AuthorityError → KernelError
  interrupt_error : InterruptError → KernelError
  delivery_error : DeliveryError → KernelError
  capability_error : CapabilityError → KernelError
  epoch_error : EpochError → KernelError
  grant_error : GrantError → KernelError
  translation_error : TranslationError → KernelError

-- `live` is the part of the array `live_` below `live_count_`.
pub record Kernel : Type 0 where
  pub threads : Rendezvous
  pub capabilities : CapabilityTable
  pub interrupts : InterruptTable
  pub deliveries : InterruptDeliveryTable
  pub ipc : IpcEndpointTable
  pub continuations : IpcContinuationTable
  pub scheduler : Scheduler
  pub next_identifier : ℕ
  pub live : List ℕ

abbrev pub first_admitted_thread : ℕ
first_admitted_thread = 0x1000

unfoldable pub init : Kernel
init = record {
  threads = Rendezvous.init;
  capabilities = Capability.init;
  interrupts = Interrupt.init;
  deliveries = Delivery.init;
  ipc = Endpoints.init;
  continuations = Continuations.init;
  scheduler = Scheduler.init;
  next_identifier = first_admitted_thread;
  live = [];
}

-- The loop of `tracks`.
unfoldable pub tracked : ℕ → List ℕ → Bool
tracked thread [] = false
tracked thread (x ∷ rest) = x == thread || tracked thread rest

abbrev pub last_of : ℕ → List ℕ → ℕ
last_of x [] = x
last_of x (y ∷ rest) = last_of y rest

abbrev pub drop_last : ℕ → List ℕ → List ℕ
drop_last x [] = []
drop_last x (y ∷ rest) = x ∷ drop_last y rest

-- The last entry takes the place of the one that leaves.
unfoldable pub untrack : ℕ → List ℕ → List ℕ
untrack thread [] = []
untrack thread (x ∷ []) = if x == thread then [] else x ∷ []
untrack thread (x ∷ y ∷ rest) =
    let later = untrack thread (y ∷ rest) in
    if x == thread then last_of y rest ∷ drop_last y rest else x ∷ later

-- The scheduler's entry of a thread is brought in line with the rendezvous table.
unfoldable pub synchronise_thread : ℕ → Kernel → Kernel
synchronise_thread thread k = elim (state_of thread k.threads) [
  | err _ ↦ k
  | ok state ↦ elim (effective_priority_of thread k.threads) [
    | err _ ↦ k
    | ok priority ↦ record k { scheduler = (update thread (is_ready state) priority k.scheduler).0 }
  ]
]

unfoldable pub synchronise_pair : ℕ → ℕ → Kernel → Kernel
synchronise_pair a b k =
    let k' = synchronise_thread a k in if b == a then k' else synchronise_thread b k'

unfoldable pub synchronise_each : List ℕ → Kernel → Kernel
synchronise_each [] k = k
synchronise_each (x ∷ rest) k = synchronise_each rest (synchronise_thread x k)

unfoldable pub synchronise : Kernel → Kernel
synchronise k = synchronise_each k.live k

-- A call that only a tracked thread may make.
abbrev pub unknown : {A : Type 0} → Kernel → Kernel × Result KernelError A
unknown k = (k, err (thread_error unknown_thread))
