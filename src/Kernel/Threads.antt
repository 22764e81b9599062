-- ===== src/Kernel/Threads.antt =====
-- Threads of the kernel: creation, teardown, and the calls between two threads
-- (core/oskernel/src/kernel.cpp).
use enml.Base.{ℕ, ◌+◌, ◌==◌, if◌then◌else◌, Bool, not, [], ◌∷◌, ◌++◌, Result, ok, err}
use enml.Rendezvous.{exit_thread, start_thread}
use enml.Rendezvous
use enml.Rendezvous.Messages
use enml.Scheduler.{Scheduler, SchedulerError, Decision, admit, retire, yield_slice, choose}
use enml.Capability.Revoke.{revoke_all_held_by}
use enml.Interrupt.{detach_all_owned_by}
use enml.Delivery
use enml.Endpoints.Lifetime
use enml.Continuations
use enml.Kernel.{
  Kernel, KernelError, creation_incomplete, unknown, thread_error, scheduler_error, tracked,
  untrack, synchronise_thread, synchronise_pair, synchronise, identifier_exhausted,
}

-- What follows the admission to the scheduler, with the rendezvous table that has the thread: it is
-- in both tables, or in none.
abbrev pub admit_scheduled :
    ℕ
    → Kernel
    → Rendezvous.Rendezvous
    → Scheduler × Result SchedulerError (Unit {0})
    → Kernel × Result KernelError (Unit {0})
admit_scheduled thread k threads (scheduler, err _) = (
  record k { threads = (exit_thread thread threads).0; scheduler = scheduler },
  err creation_incomplete,
)
admit_scheduled thread k threads (scheduler, ok _) = (
  synchronise_thread thread
      (record k { threads = threads; scheduler = scheduler; live = k.live ++ (thread ∷ []) }),
  ok tt,
)

-- What `create_thread` and `create_admitted_thread` share.
abbrev pub admit_created :
    ℕ
    → ℕ
    → Kernel
    → Rendezvous.Rendezvous × Result Rendezvous.RendezvousError (Unit {0})
    → Kernel × Result KernelError (Unit {0})
admit_created thread priority k (threads, err e) =
    (record k { threads = threads }, err (thread_error e))
admit_created thread priority k (threads, ok _) =
    admit_scheduled thread k threads (admit thread priority k.scheduler)

unfoldable pub create_thread : ℕ → ℕ → Kernel → Kernel × Result KernelError (Unit {0})
create_thread thread priority k =
    admit_created thread priority k (Rendezvous.create_thread thread priority k.threads)

unfoldable pub create_admitted_thread : ℕ → ℕ → Kernel → Kernel × Result KernelError (Unit {0})
create_admitted_thread thread priority k =
    admit_created thread priority k (Rendezvous.create_admitted_thread thread priority k.threads)

pub record Teardown : Type 0 where
  pub threads_released : ℕ
  pub capabilities_revoked : ℕ
  pub interrupt_sources_released : ℕ
  pub interrupt_delivery_released : Bool
  pub ipc_endpoints_retired : ℕ

-- The endpoints and continuations go first, while the thread is still known.
abbrev pub released_ipc : ℕ → Kernel → Kernel × ℕ
released_ipc thread k =
    let (ipc, threads, retired) = Lifetime.release_thread thread k.ipc k.threads in
    (
      record k {
        continuations = Continuations.release_thread thread k.continuations;
        ipc = ipc;
        threads = threads;
      },
      retired,
    )

-- The rest of the teardown, once the thread has left the rendezvous table.
abbrev pub torn_down : ℕ → Kernel → Kernel
torn_down thread k = synchronise (record k {
  capabilities = (revoke_all_held_by thread k.capabilities).0;
  interrupts = (detach_all_owned_by thread k.interrupts).0;
  deliveries = (Delivery.release thread k.deliveries).0;
  scheduler = (retire thread k.scheduler).0;
  live = untrack thread k.live;
})

-- `destroy_thread` after the endpoints, with what the rendezvous table said of the exit.
abbrev pub torn_down_after :
    ℕ
    → Kernel
    → ℕ
    → Rendezvous.Rendezvous × Result Rendezvous.RendezvousError ℕ
    → Kernel × Result KernelError Teardown
torn_down_after thread k retired (threads, err e) =
    (record k { threads = threads }, err (thread_error e))
torn_down_after thread k retired (threads, ok woken) = (
  torn_down thread (record k { threads = threads }),
  ok (record {
    threads_released = woken;
    capabilities_revoked = (revoke_all_held_by thread k.capabilities).1;
    interrupt_sources_released = (detach_all_owned_by thread k.interrupts).1;
    interrupt_delivery_released = (Delivery.release thread k.deliveries).1;
    ipc_endpoints_retired = retired;
  }),
)

unfoldable pub destroy_thread : ℕ → Kernel → Kernel × Result KernelError Teardown
destroy_thread thread k =
    let (k', retired) = released_ipc thread k in
    torn_down_after thread k' retired (exit_thread thread k'.threads)

-- What follows a call of the rendezvous table: its error is passed on, or the scheduler is brought
-- in line.
abbrev pub exchanged :
    {A : Type 0}
    → Kernel
    → (A → Kernel → Kernel)
    → Rendezvous.Rendezvous × Result Rendezvous.RendezvousError A
    → Kernel × Result KernelError A
exchanged k sync (threads, err e) = (record k { threads = threads }, err (thread_error e))
exchanged k sync (threads, ok a) = (sync a (record k { threads = threads }), ok a)

unfoldable pub thread_start : ℕ → Kernel → Kernel × Result KernelError (Unit {0})
thread_start thread k = exchanged k (λ _. synchronise_thread thread) (start_thread thread k.threads)

unfoldable pub send : ℕ → ℕ → Kernel → Kernel × Result KernelError (Unit {0})
send from to k = exchanged k (λ _. synchronise_pair from to) (Messages.send from to k.threads)

unfoldable pub receive : ℕ → Kernel → Kernel × Result KernelError ℕ
receive self k =
    exchanged k (λ sender. synchronise_pair self sender) (Messages.receive self k.threads)

unfoldable pub reply : ℕ → ℕ → Kernel → Kernel × Result KernelError (Unit {0})
reply self caller k =
    exchanged k (λ _. synchronise_pair self caller) (Messages.reply self caller k.threads)

unfoldable pub yield_thread : ℕ → Kernel → Kernel × Result KernelError (Unit {0})
yield_thread self k =
    if not (tracked self k.live)
    then unknown k
    else let (scheduler, result) = yield_slice self k.scheduler in
      (
        record k { scheduler = scheduler },
        elim result [ err e ↦ err (scheduler_error e) | ok _ ↦ ok tt ],
      )

unfoldable pub schedule : ℕ → Kernel → Kernel × Decision
schedule now k =
    let (scheduler, decision) = choose now k.scheduler in
    (record k { scheduler = scheduler }, decision)

-- `ThreadIdentifierIssuer::issue` (core/oskernel/src/thread_admission.cpp).
unfoldable pub issue : ℕ → ℕ × Result KernelError ℕ
issue next = if next == 0xFFFF_FFFF then (next, err identifier_exhausted) else (next + 1, ok next)
