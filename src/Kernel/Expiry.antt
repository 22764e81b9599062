-- ===== src/Kernel/Expiry.antt =====
-- A receive whose deadline has passed (`Kernel::ipc_expire_one_receive` of
-- core/oskernel/src/kernel.cpp).
use enml.Base.{ℕ, true, false, some, ok, ◌≡◌, inl, inr, refl, arith, Option-cases}
use enml.Table.{find}
use enml.Table.Laws.{find-modify}
use enml.Scheduler.{is_runnable, slot_keyed as scheduled_keyed}
use enml.Scheduler
use enml.Rendezvous.{state_of, ready, deadline_expired, slot_keyed as thread_keyed}
use enml.Rendezvous.Messages.{expire_receive, stop_receive, wake_with}
use enml.Continuations.{IpcReceiveContinuation, take_expired_receive}
use enml.Kernel.{Kernel, tracked}
use enml.Kernel.Calls.{ipc_expire_one_receive}
use enml.Kernel.Agreement.{IsSynchronised}

-- In a kernel whose tables agree, when the expiry of the receive of a tracked thread that the
-- scheduler knows reports success, the rendezvous table has the thread ready, and the scheduler has
-- it not runnable still.
pub ipc_expire_one_receive-unscheduled :
    (now : ℕ) (k : Kernel) (c : IpcReceiveContinuation) (b : Scheduler.Slot)
    → IsSynchronised k
    → (take_expired_receive now k.continuations).1 ≡ ok c
    → tracked c.server k.live ≡ true
    → find c.server k.scheduler.slots ≡ some b
    → (ipc_expire_one_receive now k).1 ≡ ok true
    → let k' = (ipc_expire_one_receive now k).0 in
      (state_of c.server k'.threads ≡ ok ready) × (is_runnable c.server k'.scheduler ≡ ok false)
unfolding ipc_expire_one_receive expire_receive stop_receive state_of is_runnable
ipc_expire_one_receive-unscheduled now k c b v e t p q =
    elim (Option-cases (find c.server k.threads.slots)) [
      | inl z ↦ ground arith
      | inr (a, z) ↦ ground (
        arith,
        v c.server t a b z p,
        find-modify c.server c.server (wake_with deadline_expired) k.threads.slots
            (λ d. (refl, refl)),
      )
    ]
