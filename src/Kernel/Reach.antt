-- ===== src/Kernel/Reach.antt =====
-- The agreement of the rendezvous table with the scheduler in every state that calls lead to
-- (core/oskernel/src/kernel.cpp).
use enml.Base.{
  ok, err, ◌&&◌, not, ℕ, ◌==◌, true, some, ◌≡◌, Result, sym, arith, subst, inl, inr, Option-cases,
  Bool-cases, Result-cases,
}
use enml.Table.{find}
use enml.Capability.{thread_of}
use enml.Interrupt.{InterruptTable, InterruptError, Dispatch}
use enml.Interrupt
use enml.Scheduler.{slot_keyed as scheduled_keyed}
use enml.Scheduler
use enml.Scheduler.Invariant.{init-Inv}
use enml.Rendezvous.{
  inherited_priority, is_ready, start_thread, exit_thread, slot_keyed as thread_keyed,
}
use enml.Rendezvous
use enml.Rendezvous.Messages
use enml.Endpoints.Exchange
use enml.Endpoints.Lifetime
use enml.Regions.{ExecutableRegionTable}
use enml.Translations.{SealedTranslationRoot, ProcessTranslationTable}
use enml.Spaces
use enml.Kernel.{Kernel, init, tracked, synchronise, synchronise_thread, synchronise_pair}
use enml.Kernel.Threads.{
  create_thread, create_admitted_thread, thread_start, destroy_thread, released_ipc, send, receive,
  reply, yield_thread, schedule,
}
use enml.Kernel.Calls.{
  forget_waiting, ipc_send, ipc_receive, ipc_reply, ipc_reply_transaction, retire_ipc_endpoint,
  create_ipc_endpoint, ipc_take_reply, ipc_arm_send_continuation, ipc_take_send_continuation,
  ipc_take_receive_continuation, ipc_cancel_send_continuation, ipc_cancel_receive_continuation,
  ipc_arm_receive_continuation, ipc_take_expired_receive_continuation, ipc_take_deadline_expiry,
}
use enml.Kernel.Interrupts.{
  interrupt_attach, interrupt_detach, interrupt_complete, dispatch_interrupt,
  take_delivered_service, served, dispatched, collect_for,
}
use enml.Kernel.Admission.{thread_admit, address_space_create, address_space_complete_destroy}
use enml.Kernel.Admitted.{thread_admit-IsCreation}
use enml.Kernel.Synchronised.{accepted}
use enml.Kernel.Scheduled.{
  IsScheduled, yield_slice-IsHeld, choose-IsHeld, synchronise_thread-IsScheduled,
  synchronise_pair-IsScheduled, synchronise-IsScheduled, exchanged-IsScheduled, settled-IsScheduled,
  admit_created-IsScheduled, torn_down_after-IsScheduled,
}
use enml.Kernel.Agreement.{IsSynchronised}
use enml.Kernel.Preserved.{step-IsSynchronised}
use enml.Kernel.History.{
  Reached, starting, calling, outcome_of, Call, creates, creates_admitted, starts, destroys,
  receives, yields, schedules, sends, replies, ipc_creates, ipc_retires, ipc_sends, ipc_receives,
  ipc_replies, ipc_answers, ipc_takes, attaches, detaches, completes, dispatches, collects, admits,
  space_creates, space_completes, arms_send, takes_send, takes_receive, cancels_send,
  cancels_receive, takes_expired, takes_expiry, arms_receive, writes, step,
}

same-IsScheduled :
    (k k' : Kernel) → k'.scheduler ≡ k.scheduler → k'.live ≡ k.live → IsScheduled k → IsScheduled k'
same-IsScheduled k k' e f h = rw (e, f) h

create_admitted_thread-IsScheduled :
    (thread priority : ℕ) (k : Kernel)
    → IsScheduled k
    → accepted (create_admitted_thread thread priority k) ≡ true
    → IsScheduled (create_admitted_thread thread priority k).0
unfolding create_admitted_thread
create_admitted_thread-IsScheduled thread priority k h a =
    admit_created-IsScheduled thread priority k
      (Rendezvous.create_admitted_thread thread priority k.threads) h a

thread_admit-IsScheduled :
    (creator space stack : ℕ) (root : SealedTranslationRoot) (epochs : Spaces.Authority)
    (translations : ProcessTranslationTable) (executables : ExecutableRegionTable) (k : Kernel)
    → IsScheduled k
    → (outcome_of (thread_admit creator space stack root epochs translations executables k)).1
      ≡ true
    → IsScheduled (thread_admit creator space stack root epochs translations executables k).0
thread_admit-IsScheduled creator space stack root epochs translations executables k h a =
    elim (Result-cases
      (thread_admit creator space stack root epochs translations executables k).2) [
        | inr (x, e) ↦ absurd (ground (arith, a, e))
        | inl (d, e) ↦
            let (next, thread, priority, same, c) =
              thread_admit-IsCreation creator space stack root epochs translations executables k d
                e in
            subst IsScheduled (sym same) (
              create_admitted_thread-IsScheduled thread priority
                (record k { next_identifier = next }) h c)
      ]

yield_thread-IsScheduled :
    (self : ℕ) (k : Kernel) → IsScheduled k → IsScheduled (yield_thread self k).0
unfolding yield_thread
yield_thread-IsScheduled self k h = elim (Bool-cases (tracked self k.live)) [
  | inl e ↦ rw e (yield_slice-IsHeld k.scheduler k.live h self)
  | inr e ↦ rw e h
]

served-IsScheduled :
    (source : ℕ) (d : Dispatch) (k : Kernel) → IsScheduled k → IsScheduled (served source d k)
unfolding served collect_for
served-IsScheduled source d k h =
    let k' = collect_for d.owner source k in
    let v : IsScheduled k' = same-IsScheduled k k' (ground arith) (ground arith) h in
    elim (Bool-cases (d.wake && not (d.owner == 0))) [
      | inl e ↦ rw e (synchronise_thread-IsScheduled d.owner k' v)
      | inr e ↦ rw e h
    ]

dispatched-IsScheduled :
    (source : ℕ) (k : Kernel) (p : InterruptTable × Result InterruptError Dispatch)
    → IsScheduled k
    → IsScheduled (dispatched source k p).0
dispatched-IsScheduled source k (interrupts, err e) h = h
dispatched-IsScheduled source k (interrupts, ok d) h =
    served-IsScheduled source d (record k { interrupts = interrupts }) h

step-IsScheduled :
    (k : Kernel) (c : Call) → IsScheduled k → (step k c).1 ≡ true → IsScheduled (step k c).0
unfolding step create_thread destroy_thread thread_start send receive reply schedule
    create_ipc_endpoint retire_ipc_endpoint ipc_send ipc_receive ipc_reply ipc_reply_transaction
    ipc_take_reply interrupt_attach interrupt_detach interrupt_complete dispatch_interrupt
    take_delivered_service address_space_create address_space_complete_destroy
    ipc_arm_send_continuation ipc_take_send_continuation ipc_take_receive_continuation
    ipc_cancel_send_continuation ipc_cancel_receive_continuation
    ipc_take_expired_receive_continuation ipc_take_deadline_expiry ipc_arm_receive_continuation
step-IsScheduled k (creates thread priority) h a =
    admit_created-IsScheduled thread priority k (Rendezvous.create_thread thread priority k.threads)
      h a
step-IsScheduled k (creates_admitted thread priority) h a =
    create_admitted_thread-IsScheduled thread priority k h a
step-IsScheduled k (starts thread) h a =
    exchanged-IsScheduled k (λ _. synchronise_thread thread)
      (λ _. synchronise_thread-IsScheduled thread) (start_thread thread k.threads) h
step-IsScheduled k (destroys thread) h a =
    let (k', retired) = released_ipc thread k in
    torn_down_after-IsScheduled thread retired k' (exit_thread thread k'.threads) h
step-IsScheduled k (receives thread) h a =
    exchanged-IsScheduled k (λ x. synchronise_pair thread x)
      (λ x. synchronise_pair-IsScheduled thread x) (Messages.receive thread k.threads) h
step-IsScheduled k (yields thread) h a = yield_thread-IsScheduled thread k h
step-IsScheduled k (schedules now) h a = choose-IsHeld k.scheduler k.live h now
step-IsScheduled k (sends from to) h a =
    exchanged-IsScheduled k (λ _. synchronise_pair from to)
      (λ _. synchronise_pair-IsScheduled from to) (Messages.send from to k.threads) h
step-IsScheduled k (replies self caller) h a =
    exchanged-IsScheduled k (λ _. synchronise_pair self caller)
      (λ _. synchronise_pair-IsScheduled self caller) (Messages.reply self caller k.threads) h
step-IsScheduled k (ipc_creates server) h a =
    same-IsScheduled k (create_ipc_endpoint server k).0 (ground arith) (ground arith) h
step-IsScheduled k (ipc_retires server e) h a =
    let forget = forget_waiting (Exchange.receive_waiting e k.ipc) server in
    settled-IsScheduled k (λ _ k'. synchronise (forget k'))
      (λ _ k' g.
        synchronise-IsScheduled (forget k')
          (same-IsScheduled k' (forget k') (ground arith) (ground arith) g))
      (Lifetime.retire server e k.ipc k.threads) h
step-IsScheduled k (ipc_sends caller capability request) h a =
    settled-IsScheduled k (λ _ k'. synchronise k') (λ _. synchronise-IsScheduled)
      (Exchange.send caller capability k.capabilities request k.ipc k.threads) h
step-IsScheduled k (ipc_receives server capability) h a =
    settled-IsScheduled k (λ received k'. synchronise_pair (thread_of server) received.caller k')
      (λ received. synchronise_pair-IsScheduled (thread_of server) received.caller)
      (Exchange.receive_call server capability k.capabilities k.ipc k.threads) h
step-IsScheduled k (ipc_replies server seal response) h a =
    settled-IsScheduled k (λ _ k'. synchronise_pair (thread_of server) seal.caller k')
      (λ _. synchronise_pair-IsScheduled (thread_of server) seal.caller)
      (Exchange.reply_as server seal response k.ipc k.threads) h
step-IsScheduled k (ipc_answers server transaction response) h a =
    settled-IsScheduled k (λ _ k'. synchronise k') (λ _. synchronise-IsScheduled)
      (Exchange.reply_transaction server transaction response k.ipc k.threads) h
step-IsScheduled k (ipc_takes caller) h a =
    same-IsScheduled k (ipc_take_reply caller k).0 (ground arith) (ground arith) h
step-IsScheduled k (attaches driver capability) h a =
    same-IsScheduled k (interrupt_attach driver capability k).0 (ground arith) (ground arith) h
step-IsScheduled k (detaches driver capability) h a =
    same-IsScheduled k (interrupt_detach driver capability k).0 (ground arith) (ground arith) h
step-IsScheduled k (completes driver capability) h a =
    same-IsScheduled k (interrupt_complete driver capability k).0 (ground arith) (ground arith) h
step-IsScheduled k (dispatches source) h a =
    dispatched-IsScheduled source k (Interrupt.dispatch source k.interrupts) h
step-IsScheduled k (collects driver) h a =
    same-IsScheduled k (take_delivered_service driver k).0 (ground arith) (ground arith) h
step-IsScheduled k (admits creator space stack root epochs translations executables) h a =
    thread_admit-IsScheduled creator space stack root epochs translations executables k h a
step-IsScheduled k (space_creates creator authority epochs) h a =
    same-IsScheduled k (address_space_create creator authority epochs k).0 (ground arith)
      (ground arith) h
step-IsScheduled k (space_completes owner space retiring epochs) h a =
    same-IsScheduled k (address_space_complete_destroy owner space retiring epochs k).0
      (ground arith) (ground arith) h
step-IsScheduled k (arms_send caller epoch address epochs) h a =
    same-IsScheduled k (ipc_arm_send_continuation caller epoch address epochs k).0 (ground arith)
      (ground arith) h
step-IsScheduled k (takes_send caller expected epochs) h a =
    same-IsScheduled k (ipc_take_send_continuation caller expected epochs k).0 (ground arith)
      (ground arith) h
step-IsScheduled k (takes_receive server expected epochs) h a =
    same-IsScheduled k (ipc_take_receive_continuation server expected epochs k).0 (ground arith)
      (ground arith) h
step-IsScheduled k (cancels_send caller) h a =
    same-IsScheduled k (ipc_cancel_send_continuation caller k).0 (ground arith) (ground arith) h
step-IsScheduled k (cancels_receive server) h a =
    same-IsScheduled k (ipc_cancel_receive_continuation server k).0 (ground arith) (ground arith) h
step-IsScheduled k (takes_expired now) h a =
    same-IsScheduled k (ipc_take_expired_receive_continuation now k).0 (ground arith) (ground arith)
      h
step-IsScheduled k (takes_expiry thread) h a =
    same-IsScheduled k (ipc_take_deadline_expiry thread k).0 (ground arith) (ground arith) h
step-IsScheduled k (arms_receive server epoch endpoint address epochs deadline) h a =
    same-IsScheduled k
      (ipc_arm_receive_continuation server epoch endpoint address epochs deadline k).0
      (ground arith) (ground arith) h
step-IsScheduled k (writes capabilities interrupts) h a = h

-- The scheduler has the thread, and where the rendezvous table has it too, has it runnable exactly if
-- it is ready there, at the priority that it has by what waits on it.
abbrev pub IsInLine : Kernel → ℕ → Type 0
IsInLine k j =
    (b : Scheduler.Slot) × (find j k.scheduler.slots ≡ some b)
    × ((a : Rendezvous.Slot)
        → find j k.threads.slots ≡ some a
        → (b.runnable ≡ is_ready a.state) × (b.effective ≡ inherited_priority j k.threads))

Reached-both : (k : Kernel) → Reached k → IsSynchronised k × IsScheduled k
unfolding init tracked
Reached-both _ starting = (
  (λ j t. absurd (ground (arith, t))),
  record { sound = init-Inv; once = tt; there = λ j t. absurd (ground (arith, t)) },
)
Reached-both _ (calling k c r a) =
    let (v, h) = Reached-both k r in (step-IsSynchronised k c v a, step-IsScheduled k c h a)

-- In every state that accepted calls other than `ipc_expire_one_receive` lead to from a new kernel,
-- writes to the capability and the interrupt table between the calls included: the scheduler has
-- every thread that the kernel tracks, and where the rendezvous table has the thread too, the
-- scheduler has it runnable exactly if it is ready there, at its effective priority.
pub Reached-IsInLine : (k : Kernel) → Reached k → (j : ℕ) → tracked j k.live ≡ true → IsInLine k j
Reached-IsInLine k r j t =
    let (v, h) = Reached-both k r in
    elim (Option-cases (find j k.scheduler.slots)) [
      | inl e ↦ absurd (h.there j t e)
      | inr (b, e) ↦ (b, e, λ a p. v j t a b p e)
    ]
