-- ===== src/Kernel/Preserved.antt =====
-- Histories of kernel calls, and the agreement of the rendezvous table with the scheduler along them
-- (core/oskernel/src/kernel.cpp).
use enml.Base.{
  ℕ, ◌==◌, if◌then◌else◌, Bool, true, false, ◌&&◌, not, Result, ok, err, ◌≡◌, ◌≢◌, inr, refl, arith,
}
use enml.Capability.{Claimant, thread_of}
use enml.Rendezvous.{Rendezvous}
use enml.Rendezvous.Bystanders.{IsUnmoved}
use enml.Endpoints.{IpcEndpointTable, IpcError, IpcEnvelope, IpcReplySeal}
use enml.Endpoints.Exchange
use enml.Endpoints.Lifetime
use enml.Endpoints.Bystanders.{receive_call-IsUnmoved, reply_as-IsUnmoved}
use enml.Kernel.{Kernel, synchronise_pair, synchronise_thread, synchronise}
use enml.Kernel.Calls.{
  settled, with_ipc, ipc_send, ipc_receive, ipc_reply, ipc_reply_transaction, retire_ipc_endpoint,
  forget_waiting, create_ipc_endpoint, ipc_take_reply,
}
use enml.Kernel.Interrupts.{
  interrupt_attach, interrupt_detach, interrupt_complete, dispatch_interrupt, dispatched, served,
  collect_for, take_delivered_service,
}
use enml.Interrupt.{InterruptTable, InterruptError, Dispatch}
use enml.Interrupt
use enml.Kernel.Agreement.{
  IsSynchronised, moved-IsAligned, synchronise_thread-IsAligned, synchronise_thread_fixed,
  synchronise_pair-IsSynchronised, synchronise-IsSynchronised,
}
use enml.Kernel.Synchronised.{
  accepted, create_thread-IsSynchronised, create_admitted_thread-IsSynchronised,
  thread_start-IsSynchronised, destroy_thread-IsSynchronised, send-IsSynchronised,
  receive-IsSynchronised, reply-IsSynchronised, yield_thread-IsSynchronised,
  schedule-IsSynchronised,
}
use enml.Kernel.Calls.{
  ipc_arm_send_continuation, ipc_take_send_continuation, ipc_take_receive_continuation,
  ipc_cancel_send_continuation, ipc_cancel_receive_continuation, ipc_arm_receive_continuation,
  ipc_take_expired_receive_continuation, ipc_take_deadline_expiry,
}
use enml.Kernel.Admission.{thread_admit, address_space_create, address_space_complete_destroy}
use enml.Table.{find, modify}
use enml.Table.Laws.{find-modify}
use enml.Rendezvous.{is_deadline_expired, slot_keyed as thread_keyed}
use enml.Rendezvous.Messages.{clear_wake}
use enml.Rendezvous.Messages
use enml.Rendezvous.Bystanders.{inherited_priority-clear_wake}
use enml.Regions.{ExecutableRegionTable}
use enml.Translations.{SealedTranslationRoot, ProcessTranslationTable}
use enml.Spaces
use enml.Base.{Option-cases, Bool-cases, Result-cases, subst, sym, ◌⊎◌, inl}
use enml.Kernel.Agreement.{IsAligned}
use enml.Kernel.Admitted.{thread_admit-IsCreation}
use enml.Kernel.History.{
  outcome_of, Call, creates, creates_admitted, starts, destroys, receives, yields, schedules, sends,
  replies, ipc_creates, ipc_retires, ipc_sends, ipc_receives, ipc_replies, ipc_answers, ipc_takes,
  attaches, detaches, completes, dispatches, collects, admits, space_creates, space_completes,
  arms_send, takes_send, takes_receive, cancels_send, cancels_receive, takes_expired, takes_expiry,
  arms_receive, writes, step,
}

module _ {A : Type 0} (k : Kernel) where
  -- A call of the endpoints after which every thread is brought in line.
  settled_all-IsSynchronised :
      (f : Kernel → Kernel) (p : IpcEndpointTable × Rendezvous × Result IpcError A)
      → accepted (settled k (λ _ k'. synchronise (f k')) p) ≡ true
      → IsSynchronised (settled k (λ _ k'. synchronise (f k')) p).0
  settled_all-IsSynchronised f (ipc, threads, err e) a j u = absurd (ground (arith, a))
  settled_all-IsSynchronised f (ipc, threads, ok b) a j u = synchronise-IsSynchronised _ j u

  -- A call of the endpoints that moves two threads at most.
  settled_pair-IsSynchronised :
      (x : ℕ) (y : A → ℕ) (p : IpcEndpointTable × Rendezvous × Result IpcError A)
      → IsSynchronised k
      → accepted (settled k (λ a k'. synchronise_pair x (y a) k') p) ≡ true
      → ((j : ℕ) (a : A) → p.2 ≡ ok a → x ≢ j → y a ≢ j → IsUnmoved j k.threads p.1)
      → IsSynchronised (settled k (λ a k'. synchronise_pair x (y a) k') p).0
  settled_pair-IsSynchronised x y (ipc, threads, err e) v a m = absurd (ground (arith, a))
  settled_pair-IsSynchronised x y (ipc, threads, ok b) v a m =
      synchronise_pair-IsSynchronised x (y b) k (with_ipc ipc threads k) refl refl
        (λ j n o. m j b refl n o) v

same-IsSynchronised :
    (k k' : Kernel)
    → k'.threads ≡ k.threads
    → k'.scheduler ≡ k.scheduler
    → k'.live ≡ k.live
    → IsSynchronised k
    → IsSynchronised k'
same-IsSynchronised k k' e f g v j t =
    moved-IsAligned j k k' (ground (arith, e)) f (v j (ground (arith, g, t)))

module _ (k : Kernel) (v : IsSynchronised k) where
  ipc_receive-IsSynchronised :
      (server : Claimant) (capability : ℕ)
      → accepted (ipc_receive server capability k) ≡ true
      → IsSynchronised (ipc_receive server capability k).0
  unfolding ipc_receive
  ipc_receive-IsSynchronised server capability a =
      settled_pair-IsSynchronised k (thread_of server) (λ received. received.caller)
        (Exchange.receive_call server capability k.capabilities k.ipc k.threads) v a
        (λ j received e n o.
          receive_call-IsUnmoved j server capability k.capabilities k.ipc k.threads received e n o)

  ipc_reply-IsSynchronised :
      (server : Claimant) (seal : IpcReplySeal) (response : IpcEnvelope)
      → accepted (ipc_reply server seal response k) ≡ true
      → IsSynchronised (ipc_reply server seal response k).0
  unfolding ipc_reply
  ipc_reply-IsSynchronised server seal response a =
      settled_pair-IsSynchronised k (thread_of server) (λ _. seal.caller)
        (Exchange.reply_as server seal response k.ipc k.threads) v a
        (λ j b e n o. reply_as-IsUnmoved j server seal response k.ipc k.threads n o)

  collect_for_fixed :
      (owner source : ℕ)
      → let k' = collect_for owner source k in
        (k'.threads ≡ k.threads) × (k'.scheduler ≡ k.scheduler) × (k'.live ≡ k.live)
  unfolding collect_for
  collect_for_fixed owner source = ground arith

  synchronise_thread-IsSynchronised : (t : ℕ) → IsSynchronised (synchronise_thread t k)
  synchronise_thread-IsSynchronised t j u =
      synchronise_thread-IsAligned t j k
        (inr (v j (ground (arith, u, synchronise_thread_fixed t k))))

either-IsSynchronised :
    (c : Bool) (k k' : Kernel)
    → IsSynchronised k
    → IsSynchronised k'
    → IsSynchronised (if c then k else k')
either-IsSynchronised true k k' v w = v
either-IsSynchronised false k k' v w = w

served-IsSynchronised :
    (source : ℕ) (d : Dispatch) (k : Kernel) → IsSynchronised k → IsSynchronised (served source d k)
unfolding served
served-IsSynchronised source d k v =
    let k' = collect_for d.owner source k in
    let fixed = collect_for_fixed k v d.owner source in
    either-IsSynchronised (d.wake && not (d.owner == 0)) (synchronise_thread d.owner k') k
      (synchronise_thread-IsSynchronised k' (same-IsSynchronised k k' fixed.0 fixed.1 fixed.2 v)
        d.owner)
      v

dispatched-IsSynchronised :
    (source : ℕ) (k : Kernel) (p : InterruptTable × Result InterruptError Dispatch)
    → IsSynchronised k
    → IsSynchronised (dispatched source k p).0
dispatched-IsSynchronised source k (interrupts, err e) v =
    same-IsSynchronised k (record k { interrupts = interrupts }) refl refl refl v
dispatched-IsSynchronised source k (interrupts, ok d) v =
    served-IsSynchronised source d (record k { interrupts = interrupts })
      (same-IsSynchronised k (record k { interrupts = interrupts }) refl refl refl v)

-- A wake reason that is cleared changes neither who is ready nor at what priority.
cleared-IsAligned :
    (self j : ℕ) (k : Kernel)
    → IsAligned j k
    → IsAligned j
        (record k { threads = record k.threads { slots = modify self clear_wake k.threads.slots } })
cleared-IsAligned self j k v a b p q =
    let moved = find-modify self j clear_wake k.threads.slots (λ c. (refl, refl)) in
    elim (Option-cases (find j k.threads.slots)) [
      | inl e ↦ absurd (ground (arith, e, p, moved))
      | inr (c, e) ↦
          ground (arith, e, p, moved, v c b e q, inherited_priority-clear_wake self j k.threads)
    ]

ipc_take_deadline_expiry-IsSynchronised :
    (thread : ℕ) (k : Kernel)
    → IsSynchronised k
    → IsSynchronised (ipc_take_deadline_expiry thread k).0
unfolding ipc_take_deadline_expiry Messages.take_deadline_expiry
ipc_take_deadline_expiry-IsSynchronised thread k v =
    let k' = (ipc_take_deadline_expiry thread k).0 in
    let cleared = record k {
      threads = record k.threads { slots = modify thread clear_wake k.threads.slots };
    } in
    let either : (k ≡ k') ⊎ (cleared ≡ k') = elim (Bool-cases (thread == 0)) [
      | inl z ↦ inl (ground (arith, z))
      | inr z ↦ elim (Option-cases (find thread k.threads.slots)) [
        | inl e ↦ inl (ground (arith, z, e))
        | inr (a, e) ↦ elim (Bool-cases (is_deadline_expired a.wake)) [
          | inl w ↦ inr (ground (arith, z, e, w))
          | inr w ↦ inl (ground (arith, z, e, w))
        ]
      ]
    ] in
    elim either [
      | inl e ↦ subst IsSynchronised e v
      | inr e ↦ subst IsSynchronised e (λ j t. cleared-IsAligned thread j k (v j t))
    ]

thread_admit-IsSynchronised :
    (creator space stack : ℕ) (root : SealedTranslationRoot) (epochs : Spaces.Authority)
    (translations : ProcessTranslationTable) (executables : ExecutableRegionTable) (k : Kernel)
    → IsSynchronised k
    → (outcome_of (thread_admit creator space stack root epochs translations executables k)).1
      ≡ true
    → IsSynchronised (thread_admit creator space stack root epochs translations executables k).0
thread_admit-IsSynchronised creator space stack root epochs translations executables k v a =
    elim (Result-cases
      (thread_admit creator space stack root epochs translations executables k).2) [
        | inr (x, e) ↦ absurd (ground (arith, a, e))
        | inl (d, e) ↦
            let (next, thread, priority, same, c) =
              thread_admit-IsCreation creator space stack root epochs translations executables k d
                e in
            subst IsSynchronised (sym same) (
              create_admitted_thread-IsSynchronised (record k { next_identifier = next }) v thread
                priority c)
      ]

pub step-IsSynchronised :
    (k : Kernel) (c : Call) → IsSynchronised k → (step k c).1 ≡ true → IsSynchronised (step k c).0
unfolding step create_ipc_endpoint retire_ipc_endpoint ipc_send ipc_reply_transaction ipc_take_reply
    interrupt_attach interrupt_detach interrupt_complete dispatch_interrupt take_delivered_service
    address_space_create address_space_complete_destroy ipc_arm_send_continuation
    ipc_take_send_continuation ipc_take_receive_continuation ipc_cancel_send_continuation
    ipc_cancel_receive_continuation ipc_take_expired_receive_continuation
    ipc_arm_receive_continuation
step-IsSynchronised k (creates thread priority) v a =
    create_thread-IsSynchronised k v thread priority a
step-IsSynchronised k (creates_admitted thread priority) v a =
    create_admitted_thread-IsSynchronised k v thread priority a
step-IsSynchronised k (starts thread) v a = thread_start-IsSynchronised k v thread a
step-IsSynchronised k (destroys thread) v a = destroy_thread-IsSynchronised k v thread a
step-IsSynchronised k (receives thread) v a = receive-IsSynchronised k v thread a
step-IsSynchronised k (yields thread) v a = yield_thread-IsSynchronised k v thread
step-IsSynchronised k (schedules now) v a = schedule-IsSynchronised k v now
step-IsSynchronised k (sends from to) v a = send-IsSynchronised k v from to a
step-IsSynchronised k (replies self caller) v a = reply-IsSynchronised k v self caller a
step-IsSynchronised k (ipc_creates server) v a =
    same-IsSynchronised k (create_ipc_endpoint server k).0 (ground arith) (ground arith)
      (ground arith) v
step-IsSynchronised k (ipc_retires server e) v a =
    settled_all-IsSynchronised k (forget_waiting (Exchange.receive_waiting e k.ipc) server)
      (Lifetime.retire server e k.ipc k.threads) a
step-IsSynchronised k (ipc_sends caller capability request) v a =
    settled_all-IsSynchronised k (λ k'. k')
      (Exchange.send caller capability k.capabilities request k.ipc k.threads) a
step-IsSynchronised k (ipc_receives server capability) v a =
    ipc_receive-IsSynchronised k v server capability a
step-IsSynchronised k (ipc_replies server seal response) v a =
    ipc_reply-IsSynchronised k v server seal response a
step-IsSynchronised k (ipc_answers server transaction response) v a =
    settled_all-IsSynchronised k (λ k'. k')
      (Exchange.reply_transaction server transaction response k.ipc k.threads) a
step-IsSynchronised k (ipc_takes caller) v a =
    same-IsSynchronised k (ipc_take_reply caller k).0 (ground arith) (ground arith) (ground arith) v
step-IsSynchronised k (attaches driver capability) v a =
    same-IsSynchronised k (interrupt_attach driver capability k).0 (ground arith) (ground arith)
      (ground arith) v
step-IsSynchronised k (detaches driver capability) v a =
    same-IsSynchronised k (interrupt_detach driver capability k).0 (ground arith) (ground arith)
      (ground arith) v
step-IsSynchronised k (completes driver capability) v a =
    same-IsSynchronised k (interrupt_complete driver capability k).0 (ground arith) (ground arith)
      (ground arith) v
step-IsSynchronised k (dispatches source) v a =
    dispatched-IsSynchronised source k (Interrupt.dispatch source k.interrupts) v
step-IsSynchronised k (collects driver) v a =
    same-IsSynchronised k (take_delivered_service driver k).0 refl refl refl v
step-IsSynchronised k (admits creator space stack root epochs translations executables) v a =
    thread_admit-IsSynchronised creator space stack root epochs translations executables k v a
step-IsSynchronised k (space_creates creator authority epochs) v a =
    same-IsSynchronised k (address_space_create creator authority epochs k).0 (ground arith)
      (ground arith) (ground arith) v
step-IsSynchronised k (space_completes owner space retiring epochs) v a =
    same-IsSynchronised k (address_space_complete_destroy owner space retiring epochs k).0
      (ground arith) (ground arith) (ground arith) v
step-IsSynchronised k (arms_send caller epoch address epochs) v a =
    same-IsSynchronised k (ipc_arm_send_continuation caller epoch address epochs k).0 (ground arith)
      (ground arith) (ground arith) v
step-IsSynchronised k (takes_send caller expected epochs) v a =
    same-IsSynchronised k (ipc_take_send_continuation caller expected epochs k).0 (ground arith)
      (ground arith) (ground arith) v
step-IsSynchronised k (takes_receive server expected epochs) v a =
    same-IsSynchronised k (ipc_take_receive_continuation server expected epochs k).0 (ground arith)
      (ground arith) (ground arith) v
step-IsSynchronised k (cancels_send caller) v a =
    same-IsSynchronised k (ipc_cancel_send_continuation caller k).0 (ground arith) (ground arith)
      (ground arith) v
step-IsSynchronised k (cancels_receive server) v a =
    same-IsSynchronised k (ipc_cancel_receive_continuation server k).0 (ground arith) (ground arith)
      (ground arith) v
step-IsSynchronised k (takes_expired now) v a =
    same-IsSynchronised k (ipc_take_expired_receive_continuation now k).0 refl refl refl v
step-IsSynchronised k (takes_expiry thread) v a = ipc_take_deadline_expiry-IsSynchronised thread k v
step-IsSynchronised k (arms_receive server epoch endpoint address epochs deadline) v a =
    same-IsSynchronised k
      (ipc_arm_receive_continuation server epoch endpoint address epochs deadline k).0
      (ground arith) (ground arith) (ground arith) v
step-IsSynchronised k (writes capabilities interrupts) v a = v
