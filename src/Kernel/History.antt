-- ===== src/Kernel/History.antt =====
-- Histories of kernel calls (core/oskernel/src/kernel.cpp).
use enml.Base.{ℕ, Bool, true, Result, ◌≡◌}
use enml.Capability.{Claimant, CapabilityTable}
use enml.Interrupt.{InterruptTable}
use enml.Spaces.{AddressSpaceEpoch}
use enml.Spaces
use enml.Regions.{ExecutableRegionTable}
use enml.Translations.{SealedTranslationRoot, ProcessTranslationTable}
use enml.Endpoints.{IpcEndpoint, IpcEnvelope, IpcReplySeal}
use enml.Kernel.{Kernel, KernelError, init}
use enml.Kernel.Threads.{
  create_thread, create_admitted_thread, thread_start, destroy_thread, send, receive, reply,
  yield_thread, schedule,
}
use enml.Kernel.Calls.{
  ipc_send, ipc_receive, ipc_reply, ipc_reply_transaction, retire_ipc_endpoint, create_ipc_endpoint,
  ipc_take_reply, ipc_arm_send_continuation, ipc_take_send_continuation,
  ipc_take_receive_continuation, ipc_cancel_send_continuation, ipc_cancel_receive_continuation,
  ipc_arm_receive_continuation, ipc_take_expired_receive_continuation, ipc_take_deadline_expiry,
}
use enml.Kernel.Interrupts.{
  interrupt_attach, interrupt_detach, interrupt_complete, dispatch_interrupt,
  take_delivered_service,
}
use enml.Kernel.Admission.{thread_admit, address_space_create, address_space_complete_destroy}
use enml.Kernel.Synchronised.{accepted}

-- The calls by which the state of the kernel changes, but `ipc_expire_one_receive`. The last is a write
-- through the accessors of the capability and the interrupt table, to whatever content.
pub data Call : Type 0 where
  creates creates_admitted : ℕ → ℕ → Call
  starts destroys receives yields schedules : ℕ → Call
  sends replies : ℕ → ℕ → Call
  ipc_creates : ℕ → Call
  ipc_retires : ℕ → IpcEndpoint → Call
  ipc_sends : Claimant → ℕ → IpcEnvelope → Call
  ipc_receives : Claimant → ℕ → Call
  ipc_replies : Claimant → IpcReplySeal → IpcEnvelope → Call
  ipc_answers : Claimant → ℕ → IpcEnvelope → Call
  ipc_takes : Claimant → Call
  attaches detaches completes : ℕ → ℕ → Call
  dispatches collects : ℕ → Call
  admits :
      ℕ
      → ℕ
      → ℕ
      → SealedTranslationRoot
      → Spaces.Authority
      → ProcessTranslationTable
      → ExecutableRegionTable
      → Call
  space_creates : ℕ → ℕ → Spaces.Authority → Call
  space_completes : ℕ → ℕ → AddressSpaceEpoch → Spaces.Authority → Call
  arms_send : ℕ → AddressSpaceEpoch → ℕ → Spaces.Authority → Call
  takes_send takes_receive : ℕ → AddressSpaceEpoch → Spaces.Authority → Call
  cancels_send cancels_receive takes_expired takes_expiry : ℕ → Call
  arms_receive : ℕ → AddressSpaceEpoch → ℕ → ℕ → Spaces.Authority → ℕ → Call
  writes : CapabilityTable → InterruptTable → Call

-- The state after a call, and whether it was accepted.
abbrev pub outcome : {A : Type 0} → Kernel × Result KernelError A → Kernel × Bool
outcome p = (p.0, accepted p)

-- A call that hands a second table back.
abbrev pub outcome_of : {A B : Type 0} → Kernel × B × Result KernelError A → Kernel × Bool
outcome_of p = (p.0, accepted (p.0, p.2))

unfoldable pub step : Kernel → Call → Kernel × Bool
step k (creates thread priority) = outcome (create_thread thread priority k)
step k (creates_admitted thread priority) = outcome (create_admitted_thread thread priority k)
step k (starts thread) = outcome (thread_start thread k)
step k (destroys thread) = outcome (destroy_thread thread k)
step k (receives thread) = outcome (receive thread k)
step k (yields thread) = outcome (yield_thread thread k)
step k (schedules now) = ((schedule now k).0, true)
step k (sends from to) = outcome (send from to k)
step k (replies self caller) = outcome (reply self caller k)
step k (ipc_creates server) = outcome (create_ipc_endpoint server k)
step k (ipc_retires server e) = outcome (retire_ipc_endpoint server e k)
step k (ipc_sends caller capability request) = outcome (ipc_send caller capability request k)
step k (ipc_receives server capability) = outcome (ipc_receive server capability k)
step k (ipc_replies server seal response) = outcome (ipc_reply server seal response k)
step k (ipc_answers server transaction response) =
    outcome (ipc_reply_transaction server transaction response k)
step k (ipc_takes caller) = outcome (ipc_take_reply caller k)
step k (attaches driver capability) = outcome (interrupt_attach driver capability k)
step k (detaches driver capability) = outcome (interrupt_detach driver capability k)
step k (completes driver capability) = outcome (interrupt_complete driver capability k)
step k (dispatches source) = outcome (dispatch_interrupt source k)
step k (collects driver) = outcome (take_delivered_service driver k)
step k (admits creator space stack root epochs translations executables) =
    outcome_of (thread_admit creator space stack root epochs translations executables k)
step k (space_creates creator authority epochs) =
    outcome_of (address_space_create creator authority epochs k)
step k (space_completes owner space retiring epochs) =
    outcome_of (address_space_complete_destroy owner space retiring epochs k)
step k (arms_send caller epoch address epochs) =
    outcome (ipc_arm_send_continuation caller epoch address epochs k)
step k (takes_send caller expected epochs) =
    outcome (ipc_take_send_continuation caller expected epochs k)
step k (takes_receive server expected epochs) =
    outcome (ipc_take_receive_continuation server expected epochs k)
step k (cancels_send caller) = outcome (ipc_cancel_send_continuation caller k)
step k (cancels_receive server) = outcome (ipc_cancel_receive_continuation server k)
step k (takes_expired now) = outcome (ipc_take_expired_receive_continuation now k)
step k (takes_expiry thread) = outcome (ipc_take_deadline_expiry thread k)
step k (arms_receive server epoch endpoint address epochs deadline) =
    outcome (ipc_arm_receive_continuation server epoch endpoint address epochs deadline k)
step k (writes capabilities interrupts) =
    (record k { capabilities = capabilities; interrupts = interrupts }, true)

-- The states that accepted calls lead to.
pub data Reached : Kernel → Type 0 where
  starting : Reached init
  calling : (k : Kernel) (c : Call) → Reached k → (step k c).1 ≡ true → Reached (step k c).0
