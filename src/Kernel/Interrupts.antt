-- ===== src/Kernel/Interrupts.antt =====
-- The kernel's calls on interrupt sources (core/oskernel/src/kernel.cpp).
use enml.Base.{ℕ, ◌==◌, if◌then◌else◌, Bool, ◌&&◌, not, Result, ok, err}
use enml.Interrupt.{InterruptTable, InterruptError, Dispatch, Service}
use enml.Interrupt
use enml.Delivery
use enml.Objects.{interrupt_source_for_capability}
use enml.Kernel.{
  Kernel, KernelError, authority_error, interrupt_error, delivery_error, synchronise_thread,
}

-- A call of the interrupt table for the source that a capability names.
abbrev pub for_source :
    {A : Type 0}
    → ℕ
    → ℕ
    → Kernel
    → (ℕ → InterruptTable → InterruptTable × Result InterruptError A)
    → Kernel × Result KernelError A
for_source driver capability k act =
    elim (interrupt_source_for_capability driver capability k.capabilities) [
      | err e ↦ (k, err (authority_error e))
      | ok source ↦
          let (interrupts, result) = act source k.interrupts in
          (
            record k { interrupts = interrupts },
            elim result [ err e ↦ err (interrupt_error e) | ok a ↦ ok a ],
          )
    ]

unfoldable pub interrupt_attach : ℕ → ℕ → Kernel → Kernel × Result KernelError (Unit {0})
interrupt_attach driver capability k = for_source driver capability k (Interrupt.attach driver)

unfoldable pub interrupt_detach : ℕ → ℕ → Kernel → Kernel × Result KernelError (Unit {0})
interrupt_detach driver capability k = for_source driver capability k (Interrupt.detach driver)

unfoldable pub interrupt_complete : ℕ → ℕ → Kernel → Kernel × Result KernelError Bool
interrupt_complete driver capability k =
    for_source driver capability k (Interrupt.end_service driver)

-- The source is collected for its driver, unless the driver has not picked up the one before.
unfoldable pub collect_for : ℕ → ℕ → Kernel → Kernel
collect_for owner source k =
    if Delivery.armed owner k.deliveries
    then k
    else let (interrupts, serviced) = Interrupt.begin_service owner source k.interrupts in
      elim serviced [
        | err _ ↦ record k { interrupts = interrupts }
        | ok s ↦ record k {
          interrupts = interrupts;
          deliveries = (Delivery.arm owner source s k.deliveries).0;
        }
      ]

-- What the kernel does for a source that asked for a wake-up.
unfoldable pub served : ℕ → Dispatch → Kernel → Kernel
served source d k =
    if d.wake && not (d.owner == 0)
    then synchronise_thread d.owner (collect_for d.owner source k)
    else k

abbrev pub dispatched :
    ℕ
    → Kernel
    → InterruptTable × Result InterruptError Dispatch
    → Kernel × Result KernelError Dispatch
dispatched source k (interrupts, err e) =
    (record k { interrupts = interrupts }, err (interrupt_error e))
dispatched source k (interrupts, ok d) =
    (served source d (record k { interrupts = interrupts }), ok d)

unfoldable pub dispatch_interrupt : ℕ → Kernel → Kernel × Result KernelError Dispatch
dispatch_interrupt source k = dispatched source k (Interrupt.dispatch source k.interrupts)

unfoldable pub take_delivered_service : ℕ → Kernel → Kernel × Result KernelError Service
take_delivered_service driver k =
    let (deliveries, taken) = Delivery.take driver k.deliveries in
    (
      record k { deliveries = deliveries },
      elim taken [ err e ↦ err (delivery_error e) | ok s ↦ ok s ],
    )
