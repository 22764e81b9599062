-- ===== src/Lib.antt =====
-- The core of the Cookie kernel (core/oskernel): the tables that decide who runs, who talks to
-- whom, who may do what, who is woken by the hardware, which address spaces and memory ranges are
-- in use, and which deadline is armed. Each is a class of its own in the source that keeps a
-- fixed state and refuses by an error code; the system calls of core/oskernel/src/kernel.cpp
-- compose them.
--
-- * Capability models core/oskernel/src/capability.cpp: mint, grant, holds, describe, and, in
--   Capability/Revoke, revoke, revoke_all_held_by and the marking passes of sweep_doomed. The
--   overloads for a thread number and for an execution authority are one operation on a Claimant.
-- * Rendezvous models core/oskernel/src/rendezvous.cpp: threads, their priorities and their exit,
--   and in Rendezvous/Messages send, receive, reply and the blocking halves of each.
-- * Scheduler models core/oskernel/src/scheduler.cpp: admit, retire, update, yield_slice, choose.
-- * Interrupt models core/oskernel/src/interrupt.cpp: attach, detach, dispatch, begin_service,
--   end_service, detach_all_owned_by.
-- * Spaces models core/oskernel/src/address_space_epoch.cpp: acquire, begin_retire,
--   complete_retire, resolve, and active and retiring as is_active and is_retiring.
-- * Grants models core/oskernel/src/memory_grant.cpp: create, resolve, revoke, contains.
-- * Deadlines models core/oskernel/src/scheduler_deadline.cpp: prepare, commit, apply,
--   accept_interrupt, narrow_decision_timer.
-- * Continuations models core/oskernel/src/ipc_continuation.cpp, over the epochs of Spaces: arm,
--   take, cancel, the same for receivers, their deadlines, and release_thread.
-- * Delivery models core/oskernel/src/interrupt_delivery.cpp, Regions executable_region.cpp and
--   Translations process_translation.cpp beside it: what a woken driver collects, which part of a
--   space may be executed, and under which translation root a thread runs.
-- * FaultRegions models core/oskernel/src/fault_region.cpp and FaultDelivery fault_delivery.cpp: the
--   ranges whose page faults a pager may be asked about, and the question until its answer.
-- * Objects models the identifiers that capabilities carry and the checks of a presented
--   capability at the top of core/oskernel/src/kernel.cpp.
-- * Endpoints models core/oskernel/src/ipc_endpoint.cpp: in Endpoints/Lifetime the creation and
--   retirement of endpoints, in Endpoints/Exchange send, receive, reply and take_reply. They read
--   the capability table and write the rendezvous table.
-- * Kernel models core/oskernel/src/kernel.cpp, the class that owns these tables: in
--   Kernel/Threads threads and plain messages, in Kernel/Calls the calls on endpoints and
--   continuations, in Kernel/Interrupts those on interrupt sources, in Kernel/Memory mapping and
--   unmapping, in Kernel/Admission address spaces and thread admission, with the decoders of
--   map_syscall.cpp, address_space_syscall.cpp and thread_admission.cpp.
-- * Table is what the slot tables share: an array of slots that is searched by a key, written through
--   the pointer that the search returned, filled at the first free slot and cleared by a test.
-- * Base holds results, list operations on the native numbers and machine arithmetic.
--
-- State is a record with the class's fields, under their names without the trailing underscore. An
-- operation takes the state last and returns the new state with the result; a query returns the
-- result alone. Error codes are constructors with the names of the source. Histories are lists of
-- calls, run one after the other from the initial state.
--
-- Bounds: 64 threads and interrupt sources, 256 capabilities, derivations at most 8 deep, 63
-- address spaces and 64 memory grants, as in the source. Counters wrap at 64 bits and assertion counts stop at their
-- ceiling of 32 bits. The loops run over the array, so they need no fuel, except that the marking
-- passes are bounded by the depth of derivations, as the source bounds them.
--
-- Not modelled: the register decoding of the IPC calls, boot-time discovery, the
-- machine layers (hardware effects), and everything outside the kernel core.
pub mod Base
pub mod Capability
pub mod Continuations
pub mod Deadlines
pub mod Delivery
pub mod Endpoints
pub mod FaultDelivery
pub mod FaultRegions
pub mod Grants
pub mod Interrupt
pub mod Kernel
pub mod Objects
pub mod Regions
pub mod Rendezvous
pub mod Scheduler
pub mod Spaces
pub mod Table
pub mod Translations
