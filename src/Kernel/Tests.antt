-- ===== src/Kernel/Tests.antt =====
-- Concrete kernels (core/oskernel/src/kernel.cpp).
mod Memory
mod Leaving
use enml.Base.{ℕ, true, false, some, [], ◌∷◌, ok, ◌≡◌, refl, replicate, arith}
use enml.Table.{find, first, place, modify, first_where}
use enml.Scheduler.{admit, update, is_runnable, slot_keyed as scheduled_keyed}
use enml.Scheduler
use enml.Rendezvous.{
  state_of, effective_priority_of, inherited_priority, highest_of, create_in, block_send, ready,
}
use enml.Rendezvous
use enml.Rendezvous.Messages
use enml.Capability.{legacy, mint, CapabilityTable, no_identity}
use enml.Capability
use enml.Spaces.{AddressSpaceEpoch}
use enml.Spaces
use enml.Spaces.Lifetimes
use enml.Grants
use enml.Regions.{ExecutableRegionTable}
use enml.Regions
use enml.Translations.{SealedTranslationRoot}
use enml.Translations
use enml.Continuations.{IpcReceiveContinuation, take_expired_receive, expired_from}
use enml.Continuations
use enml.Kernel.{
  Kernel, init, tracked, synchronise_thread, synchronise_pair, synchronise_each, synchronise,
}
use enml.Kernel.Threads.{create_thread, send}
use enml.Kernel.Calls.{ipc_expire_one_receive}
use enml.Kernel.Memory.{
  MapSyscall, MapAuthorization, UnmapSyscall, UnmapAuthorization, read_write, read_execute,
  map_authorize, unmap_authorize,
}
use enml.Kernel.Admission.{ThreadAdmission, thread_admit}
use enml.Kernel.Agreement.{IsSynchronised, synchronise-IsSynchronised}
use enml.Kernel.History.{Reached, starting, calling, creates, sends, step}
use enml.Kernel.Reach.{IsInLine, Reached-IsInLine}
use enml.Kernel.Expiry.{ipc_expire_one_receive-unscheduled}
use enml.Kernel.Authorised.{
  IsMapping, IsUnmapping, map_authorize-IsMapping, unmap_authorize-IsUnmapping,
}
use enml.Kernel.Admitted.{IsAdmission, thread_admit-IsAdmission}

abbrev server_born : Kernel
server_born = (step init (creates 1 3)).0

abbrev client_born : Kernel
client_born = (step server_born (creates 2 9)).0

abbrev client_sends : Kernel
client_sends = (step client_born (sends 2 1)).0

first_creation : (step init (creates 1 3)).1 ≡ true
unfolding step init create_thread Rendezvous.create_thread create_in find first place admit
    synchronise_thread state_of effective_priority_of inherited_priority highest_of update modify
    Rendezvous.init Scheduler.init
first_creation = refl

second_creation : (step server_born (creates 2 9)).1 ≡ true
unfolding step init create_thread Rendezvous.create_thread create_in find first place admit
    synchronise_thread state_of effective_priority_of inherited_priority highest_of update modify
    Rendezvous.init Scheduler.init
second_creation = refl

sending : (step client_born (sends 2 1)).1 ≡ true
unfolding step init create_thread Rendezvous.create_thread create_in find first place admit
    synchronise_thread state_of effective_priority_of inherited_priority highest_of update modify
    Rendezvous.init Scheduler.init send Messages.send block_send synchronise_pair
sending = refl

client_sends-Reached : Reached client_sends
client_sends-Reached =
    calling client_born (sends 2 1)
      (calling server_born (creates 2 9) (calling init (creates 1 3) starting first_creation)
        second_creation)
      sending

server_known : tracked 1 client_sends.live ≡ true
unfolding step init create_thread Rendezvous.create_thread create_in find first place admit
    synchronise_thread state_of effective_priority_of inherited_priority highest_of update modify
    Rendezvous.init Scheduler.init send Messages.send block_send synchronise_pair tracked
server_known = refl

Reached-IsInLine_example : IsInLine client_sends 1
Reached-IsInLine_example = Reached-IsInLine client_sends client_sends-Reached 1 server_known

-- Thread 2 waits in a receive until the time 50.
abbrev bounded : IpcReceiveContinuation
bounded = record {
  server = 2;
  epoch = record { slot = 0; generation = 1; asid = 1 };
  endpoint_capability = 1;
  exchange_address = 0x1000;
  deadline_nanoseconds = 50;
}

abbrev waiting : Kernel
waiting = synchronise (record init {
  threads = (Messages.wait_receive 2 (Rendezvous.create_thread 2 9 Rendezvous.init).0).0;
  scheduler = (admit 2 9 Scheduler.init).0;
  continuations = record {
    sends = [];
    receives = record { occupied = true; continuation = bounded } ∷ [];
    occupied = 1;
  };
  live = 2 ∷ [];
})

abbrev asleep : Scheduler.Slot
asleep = record (Scheduler.new_slot 2 9 1) { runnable = false }

due : (take_expired_receive 60 waiting.continuations).1 ≡ ok bounded
unfolding synchronise synchronise_each synchronise_thread take_expired_receive expired_from init
    state_of effective_priority_of find first Rendezvous.create_thread create_in place
    Messages.wait_receive modify Rendezvous.init
due = refl

known : tracked 2 waiting.live ≡ true
unfolding synchronise synchronise_each synchronise_thread tracked init state_of
    effective_priority_of find first Rendezvous.create_thread create_in place Messages.wait_receive
    modify Rendezvous.init
known = refl

scheduled : find 2 waiting.scheduler.slots ≡ some asleep
unfolding synchronise synchronise_each synchronise_thread init state_of effective_priority_of find
    first Rendezvous.create_thread create_in place Messages.wait_receive modify Rendezvous.init
    Scheduler.init admit update inherited_priority highest_of
scheduled = refl

expires : (ipc_expire_one_receive 60 waiting).1 ≡ ok true
unfolding synchronise synchronise_each synchronise_thread init state_of effective_priority_of find
    first Rendezvous.create_thread create_in place Messages.wait_receive modify Rendezvous.init
    ipc_expire_one_receive take_expired_receive expired_from Messages.expire_receive
    Messages.stop_receive
expires = refl

ipc_expire_one_receive-unscheduled_example :
    let k' = (ipc_expire_one_receive 60 waiting).0 in
    (state_of 2 k'.threads ≡ ok ready) × (is_runnable 2 k'.scheduler ≡ ok false)
ipc_expire_one_receive-unscheduled_example =
    ipc_expire_one_receive-unscheduled 60 waiting bounded asleep (synchronise-IsSynchronised _) due
      known scheduled expires
