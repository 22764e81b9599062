-- ===== src/Endpoints.antt =====
-- The endpoints through which threads call one another: core/oskernel/src/ipc_endpoint.cpp and
-- include/os/kernel/ipc_endpoint.hpp, over the rendezvous table and the capability table. An
-- operation takes the endpoint table and the rendezvous table and returns both with its result.
-- The overloads for a thread number and for an execution authority are one on a Claimant.
pub mod Lifetime
pub mod Exchange
pub mod Bystanders
pub mod Answers
pub mod Orderly
pub mod Exchanged
pub mod Run
pub mod Identifiers
mod Tests
use Prim.Native.Nat.{bit_and, bit_or}
use enml.Base.{
  ℕ, zero, suc, ◌+◌, ◌-◌, ◌*◌, ◌/◌, ◌%◌, ◌^◌, ltb, leb, ◌==◌, if◌then◌else◌, Bool, true, false,
  ◌&&◌, ◌||◌, not, Option, none, some, List, [], ◌∷◌, ◌++◌, Result, ok, err, replicate, inc64,
  dec64, sub64, get_elem?, set, length, u32_mod,
}
use enml.Table.{
  Keyed, find, first, modify, place, first_where, modify_where, clear_where, count_where,
}
use enml.Capability.{
  CapabilityTable, Claimant, legacy, bound, AddressSpaceIdentity, no_identity, same_identity,
  is_valid_identity, is_valid_authority, is_claimant, is_bound, thread_of, address_space_of, holds,
  describe,
}
use enml.Rendezvous.{Rendezvous, RendezvousError, block_send, partner_of, max_threads}
use enml.Rendezvous.Messages.{
  deliver_waiting_receiver, wait_receive, accept_sender, cancel_receive, cancel_call, receive,
  reply,
}
use enml.Rendezvous.Messages

pub data IpcError : Type 0 where
  invalid_endpoint endpoint_limit stale_endpoint not_endpoint_owner invalid_capability : IpcError
  wrong_rights reply_seal_limit stale_reply_seal wrong_reply_server : IpcError
  transaction_exhausted pending_call_limit pending_call_missing payload_too_large : IpcError
  reply_unavailable receive_already_waiting : IpcError
  rendezvous_error : RendezvousError → IpcError

abbrev pub max_ipc_endpoints : ℕ
max_ipc_endpoints = 64

abbrev pub max_ipc_inline_bytes : ℕ
max_ipc_inline_bytes = 64

abbrev pub ipc_right_send : ℕ
ipc_right_send = 1

abbrev pub ipc_right_receive : ℕ
ipc_right_receive = 2

pub record IpcEndpoint : Type 0 where
  pub slot : ℕ
  pub generation : ℕ

abbrev pub same_endpoint : IpcEndpoint → IpcEndpoint → Bool
same_endpoint e f = e.slot == f.slot && e.generation == f.generation

abbrev pub is_valid_endpoint : IpcEndpoint → Bool
is_valid_endpoint e = not (e.generation == 0)

abbrev pub no_endpoint : IpcEndpoint
no_endpoint = record { slot = 0; generation = 0 }

abbrev pub ipc_object_tag : ℕ
ipc_object_tag = 0xC1C0_0000_0000_0000

abbrev pub object_tag_mask : ℕ
object_tag_mask = 0xFFFF_0000_0000_0000

abbrev pub ipc_object_generation_mask : ℕ
ipc_object_generation_mask = 0x0000_FFFF_FFFF_0000

abbrev pub ipc_object_slot_mask : ℕ
ipc_object_slot_mask = 0x0000_0000_0000_FFFF

-- A capability over an endpoint names the slot plus one, and the generation.
unfoldable pub ipc_object_id : IpcEndpoint → ℕ
ipc_object_id e =
    if not (is_valid_endpoint e) || leb max_ipc_endpoints e.slot
    then 0
    else bit_or (bit_or ipc_object_tag (e.generation * 2 ^ 16)) (e.slot + 1)

unfoldable pub decode_endpoint_object : ℕ → Result IpcError IpcEndpoint
decode_endpoint_object object =
    let encoded_slot = bit_and object ipc_object_slot_mask in
    let generation = bit_and object ipc_object_generation_mask / 2 ^ 16 in
    if not (bit_and object object_tag_mask == ipc_object_tag)
    then err invalid_capability
    else if encoded_slot == 0 || ltb max_ipc_endpoints encoded_slot || generation == 0
    then err invalid_endpoint
    else ok (record { slot = encoded_slot - 1; generation = generation })

pub record IpcEnvelope : Type 0 where
  pub bytes : List ℕ
  pub size : ℕ

abbrev pub empty_envelope : IpcEnvelope
empty_envelope = record { bytes = replicate max_ipc_inline_bytes 0; size = 0 }

abbrev pub is_valid_envelope : IpcEnvelope → Bool
is_valid_envelope e = leb e.size max_ipc_inline_bytes

-- `IpcEnvelope::from` copies into a zeroed array; `view` reads the first `size` bytes back.
unfoldable pub envelope_from : List ℕ → Result IpcError IpcEnvelope
envelope_from source =
    if ltb max_ipc_inline_bytes (length source)
    then err payload_too_large
    else ok (record {
      bytes = source ++ replicate (max_ipc_inline_bytes - length source) 0;
      size = length source;
    })

abbrev pub take_bytes : ℕ → List ℕ → List ℕ
take_bytes zero bytes = []
take_bytes (suc n) [] = []
take_bytes (suc n) (b ∷ bytes) = b ∷ take_bytes n bytes

unfoldable pub view : IpcEnvelope → List ℕ
view e = take_bytes e.size e.bytes

pub record IpcReplySeal : Type 0 where
  pub endpoint : IpcEndpoint
  pub transaction : ℕ
  pub caller : ℕ
  pub server : ℕ
  pub caller_address_space : AddressSpaceIdentity
  pub server_address_space : AddressSpaceIdentity

abbrev pub is_valid_seal : IpcReplySeal → Bool
is_valid_seal s =
    is_valid_endpoint s.endpoint
    && not (s.transaction == 0)
    && not (s.caller == 0)
    && not (s.server == 0)

abbrev pub same_seal : IpcReplySeal → IpcReplySeal → Bool
same_seal s u =
    same_endpoint s.endpoint u.endpoint
    && s.transaction == u.transaction
    && s.caller == u.caller
    && s.server == u.server
    && same_identity s.caller_address_space u.caller_address_space
    && same_identity s.server_address_space u.server_address_space

abbrev pub no_seal : IpcReplySeal
no_seal = record {
  endpoint = no_endpoint;
  transaction = 0;
  caller = 0;
  server = 0;
  caller_address_space = no_identity;
  server_address_space = no_identity;
}

pub record IpcReceived : Type 0 where
  pub caller : ℕ
  pub seal : IpcReplySeal
  pub request : IpcEnvelope

abbrev pub nothing_received : IpcReceived
nothing_received = record { caller = 0; seal = no_seal; request = empty_envelope }

pub record EndpointSlot : Type 0 where
  pub server : ℕ
  pub generation : ℕ
  pub active : Bool
  pub receive_waiting : Bool

pub record ReplySlot : Type 0 where
  pub seal : IpcReplySeal
  pub active : Bool

pub record PendingSlot : Type 0 where
  pub endpoint : IpcEndpoint
  pub caller : ℕ
  pub server : ℕ
  pub caller_address_space : AddressSpaceIdentity
  pub request : IpcEnvelope
  pub active : Bool

pub record CompletedSlot : Type 0 where
  pub caller : ℕ
  pub caller_address_space : AddressSpaceIdentity
  pub response : IpcEnvelope
  pub active : Bool

instance abbrev pub endpoint_keyed : Keyed EndpointSlot
endpoint_keyed = record { live = λ a. a.active; key = λ a. a.server }

instance abbrev pub reply_keyed : Keyed ReplySlot
reply_keyed = record { live = λ a. a.active; key = λ a. a.seal.transaction }

instance abbrev pub pending_keyed : Keyed PendingSlot
pending_keyed = record { live = λ a. a.active; key = λ a. a.caller }

instance abbrev pub completed_keyed : Keyed CompletedSlot
completed_keyed = record { live = λ a. a.active; key = λ a. a.caller }

abbrev pub empty_endpoint : EndpointSlot
empty_endpoint = record { server = 0; generation = 0; active = false; receive_waiting = false }

abbrev pub empty_reply : ReplySlot
empty_reply = record { seal = no_seal; active = false }

abbrev pub empty_pending : PendingSlot
empty_pending = record {
  endpoint = no_endpoint;
  caller = 0;
  server = 0;
  caller_address_space = no_identity;
  request = empty_envelope;
  active = false;
}

abbrev pub empty_completed : CompletedSlot
empty_completed = record {
  caller = 0;
  caller_address_space = no_identity;
  response = empty_envelope;
  active = false;
}

pub record IpcEndpointTable : Type 0 where
  pub endpoints : List EndpointSlot
  pub replies : List ReplySlot
  pub pending : List PendingSlot
  pub completed : List CompletedSlot
  pub active_count : ℕ
  pub reply_seals : ℕ
  pub pending_calls : ℕ
  pub next_transaction : ℕ

unfoldable pub init : IpcEndpointTable
init = record {
  endpoints = replicate max_ipc_endpoints empty_endpoint;
  replies = replicate max_threads empty_reply;
  pending = replicate max_threads empty_pending;
  completed = replicate max_threads empty_completed;
  active_count = 0;
  reply_seals = 0;
  pending_calls = 0;
  next_transaction = 1;
}

abbrev pub max_u32 : ℕ
max_u32 = 0xFFFF_FFFF

abbrev pub max_u64 : ℕ
max_u64 = 0xFFFF_FFFF_FFFF_FFFF

-- The slot of a live endpoint.
unfoldable pub slot_for : IpcEndpoint → IpcEndpointTable → Option EndpointSlot
slot_for e t = if not (is_valid_endpoint e) then none else elim (get_elem? t.endpoints e.slot) [
  | none ↦ none
  | some a ↦ if not a.active || not (a.generation == e.generation) then none else some a
]
