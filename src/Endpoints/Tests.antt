-- ===== src/Endpoints/Tests.antt =====
-- Concrete endpoints and calls (include/os/kernel/ipc_endpoint.hpp,
-- core/oskernel/src/ipc_endpoint.cpp).
use enml.Base.{List, [], ◌∷◌, true, ok, err, ◌≡◌, refl, arith}
use enml.Table.{first, find, place, first_where, modify}
use enml.Capability.{legacy, no_identity, mint, holds, describe, CapabilityTable}
use enml.Capability
use enml.Rendezvous.{Rendezvous, max_threads, create_thread, create_in, block_send, partner_of}
use enml.Rendezvous
use enml.Rendezvous.Messages.{accept_sender, reply}
use enml.Endpoints.{
  IpcEndpoint, IpcEnvelope, IpcReplySeal, completed_keyed, reply_keyed, ipc_right_send,
  ipc_right_receive, ipc_object_id, decode_endpoint_object, init, slot_for, empty_envelope,
  stale_reply_seal, reply_unavailable,
}
use enml.Endpoints.Lifetime.{create, create_at}
use enml.Endpoints.Exchange.{
  send, endpoint_for_capability, receive_call, send_to_endpoint, receive_from_endpoint,
  receive_pending, reply_seal, take_reply,
}
use enml.Endpoints.Run.{Call, creates, sends, receives, step, run, reply_seal-take_reply}
use enml.Endpoints.Identifiers.{decode_endpoint_object-ipc_object_id}

abbrev endpoint : IpcEndpoint
endpoint = record { slot = 0; generation = 1 }

decode_endpoint_object-ipc_object_id_example :
    decode_endpoint_object (ipc_object_id endpoint) ≡ ok endpoint
decode_endpoint_object-ipc_object_id_example =
    decode_endpoint_object-ipc_object_id endpoint (omega arith) (omega arith) (omega arith)

-- Thread 1 serves, and thread 2 has called it.
abbrev threads : Rendezvous
threads = (create_thread 2 9 (create_thread 1 3 Rendezvous.init).0).0

-- Capability 1 is the client's, to send, and capability 2 the server's, to receive.
abbrev capabilities : CapabilityTable
capabilities =
    (mint (legacy 1) (ipc_object_id endpoint) ipc_right_receive true
      (mint (legacy 2) (ipc_object_id endpoint) ipc_right_send true Capability.init).0).0

abbrev sending : Rendezvous
sending = (block_send 2 1 threads).0

abbrev history : List Call
history =
    creates 1
    ∷ sends (legacy 2) 1 capabilities empty_envelope threads
    ∷ receives (legacy 1) 2 capabilities sending
    ∷ []

-- The server has accepted the call.
abbrev accepted : Rendezvous
accepted = (accept_sender 1 2 sending).0

abbrev seal : IpcReplySeal
seal = record {
  endpoint = endpoint;
  transaction = 1;
  caller = 2;
  server = 1;
  caller_address_space = no_identity;
  server_address_space = no_identity;
}

-- The answer is one byte.
abbrev answer : IpcEnvelope
answer = record empty_envelope { size = 1 }

answers : (reply_seal 1 seal answer (run init history) accepted).2 ≡ ok tt
unfolding run step create create_at init send endpoint_for_capability mint holds describe
    decode_endpoint_object ipc_object_id slot_for send_to_endpoint receive_call
    receive_from_endpoint receive_pending partner_of find first place first_where create_thread
    create_in Rendezvous.init block_send accept_sender modify reply_seal reply Capability.init
answers = refl

reply_seal-take_reply_example :
    let (t1, r1, _) = reply_seal 1 seal answer (run init history) accepted in
    let t2 = (take_reply (legacy 2) t1).0 in
    ((take_reply (legacy 2) t1).1 ≡ ok answer)
    × ((take_reply (legacy 2) t2).1 ≡ err reply_unavailable)
    × ((reply_seal 1 seal answer t1 r1).2 ≡ err stale_reply_seal)
reply_seal-take_reply_example =
    reply_seal-take_reply history 1 seal answer (legacy 2) accepted refl refl refl answers
