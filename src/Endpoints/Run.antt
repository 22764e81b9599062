-- ===== src/Endpoints/Run.antt =====
-- Histories of calls of the endpoint tables (core/oskernel/src/ipc_endpoint.cpp), each made with a
-- capability table and a rendezvous table of any content.
use enml.Base.{ℕ, zero, suc, none, List, [], ◌∷◌, true, ok, err, ◌≡◌, refl, replicate}
use enml.Table.{first}
use enml.Table.Laws.{IsKeyed-replicate}
use enml.Capability.{Claimant, CapabilityTable, thread_of}
use enml.Rendezvous.{Rendezvous, max_threads}
use enml.Endpoints.{
  IpcEndpoint, IpcEnvelope, IpcReplySeal, IpcEndpointTable, init, reply_unavailable,
  stale_reply_seal, reply_keyed, completed_keyed, empty_reply, empty_completed,
}
use enml.Endpoints.Lifetime.{create, retire, release_thread}
use enml.Endpoints.Exchange.{
  send, receive_call, reply_as, reply_transaction, reply_seal, take_reply, new_completed, entitled,
  may_collect,
}
use enml.Endpoints.Answers.{answer-take_reply}
use enml.Endpoints.Orderly.{IsOrderly, create-IsOrderly, retire-IsOrderly, release_thread-IsOrderly}
use enml.Endpoints.Exchanged.{
  send-IsOrderly, receive_call-IsOrderly, reply_as-IsOrderly, reply_transaction-IsOrderly,
  take_reply-IsOrderly,
}

pub data Call : Type 0 where
  creates : ℕ → Call
  retires : ℕ → IpcEndpoint → Rendezvous → Call
  releases : ℕ → Rendezvous → Call
  sends : Claimant → ℕ → CapabilityTable → IpcEnvelope → Rendezvous → Call
  receives : Claimant → ℕ → CapabilityTable → Rendezvous → Call
  replies : Claimant → IpcReplySeal → IpcEnvelope → Rendezvous → Call
  answers : Claimant → ℕ → IpcEnvelope → Rendezvous → Call
  takes : Claimant → Call

unfoldable pub step : IpcEndpointTable → Call → IpcEndpointTable
step t (creates server) = (create server t).0
step t (retires server e r) = (retire server e t r).0
step t (releases thread r) = (release_thread thread t r).0
step t (sends caller capability capabilities request r) =
    (send caller capability capabilities request t r).0
step t (receives server capability capabilities r) =
    (receive_call server capability capabilities t r).0
step t (replies server seal response r) = (reply_as server seal response t r).0
step t (answers server transaction response r) =
    (reply_transaction server transaction response t r).0
step t (takes caller) = (take_reply caller t).0

unfoldable pub run : IpcEndpointTable → List Call → IpcEndpointTable
run t [] = t
run t (c ∷ cs) = run (step t c) cs

step-IsOrderly : (t : IpcEndpointTable) (c : Call) → IsOrderly t → IsOrderly (step t c)
unfolding step
step-IsOrderly t (creates server) h = create-IsOrderly server t h
step-IsOrderly t (retires server e r) h = retire-IsOrderly server e t r h
step-IsOrderly t (releases thread r) h = release_thread-IsOrderly thread t r h
step-IsOrderly t (sends caller capability capabilities request r) h =
    send-IsOrderly caller capability capabilities request t r h
step-IsOrderly t (receives server capability capabilities r) h =
    receive_call-IsOrderly server capability capabilities t r h
step-IsOrderly t (replies server seal response r) h = reply_as-IsOrderly server seal response t r h
step-IsOrderly t (answers server transaction response r) h =
    reply_transaction-IsOrderly server transaction response t r h
step-IsOrderly t (takes caller) h = take_reply-IsOrderly caller t h

run-IsOrderly : (t : IpcEndpointTable) (cs : List Call) → IsOrderly t → IsOrderly (run t cs)
unfolding run
run-IsOrderly t [] h = h
run-IsOrderly t (c ∷ cs) h = run-IsOrderly (step t c) cs (step-IsOrderly t c h)

first-replicate : (k n : ℕ) → first k (replicate n empty_reply) ≡ none
unfolding first
first-replicate k zero = refl
first-replicate k (suc n) = first-replicate k n

init-IsOrderly : IsOrderly init
unfolding init
init-IsOrderly = (
  (
    IsKeyed-replicate max_threads empty_reply refl,
    λ k n. absurd (n (first-replicate k max_threads)),
  ),
  IsKeyed-replicate max_threads empty_completed refl,
)

-- After any calls on new endpoint tables: once a server has answered a call, the caller, under an
-- authority that may collect and is of its address space, collects that answer, once; and the same
-- seal is refused.
pub reply_seal-take_reply :
    (cs : List Call) (server : ℕ) (seal : IpcReplySeal) (response : IpcEnvelope) (caller : Claimant)
    (r : Rendezvous)
    → thread_of caller ≡ seal.caller
    → may_collect caller ≡ true
    → entitled caller (new_completed seal response) ≡ true
    → (reply_seal server seal response (run init cs) r).2 ≡ ok tt
    → let (t1, r1, _) = reply_seal server seal response (run init cs) r in
      let t2 = (take_reply caller t1).0 in
      ((take_reply caller t1).1 ≡ ok response)
      × ((take_reply caller t2).1 ≡ err reply_unavailable)
      × ((reply_seal server seal response t1 r1).2 ≡ err stale_reply_seal)
reply_seal-take_reply cs server seal response caller r c m n h =
    let v = run-IsOrderly init cs init-IsOrderly in
    answer-take_reply server seal response caller (run init cs) r v.0.0 v.1 c m n h
