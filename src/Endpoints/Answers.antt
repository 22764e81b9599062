-- ===== src/Endpoints/Answers.antt =====
-- A call is answered once (core/oskernel/src/ipc_endpoint.cpp).
use enml.Base.{ℕ, true, ok, err, ◌≡◌, inl, inr, refl, arith, Option-cases}
use enml.Table.{place, IsKeyed}
use enml.Table.Laws.{first-place, first-clear, IsKeyed-place}
use enml.Table.Once.{first_where-modify_where}
use enml.Capability.{Claimant, thread_of}
use enml.Rendezvous.{Rendezvous}
use enml.Endpoints.{
  IpcEndpointTable, IpcEnvelope, IpcReplySeal, reply_keyed, completed_keyed, pending_keyed,
  empty_reply, empty_completed, stale_reply_seal, reply_unavailable,
}
use enml.Endpoints.Exchange.{
  reply_seal, take_reply, new_completed, sealed_as, entitled, may_collect,
}

-- An answer and its collection, where the slots are told apart.
pub answer-take_reply :
    (server : ℕ) (seal : IpcReplySeal) (response : IpcEnvelope) (caller : Claimant)
    (t : IpcEndpointTable) (r : Rendezvous)
    → IsKeyed t.replies
    → IsKeyed t.completed
    → thread_of caller ≡ seal.caller
    → may_collect caller ≡ true
    → entitled caller (new_completed seal response) ≡ true
    → (reply_seal server seal response t r).2 ≡ ok tt
    → let (t1, r1, _) = reply_seal server seal response t r in
      let t2 = (take_reply caller t1).0 in
      ((take_reply caller t1).1 ≡ ok response)
      × ((take_reply caller t2).1 ≡ err reply_unavailable)
      × ((reply_seal server seal response t1 r1).2 ≡ err stale_reply_seal)
unfolding reply_seal take_reply
answer-take_reply server seal response caller t r u v c m n h =
    let a = new_completed seal response in
    let spent =
      first_where-modify_where (sealed_as seal) seal.transaction (λ b p. ground (arith, p))
        empty_reply t.replies refl u in
    elim (Option-cases (place a t.completed)) [
      | inl q ↦ absurd (ground arith)
      | inr (ys, q) ↦
          let w : IsKeyed ys =
            IsKeyed-place a refl t.completed ys (ground arith) (ground arith) q v in
          ground (
            arith,
            c,
            q,
            spent,
            first-place a refl seal.caller t.completed ys,
            first-clear (λ _. empty_completed) (λ _. refl) seal.caller seal.caller ys w,
          )
    ]
