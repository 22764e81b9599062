-- ===== src/FaultDelivery/Debt.antt =====
-- What a pager owes until it answers (core/oskernel/src/fault_delivery.cpp).
use enml.Base.{
  ℕ, ◌==◌, if◌then◌else◌, true, false, none, some, List, ok, err, ◌≡◌, inl, inr, refl, arith,
  Option-cases, ◌≢◌, [], ◌∷◌,
}
use mathlib.Core.Option
use enml.Table.{first, modify, place, IsKeyed}
use enml.Table.Laws.{first-place, first-clear, IsKeyed-place}
use enml.FaultRegions.{FaultReport}
use enml.FaultDelivery.{
  Slot, slot_keyed, empty_slot, FaultDeliveryTable, pending, delivered, not_armed, not_delivered,
  armed, arm, take, answer, release, question, asked, collect,
}

-- Collecting changes what a slot is in, for a slot that is taken.
first-collect :
    (k j : ℕ) (xs : List Slot)
    → first j (modify k collect xs)
      ≡ (if k == j then Option.map collect (first k xs) else first j xs)
unfolding first modify
first-collect k j [] = ground arith
first-collect k j (x ∷ xs) = ground (arith, first-collect k j xs)

IsKeyed-collect : (k : ℕ) (xs : List Slot) → IsKeyed xs → IsKeyed (modify k collect xs)
unfolding modify
IsKeyed-collect k [] u = u
IsKeyed-collect k (x ∷ xs) u =
    ground (arith, u.0, IsKeyed-collect k xs u.1, first-collect k x.pager xs)

-- The table after a question was accepted.
arm-first :
    (pager faulting j : ℕ) (report : FaultReport) (t : FaultDeliveryTable)
    → IsKeyed t.slots
    → (arm pager faulting report t).1 ≡ ok tt
    → let t1 = (arm pager faulting report t).0 in
      (pager ≢ 0)
      × (first pager t.slots ≡ none)
      × IsKeyed t1.slots
      × (first j t1.slots
          ≡ (if pager == j then some (asked pager faulting report) else first j t.slots))
unfolding arm
arm-first pager faulting j report t u h = elim (Option-cases (first pager t.slots)) [
  | inr (b, p) ↦ absurd (ground arith)
  | inl p ↦ elim (Option-cases (place (asked pager faulting report) t.slots)) [
    | inl q ↦ absurd (ground arith)
    | inr (ys, q) ↦
        let a : Slot = asked pager faulting report in
        let n : pager ≢ 0 = ground arith in
        let v : IsKeyed ys = IsKeyed-place a refl t.slots ys n p q u in
        ground (arith, p, q, v, first-place a refl j t.slots ys p q)
  ]
]

module _ (pager : ℕ) (a : Slot) (t : FaultDeliveryTable) (n : pager ≢ 0)
    (e : first pager t.slots ≡ some a) where
  take-pending :
      (j : ℕ)
      → IsKeyed t.slots
      → a.state ≡ pending
      → ((take pager t).1 ≡ ok a.delivery)
        × IsKeyed (take pager t).0.slots
        × (first j (take pager t).0.slots
            ≡ (if pager == j then some (collect a) else first j t.slots))
  unfolding take
  take-pending j u s =
      ground (arith, first-collect pager j t.slots, IsKeyed-collect pager t.slots u)

  take-delivered : a.state ≡ delivered → take pager t ≡ (t, err not_armed)
  unfolding take
  take-delivered s = ground arith

  answer-pending : a.state ≡ pending → answer pager t ≡ (t, err not_delivered)
  unfolding answer
  answer-pending s = ground arith

  answer-delivered :
      (j : ℕ)
      → IsKeyed t.slots
      → a.state ≡ delivered
      → ((answer pager t).1 ≡ ok a.delivery)
        × (first j (answer pager t).0.slots ≡ (if pager == j then none else first j t.slots))
  unfolding answer
  answer-delivered j u s =
      ground (arith, first-clear (λ _. empty_slot) (λ _. refl) pager j t.slots u)

  release-owing :
      (j : ℕ)
      → IsKeyed t.slots
      → ((release pager t).1 ≡ a.delivery)
        × (first j (release pager t).0.slots ≡ (if pager == j then none else first j t.slots))
  unfolding release
  release-owing j u = ground (arith, first-clear (λ _. empty_slot) (λ _. refl) pager j t.slots u)

  arm-owing : (other : ℕ) (later : FaultReport) → (arm pager other later t).1 ≢ ok tt
  unfolding arm
  arm-owing other later h = ground arith

answered :
    (pager : ℕ) (t : FaultDeliveryTable)
    → pager ≢ 0
    → first pager t.slots ≡ none
    → answer pager t ≡ (t, err not_armed)
unfolding answer
answered pager t n e = ground arith

armed-first :
    (j : ℕ) (t : FaultDeliveryTable)
    → armed j t
      ≡ (if j == 0 then false else elim (first j t.slots) [ none ↦ false | some _ ↦ true ])
unfolding armed
armed-first j t = refl

-- Where no pager has two slots: the question that a pager is asked is what it collects and what its
-- answer returns, in that order and each once. It cannot answer before it has collected, it is
-- asked nothing else until it has answered, and one that leaves in between gives the question
-- back. After the answer each pager is armed exactly where it was before the question.
pub arm-answer :
    (pager faulting other j : ℕ) (report later : FaultReport) (t : FaultDeliveryTable)
    → IsKeyed t.slots
    → (arm pager faulting report t).1 ≡ ok tt
    → let d = question faulting report in
      let t1 = (arm pager faulting report t).0 in
      let t2 = (take pager t1).0 in
      let t3 = (answer pager t2).0 in
      ((answer pager t1 ≡ (t1, err not_delivered))
        × ((take pager t1).1 ≡ ok d)
        × ((release pager t1).1 ≡ d)
        × ((arm pager other later t1).1 ≢ ok tt))
      × ((take pager t2 ≡ (t2, err not_armed))
          × ((answer pager t2).1 ≡ ok d)
          × ((release pager t2).1 ≡ d)
          × ((arm pager other later t2).1 ≢ ok tt))
      × ((answer pager t3 ≡ (t3, err not_armed)) × (armed j t3 ≡ armed j t))
arm-answer pager faulting other j report later t u h =
    let a : Slot = asked pager faulting report in
    let t1 : FaultDeliveryTable = (arm pager faulting report t).0 in
    let t2 : FaultDeliveryTable = (take pager t1).0 in
    let t3 : FaultDeliveryTable = (answer pager t2).0 in
    let (n, free, v, e) = arm-first pager faulting pager report t u h in
    let e1 : first pager t1.slots ≡ some a = ground (arith, e) in
    let (taken, w, f) = take-pending pager a t1 n e1 pager v refl in
    let e2 : first pager t2.slots ≡ some (collect a) = ground (arith, f) in
    let owed = answer-delivered pager (collect a) t2 n e2 in
    (
      (
        answer-pending pager a t1 n e1 refl,
        taken,
        (release-owing pager a t1 n e1 pager v).0,
        arm-owing pager a t1 n e1 other later,
      ),
      (
        take-delivered pager (collect a) t2 n e2 refl,
        (owed pager w refl).0,
        (release-owing pager (collect a) t2 n e2 pager w).0,
        arm-owing pager (collect a) t2 n e2 other later,
      ),
      (
        answered pager t3 n (ground (arith, (owed pager w refl).1)),
        ground (
          arith,
          n,
          (owed j w refl).1,
          (take-pending pager a t1 n e1 j v refl).2,
          (arm-first pager faulting j report t u h).3,
          armed-first j t,
          armed-first j t3,
        ),
      ),
    )
