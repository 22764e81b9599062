-- ===== src/Interrupt/Run.antt =====
-- Histories of the interrupt table: any calls, in any order, by any drivers.
use enml.Base.{
  ℕ, ◌==◌, Bool, false, ◌&&◌, some, List, [], ◌∷◌, ◌≡◌, refl, arith, inl, inr, Option-cases,
}
use enml.Table.{find, place}
use enml.Table.Laws.{find-modify, find-clear, find-place}
use enml.Table.Sweep.{find-clear_where}
use enml.Interrupt.{
  InterruptTable, Slot, slot_keyed, empty_slot, fresh_slot, init, attach, detach, dispatch,
  begin_service, end_service, detach_all_owned_by, raise, collect, requeue, unmask,
  record_assertion,
}
use enml.Interrupt.Invariant.{
  Inv, init-Inv, attach-Inv, detach-Inv, dispatch-Inv, begin_service-Inv, end_service-Inv,
  detach_all_owned_by-Inv,
}

pub data Call : Type 0 where
  attaches detaches begins ends : ℕ → ℕ → Call
  dispatches detaches_all : ℕ → Call

unfoldable pub step : InterruptTable → Call → InterruptTable
step t (attaches driver source) = (attach driver source t).0
step t (detaches driver source) = (detach driver source t).0
step t (begins driver source) = (begin_service driver source t).0
step t (ends driver source) = (end_service driver source t).0
step t (dispatches source) = (dispatch source t).0
step t (detaches_all driver) = (detach_all_owned_by driver t).0

unfoldable pub run : InterruptTable → List Call → InterruptTable
run t [] = t
run t (c ∷ cs) = run (step t c) cs

pub step-Inv : (t : InterruptTable) (c : Call) → Inv t → Inv (step t c)
unfolding step
step-Inv t (attaches d s) v = attach-Inv d s t v
step-Inv t (detaches d s) v = detach-Inv d s t v
step-Inv t (begins d s) v = begin_service-Inv d s t v
step-Inv t (ends d s) v = end_service-Inv d s t v
step-Inv t (dispatches s) v = dispatch-Inv s t v
step-Inv t (detaches_all d) v = detach_all_owned_by-Inv d t v

pub run-Inv : (t : InterruptTable) (cs : List Call) → Inv t → Inv (run t cs)
unfolding run
run-Inv t [] v = v
run-Inv t (c ∷ cs) v = run-Inv (step t c) cs (step-Inv t c v)

-- After any calls on a new table, no source has two slots, the slot count is right, and every slot
-- is sound: an idle line has counted nothing, a pending one at least one assertion, no count passes
-- its ceiling, and only a count at the ceiling is marked saturated.
pub interrupts-Inv : (cs : List Call) → Inv (run init cs)
interrupts-Inv cs = run-Inv init cs init-Inv

-- A call that can change what the table holds of `source` while `owner` has it attached.
abbrev pub touches : ℕ → ℕ → Call → Bool
touches owner source (attaches d s) = false
touches owner source (detaches d s) = d == owner && s == source
touches owner source (begins d s) = d == owner && s == source
touches owner source (ends d s) = d == owner && s == source
touches owner source (dispatches s) = s == source
touches owner source (detaches_all d) = d == owner

-- Under the invariant, whatever other drivers call, with this source or another, the slot of an attached source stays
-- as it is: only its owner and the line itself can change it.
pub step-frame :
    (t : InterruptTable) (c : Call) (source : ℕ) (a : Slot)
    → Inv t
    → find source t.slots ≡ some a
    → touches a.owner source c ≡ false
    → find source (step t c).slots ≡ some a
unfolding step attach detach dispatch begin_service end_service detach_all_owned_by
step-frame t (attaches d s) source a v e n = elim (Option-cases (place (fresh_slot d s) t.slots)) [
  | inl p ↦ ground arith
  | inr (ys, p) ↦ ground (arith, find-place (fresh_slot d s) refl source t.slots ys)
]
step-frame t (detaches d s) source a v e n =
    ground (arith, find-clear (λ _. empty_slot) (λ _. refl) s source t.slots v.unique)
step-frame t (begins d s) source a v e n =
    ground (arith, find-modify s source collect t.slots (λ b. (refl, refl)))
step-frame t (ends d s) source a v e n = ground (
  arith,
  find-modify s source requeue t.slots (λ b. (refl, refl)),
  find-modify s source unmask t.slots (λ b. (refl, refl)),
)
step-frame t (dispatches s) source a v e n = ground (
  arith,
  find-modify s source raise t.slots (λ b. (refl, refl)),
  find-modify s source record_assertion t.slots (λ b. ground arith),
)
step-frame t (detaches_all d) source a v e n =
    ground
      (arith, find-clear_where (λ (b : Slot). b.owner == d) empty_slot refl source t.slots v.unique)
