-- ===== src/FaultRegions/Budget.antt =====
-- How often a region is announced (core/oskernel/src/fault_region.cpp).
use enml.Base.{
  ℕ, suc, ◌+◌, ◌≤◌, ◌==◌, if◌then◌else◌, Bool, true, false, ◌&&◌, not, Option, none, some, List, [],
  ◌∷◌, ◌≡◌, inl, inr, refl, arith, Option-cases, Bool-cases, subst, sym,
}
use enml.Table.{find, modify, place, first_where, modify_where}
use enml.Table.Laws.{find-modify, find-first_where, find-replicate}
use enml.Table.Once.{modify_where-eq-modify}
use enml.FaultRegions.{
  Slot, slot_keyed, FaultRegionTable, FaultReport, FaultDisclosure, FaultRegionState, init, declare,
  mark_backed, resolve, delivered, terminated, new_slot, covers, back, announce_backing,
  announce_private, is_sealed, is_unbacked, is_backed_shared, empty_slot, max_fault_regions,
}
use enml.FaultRegions.Invariant.{
  Inv, find-next_id, find-placed, declare-IsKeyed, declare-below, declare-started, modified-Inv,
  mark_backed-Inv, init-Inv,
}

pub data Call : Type 0 where
  declares : ℕ → ℕ → FaultDisclosure → Call
  backs : ℕ → FaultRegionState → Call
  faults : ℕ → Bool → Call

-- The table after a call, and whether the call delivered a report about the region.
unfoldable pub step : ℕ → FaultRegionTable → Call → FaultRegionTable × Bool
step id t (declares base size disclosure) = ((declare base size disclosure t).0, false)
step id t (backs region state) = ((mark_backed region state t).0, false)
step id t (faults address write) =
    let (t', report) = resolve address write t in (t', report.deliver && report.region == id)

-- The number of reports about the region that a history delivers.
unfoldable pub reports : ℕ → FaultRegionTable → List Call → ℕ
reports id t [] = 0
reports id t (c ∷ cs) =
    let (t', said) = step id t c in let rest = reports id t' cs in if said then suc rest else rest

abbrev one_if : Bool → ℕ
one_if true = 1
one_if false = 0

-- The announcements that are left for a region.
abbrev left_of : Option Slot → ℕ
left_of none = 2
left_of (some a) = one_if (not a.announced_backing) + one_if (not a.announced_private)

abbrev budget : ℕ → FaultRegionTable → ℕ
budget id t = left_of (find id t.slots)

module _ (t : FaultRegionTable) (v : Inv t) where
  -- A new region has both announcements before it.
  declare-budget :
      (base size : ℕ) (disclosure : FaultDisclosure) (id : ℕ)
      → budget id (declare base size disclosure t).0 ≤ budget id t
  unfolding declare
  declare-budget base size disclosure id =
      elim (Option-cases (place (new_slot base size t.next_id disclosure) t.slots)) [
        | inl q ↦ ground arith
        | inr (ys, q) ↦
            ground (arith, find-placed t v base size disclosure ys q id, find-next_id t v)
      ]

  -- A fault that is answered is the announcement of a region that has not made it.
  data Answer : FaultRegionTable → FaultReport → Type 0 where
    ends : (report : FaultReport) → report.deliver ≡ false → Answer t report
    tells :
        (a : Slot) (f : Slot → Slot) (write : Bool)
        → ((a : Slot) → ((f a).occupied ≡ a.occupied) × ((f a).id ≡ a.id))
        → find a.id t.slots ≡ some a
        → suc (left_of (some (f a))) ≤ left_of (some a)
        → Answer (record t { slots = modify a.id f t.slots }) (delivered a write)

  module _ (address : ℕ) (write : Bool) where
    answered_by :
        (r : FaultRegionTable × FaultReport)
        → r ≡ resolve address write t
        → Answer r.0 r.1
        → Answer (resolve address write t).0 (resolve address write t).1
    answered_by r e h = subst (λ s. Answer s.0 s.1) e h

    tells_found :
        (hit : Slot) (f : Slot → Slot)
        → first_where (covers address) t.slots ≡ some hit
        → ((a : Slot) → ((f a).occupied ≡ a.occupied) × ((f a).id ≡ a.id))
        → suc (left_of (some (f hit))) ≤ left_of (some hit)
        → Answer
            (record t { slots = modify_where (covers address) f t.slots })
            (delivered hit write)
    tells_found hit f q h l =
        subst (λ s. Answer (record t { slots = s }) (delivered hit write))
          (sym (modify_where-eq-modify (covers address) f t.slots hit v.keyed q))
          (tells hit f write h (find-first_where (covers address) t.slots hit v.keyed q).0 l)

    resolve-Answer : Answer (resolve address write t).0 (resolve address write t).1
    unfolding resolve
    resolve-Answer = elim (Option-cases (first_where (covers address) t.slots)) [
      | inl q ↦ answered_by (t, terminated write) (ground (arith, q)) (ends (terminated write) refl)
      | inr (hit, q) ↦
          let silent : (t, terminated write) ≡ resolve address write t
              → Answer (resolve address write t).0 (resolve address write t).1 =
            λ e. answered_by (t, terminated write) e (ends (terminated write) refl) in
          elim (Bool-cases (is_sealed hit.disclosure)) [
            | inl s ↦ silent (ground (arith, q, s))
            | inr s ↦ elim (Bool-cases (is_unbacked hit.state)) [
              | inl u ↦ elim (Bool-cases hit.announced_backing) [
                | inl n ↦ silent (ground (arith, q, s, u, n))
                | inr n ↦
                    answered_by
                      (
                        record t { slots = modify_where (covers address) announce_backing t.slots },
                        delivered hit write,
                      )
                      (ground (arith, q, s, u, n))
                      (tells_found hit announce_backing q (λ a. (refl, refl)) (ground (arith, n)))
              ]
              | inr u ↦ elim (Bool-cases (write && is_backed_shared hit.state)) [
                | inr w ↦ silent (ground (arith, q, s, u, w))
                | inl w ↦ elim (Bool-cases hit.announced_private) [
                  | inl n ↦ silent (ground (arith, q, s, u, w, n))
                  | inr n ↦
                      answered_by
                        (
                          record t {
                            slots = modify_where (covers address) announce_private t.slots;
                          },
                          delivered hit write,
                        )
                        (ground (arith, q, s, u, w, n))
                        (tells_found hit announce_private q (λ a. (refl, refl)) (ground (arith, n)))
                ]
              ]
            ]
          ]
    ]

  Answer-Inv : (t' : FaultRegionTable) (report : FaultReport) → Answer t' report → Inv t'
  Answer-Inv _ _ (ends report e) = v
  Answer-Inv _ _ (tells a f write h q l) = modified-Inv t v a.id f h

  Answer-budget :
      (id : ℕ) (t' : FaultRegionTable) (report : FaultReport)
      → Answer t' report
      → one_if (report.deliver && report.region == id) + budget id t' ≤ budget id t
  Answer-budget id _ _ (ends report e) = ground (arith, e)
  Answer-budget id _ _ (tells a f write h q l) =
      ground (arith, q, l, find-modify a.id id f t.slots h)

step-Inv : (id : ℕ) (t : FaultRegionTable) (c : Call) → Inv t → Inv (step id t c).0
unfolding step
step-Inv id t (declares base size disclosure) v = record {
  keyed = declare-IsKeyed t v base size disclosure;
  below = declare-below t v base size disclosure;
  started = declare-started t v base size disclosure;
}
step-Inv id t (backs region state) v = mark_backed-Inv t v region state
step-Inv id t (faults address write) v = Answer-Inv t v _ _ (resolve-Answer t v address write)

step-budget :
    (id : ℕ) (t : FaultRegionTable) (c : Call)
    → Inv t
    → one_if (step id t c).1 + budget id (step id t c).0 ≤ budget id t
unfolding step mark_backed
step-budget id t (declares base size disclosure) v =
    ground (arith, declare-budget t v base size disclosure id)
step-budget id t (backs region state) v =
    ground (arith, find-modify region id (back state) t.slots (λ a. (refl, refl)))
step-budget id t (faults address write) v =
    Answer-budget t v id _ _ (resolve-Answer t v address write)

-- Over a history, a region is announced no more often than its budget allows.
reports-budget :
    (id : ℕ) (t : FaultRegionTable) (cs : List Call) → Inv t → reports id t cs ≤ budget id t
unfolding reports
reports-budget id t [] v = ground arith
reports-budget id t (c ∷ cs) v =
    ground (arith, step-budget id t c v, reports-budget id (step id t c).0 cs (step-Inv id t c v))

-- However often a thread faults, and whatever else is called, a region of a table that started
-- empty has at most two of its faults delivered to the pager over its whole life.
pub reports-at_most_two : (id : ℕ) (cs : List Call) → reports id init cs ≤ 2
unfolding init
reports-at_most_two id cs =
    ground (
      arith,
      reports-budget id init cs init-Inv,
      find-replicate id max_fault_regions empty_slot refl,
    )
