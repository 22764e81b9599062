-- ===== src/FaultRegions/Invariant.antt =====
-- The identifiers of fault regions (core/oskernel/src/fault_region.cpp).
use enml.Base.{
  ℕ, ◌<◌, ◌==◌, if◌then◌else◌, none, some, List, ◌≡◌, inl, inr, refl, arith, Option-cases,
  Bool-cases, subst,
}
use enml.Table.{find, modify, place, IsKeyed}
use enml.Table.Laws.{
  find-modify, find-place, IsKeyed-modify, IsKeyed-place, IsKeyed-replicate, find-eq-first,
  find-replicate,
}
use enml.FaultRegions.{
  Slot, slot_keyed, FaultRegionTable, FaultDisclosure, FaultRegionState, init, declare, mark_backed,
  new_slot, back, is_unbacked, empty_slot, max_fault_regions,
}

-- No identifier stands in two slots, and those in use lie below the counter.
pub record Inv (t : FaultRegionTable) : Type 0 where
  pub keyed : IsKeyed t.slots
  pub below : (id : ℕ) (a : Slot) → find id t.slots ≡ some a → id < t.next_id
  pub started : 0 < t.next_id

-- The next identifier is not in use.
pub find-next_id : (t : FaultRegionTable) → Inv t → find t.next_id t.slots ≡ none
find-next_id t v = elim (Option-cases (find t.next_id t.slots)) [
  | inl q ↦ q
  | inr (a, q) ↦ ground (arith, v.below t.next_id a q)
]

module _ (t : FaultRegionTable) (v : Inv t) where
  module _ (base size : ℕ) (disclosure : FaultDisclosure) (ys : List Slot)
      (q : place (new_slot base size t.next_id disclosure) t.slots ≡ some ys) where
    pub find-placed :
        (id : ℕ)
        → find id ys ≡ (
            if t.next_id == id
            then some (new_slot base size t.next_id disclosure)
            else find id t.slots)
    find-placed id =
        find-place (new_slot base size t.next_id disclosure) refl id t.slots ys
          (ground (arith, v.started)) (find-next_id t v) q

    placed-IsKeyed : IsKeyed ys
    placed-IsKeyed =
        IsKeyed-place (new_slot base size t.next_id disclosure) refl t.slots ys
          (ground (arith, v.started))
          (ground (arith, find-next_id t v, find-eq-first t.next_id t.slots v.keyed)) q v.keyed

  pub declare-IsKeyed :
      (base size : ℕ) (disclosure : FaultDisclosure)
      → IsKeyed (declare base size disclosure t).0.slots
  unfolding declare
  declare-IsKeyed base size disclosure =
      elim (Option-cases (place (new_slot base size t.next_id disclosure) t.slots)) [
        | inl q ↦ ground (arith, v.keyed)
        | inr (ys, q) ↦ ground (arith, v.keyed, placed-IsKeyed base size disclosure ys q)
      ]

  pub declare-below :
      (base size : ℕ) (disclosure : FaultDisclosure) (id : ℕ) (a : Slot)
      → find id (declare base size disclosure t).0.slots ≡ some a
      → id < (declare base size disclosure t).0.next_id
  unfolding declare
  declare-below base size disclosure id a e =
      elim (Option-cases (place (new_slot base size t.next_id disclosure) t.slots)) [
        | inl q ↦ ground (arith, v.below id a)
        | inr (ys, q) ↦ ground (arith, v.below id a, find-placed base size disclosure ys q id)
      ]

  pub declare-started :
      (base size : ℕ) (disclosure : FaultDisclosure)
      → 0 < (declare base size disclosure t).0.next_id
  unfolding declare
  declare-started base size disclosure = ground (arith, v.started)

  pub modified-Inv :
      (region : ℕ) (f : Slot → Slot)
      → ((a : Slot) → ((f a).occupied ≡ a.occupied) × ((f a).id ≡ a.id))
      → Inv (record t { slots = modify region f t.slots })
  modified-Inv region f h = record {
    keyed = IsKeyed-modify region f t.slots h v.keyed;
    below = λ id a e. elim (Option-cases (find id t.slots)) [
      | inl q ↦ ground (arith, find-modify region id f t.slots h)
      | inr (b, q) ↦ v.below id b q
    ];
    started = v.started;
  }

  pub mark_backed-Inv : (region : ℕ) (state : FaultRegionState) → Inv (mark_backed region state t).0
  unfolding mark_backed
  mark_backed-Inv region state = elim (Option-cases (find region t.slots)) [
    | inl q ↦ subst Inv (ground (arith, q)) v
    | inr (a, q) ↦ elim (Bool-cases (is_unbacked state)) [
      | inl u ↦ subst Inv (ground (arith, q, u)) v
      | inr u ↦
          subst Inv (ground (arith, q, u)) (modified-Inv region (back state) (λ a. (refl, refl)))
    ]
  ]

pub init-Inv : Inv init
unfolding init
init-Inv = record {
  keyed = IsKeyed-replicate max_fault_regions empty_slot refl;
  below = λ id a e. ground (arith, find-replicate id max_fault_regions empty_slot refl);
  started = ground arith;
}
