-- ===== src/Interrupt/Invariant.antt =====
-- The invariant of the interrupt table (core/oskernel/src/interrupt.cpp), call by call.
use enml.Base.{
  ℕ, ◌≤◌, ◌<◌, ◌==◌, Bool, true, some, ◌≡◌, refl, arith, ◌≢◌, inl, inr, Option-cases, All, length,
}
use enml.Table.{first, find, modify, place, count_live, IsKeyed}
use enml.Table.Laws.{
  IsKeyed-modify, IsKeyed-clear, IsKeyed-place, count_live-modify, count_live-clear, count_live-le,
  count_live-place, length-modify, length-place, Keeps, IsKeyed-replicate, count_live-replicate,
  length-replicate,
}
use enml.Table.Sweep.{
  IsKeyed-clear_where, count_live-clear_where, length-clear_where, All-clear_where,
}
use enml.Table.Every.{find-All, All-modify, All-place, All-replicate}
use enml.Interrupt.{
  InterruptTable, attached, pending, Slot, slot_keyed, empty_slot, fresh_slot,
  max_interrupt_sources, assertion_ceiling, init, attach, detach, dispatch, begin_service,
  end_service, detach_all_owned_by, raise, collect, requeue, unmask, record_assertion,
}

-- What holds of an occupied slot: an idle line has counted nothing, a pending one something, and
-- only a count at its ceiling is marked saturated.
abbrev pub IsSound : Slot → Type 0
IsSound a =
    a.occupied ≡ true
    → (a.source ≢ 0)
      × (a.owner ≢ 0)
      × (a.assertions ≤ assertion_ceiling)
      × (a.state ≡ attached → a.assertions ≡ 0)
      × (a.state ≡ pending → 0 < a.assertions)
      × (a.saturated ≡ true → a.assertions ≡ assertion_ceiling)

pub record Inv (t : InterruptTable) : Type 0 where
  pub unique : IsKeyed t.slots
  pub counted : t.occupied ≡ count_live t.slots
  pub sized : length t.slots ≡ max_interrupt_sources
  pub sound : All IsSound t.slots
  pub spurious_capped : t.spurious ≤ assertion_ceiling

pub init-Inv : Inv init
unfolding init
init-Inv = record {
  unique = IsKeyed-replicate max_interrupt_sources empty_slot refl;
  counted = ground (arith, count_live-replicate max_interrupt_sources empty_slot refl);
  sized = length-replicate max_interrupt_sources empty_slot;
  sound = All-replicate IsSound max_interrupt_sources empty_slot (λ e. cc);
  spurious_capped = omega arith;
}

-- A write to the slot that the search found, one that keeps it occupied and its source.
modify-Inv :
    (source : ℕ) (f : Slot → Slot) (a : Slot) (t : InterruptTable)
    → Keeps f
    → find source t.slots ≡ some a
    → IsSound (f a)
    → Inv t
    → Inv (record t { slots = modify source f t.slots })
modify-Inv source f a t keeps e s v = record {
  unique = IsKeyed-modify source f t.slots keeps v.unique;
  counted = ground (arith, v.counted, count_live-modify source f t.slots keeps);
  sized = ground (arith, v.sized, length-modify source f t.slots);
  sound = All-modify IsSound source f t.slots a e s v.sound;
  spurious_capped = v.spurious_capped;
}

pub attach-Inv : (driver source : ℕ) (t : InterruptTable) → Inv t → Inv (attach driver source t).0
unfolding attach find
attach-Inv driver source t v = elim (Option-cases (place (fresh_slot driver source) t.slots)) [
  | inl e ↦ ground arith
  | inr (ys, e) ↦ ground (
    arith,
    IsKeyed-place (fresh_slot driver source) refl t.slots ys,
    count_live-place (fresh_slot driver source) refl t.slots ys e,
    length-place (fresh_slot driver source) refl t.slots ys e,
    All-place IsSound (fresh_slot driver source) t.slots ys e,
    count_live-le ys,
  )
]

pub detach-Inv : (driver source : ℕ) (t : InterruptTable) → Inv t → Inv (detach driver source t).0
unfolding detach find
detach-Inv driver source t v = elim (Option-cases (first source t.slots)) [
  | inl e ↦ ground arith
  | inr (a, e) ↦ ground (
    arith,
    v.counted,
    v.sized,
    count_live-le t.slots,
    IsKeyed-clear (λ _. empty_slot) (λ _. refl) source t.slots v.unique,
    count_live-clear (λ _. empty_slot) (λ _. refl) source t.slots a e,
    length-modify source (λ (b : Slot). empty_slot) t.slots,
    All-modify IsSound source (λ b. empty_slot) t.slots a,
  )
]

pub dispatch-Inv : (source : ℕ) (t : InterruptTable) → Inv t → Inv (dispatch source t).0
unfolding dispatch
dispatch-Inv source t v = elim (Option-cases (find source t.slots)) [
  | inl e ↦ ground arith
  | inr (a, e) ↦ ground (
    arith,
    find-All IsSound source t.slots a e v.sound,
    modify-Inv source raise a t (λ b. (refl, refl)) e,
    modify-Inv source record_assertion a t (λ b. ground arith) e,
  )
]

pub begin_service-Inv :
    (driver source : ℕ) (t : InterruptTable) → Inv t → Inv (begin_service driver source t).0
unfolding begin_service
begin_service-Inv driver source t v = elim (Option-cases (find source t.slots)) [
  | inl e ↦ ground arith
  | inr (a, e) ↦ ground (
    arith,
    find-All IsSound source t.slots a e v.sound,
    modify-Inv source collect a t (λ b. (refl, refl)) e,
  )
]

pub end_service-Inv :
    (driver source : ℕ) (t : InterruptTable) → Inv t → Inv (end_service driver source t).0
unfolding end_service
end_service-Inv driver source t v = elim (Option-cases (find source t.slots)) [
  | inl e ↦ ground arith
  | inr (a, e) ↦ ground (
    arith,
    find-All IsSound source t.slots a e v.sound,
    modify-Inv source requeue a t (λ b. (refl, refl)) e,
    modify-Inv source unmask a t (λ b. (refl, refl)) e,
  )
]

pub detach_all_owned_by-Inv :
    (driver : ℕ) (t : InterruptTable) → Inv t → Inv (detach_all_owned_by driver t).0
unfolding detach_all_owned_by
detach_all_owned_by-Inv driver t v = ground (
  arith,
  v.counted,
  v.sized,
  count_live-le t.slots,
  IsKeyed-clear_where owned empty_slot refl t.slots v.unique,
  count_live-clear_where owned empty_slot refl t.slots,
  length-clear_where owned empty_slot refl t.slots,
  All-clear_where owned empty_slot refl IsSound t.slots (λ e. cc) v.sound,
)
  where
    owned : Slot → Bool
    owned a = a.owner == driver
