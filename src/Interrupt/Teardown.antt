-- ===== src/Interrupt/Teardown.antt =====
-- Detaching, by one driver's call and by the kernel's teardown of a driver
-- (core/oskernel/src/interrupt.cpp).
use enml.Base.{
  ℕ, ◌+◌, ◌<◌, ◌==◌, none, some, List, Result, ok, err, ◌≡◌, refl, arith, ◌≢◌, inl, inr,
  Option-cases, length, dec64,
}
use enml.Table.{find, modify, place, count_live}
use enml.Table.Laws.{
  find-clear, find-place, find_sound, count_live-place, count_live-clear, count_live-le,
  length-modify, place-eq-none,
}
use enml.Table.Every.{find-All}
use enml.Table.Sweep.{find-clear_where, unless}
use enml.Interrupt.{
  InterruptTable, InterruptError, Slot, slot_keyed, empty_slot, fresh_slot, invalid_driver, attach,
  detach, detach_all_owned_by, source_taken, source_limit, max_interrupt_sources, invalid_source,
}
use enml.Interrupt.Invariant.{Inv, IsSound}

-- Under the invariant, after the teardown of a valid driver, the table answers for exactly the other drivers' sources, as
-- before; nothing is attached to the driver any more.
pub find-detach_all_owned_by :
    (driver source : ℕ) (t : InterruptTable)
    → Inv t
    → driver ≢ 0
    → find source (detach_all_owned_by driver t).0.slots
      ≡ unless (λ a. a.owner == driver) (find source t.slots)
unfolding detach_all_owned_by
find-detach_all_owned_by driver source t v n = ground (
  arith,
  find-clear_where (λ (a : Slot). a.owner == driver) empty_slot refl source t.slots v.unique,
)

-- The result of `attach`, in every case: a valid driver and source get the line exactly when it is
-- free and a slot is left, and the line is then theirs and idle. A refusal changes nothing.
abbrev pub AttachOutcome :
    ℕ → ℕ → InterruptTable → InterruptTable × Result InterruptError (Unit {0}) → Type 0
AttachOutcome driver source t (t', ok _) =
    (driver ≢ 0)
    × (source ≢ 0)
    × (find source t.slots ≡ none)
    × (find source t'.slots ≡ some (fresh_slot driver source))
    × (count_live t'.slots ≡ count_live t.slots + 1)
AttachOutcome driver source t (t', err invalid_driver) = (t' ≡ t) × (driver ≡ 0)
AttachOutcome driver source t (t', err invalid_source) = (t' ≡ t) × (driver ≢ 0) × (source ≡ 0)
AttachOutcome driver source t (t', err source_taken) =
    (t' ≡ t) × ((a : Slot) × (find source t.slots ≡ some a))
AttachOutcome driver source t (t', err source_limit) =
    (t' ≡ t) × (find source t.slots ≡ none) × (count_live t.slots ≡ max_interrupt_sources)
AttachOutcome driver source t (t', err _) = ⊥

-- Under the invariant `attach` ends as its description says, on every branch: a valid driver and
-- source get the line, idle, exactly when it is free and a slot is left; else the error names the
-- reason and nothing changes.
pub attach-outcome :
    (driver source : ℕ) (t : InterruptTable)
    → Inv t
    → AttachOutcome driver source t (attach driver source t)
unfolding attach
attach-outcome driver source t v = elim (Option-cases (place (fresh_slot driver source) t.slots)) [
  | inl e ↦ ground (arith, place-eq-none (fresh_slot driver source) t.slots e, v.sized)
  | inr (ys, e) ↦ ground (
    arith,
    find-place (fresh_slot driver source) refl source t.slots ys,
    count_live-place (fresh_slot driver source) refl t.slots ys e,
  )
]

abbrev cleared : ℕ → InterruptTable → List Slot
cleared source t = modify source (λ _. empty_slot) t.slots

detach-found :
    (source : ℕ) (t : InterruptTable) (a : Slot)
    → Inv t
    → find source t.slots ≡ some a
    → detach a.owner source t
      ≡ (record t { slots = cleared source t; occupied = dec64 t.occupied }, ok tt)
unfolding detach
detach-found source t a v e =
    ground (arith, find_sound source t.slots a e, find-All IsSound source t.slots a e v.sound)

cleared-room :
    (source : ℕ) (t : InterruptTable) (a : Slot)
    → Inv t
    → find source t.slots ≡ some a
    → count_live (cleared source t) < length (cleared source t)
unfolding find
cleared-room source t a v e = ground (
  arith,
  count_live-clear (λ _. empty_slot) (λ _. refl) source t.slots a,
  count_live-le t.slots,
  length-modify source (λ (b : Slot). empty_slot) t.slots,
)

attach_free :
    (driver source : ℕ) (t : InterruptTable)
    → driver ≢ 0
    → source ≢ 0
    → find source t.slots ≡ none
    → count_live t.slots < length t.slots
    → find source (attach driver source t).0.slots ≡ some (fresh_slot driver source)
unfolding attach
attach_free driver source t n m e room =
    elim (Option-cases (place (fresh_slot driver source) t.slots)) [
      | inl p ↦ absurd (omega (arith, place-eq-none (fresh_slot driver source) t.slots p))
      | inr (ys, p) ↦ ground (arith, find-place (fresh_slot driver source) refl source t.slots ys)
    ]

-- Under the invariant, a source that its owner detaches is free at once, whatever state it was in: any valid driver
-- can attach it, and finds it idle with nothing counted.
pub attach-detach :
    (source other : ℕ) (t : InterruptTable) (a : Slot)
    → Inv t
    → find source t.slots ≡ some a
    → other ≢ 0
    → find source (attach other source (detach a.owner source t).0).0.slots
      ≡ some (fresh_slot other source)
attach-detach source other t a v e n = rw (detach-found source t a v e) (
    attach_free other source _ n (find_sound source t.slots a e).2 free
      (cleared-room source t a v e))
  where
    free : find source (cleared source t) ≡ none
    free = ground (arith, find-clear (λ _. empty_slot) (λ _. refl) source source t.slots v.unique)
