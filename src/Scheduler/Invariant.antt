-- ===== src/Scheduler/Invariant.antt =====
-- The invariant of the scheduler, call by call (core/oskernel/src/scheduler.cpp).

use enml.Base.{
  ℕ, ◌≤◌, ◌<◌, ◌==◌, some, ◌≡◌, refl, arith, ◌≢◌, inl, inr, Option-cases, Bool-cases, length,
}
use enml.Table.{find, modify, count_live, IsKeyed}
use enml.Table.Laws.{
  IsKeyed-modify, count_live-modify, length-modify, Keeps, find-modify, IsKeyed-replicate,
  count_live-replicate, length-replicate, find-replicate,
}
use enml.Scheduler.{
  Scheduler, Slot, slot_keyed, empty_slot, max_threads, default_slice_nanoseconds, init,
}

pub record Inv (s : Scheduler) : Type 0 where
  pub keyed : IsKeyed s.slots
  pub counted : s.occupied ≡ count_live s.slots
  pub sized : length s.slots ≡ max_threads
  pub present : s.running ≢ 0 → (a : Slot) × (find s.running s.slots ≡ some a)
  pub capped :
      (j : ℕ) (a : Slot) → find j s.slots ≡ some a → a.remaining ≤ default_slice_nanoseconds

-- The turns are in order: every thread's number lies below the counter, and no two are equal.
pub record IsOrdered (s : Scheduler) : Type 0 where
  pub below : (j : ℕ) (a : Slot) → find j s.slots ≡ some a → a.sequence < s.next_sequence
  pub distinct :
      (j k : ℕ) (a b : Slot)
      → find j s.slots ≡ some a
      → find k s.slots ≡ some b
      → a.sequence ≡ b.sequence
      → j ≡ k

pub init-Inv : Inv init
unfolding init
init-Inv = record {
  keyed = IsKeyed-replicate max_threads empty_slot refl;
  counted = ground (arith, count_live-replicate max_threads empty_slot refl);
  sized = length-replicate max_threads empty_slot;
  present = λ h. absurd (h refl);
  capped = λ j a e. ground (arith, find-replicate j max_threads empty_slot refl);
}

pub init-IsOrdered : IsOrdered init
unfolding init
init-IsOrdered = record {
  below = λ j a e. ground (arith, find-replicate j max_threads empty_slot refl);
  distinct = λ j k a b e f q. ground (arith, find-replicate j max_threads empty_slot refl);
}

-- A write to one slot that keeps its thread, and does not lengthen its slice.
pub modify-Inv :
    (k : ℕ) (f : Slot → Slot) (s : Scheduler)
    → Keeps f
    → ((a : Slot) → (f a).remaining ≤ a.remaining)
    → Inv s
    → Inv (record s { slots = modify k f s.slots })
modify-Inv k f s keeps less v = record {
  keyed = IsKeyed-modify k f s.slots keeps v.keyed;
  counted = ground (arith, v.counted, count_live-modify k f s.slots keeps);
  sized = ground (arith, v.sized, length-modify k f s.slots);
  present = λ h. there h (v.present h);
  capped = capped;
}
  where
    there :
        s.running ≢ 0
        → (a : Slot) × (find s.running s.slots ≡ some a)
        → (a : Slot) × (find s.running (modify k f s.slots) ≡ some a)
    there h (a, e) = elim (Bool-cases (k == s.running)) [
      | inl t ↦ (f a, ground (arith, find-modify k s.running f s.slots keeps))
      | inr n ↦ (a, ground (arith, find-modify k s.running f s.slots keeps))
    ]

    capped :
        (j : ℕ) (b : Slot)
        → find j (modify k f s.slots) ≡ some b
        → b.remaining ≤ default_slice_nanoseconds
    capped j b e = elim (Option-cases (find j s.slots)) [
      | inl q ↦ ground (arith, find-modify k j f s.slots keeps)
      | inr (a, q) ↦ ground (arith, find-modify k j f s.slots keeps, v.capped j a q, less a)
    ]

pub modify-IsOrdered :
    (k : ℕ) (f : Slot → Slot) (s : Scheduler)
    → Keeps f
    → ((a : Slot) → (f a).sequence ≡ a.sequence)
    → IsOrdered s
    → IsOrdered (record s { slots = modify k f s.slots })
modify-IsOrdered k f s keeps same o = record { below = below; distinct = distinct }
  where
    was :
        (j : ℕ) (b : Slot)
        → find j (modify k f s.slots) ≡ some b
        → (a : Slot) × (find j s.slots ≡ some a) × (a.sequence ≡ b.sequence)
    was j b e = elim (Option-cases (find j s.slots)) [
      | inl q ↦ absurd (ground (arith, find-modify k j f s.slots keeps))
      | inr (a, q) ↦ (a, q, ground (arith, find-modify k j f s.slots keeps, same a))
    ]

    below : (j : ℕ) (b : Slot) → find j (modify k f s.slots) ≡ some b → b.sequence < s.next_sequence
    below j b e = let (a, q, h) = was j b e in omega (arith, o.below j a q)

    distinct :
        (j l : ℕ) (b c : Slot)
        → find j (modify k f s.slots) ≡ some b
        → find l (modify k f s.slots) ≡ some c
        → b.sequence ≡ c.sequence
        → j ≡ l
    distinct j l b c e e' h =
        let (a, q, x) = was j b e in
        let (d, q', y) = was l c e' in o.distinct j l a d q q' (omega arith)
