-- ===== src/Scheduler/Steps.antt =====
-- The scheduler's invariant and the order of its turns, call by call
-- (core/oskernel/src/scheduler.cpp).

use enml.Base.{
  ℕ, ◌+◌, ◌<◌, ◌==◌, if◌then◌else◌, Bool, none, some, List, ◌≡◌, refl, arith, ◌≢◌, inl, inr,
  Option-cases, Bool-cases, inc64, dec64, u64_mod,
}
use enml.Table.{find, modify, place}
use enml.Table.Laws.{
  IsKeyed-clear, IsKeyed-place, count_live-clear, count_live-le, count_live-place, length-modify,
  length-place, find-clear, find-place, find-eq-first,
}
use enml.Scheduler.{
  Scheduler, Slot, slot_keyed, empty_slot, new_slot, admit, retire, update, yield_slice,
  set_standing, forfeit,
}
use enml.Scheduler.Invariant.{Inv, IsOrdered, modify-Inv, modify-IsOrdered}

-- A call is refused and changes nothing, or makes its one change.
pub admit_cases {ℓ} :
    (P : Scheduler → Type ℓ) (thread effective : ℕ) (s : Scheduler)
    → P s
    → ((ys : List Slot)
        → thread ≢ 0
        → find thread s.slots ≡ none
        → place (new_slot thread effective s.next_sequence) s.slots ≡ some ys
        → P (record s {
          slots = ys;
          occupied = inc64 s.occupied;
          next_sequence = inc64 s.next_sequence;
        }))
    → P (admit thread effective s).0
unfolding admit
admit_cases P thread effective s same changed = elim (Bool-cases (thread == 0)) [
  | inl z ↦ rw (z, admit) same
  | inr n ↦ elim (Option-cases (find thread s.slots)) [
    | inr (a, q) ↦ rw (n, q, admit) same
    | inl q ↦ elim (Option-cases (place (new_slot thread effective s.next_sequence) s.slots)) [
      | inl e ↦ rw (n, q, e, admit) same
      | inr (ys, e) ↦ rw (n, q, e, admit) (changed ys (ground arith) q e)
    ]
  ]
]

pub retire_cases {ℓ} :
    (P : Scheduler → Type ℓ) (thread : ℕ) (s : Scheduler)
    → P s
    → ((a : Slot)
        → find thread s.slots ≡ some a
        → P (record s {
          slots = modify thread (λ _. empty_slot) s.slots;
          occupied = dec64 s.occupied;
          running = if s.running == thread then 0 else s.running;
        }))
    → P (retire thread s).0
unfolding retire
retire_cases P thread s same changed = elim (Bool-cases (thread == 0)) [
  | inl z ↦ rw (z, retire) same
  | inr n ↦ elim (Option-cases (find thread s.slots)) [
    | inl q ↦ rw (n, q, retire) same
    | inr (a, q) ↦ rw (n, q, retire) (changed a q)
  ]
]

module _ (thread effective : ℕ) (s : Scheduler) (v : Inv s) where
  pub admit-Inv : Inv (admit thread effective s).0
  admit-Inv = admit_cases Inv thread effective s v λ ys n q e. record {
    keyed =
        IsKeyed-place fresh refl s.slots ys n (ground (arith, find-eq-first thread s.slots v.keyed))
          e v.keyed;
    counted = ground (
      arith,
      v.counted,
      v.sized,
      count_live-le s.slots,
      count_live-place fresh refl s.slots ys e,
    );
    sized = ground (arith, v.sized, length-place fresh refl s.slots ys e);
    present = λ h.
        let (a, p) = v.present h in
        (a, ground (arith, find-place fresh refl s.running s.slots ys n q e));
    capped = λ j a p. ground (arith, find-place fresh refl j s.slots ys n q e, v.capped j a);
  }
    where
      fresh : Slot
      fresh = new_slot thread effective s.next_sequence

  -- A new thread takes its turn behind all others, while the counter does not wrap.
  pub admit-IsOrdered :
      s.next_sequence + 1 < u64_mod → IsOrdered s → IsOrdered (admit thread effective s).0
  admit-IsOrdered room o = admit_cases IsOrdered thread effective s o λ ys n q e. record {
    below = λ j a p. ground (arith, find-place fresh refl j s.slots ys n q e, o.below j a);
    distinct = λ j k a b p p' h. ground (
      arith,
      find-place fresh refl j s.slots ys n q e,
      find-place fresh refl k s.slots ys n q e,
      o.below j a,
      o.below k b,
      o.distinct j k a b,
    );
  }
    where
      fresh : Slot
      fresh = new_slot thread effective s.next_sequence

module _ (thread : ℕ) (s : Scheduler) (v : Inv s) where
  pub retire-Inv : Inv (retire thread s).0
  retire-Inv = retire_cases Inv thread s v λ a q. record {
    keyed = IsKeyed-clear (λ _. empty_slot) (λ _. refl) thread s.slots v.keyed;
    counted = ground (
      arith,
      v.counted,
      v.sized,
      count_live-le s.slots,
      find-eq-first thread s.slots v.keyed,
      count_live-clear (λ _. empty_slot) (λ _. refl) thread s.slots a,
    );
    sized = ground (arith, v.sized, length-modify thread (λ (b : Slot). empty_slot) s.slots);
    present = λ h.
        let (b, p) = v.present (ground arith) in
        (
          b,
          ground (arith, find-clear (λ _. empty_slot) (λ _. refl) thread s.running s.slots v.keyed),
        );
    capped = λ j b p.
        ground
          (arith, find-clear (λ _. empty_slot) (λ _. refl) thread j s.slots v.keyed, v.capped j b);
  }

  pub retire-IsOrdered : IsOrdered s → IsOrdered (retire thread s).0
  retire-IsOrdered o = retire_cases IsOrdered thread s o λ a q. record {
    below = λ j b p.
        ground
          (arith, find-clear (λ _. empty_slot) (λ _. refl) thread j s.slots v.keyed, o.below j b);
    distinct = λ j k b c p p' h. ground (
      arith,
      find-clear (λ _. empty_slot) (λ _. refl) thread j s.slots v.keyed,
      find-clear (λ _. empty_slot) (λ _. refl) thread k s.slots v.keyed,
      o.distinct j k b c,
    );
  }

  pub update-Inv : (runnable : Bool) (effective : ℕ) → Inv (update thread runnable effective s).0
  unfolding update
  update-Inv runnable effective = ground (
    arith,
    modify-Inv thread (set_standing runnable effective) s (λ b. (refl, refl)) (λ b. omega arith) v,
  )

  pub update-IsOrdered :
      (runnable : Bool) (effective : ℕ)
      → IsOrdered s
      → IsOrdered (update thread runnable effective s).0
  unfolding update
  update-IsOrdered runnable effective o = ground (
    arith,
    modify-IsOrdered thread (set_standing runnable effective) s (λ b. (refl, refl)) (λ b. refl) o,
  )

  pub yield_slice-Inv : Inv (yield_slice thread s).0
  unfolding yield_slice
  yield_slice-Inv =
      ground (arith, modify-Inv thread forfeit s (λ b. (refl, refl)) (λ b. omega arith) v)

  pub yield_slice-IsOrdered : IsOrdered s → IsOrdered (yield_slice thread s).0
  unfolding yield_slice
  yield_slice-IsOrdered o =
      ground (arith, modify-IsOrdered thread forfeit s (λ b. (refl, refl)) (λ b. refl) o)
